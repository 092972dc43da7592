-- ===== src/Logical/Names.antt =====
-- crates/tar-framing/src/logical.rs: the effective path of a member and its GNU metadata.
use mathlib.Core.Option.{none-ne-some}
use tar_codec.Base.{
  ℕ, zero, suc, Bool, true, false, not, Option, none, some, [], ◌∷◌, ◌++◌, Bytes, length, take,
  drop, replicate, all, contains, position, ◌==◌, ==_iff, ok, err, ok_or, fail_if, ◌>>=◌, >>=-eq-ok,
  ok_injective, ◌≡◌, ◌↔◌, refl, sym, ap, ◌∙◌, arith, Bool-cases, Option-cases, inl, inr, subst,
  some-injective, take-append, drop-append, take-append-drop,
}
use tar_codec.Text.{is_empty}
use tar_codec.Stream.{FrameError, Framed}
use tar_codec.Stream.{GnuKind, FrameErrorInner, at}
use tar_codec.Logical.{
  GnuMetadata, MemberFrame, reject_nul, parse_gnu_metadata, effective_member_path, effective_path,
}

err-ne-ok : (e : FrameError) (a : Bytes) → ◌≡◌ {A = Framed Bytes} (err e) (ok a) → ⊥
err-ne-ok e a h = cc

pub fail_if-eq-ok : {F : Type 0} (test : Bool) (e : F) → fail_if test e ≡ ok tt → test ≡ false
fail_if-eq-ok true e h = cc
fail_if-eq-ok false e h = refl

passed :
    (m : MemberFrame) (text path : Bytes)
    → (fail_if (is_empty text) (at m.header.position FrameErrorInner.empty_member_path) >>= λ _.
        reject_nul m.header.position "path" text >>= λ _. ok text)
      ≡ ok path
    → (text ≡ path) × (is_empty text ≡ false) × (contains 0 text ≡ false)
unfolding reject_nul
passed m text path e = elim (Bool-cases (is_empty text)) [
  | inl empty ↦ absurd (
      err-ne-ok (at m.header.position FrameErrorInner.empty_member_path) path
        (sym (rw empty refl) ∙ e))
  | inr full ↦ elim (Bool-cases (contains 0 text)) [
    | inl nul ↦ absurd (
        err-ne-ok (at m.header.position (FrameErrorInner.nul_in_member_name "path")) path
          (sym (rw (full, nul) refl) ∙ e))
    | inr clean ↦ (ok_injective text path (sym (rw (full, clean) refl) ∙ e), full, clean)
  ]
]

-- An effective path is not empty, holds no NUL, and is what the extensions or the header give.
pub effective_path-eq-ok :
    (m : MemberFrame) (path : Bytes)
    → effective_path m ≡ ok path
    → (effective_member_path m.header m.extensions ≡ ok path)
      × (is_empty path ≡ false)
      × (contains 0 path ≡ false)
unfolding effective_path
effective_path-eq-ok m path e =
    let (text, found, rest) =
      >>=-eq-ok (effective_member_path m.header m.extensions)
        (λ path.
          fail_if (is_empty path) (at m.header.position FrameErrorInner.empty_member_path) >>= λ _.
          reject_nul m.header.position "path" path >>= λ _. ok path)
        e in
    let (same, full, clean) = passed m text path rest in
    (found ∙ ap ok same, sym (ap is_empty same) ∙ full, sym (ap (contains 0) same) ∙ clean)

at_front :
    (b : ℕ) (bs : Bytes) (i : ℕ)
    → (b == 0) ≡ true
    → 0 ≡ i
    → (contains 0 (take i (b ∷ bs)) ≡ false) × ((rest : Bytes) × (drop i (b ∷ bs) ≡ 0 ∷ rest))
at_front b bs zero nul e = (refl, (bs, ap (λ x. x ∷ bs) ((==_iff b 0).0 nul)))
at_front b bs (suc i) nul e = absurd (omega (arith, e))

behind :
    (b : ℕ) (bs : Bytes) (i j : ℕ)
    → (b == 0) ≡ false
    → suc j ≡ i
    → (contains 0 (take j bs) ≡ false) × ((rest : Bytes) × (drop j bs ≡ 0 ∷ rest))
    → (contains 0 (take i (b ∷ bs)) ≡ false) × ((rest : Bytes) × (drop i (b ∷ bs) ≡ 0 ∷ rest))
behind b bs i j other e (clean, (rest, there)) =
    subst
      (λ k.
        (contains 0 (take k (b ∷ bs)) ≡ false) × ((rest : Bytes) × (drop k (b ∷ bs) ≡ 0 ∷ rest)))
      e (rw (other, clean) refl, (rest, there))

position-eq-some :
    (bytes : Bytes) (i : ℕ)
    → position 0 bytes ≡ some i
    → (contains 0 (take i bytes) ≡ false) × ((rest : Bytes) × (drop i bytes ≡ 0 ∷ rest))
unfolding position
position-eq-some [] i e = cc
position-eq-some (b ∷ bs) i e = elim (Bool-cases (b == 0)) [
  | inl nul ↦ at_front b bs i nul (some-injective 0 i (sym (rw (nul, position) refl) ∙ e))
  | inr other ↦ elim (Option-cases (position 0 bs)) [
    | inl absent ↦ absurd (none-ne-some i (sym (rw (other, absent, position) refl) ∙ e))
    | inr (j, found) ↦
        behind b bs i j other
          (some-injective (suc j) i (sym (rw (other, found, position) refl) ∙ e))
          (position-eq-some bs j found)
  ]
]

true-ne-false : true ≡ false → ⊥
true-ne-false e = cc

position-append :
    (name rest : Bytes)
    → contains 0 name ≡ false
    → position 0 (name ++ 0 ∷ rest) ≡ some (length name)
unfolding position
position-append [] rest clean = refl
position-append (b ∷ name) rest clean = elim (Bool-cases (b == 0)) [
  | inl nul ↦ absurd (true-ne-false (sym (rw nul refl) ∙ clean))
  | inr other ↦ rw (other, position-append name rest (sym (rw other refl) ∙ clean)) refl
]

all-replicate :
    (bytes : Bytes) → all (λ b. b == 0) bytes ≡ true → bytes ≡ replicate (length bytes) 0
all-replicate [] h = refl
all-replicate (b ∷ bytes) h = elim (Bool-cases (b == 0)) [
  | inl nul ↦
      rw ((==_iff b 0).0 nul) (ap (λ xs. 0 ∷ xs) (all-replicate bytes (sym (rw nul refl) ∙ h)))
  | inr other ↦ absurd (true-ne-false (sym h ∙ rw other refl))
]

replicate-all : (n : ℕ) → all (λ b. b == 0) (replicate n 0) ≡ true
replicate-all zero = refl
replicate-all (suc n) = replicate-all n

gnu_forth :
    (m : GnuMetadata) (kind : GnuKind) (name : Bytes) (o : Option ℕ)
    → position 0 m.payload ≡ o
    → (ok_or o
          (at m.position (FrameErrorInner.invalid_gnu_metadata kind "value is not NUL-terminated"))
        >>= λ i.
            fail_if (not (all (λ b. b == 0) (drop i m.payload))) (
              at m.position
                (FrameErrorInner.invalid_gnu_metadata kind "non-NUL bytes follow the terminator"))
            >>= λ _. ok (take i m.payload))
      ≡ ok name
    → (n : ℕ) × (m.payload ≡ name ++ replicate (suc n) 0) × (contains 0 name ≡ false)
gnu_forth m kind name none e h = cc
gnu_forth m kind name (some i) e h =
    let bad =
      at m.position
        (FrameErrorInner.invalid_gnu_metadata kind "non-NUL bytes follow the terminator") in
    let (u, zeros, whole) =
      >>=-eq-ok (fail_if (not (all (λ b. b == 0) (drop i m.payload))) bad)
        (λ _. ok (take i m.payload)) h in
    let same = ok_injective (take i m.payload) name whole in
    let (clean, (rest, tail)) = position-eq-some m.payload i e in
    let nuls = all-replicate (drop i m.payload) (
      not-false (all (λ b. b == 0) (drop i m.payload))
        (fail_if-eq-ok (not (all (λ b. b == 0) (drop i m.payload))) bad zeros)) in
    (
      length rest,
      sym (take-append-drop i m.payload)
          ∙ ap (λ xs. xs ++ drop i m.payload) same
          ∙ ap (λ xs. name ++ xs) (nuls ∙ ap (λ xs. replicate (length xs) 0) tail),
      sym (ap (contains 0) same) ∙ clean,
    )
  where
    not-false : (b : Bool) → not b ≡ false → b ≡ true
    not-false true e = refl
    not-false false e = cc

-- The payload of GNU metadata is read exactly when it is a name without NUL and one NUL or more.
pub parse_gnu_metadata_iff :
    (m : GnuMetadata) (kind : GnuKind) (name : Bytes)
    → (parse_gnu_metadata m kind ≡ ok name)
      ↔ ((n : ℕ) × (m.payload ≡ name ++ replicate (suc n) 0) × (contains 0 name ≡ false))
unfolding parse_gnu_metadata
parse_gnu_metadata_iff m kind name = (
  λ e. gnu_forth m kind name (position 0 m.payload) refl e,
  λ (n, e, clean).
      rw
        (
          e,
          position-append name (replicate n 0) clean,
          drop-append (length name) name (replicate (suc n) 0) refl,
          take-append (length name) name (replicate (suc n) 0) refl,
          replicate-all n,
        )
        refl,
)
