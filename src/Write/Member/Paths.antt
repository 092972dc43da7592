-- ===== src/Write/Member/Paths.antt =====
-- crates/tar-framing/src/write.rs: how a member's path is split over the name and prefix fields.
use tar_codec.Base.{
  ℕ, zero, suc, ◌≤◌, ◌<◌, ◌≡◌, ◌≢◌, ◌⊎◌, inl, inr, refl, sym, ap, subst, ◌∙◌, Bool, true, false,
  not, ◌&&◌, Option, none, some, some-injective, [], ◌∷◌, ◌++◌, append_assoc, arith, Bytes, length,
  length-append, take, drop, take-append, drop-append, get_elem?, leb, ◌==◌, Bool-cases,
}
use tar_codec.Text.{is_empty}
use tar_codec.Write.Member.{find_split, split_ustar_path}

-- A way to store a path that is too long for the name field.
pub record IsSplit (path prefix name : Bytes) : Type 0 where
  pub joined : path ≡ prefix ++ (b'/' ∷ name)
  pub prefix_some : 1 ≤ length prefix
  pub prefix_fits : length prefix ≤ 155
  pub name_some : 1 ≤ length name
  pub name_fits : length name ≤ 100

abbrev fits_at : Option ℕ → Bytes → Bytes → Bool
fits_at found prefix name =
    elim found [ none ↦ false | some b ↦ b == b'/' ]
    && (not (is_empty prefix)
        && (leb (length prefix) 155 && (not (is_empty name) && leb (length name) 100)))

abbrev candidate : Bytes → ℕ → Bool
candidate path i = fits_at (get_elem? path i) (take i path) (drop (suc i) path)

fits_at-true :
    (found : Option ℕ) (prefix name : Bytes)
    → fits_at found prefix name ≡ true
    → (found ≡ some b'/')
      × (1 ≤ length prefix)
      × (length prefix ≤ 155)
      × (1 ≤ length name)
      × (length name ≤ 100)
fits_at-true none prefix name e = cc
fits_at-true (some b) [] name e = ground arith
fits_at-true (some b) (p ∷ ps) [] e = ground arith
fits_at-true (some b) (p ∷ ps) (n ∷ ns) e =
    (ap some (ground arith), omega arith, ground arith, omega arith, ground arith)

true-fits_at :
    (prefix name : Bytes)
    → 1 ≤ length prefix
    → length prefix ≤ 155
    → 1 ≤ length name
    → length name ≤ 100
    → fits_at (some b'/') prefix name ≡ true
true-fits_at [] name a b c d = absurd (omega arith)
true-fits_at (p ∷ ps) [] a b c d = absurd (omega arith)
true-fits_at (p ∷ ps) (n ∷ ns) a b c d = ground arith

find_hit :
    (path : Bytes) (i : ℕ)
    → candidate path i ≡ true
    → find_split path (suc i) ≡ some (take i path, drop (suc i) path)
unfolding find_split
find_hit path i h = rw h

find_miss :
    (path : Bytes) (i : ℕ) → candidate path i ≡ false → find_split path (suc i) ≡ find_split path i
unfolding find_split
find_miss path i h = rw h

cut_at :
    (path : Bytes) (i c : ℕ)
    → get_elem? path i ≡ some c
    → path ≡ take i path ++ (c ∷ drop (suc i) path)
cut_at [] i c h = cc
cut_at (b ∷ bs) zero c h = ap (λ t. t ∷ bs) (some-injective _ _ h)
cut_at (b ∷ bs) (suc i) c h = ap (λ t. b ∷ t) (cut_at bs i c h)

candidate-IsSplit :
    (path : Bytes) (i : ℕ)
    → candidate path i ≡ true
    → IsSplit path (take i path) (drop (suc i) path)
candidate-IsSplit path i h =
    let (slash, a, b, c, d) = fits_at-true (get_elem? path i) (take i path) (drop (suc i) path) h in
    record {
      joined = cut_at path i b'/' slash;
      prefix_some = a;
      prefix_fits = b;
      name_some = c;
      name_fits = d;
    }

-- Each split of the path is a candidate, where its prefix ends.
IsSplit-candidate :
    (path prefix name : Bytes) → IsSplit path prefix name → candidate path (length prefix) ≡ true
IsSplit-candidate path prefix name s =
    let behind : drop (suc (length prefix)) path ≡ name =
      ap (drop (suc (length prefix))) (s.joined ∙ sym (append_assoc prefix (b'/' ∷ []) name))
      ∙ drop-append (suc (length prefix)) (prefix ++ (b'/' ∷ [])) name
          (length-append prefix (b'/' ∷ []) ∙ omega arith) in
    let front : take (length prefix) path ≡ prefix =
      ap (take (length prefix)) s.joined ∙ take-append (length prefix) prefix (b'/' ∷ name) refl in
    let slash : get_elem? path (length prefix) ≡ some b'/' =
      ap (λ t. get_elem? t (length prefix)) s.joined ∙ at_slash prefix name in
    ap (λ o. fits_at o (take (length prefix) path) (drop (suc (length prefix)) path)) slash
    ∙ ap (λ t. fits_at (some b'/') t (drop (suc (length prefix)) path)) front
    ∙ ap (fits_at (some b'/') prefix) behind
    ∙ true-fits_at prefix name s.prefix_some s.prefix_fits s.name_some s.name_fits
  where
    at_slash :
        (prefix name : Bytes) → get_elem? (prefix ++ (b'/' ∷ name)) (length prefix) ≡ some b'/'
    at_slash [] name = refl
    at_slash (p ∷ ps) name = at_slash ps name

find_split-IsSplit :
    (path prefix name : Bytes) (i : ℕ)
    → find_split path i ≡ some (prefix, name)
    → IsSplit path prefix name
find_split-IsSplit path prefix name zero e = unfold find_split in cc
find_split-IsSplit path prefix name (suc i) e = elim (Bool-cases (candidate path i)) [
  | inl hit ↦
      let same = some-injective _ _ (sym (find_hit path i hit) ∙ e) in
      subst (λ (p : Bytes × Bytes). IsSplit path p.0 p.1) same (candidate-IsSplit path i hit)
  | inr miss ↦ find_split-IsSplit path prefix name i (sym (find_miss path i miss) ∙ e)
]

find_split-none :
    (path prefix name : Bytes) (i : ℕ)
    → length prefix < i
    → IsSplit path prefix name
    → find_split path i ≢ none
find_split-none path prefix name zero h s = absurd (omega arith)
find_split-none path prefix name (suc i) h s = elim (Bool-cases (candidate path i)) [
  | inl hit ↦ λ e. cc (find_hit path i hit)
  | inr miss ↦ λ e.
      let other : length prefix ≢ i = λ at_end. cc (IsSplit-candidate path prefix name s) in
      find_split-none path prefix name i (omega arith) s (sym (find_miss path i miss) ∙ e)
]

long_path :
    (path : Bytes)
    → leb (length path) 100 ≡ false
    → split_ustar_path path ≡ find_split path (length path)
unfolding split_ustar_path
long_path path h = rw h

short_path : (path : Bytes) → leb (length path) 100 ≡ true → split_ustar_path path ≡ some ([], path)
unfolding split_ustar_path
short_path path h = rw h

-- A split that `split_ustar_path` finds gives the path back: either the name is the whole path and
-- the prefix is empty, or prefix and name are joined by a `/`, both nonempty. Each fits its field.
pub split_ustar_path-IsSplit :
    (path prefix name : Bytes)
    → split_ustar_path path ≡ some (prefix, name)
    → ((prefix ≡ []) × (name ≡ path) × (length path ≤ 100)) ⊎ IsSplit path prefix name
split_ustar_path-IsSplit path prefix name e = elim (Bool-cases (leb (length path) 100)) [
  | inl short ↦
      let same = some-injective _ _ (sym (short_path path short) ∙ e) in
      inl (sym (ap (λ p. p.0) same), sym (ap (λ p. p.1) same), ground arith)
  | inr long ↦
      inr (find_split-IsSplit path prefix name (length path) (sym (long_path path long) ∙ e))
]

-- Where there is a split of the path at a `/`, both parts nonempty and fit for their fields,
-- `split_ustar_path` finds one.
pub IsSplit-split_ustar_path :
    (path prefix name : Bytes) → IsSplit path prefix name → split_ustar_path path ≢ none
IsSplit-split_ustar_path path prefix name s = elim (Bool-cases (leb (length path) 100)) [
  | inl short ↦ λ e. cc (short_path path short)
  | inr long ↦ λ e.
      find_split-none path prefix name (length path)
        (omega (arith, ap length s.joined, length-append prefix (b'/' ∷ name))) s
        (sym (long_path path long) ∙ e)
]
