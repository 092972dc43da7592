-- ===== src/Write/Member/Suffix.antt =====
-- The paths that ask for a directory: `directory_required` of crates/tar-framing/src/write.rs.
use tar_codec.Base.{
  ℕ, Bool, true, false, ◌==◌, ◌||◌, [], ◌∷◌, ◌++◌, append_assoc, append-nil, Bytes, contains,
  eq_bytes, eq_bytes_iff, if◌then◌else◌, ◌≡◌, ◌↔◌, ◌⊎◌, inl, inr, refl, sym, ap, subst, ◌∙◌,
  Bool-cases, ==_iff, arith,
}
use tar_codec.Text.{codes, ends_with}
use tar_codec.Write.Member.{last_component, directory_required}

-- What stands behind the last `/` of a path, or the whole path where it has none.
abbrev pub IsLastPart : Bytes → Bytes → Type 0
IsLastPart path c =
    (contains b'/' c ≡ false) × ((path ≡ c) ⊎ ((before : Bytes) × (path ≡ before ++ b'/' ∷ c)))

-- A path that ends with `/`, or whose last part is `.` or `..`.
abbrev pub AsksForDirectory : Bytes → Type 0
AsksForDirectory path =
    ((before : Bytes) × (path ≡ before ++ b'/' ∷ []))
    ⊎ IsLastPart path (codes ".")
    ⊎ IsLastPart path (codes "..")

ends_with-append : (c : ℕ) (before : Bytes) → ends_with c (before ++ c ∷ []) ≡ true
ends_with-append c [] = ground arith
ends_with-append c (b ∷ []) = ground arith
ends_with-append c (b ∷ x ∷ xs) = ends_with-append c (x ∷ xs)

ends_with-eq :
    (c : ℕ) (bs : Bytes) → ends_with c bs ≡ true → (before : Bytes) × (bs ≡ before ++ c ∷ [])
ends_with-eq c [] e = cc
ends_with-eq c (b ∷ []) e = ([], ap (λ x. x ∷ []) ((==_iff b c).0 e))
ends_with-eq c (b ∷ x ∷ xs) e =
    let (before, same) = ends_with-eq c (x ∷ xs) e in (b ∷ before, ap (λ ys. b ∷ ys) same)

true-ne-false : true ≡ false → ⊥
true-ne-false e = cc

contains-snoc :
    (seen : Bytes) (b : ℕ)
    → contains b'/' seen ≡ false
    → (b == b'/') ≡ false
    → contains b'/' (seen ++ b ∷ []) ≡ false
contains-snoc [] b h e = rw e refl
contains-snoc (x ∷ seen) b h e = elim (Bool-cases (x == b'/')) [
  | inl slash ↦ absurd (true-ne-false (sym (rw slash refl) ∙ h))
  | inr other ↦ rw other (contains-snoc seen b (sym (rw other refl) ∙ h) e)
]

-- What is last behind a `/` is last.
behind :
    (seen : Bytes) (b : ℕ) (bs : Bytes) {c : Bytes}
    → b ≡ b'/'
    → IsLastPart bs c
    → IsLastPart (seen ++ b ∷ bs) c
behind seen b bs {c} slash (plain, inl whole) =
    (plain, inr (seen, ap (λ x. seen ++ x ∷ bs) slash ∙ ap (λ ys. seen ++ b'/' ∷ ys) whole))
behind seen b bs {c} slash (plain, inr (before, e)) = (
  plain,
  inr (
    seen ++ b ∷ before,
    ap (λ ys. seen ++ b ∷ ys) e ∙ sym (append_assoc seen (b ∷ before) (b'/' ∷ c)),
  ),
)

-- The loop finds the last part, behind what it has seen without a `/`.
last_component-IsLastPart :
    (seen path : Bytes)
    → contains b'/' seen ≡ false
    → IsLastPart (seen ++ path) (last_component seen path)
last_component-IsLastPart seen [] h = (h, inl (append-nil seen))
last_component-IsLastPart seen (b ∷ bs) h = elim (Bool-cases (b == b'/')) [
  | inl slash ↦
      rw slash (behind seen b bs ((==_iff b b'/').0 slash) (last_component-IsLastPart [] bs refl))
  | inr other ↦ rw other (
      subst (λ p. IsLastPart p (last_component (seen ++ b ∷ []) bs)) (append_assoc seen (b ∷ []) bs)
        (last_component-IsLastPart (seen ++ b ∷ []) bs (contains-snoc seen b h other)))
]

-- And there is one last part only.
last_component-unseen :
    (seen c : Bytes) → contains b'/' c ≡ false → last_component seen c ≡ seen ++ c
last_component-unseen seen [] h = sym (append-nil seen)
last_component-unseen seen (b ∷ bs) h = elim (Bool-cases (b == b'/')) [
  | inl slash ↦ absurd (true-ne-false (sym (rw slash refl) ∙ h))
  | inr other ↦ rw other (
      last_component-unseen (seen ++ b ∷ []) bs (sym (rw other refl) ∙ h)
      ∙ append_assoc seen (b ∷ []) bs)
]

last_component-append :
    (seen before c : Bytes) → contains b'/' c ≡ false → last_component seen (before ++ b'/' ∷ c) ≡ c
last_component-append seen [] c h = last_component-unseen [] c h
last_component-append seen (b ∷ before) c h =
    last_component-append (if b == b'/' then [] else seen ++ b ∷ []) before c h

last_component_unique : (path c : Bytes) → IsLastPart path c → last_component [] path ≡ c
last_component_unique path c (plain, inl whole) =
    ap (last_component []) whole ∙ last_component-unseen [] c plain
last_component_unique path c (plain, inr (before, e)) =
    ap (last_component []) e ∙ last_component-append [] before c plain

last_component_iff :
    (path c : Bytes) → (eq_bytes (last_component [] path) c ≡ true) ↔ IsLastPart path c
last_component_iff path c = (
  λ e.
      subst (IsLastPart path) ((eq_bytes_iff (last_component [] path) c).0 e)
        (last_component-IsLastPart [] path refl),
  λ h. (eq_bytes_iff (last_component [] path) c).1 (last_component_unique path c h),
)

ends_with_iff :
    (c : ℕ) (bs : Bytes) → (ends_with c bs ≡ true) ↔ ((before : Bytes) × (bs ≡ before ++ c ∷ []))
ends_with_iff c bs =
    (ends_with-eq c bs, λ (before, e). ap (ends_with c) e ∙ ends_with-append c before)

any_iff :
    {P Q R : Type 0} (a b c : Bool)
    → (a ≡ true) ↔ P
    → (b ≡ true) ↔ Q
    → (c ≡ true) ↔ R
    → ((a || (b || c)) ≡ true) ↔ (P ⊎ Q ⊎ R)
any_iff true b c p q r = (λ _. inl (p.0 refl), λ _. refl)
any_iff false true c p q r = (λ _. inr (inl (q.0 refl)), λ _. refl)
any_iff false false c p q r = (
  λ e. inr (inr (r.0 e)),
  λ h. elim h [
    | inl x ↦ absurd (true-ne-false (sym (p.1 x)))
    | inr (inl x) ↦ absurd (true-ne-false (sym (q.1 x)))
    | inr (inr x) ↦ r.1 x
  ],
)

directory_required_iff : (path : Bytes) → (directory_required path ≡ true) ↔ AsksForDirectory path
unfolding directory_required
directory_required_iff path =
    any_iff (ends_with b'/' path) (eq_bytes (last_component [] path) (codes "."))
      (eq_bytes (last_component [] path) (codes "..")) (ends_with_iff b'/' path)
      (last_component_iff path (codes ".")) (last_component_iff path (codes ".."))

-- And the paths that do not.
pub not_required_iff :
    (path : Bytes) → (directory_required path ≡ false) ↔ (AsksForDirectory path → ⊥)
not_required_iff path = (
  λ e asks. true-ne-false (sym ((directory_required_iff path).1 asks) ∙ e),
  λ never. elim (Bool-cases (directory_required path)) [
    | inl asks ↦ absurd (never ((directory_required_iff path).0 asks))
    | inr free ↦ free
  ],
)
