-- ===== src/Archive/Path/Split.antt =====
-- Texts that crates/archive-trait/src/extract/path.rs splits at a separator.
use tar_codec.Base.{
  ℕ, Bool, true, false, none, some, List, [], ◌∷◌, ◌++◌, Bytes, contains, ◌==◌, ◌≡◌, refl, arith,
  Bool-cases, subst, All, inl, inr,
}
use tar_codec.Text.{grow_first, split, rsplit_once}
use tar_codec.Archive.Path.{filter}

pub ==_self : (a : ℕ) → (a == a) ≡ true
==_self a = ground arith

-- The first part of a split stands alone before the others.
split-cons :
    (c : ℕ) (text : Bytes) → (part : Bytes) × (parts : List Bytes) × (split c text ≡ part ∷ parts)
unfolding split
split-cons c [] = ([], [], refl)
split-cons c (b ∷ bs) = elim (Bool-cases (b == c)) [
  | inl same ↦ ([], split c bs, rw same refl)
  | inr other ↦ let (part, parts, e) = split-cons c bs in (b ∷ part, parts, rw (other, e) refl)
]

grow_first-append :
    (b c : ℕ) (text : Bytes) (parts : List Bytes)
    → grow_first b (split c text ++ parts) ≡ grow_first b (split c text) ++ parts
grow_first-append b c text parts = let (part, rest, e) = split-cons c text in rw e refl

pub split-append : (c : ℕ) (a b : Bytes) → split c (a ++ c ∷ b) ≡ split c a ++ split c b
unfolding split
split-append c [] b = rw (==_self c) refl
split-append c (x ∷ a) b = elim (Bool-cases (x == c)) [
  | inl same ↦ rw (same, split-append c a b) refl
  | inr other ↦ rw (other, split-append c a b) (grow_first-append x c a (split c b))
]

-- A text without the separator starts with another byte, and goes on without it.
contains-cons :
    (c x : ℕ) (text : Bytes)
    → contains c (x ∷ text) ≡ false
    → ((x == c) ≡ false) × (contains c text ≡ false)
contains-cons c x text h = ground arith

pub split-whole : (c : ℕ) (text : Bytes) → contains c text ≡ false → split c text ≡ text ∷ []
unfolding split
split-whole c [] h = refl
split-whole c (x ∷ text) h =
    let (other, absent) = contains-cons c x text h in rw (other, split-whole c text absent) refl

pub rsplit_once-whole : (c : ℕ) (text : Bytes) → contains c text ≡ false → rsplit_once c text ≡ none
unfolding rsplit_once
rsplit_once-whole c [] h = refl
rsplit_once-whole c (x ∷ text) h =
    let (other, absent) = contains-cons c x text h in
    rw (rsplit_once-whole c text absent, other) refl

pub rsplit_once-last :
    (c : ℕ) (l r : Bytes) → contains c r ≡ false → rsplit_once c (l ++ c ∷ r) ≡ some (l, r)
unfolding rsplit_once
rsplit_once-last c [] r h = rw (rsplit_once-whole c r h, ==_self c) refl
rsplit_once-last c (x ∷ l) r h = rw (rsplit_once-last c l r h) refl

pub filter-append {ℓ} :
    {A : Type ℓ} (p : A → Bool) (xs ys : List A) → filter p (xs ++ ys) ≡ filter p xs ++ filter p ys
filter-append p [] ys = refl
filter-append p (x ∷ xs) ys = elim (Bool-cases (p x)) [
  | inl kept ↦ rw (kept, filter-append p xs ys) refl
  | inr dropped ↦ rw (dropped, filter-append p xs ys) refl
]

-- No part of a split holds the separator.
pub split-contains :
    (c : ℕ) (text : Bytes) → All (λ (part : Bytes). contains c part ≡ false) (split c text)
unfolding split
split-contains c [] = (refl, tt)
split-contains c (b ∷ bs) =
    let (part, parts, e) = split-cons c bs in
    let rest = subst (All (λ (part : Bytes). contains c part ≡ false)) e (split-contains c bs) in
    elim (Bool-cases (b == c)) [
      | inl same ↦ rw (same, e) (refl, rest)
      | inr other ↦ rw (other, e) (rw (other, rest.0) refl, rest.1)
    ]
