-- ===== src/Pax/Updates.antt =====
-- crates/tar-framing/src/pax.rs: what one update does to the global records and their index.
use tar_codec.Base.{
  ℕ, zero, suc, ◌<◌, ◌≡◌, ◌≢◌, inl, inr, refl, sym, ap, subst, ◌∙◌, false, none, some,
  some-injective, List, [], ◌∷◌, ◌++◌, arith, length, get_elem?, set, get_elem?-set_self,
  get_elem?-set_ne, if◌then◌else◌, Bool-cases, Option-cases, and_then,
}
use tar_codec.Pax.{PaxKeyword, PaxRecord, keyword, keyword_eq, GlobalPaxRecords}
use tar_codec.Pax.Globals.{lookup, apply_at, apply_one, get_global}
use tar_codec.Pax.Keywords.{keyword_eq_iff}

-- The index leads to a record of the keyword, for every keyword that it holds.
abbrev pub IsIndexed : GlobalPaxRecords → Type 0
IsIndexed g =
    (k : PaxKeyword) (i : ℕ)
    → lookup k g.indices ≡ some i
    → (r : PaxRecord) × (get_elem? g.records i ≡ some r) × (keyword r ≡ k)

get_elem?-lt {ℓ} :
    {A : Type ℓ} (xs : List A) (i : ℕ) {x : A} → get_elem? xs i ≡ some x → i < length xs
get_elem?-lt [] i e = cc
get_elem?-lt (x ∷ xs) zero e = omega arith
get_elem?-lt (x ∷ xs) (suc i) e = omega (arith, get_elem?-lt xs i e)

get_elem?-append_left {ℓ} :
    {A : Type ℓ} (xs ys : List A) (i : ℕ) → i < length xs → get_elem? (xs ++ ys) i ≡ get_elem? xs i
get_elem?-append_left [] ys i h = absurd (omega arith)
get_elem?-append_left (x ∷ xs) ys zero h = refl
get_elem?-append_left (x ∷ xs) ys (suc i) h = get_elem?-append_left xs ys i (omega arith)

get_elem?-append_here {ℓ} :
    {A : Type ℓ} (xs : List A) (x : A) → get_elem? (xs ++ x ∷ []) (length xs) ≡ some x
get_elem?-append_here [] x = refl
get_elem?-append_here (y ∷ xs) x = get_elem?-append_here xs x

lookup_cons :
    (j k : PaxKeyword) (i : ℕ) (m : List (PaxKeyword × ℕ))
    → lookup k ((j, i) ∷ m) ≡ (if keyword_eq j k then some i else lookup k m)
unfolding lookup
lookup_cons j k i m = refl

get_global-some :
    (g : GlobalPaxRecords) (k : PaxKeyword) (i : ℕ)
    → lookup k g.indices ≡ some i
    → get_global g k ≡ get_elem? g.records i
unfolding get_global
get_global-some g k i e = ap (λ o. and_then o (λ j. get_elem? g.records j)) e

get_global-none :
    (g : GlobalPaxRecords) (k : PaxKeyword) → lookup k g.indices ≡ none → get_global g k ≡ none
unfolding get_global
get_global-none g k e = ap (λ o. and_then o (λ j. get_elem? g.records j)) e

abbrev pub Updates : GlobalPaxRecords → PaxRecord → GlobalPaxRecords → Type 0
Updates g update h =
    IsIndexed h
    × ((k : PaxKeyword)
        → get_global h k ≡ (if keyword_eq (keyword update) k then some update else get_global g k))

module _ (g : GlobalPaxRecords) (update : PaxRecord) (indexed : IsIndexed g) where
  -- The records after an update in place, where the index leads.
  set_at :
      (i j : ℕ) (k : PaxKeyword)
      → lookup (keyword update) g.indices ≡ some i
      → lookup k g.indices ≡ some j
      → get_elem? (set g.records i update) j
        ≡ (if keyword_eq (keyword update) k then some update else get_elem? g.records j)
  set_at i j k found here = elim (Bool-cases (keyword_eq (keyword update) k)) [
    | inl same ↦
        let k_is : keyword update ≡ k = (keyword_eq_iff (keyword update) k).0 same in
        let j_is : i ≡ j =
          some-injective _ _ (sym found ∙ ap (λ q. lookup q g.indices) k_is ∙ here) in
        rw same (
          rw (← j_is) (
            get_elem?-set_self g.records i update
              (get_elem?-lt g.records i (indexed (keyword update) i found).1)))
    | inr other ↦ rw other (get_elem?-set_ne g.records i j update (apart other))
  ]
    where
      apart : keyword_eq (keyword update) k ≡ false → i ≢ j
      apart other e =
          let (r, at_i, r_is) = indexed (keyword update) i found in
          let (r', at_j, r'_is) = indexed k j here in
          let one : r ≡ r' = some-injective _ _ (sym at_i ∙ ap (get_elem? g.records) e ∙ at_j) in
          cc (other, (keyword_eq_iff (keyword update) k).1 (sym r_is ∙ ap keyword one ∙ r'_is))

  -- An update in place keeps the index right, and changes the record of its keyword alone.
  occupied :
      (i : ℕ)
      → lookup (keyword update) g.indices ≡ some i
      → Updates g update (apply_at g update (some i))
  unfolding apply_at
  occupied i found = (index, gets)
    where
      index : IsIndexed (apply_at g update (some i))
      index k j here = elim (Bool-cases (keyword_eq (keyword update) k)) [
        | inl same ↦ (update, set_at i j k found here ∙ rw same, (keyword_eq_iff _ k).0 same)
        | inr other ↦
            let (r, at_j, r_is) = indexed k j here in
            (r, set_at i j k found here ∙ rw other at_j, r_is)
      ]

      gets :
          (k : PaxKeyword)
          → get_global (apply_at g update (some i)) k
            ≡ (if keyword_eq (keyword update) k then some update else get_global g k)
      gets k = elim (Option-cases (lookup k g.indices)) [
        | inl none_at ↦ elim (Bool-cases (keyword_eq (keyword update) k)) [
          | inl same ↦ absurd (cc (found, none_at, (keyword_eq_iff (keyword update) k).0 same))
          | inr other ↦ rw other (
              get_global-none (apply_at g update (some i)) k none_at
              ∙ sym (get_global-none g k none_at))
        ]
        | inr (j, here) ↦
            get_global-some (apply_at g update (some i)) k j here
            ∙ set_at i j k found here
            ∙ ap (λ o. if keyword_eq (keyword update) k then some update else o)
                (sym (get_global-some g k j here))
      ]

  -- A new keyword's record goes to the end, and the index of the others stays.
  vacant : lookup (keyword update) g.indices ≡ none → Updates g update (apply_at g update none)
  unfolding apply_at
  vacant found = (index, gets)
    where
      h : GlobalPaxRecords
      h = apply_at g update none

      old :
          (k : PaxKeyword) (i : ℕ)
          → lookup k g.indices ≡ some i
          → get_elem? (g.records ++ update ∷ []) i ≡ get_elem? g.records i
      old k i here =
          get_elem?-append_left g.records (update ∷ []) i
            (get_elem?-lt g.records i (indexed k i here).1)

      index : IsIndexed (apply_at g update none)
      index k i here = elim (Bool-cases (keyword_eq (keyword update) k)) [
        | inl same ↦
            let i_is : length g.records ≡ i = some-injective _ _ (
              sym (lookup_cons (keyword update) k (length g.records) g.indices ∙ rw same) ∙ here) in
            (
              update,
              rw (← i_is) (get_elem?-append_here g.records update),
              (keyword_eq_iff _ k).0 same,
            )
        | inr other ↦
            let was : lookup k g.indices ≡ some i =
              sym (lookup_cons (keyword update) k (length g.records) g.indices ∙ rw other) ∙ here in
            let (r, at_i, r_is) = indexed k i was in (r, old k i was ∙ at_i, r_is)
      ]

      gets :
          (k : PaxKeyword)
          → get_global (apply_at g update none) k
            ≡ (if keyword_eq (keyword update) k then some update else get_global g k)
      gets k = elim (Bool-cases (keyword_eq (keyword update) k)) [
        | inl same ↦ rw same (
            get_global-some h k (length g.records)
              (lookup_cons (keyword update) k (length g.records) g.indices ∙ rw same)
            ∙ get_elem?-append_here g.records update)
        | inr other ↦
            let skip : lookup k h.indices ≡ lookup k g.indices =
              lookup_cons (keyword update) k (length g.records) g.indices ∙ rw other in
            rw other (elim (Option-cases (lookup k g.indices)) [
              | inl lost ↦ get_global-none h k (skip ∙ lost) ∙ sym (get_global-none g k lost)
              | inr (i, here) ↦
                  get_global-some h k i (skip ∙ here)
                  ∙ old k i here
                  ∙ sym (get_global-some g k i here)
            ])
      ]

-- One update of the global records: the index stays right, the record of the update's keyword is
-- the update, and that of every other keyword is what it was.
pub apply_one-Updates :
    (g : GlobalPaxRecords) (update : PaxRecord)
    → IsIndexed g
    → Updates g update (apply_one g update)
unfolding apply_one
apply_one-Updates g update indexed = elim (Option-cases (lookup (keyword update) g.indices)) [
  | inl lost ↦
      subst (λ o. Updates g update (apply_at g update o)) (sym lost) (vacant g update indexed lost)
  | inr (i, found) ↦
      subst (λ o. Updates g update (apply_at g update o)) (sym found)
        (occupied g update indexed i found)
]
