-- ===== src/Pax/Overrides.antt =====
-- crates/tar-framing/src/pax.rs: the record that is in force for a keyword is the last one of it.
use tar_codec.Base.{
  ◌≡◌, refl, sym, ap, ◌∙◌, Bool, Option, none, some, List, [], ◌∷◌, ◌++◌, arith, if◌then◌else◌,
  and_then, append-nil,
}
use tar_codec.Pax.{PaxKeyword, PaxRecord, PaxRecords, keyword, keyword_eq, GlobalPaxRecords}
use tar_codec.Pax.Globals.{
  lookup, no_globals, apply_one, apply, apply_global, get_global, get_last, or_else,
  effective_record_from,
}
use tar_codec.Pax.Updates.{IsIndexed, apply_one-Updates}

or_else-some {ℓ} :
    {A : Type ℓ} (o : Option A) (b : Bool) (a : A) (p : Option A)
    → or_else (elim o [ some x ↦ some x | none ↦ if b then some a else none ]) p
      ≡ or_else o (if b then some a else p)
or_else-some o b a p = ground arith

-- After the records of a global extension have been applied, the record in force for a keyword is
-- the extension's last one, or else the one that was in force before.
pub apply-get_last :
    (updates : PaxRecords) (g : GlobalPaxRecords)
    → IsIndexed g
    → IsIndexed (apply g updates)
      × ((k : PaxKeyword)
          → get_global (apply g updates) k ≡ or_else (get_last updates k) (get_global g k))
unfolding apply get_last
apply-get_last [] g indexed = (indexed, λ k. refl)
apply-get_last (update ∷ updates) g indexed =
    let (indexed', now) = apply_one-Updates g update indexed in
    let (indexed'', later) = apply-get_last updates (apply_one g update) indexed' in
    (
      indexed'',
      λ k.
          later k
          ∙ ap (or_else (get_last updates k)) (now k)
          ∙ sym (
              or_else-some (get_last updates k) (keyword_eq (keyword update) k) update
                (get_global g k)),
    )

no_globals-IsIndexed : IsIndexed no_globals
unfolding lookup
no_globals-IsIndexed k i e = cc

-- The global records after a history of global extensions.
abbrev pub apply_history : List PaxRecords → Option GlobalPaxRecords → Option GlobalPaxRecords
apply_history [] globals = globals
apply_history (updates ∷ rest) globals = apply_history rest (apply_global updates globals)

abbrev pub concat : List PaxRecords → PaxRecords
concat [] = []
concat (rs ∷ rest) = rs ++ concat rest

or_else_assoc {ℓ} :
    {A : Type ℓ} (a b c : Option A) → or_else a (or_else b c) ≡ or_else (or_else a b) c
or_else_assoc none b c = refl
or_else_assoc (some x) b c = refl

or_else-none {ℓ} : {A : Type ℓ} (a : Option A) → or_else a none ≡ a
or_else-none none = refl
or_else-none (some x) = refl

get_last-append :
    (xs ys : PaxRecords) (k : PaxKeyword)
    → get_last (xs ++ ys) k ≡ or_else (get_last ys k) (get_last xs k)
unfolding get_last
get_last-append [] ys k = sym (or_else-none (get_last ys k))
get_last-append (x ∷ xs) ys k = ground (arith, get_last-append xs ys k)

abbrev in_force : Option GlobalPaxRecords → PaxKeyword → Option PaxRecord
in_force globals k = and_then globals (λ g. get_global g k)

history_some :
    (history : List PaxRecords) (g : GlobalPaxRecords) (k : PaxKeyword)
    → IsIndexed g
    → in_force (apply_history history (some g)) k
      ≡ or_else (get_last (concat history) k) (get_global g k)
unfolding apply_global
history_some [] g k indexed = unfold get_last in refl
history_some (updates ∷ rest) g k indexed =
    let (indexed', now) = apply-get_last updates g indexed in
    history_some rest (apply g updates) k indexed'
    ∙ ap (or_else (get_last (concat rest) k)) (now k)
    ∙ or_else_assoc (get_last (concat rest) k) (get_last updates k) (get_global g k)
    ∙ ap (λ o. or_else o (get_global g k)) (sym (get_last-append updates (concat rest) k))

no_globals-none : (k : PaxKeyword) → get_global no_globals k ≡ none
unfolding get_global lookup
no_globals-none k = refl

history_none :
    (history : List PaxRecords) (k : PaxKeyword)
    → in_force (apply_history history none) k ≡ get_last (concat history) k
unfolding apply_global
history_none [] k = unfold get_last in refl
history_none (updates ∷ rest) k =
    history_some (updates ∷ rest) no_globals k no_globals-IsIndexed
    ∙ ap (or_else (get_last (updates ++ concat rest) k)) (no_globals-none k)
    ∙ or_else-none (get_last (updates ++ concat rest) k)

-- The records of the member's local extension, where it has one.
abbrev pub local_records : Option PaxRecords → PaxRecords
local_records none = []
local_records (some locals) = locals

-- The effective record of a keyword is the last record of that keyword in all that the archive has
-- said so far: the global extensions in their order, then the member's local extension where it has
-- one. A record that deletes counts as a record.
pub effective_record_from-get_last :
    (history : List PaxRecords) (locals : Option PaxRecords) (k : PaxKeyword)
    → effective_record_from locals (apply_history history none) k
      ≡ get_last (concat history ++ local_records locals) k
unfolding effective_record_from
effective_record_from-get_last history (some locals) k =
    ap (or_else (get_last locals k)) (history_none history k)
    ∙ sym (get_last-append (concat history) locals k)
effective_record_from-get_last history none k =
    history_none history k ∙ ap (λ records. get_last records k) (sym (append-nil (concat history)))
