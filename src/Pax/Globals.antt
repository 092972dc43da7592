-- ===== src/Pax/Globals.antt =====
-- crates/tar-framing/src/pax.rs: the active global records and the effective record of a keyword.
use tar_codec.Base.{
  ℕ, Option, none, some, List, [], ◌∷◌, ◌++◌, length, get_elem?, set, if◌then◌else◌, and_then,
}
use tar_codec.Pax.{
  PaxKeyword, HdrCharset, PaxValue, PaxRecord, PaxRecords, keyword, keyword_eq, GlobalPaxRecords,
  PaxExtension, PaxState,
}

-- `HashMap::get`; `insert` at a vacant entry puts the pair in front.
unfoldable pub lookup : PaxKeyword → List (PaxKeyword × ℕ) → Option ℕ
unfolding keyword_eq
lookup k [] = none
lookup k ((j, i) ∷ m) = if keyword_eq j k then some i else lookup k m

abbrev pub no_globals : GlobalPaxRecords
no_globals = record { records = []; indices = [] }

unfoldable pub apply_at : GlobalPaxRecords → PaxRecord → Option ℕ → GlobalPaxRecords
apply_at g update (some i) = record g { records = set g.records i update }
apply_at g update none = record {
  records = g.records ++ update ∷ [];
  indices = (keyword update, length g.records) ∷ g.indices;
}

-- One round of the loop of `apply`.
unfoldable pub apply_one : GlobalPaxRecords → PaxRecord → GlobalPaxRecords
unfolding apply_at lookup
apply_one g update = apply_at g update (lookup (keyword update) g.indices)

unfoldable pub apply : GlobalPaxRecords → PaxRecords → GlobalPaxRecords
unfolding apply_one
apply g [] = g
apply g (update ∷ updates) = apply (apply_one g update) updates

-- `PaxRecords::apply_global`
unfoldable pub apply_global : PaxRecords → Option GlobalPaxRecords → Option GlobalPaxRecords
unfolding apply
apply_global updates none = some (apply no_globals updates)
apply_global updates (some g) = some (apply g updates)

-- `GlobalPaxRecords::get`
unfoldable pub get_global : GlobalPaxRecords → PaxKeyword → Option PaxRecord
unfolding lookup
get_global g k = and_then (lookup k g.indices) (λ i. get_elem? g.records i)

-- `PaxRecords::get`: the last record of the keyword (`iter().rev().find(..)`).
unfoldable pub get_last : PaxRecords → PaxKeyword → Option PaxRecord
unfolding keyword_eq keyword
get_last [] k = none
get_last (r ∷ rs) k = elim (get_last rs k) [
  | some later ↦ some later
  | none ↦ if keyword_eq (keyword r) k then some r else none
]

charset_of : Option PaxRecord → HdrCharset
charset_of (some (PaxRecord.hdrcharset (PaxValue.value c))) = c
charset_of _ = HdrCharset.utf8

-- `GlobalPaxRecords::hdrcharset`
unfoldable pub hdrcharset : GlobalPaxRecords → HdrCharset
unfolding charset_of get_global
hdrcharset g = charset_of (get_global g PaxKeyword.hdrcharset)

-- `Option::or_else`
abbrev pub or_else {ℓ} : {A : Type ℓ} → Option A → Option A → Option A
or_else none b = b
or_else (some a) b = some a

unfoldable pub effective_record_from :
    Option PaxRecords → Option GlobalPaxRecords → PaxKeyword → Option PaxRecord
unfolding get_last get_global
effective_record_from locals globals k =
    or_else (and_then locals (λ rs. get_last rs k)) (and_then globals (λ g. get_global g k))

size_of : Option PaxRecord → Option (PaxValue ℕ)
size_of (some (PaxRecord.size v)) = some v
size_of _ = none

unfoldable pub effective_size : Option PaxRecords → Option GlobalPaxRecords → Option (PaxValue ℕ)
unfolding size_of effective_record_from
effective_size locals globals = size_of (effective_record_from locals globals PaxKeyword.size)

-- `PaxState::effective_record`
unfoldable pub effective_record : PaxState → PaxKeyword → Option PaxRecord
unfolding effective_record_from
effective_record s k =
    effective_record_from (and_then s.local_extension (λ e. some e.records)) s.global_records k

-- `PaxState::extensions`: the global extensions in order, then the local one.
unfoldable pub extensions : PaxState → List PaxExtension
extensions s = s.global_extensions ++ elim s.local_extension [ none ↦ [] | some e ↦ e ∷ [] ]
