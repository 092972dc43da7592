-- ===== src/Pax/Examples.antt =====
-- Concrete extended headers.
use tar_codec.Base.{
  ◌-◌, ◌≤◌, ◌≡◌, ◌≢◌, refl, none, some, List, [], ◌∷◌, ◌++◌, Bytes, length, position, ok,
}
use tar_codec.Text.{codes, is_utf8}
use tar_codec.Pax.{HdrCharset, PaxKeyword, PaxValue, PaxString, PaxRecord, PaxRecords}
use tar_codec.Pax.Parse.{decimal_u64, frame_record, parse}
use tar_codec.Pax.Globals.{effective_record_from, get_last}
use tar_codec.Pax.Overrides.{apply_history, concat, effective_record_from-get_last}
use tar_codec.Pax.Total.{parse-ne-none, frame_record-slices}

abbrev path_a : PaxRecord
path_a = PaxRecord.path (PaxValue.value (PaxString.utf8 (codes "a")))

abbrev path_b : PaxRecord
path_b = PaxRecord.path (PaxValue.value (PaxString.utf8 (codes "b")))

abbrev size_nine : PaxRecord
size_nine = PaxRecord.size (PaxValue.value 9)

abbrev path_record : Bytes
path_record = codes "9 path=x\n"

parses_path :
    parse path_record HdrCharset.utf8
    ≡ some (ok (PaxRecord.path (PaxValue.value (PaxString.utf8 (codes "x"))) ∷ []))
unfolding parse
parses_path = refl

path_framed : frame_record 0 path_record ≡ ok (2, path_record)
unfolding frame_record position is_utf8 decimal_u64
path_framed = refl

-- Two global extensions.
abbrev two_globals : List PaxRecords
two_globals = (path_a ∷ size_nine ∷ []) ∷ (path_b ∷ []) ∷ []

effective_record_from-get_last_example :
    effective_record_from none (apply_history two_globals none) PaxKeyword.path
    ≡ get_last (concat two_globals ++ []) PaxKeyword.path
effective_record_from-get_last_example =
    effective_record_from-get_last two_globals none PaxKeyword.path

parse-ne-none_example : parse path_record HdrCharset.utf8 ≢ none
parse-ne-none_example = parse-ne-none path_record HdrCharset.utf8

frame_record-slices_example :
    (2 ≤ length path_record - 1)
    × (1 ≤ length path_record)
    × (length path_record ≤ length path_record)
frame_record-slices_example = frame_record-slices 0 path_record 2 path_record path_framed
