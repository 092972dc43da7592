-- ===== src/Write/Examples.antt =====
-- Concrete members and records.
use tar_codec.Base.{
  eq_bytes, ℕ, ◌+◌, ◌≤◌, ◌≡◌, ◌↔◌, ◌⊎◌, refl, true, false, none, some, [], ◌∷◌, ◌++◌, arith, Bytes,
  IsU64, length, replicate, ok, err,
}
use tar_codec.Text.{codes, is_utf8, u64_from_str}
use tar_codec.Header.{encode_octal_digits, octal_digits}
use tar_codec.Pax.{HdrCharset, PaxKeyword}
use tar_codec.Pax.Parse.{parse, parse_pairs}
use tar_codec.Stream.{UstarKind}
use tar_codec.Write.{PaxMember, Written, components}
use tar_codec.Write.Decimal.{decimal_u64}
use tar_codec.Write.Decimal.Groups.{IsDecimal}
use tar_codec.Write.Decimal.Digits.{decimal_u64-IsDecimal, u64_from_str-decimal_u64}
use tar_codec.Write.Records.{keyword_bytes, record_len}
use tar_codec.Write.Records.Length.{record_len-IsLength}
use tar_codec.Write.Records.RoundTrip.{append_all, as_text, append_all-parse}
use tar_codec.Write.Member.{padded_payload_len, split_ustar_path, frame_pax_member_into}
use tar_codec.Write.Member.Suffix.{AsksForDirectory}
use tar_codec.Write.Member.Valid.{IsText, KindFits, validate_member_iff}
use tar_codec.Write.Member.{validate_member}
use tar_codec.Write.Member.Paths.{IsSplit, split_ustar_path-IsSplit}
use tar_codec.Write.Member.Records.{IsMember, expected_records}
use tar_codec.Write.Member.Framed.{IsFramed, frame_pax_member_into-parse}

abbrev size_field : Bytes
size_field = replicate 12 0

abbrev dirs : Bytes
dirs = replicate 50 b'd'

abbrev file : Bytes
file = replicate 50 b'f'

abbrev big : ℕ
big = 1234567890

renders_big : decimal_u64 big ≡ codes "1234567890"
unfolding decimal_u64
renders_big = refl

decimal_u64-IsDecimal_example : IsDecimal (decimal_u64 big) big
decimal_u64-IsDecimal_example = decimal_u64-IsDecimal big

u64_from_str-decimal_u64_example : u64_from_str (decimal_u64 big) ≡ some big
u64_from_str-decimal_u64_example = u64_from_str-decimal_u64 big (omega arith)

-- 98 bytes beside the digits: with two digits there would be 100 bytes, so there are three digits.
abbrev long_value : Bytes
long_value = replicate 91 b'v'

length_grows : record_len PaxKeyword.path long_value ≡ ok 101
unfolding record_len
length_grows = refl

record_len-IsLength_example :
    (101
      ≡ length (decimal_u64 101)
        + (length (keyword_bytes (components PaxKeyword.path)) + length long_value + 3))
    × IsU64 101
record_len-IsLength_example = record_len-IsLength PaxKeyword.path long_value 101 length_grows

appended : append_all [] ((PaxKeyword.path, codes "x") ∷ []) ≡ ok (codes "9 path=x\n")
unfolding append_all
appended = refl

path_is_text : is_utf8 (keyword_bytes (components PaxKeyword.path)) ≡ true
unfolding is_utf8 components
path_is_text = refl

append_all-parse_example :
    (payload : Bytes) × (codes "9 path=x\n" ≡ [] ++ payload)
    × (parse payload HdrCharset.utf8
        ≡ some (parse_pairs HdrCharset.utf8 (ok (as_text ((PaxKeyword.path, codes "x") ∷ [])))))
append_all-parse_example =
    append_all-parse [] (codes "9 path=x\n") (PaxKeyword.path, codes "x") [] HdrCharset.utf8
      appended (path_is_text, tt)

padded_nine : padded_payload_len 9 ≡ ok 512
unfolding padded_payload_len
padded_nine = refl

-- A path of 101 bytes, one of them a `/`
abbrev long_path : Bytes
long_path = dirs ++ b'/' ∷ file

long_path_split : split_ustar_path long_path ≡ some (dirs, file)
unfolding split_ustar_path
long_path_split = refl

split_ustar_path-IsSplit_example :
    ((dirs ≡ []) × (file ≡ long_path) × (length long_path ≤ 100)) ⊎ IsSplit long_path dirs file
split_ustar_path-IsSplit_example = split_ustar_path-IsSplit long_path dirs file long_path_split

long_path-IsSplit : IsSplit long_path dirs file
long_path-IsSplit = record {
  joined = refl;
  prefix_some = omega arith;
  prefix_fits = omega arith;
  name_some = omega arith;
  name_fits = omega arith;
}

abbrev file_x : PaxMember
file_x = record {
  path = codes "x";
  kind = UstarKind.regular;
  size = 3;
  link_path = none;
  executable = false;
}

file_x-IsMember : IsMember file_x
unfolding is_utf8
file_x-IsMember = record {
  path_some = refl;
  path_text = refl;
  link_some = λ link_path e. cc;
  link_text = λ link_path e. cc;
  size_fits = omega arith;
}

abbrev unwrap : Written Bytes → Bytes
unwrap (ok bytes) = bytes
unwrap (err e) = []

file_x_framed : frame_pax_member_into 7 file_x ≡ ok (unwrap (frame_pax_member_into 7 file_x))
unfolding frame_pax_member_into eq_bytes encode_octal_digits octal_digits
file_x_framed = refl

frame_pax_member_into-parse_example :
    (payload : Bytes) × IsFramed payload (unwrap (frame_pax_member_into 7 file_x))
    × (parse payload HdrCharset.utf8 ≡ some (ok (expected_records file_x)))
frame_pax_member_into-parse_example =
    frame_pax_member_into-parse 7 file_x (unwrap (frame_pax_member_into 7 file_x)) (omega arith)
      file_x-IsMember file_x_framed

validate_member_iff_example : (validate_member file_x ≡ ok tt) ↔ (
    IsText (codes "x")
    × ((UstarKind.regular ≡ UstarKind.directory) ⊎ (AsksForDirectory (codes "x") → ⊥))
    × KindFits file_x UstarKind.regular)
validate_member_iff_example = validate_member_iff file_x
