-- ===== src/Header/Examples.antt =====
-- Concrete header fields.
use tar_codec.Base.{
  ℕ, zero, suc, ◌≡◌, ◌↔◌, refl, true, some, [], ◌∷◌, arith, Bytes, IsByte, All, length, take, drop,
  replicate,
}
use tar_codec.Header.{
  block_size, checksum_range, field, checksum, encode_octal, encode_checksum, parse_octal,
  parse_gnu_number,
}
use tar_codec.Header.Octal.{parse_octal-encode_octal}
use tar_codec.Header.Accepts.{
  IsOctalField, IsGnuField, parse_octal-IsOctalField, parse_gnu_number-IsGnuField,
}
use tar_codec.Header.Checksum.{encode_checksum-parse_octal}

abbrev seven_bytes : Bytes
seven_bytes = replicate 7 0

abbrev mode_field : Bytes
mode_field = b'0' ∷ b'0' ∷ b'0' ∷ b'0' ∷ b'7' ∷ b'5' ∷ b'5' ∷ 0 ∷ []

abbrev base256_field : Bytes
base256_field = 128 ∷ 0 ∷ 0 ∷ 0 ∷ 0 ∷ 0 ∷ 1 ∷ 2 ∷ []

abbrev empty_block : Bytes
empty_block = replicate block_size 0

are_zeros : (n : ℕ) → All IsByte (replicate n 0)
are_zeros zero = tt
are_zeros (suc n) = (omega arith, are_zeros n)

reads_mode : parse_octal mode_field ≡ some 493
unfolding parse_octal
reads_mode = refl

reads_base256 : parse_gnu_number base256_field ≡ some 258
unfolding parse_gnu_number
reads_base256 = refl

parse_octal-encode_octal_example :
    (parse_octal (encode_octal (replicate 8 0) 493).0 ≡ some 493)
    × ((encode_octal (replicate 8 0) 493).1 ≡ true)
parse_octal-encode_octal_example =
    parse_octal-encode_octal (replicate 8 0) 493 6 refl (omega arith) (omega arith)

parse_octal-IsOctalField_example : (parse_octal mode_field ≡ some 493) ↔ IsOctalField mode_field 493
parse_octal-IsOctalField_example = parse_octal-IsOctalField mode_field 493

parse_gnu_number-IsGnuField_example :
    (parse_gnu_number base256_field ≡ some 258) ↔ IsGnuField base256_field 258
parse_gnu_number-IsGnuField_example = parse_gnu_number-IsGnuField base256_field 258

encode_checksum-parse_octal_example :
    (parse_octal (field (encode_checksum empty_block) checksum_range)
      ≡ some (checksum (encode_checksum empty_block)))
    × (checksum (encode_checksum empty_block) ≡ checksum empty_block)
    × (length (encode_checksum empty_block) ≡ block_size)
    × (take 148 (encode_checksum empty_block) ≡ take 148 empty_block)
    × (drop 156 (encode_checksum empty_block) ≡ drop 156 empty_block)
encode_checksum-parse_octal_example =
    encode_checksum-parse_octal empty_block refl (are_zeros block_size)
