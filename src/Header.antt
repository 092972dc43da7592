-- ===== src/Header.antt =====
-- crates/tar-framing/src/header.rs: the fields of a 512-byte header block, its checksum, and the
-- octal and base-256 numbers. A block is a list of bytes; a field is a slice of it.
mod Examples
pub mod Octal
pub mod Accepts
pub mod Checksum
use tar_codec.Base.{
  ℕ, zero, suc, ◌+◌, ◌-◌, ◌*◌, ◌/◌, ◌%◌, Bool, true, false, not, ◌&&◌, ◌||◌, Option, none, some,
  List, [], ◌∷◌, ◌++◌, Bytes, length, take, drop, all, leb, ◌==◌, if◌then◌else◌, checked_add,
  checked_mul, checked_sub, and_then,
}

pub data ArchiveFormat : Type 0 where
  pax gnu : ArchiveFormat

-- `start..end`
pub record Range : Type 0 where
  pub start : ℕ
  pub end : ℕ

abbrev pub range : ℕ → ℕ → Range
range a b = record { start = a; end = b }

-- `&block[range]`
abbrev pub field : Bytes → Range → Bytes
field block r = take (r.end - r.start) (drop r.start block)

-- `block[at..at + new.len()].copy_from_slice(new)`
abbrev pub write_at : Bytes → ℕ → Bytes → Bytes
write_at block at new = take at block ++ (new ++ drop (at + length new) block)

abbrev pub name_range : Range
name_range = range 0 100

abbrev pub mode_range : Range
mode_range = range 100 108

abbrev pub uid_range : Range
uid_range = range 108 116

abbrev pub gid_range : Range
gid_range = range 116 124

abbrev pub size_range : Range
size_range = range 124 136

abbrev pub mtime_range : Range
mtime_range = range 136 148

abbrev pub checksum_range : Range
checksum_range = range 148 156

abbrev pub typeflag_offset : ℕ
typeflag_offset = 156

abbrev pub link_name_range : Range
link_name_range = range 157 257

abbrev pub identity_range : Range
identity_range = range 257 265

abbrev pub uname_range : Range
uname_range = range 265 297

abbrev pub gname_range : Range
gname_range = range 297 329

abbrev pub devmajor_range : Range
devmajor_range = range 329 337

abbrev pub devminor_range : Range
devminor_range = range 337 345

abbrev pub prefix_range : Range
prefix_range = range 345 500

-- b"ustar\x0000"
abbrev pub ustar_identity : Bytes
ustar_identity = b'u' ∷ b's' ∷ b't' ∷ b'a' ∷ b'r' ∷ 0 ∷ b'0' ∷ b'0' ∷ []

-- b"ustar  \0"
abbrev pub gnu_identity : Bytes
gnu_identity = b'u' ∷ b's' ∷ b't' ∷ b'a' ∷ b'r' ∷ b' ' ∷ b' ' ∷ 0 ∷ []

abbrev pub block_size : ℕ
block_size = 512

abbrev pub max_checksum : ℕ
max_checksum = 504 * 255 + 8 * 32

abbrev pub sum : Bytes → ℕ
sum [] = 0
sum (b ∷ bs) = b + sum bs

-- The sums fit a `u32`: see `checksum-le-max_checksum`.
pub checksum : Bytes → ℕ
checksum block = sum block - sum (field block checksum_range) + 8 * b' '

-- The loop of `encode_octal_digits`, from the last byte of the field to the first: the digits that
-- it writes, and what is left of the value.
unfoldable pub octal_digits : ℕ → ℕ → Bytes × ℕ
octal_digits zero value = ([], value)
octal_digits (suc width) value =
    let (digits, left) = octal_digits width (value / 8) in (digits ++ (b'0' + value % 8) ∷ [], left)

-- The field after the call, and the `bool` that says whether the value fitted.
unfoldable pub encode_octal_digits : Bytes → ℕ → Bytes × Bool
encode_octal_digits bytes value =
    let (digits, left) = octal_digits (length bytes) value in (digits, left == 0)

-- `width` is `field.len().checked_sub(suffix.len())`.
encode_octal_in : Option ℕ → Bytes → ℕ → Bytes → Bytes × Bool
encode_octal_in none bytes value suffix = (bytes, false)
encode_octal_in (some zero) bytes value suffix = (bytes, false)
encode_octal_in (some (suc n)) bytes value suffix =
    let (digits, fits) = encode_octal_digits (take (suc n) bytes) value in (digits ++ suffix, fits)

unfoldable pub encode_octal_with_suffix : Bytes → ℕ → Bytes → Bytes × Bool
unfolding encode_octal_in
encode_octal_with_suffix bytes value suffix =
    encode_octal_in (checked_sub (length bytes) (length suffix)) bytes value suffix

unfoldable pub encode_octal : Bytes → ℕ → Bytes × Bool
unfolding encode_octal_with_suffix
encode_octal bytes value = encode_octal_with_suffix bytes value (0 ∷ [])

unfoldable pub encode_checksum : Bytes → Bytes
unfolding encode_octal_with_suffix
encode_checksum block =
    let (bytes, _fits) =
      encode_octal_with_suffix (field block checksum_range) (checksum block) (0 ∷ b' ' ∷ []) in
    write_at block checksum_range.start bytes

-- The variables of the loop of `parse_octal`.
pub record OctalState : Type 0 where
  pub value : ℕ
  pub has_digits : Bool
  pub terminated : Bool

abbrev pub octal_start : OctalState
octal_start = record { value = 0; has_digits = false; terminated = false }

-- One round; `none` is the early `return None`, and a `?` that fails.
unfoldable pub octal_step : ℕ → OctalState → Option OctalState
octal_step byte s =
    if leb b'0' byte && leb byte b'7' && not s.terminated
    then and_then (checked_mul s.value 8) (λ v.
      and_then (checked_add v (byte - b'0'))
        (λ w. some (record s { value = w; has_digits = true })))
    else if byte == 0 || byte == b' '
    then some (record s { terminated = true })
    else none

unfoldable pub octal_loop : Bytes → OctalState → Option ℕ
unfolding octal_step
octal_loop [] s = if s.has_digits && s.terminated then some s.value else none
octal_loop (byte ∷ bytes) s = and_then (octal_step byte s) (λ t. octal_loop bytes t)

unfoldable pub parse_octal : Bytes → Option ℕ
unfolding octal_loop
parse_octal bytes = octal_loop bytes octal_start

abbrev pub is_all_nul : Bytes → Bool
is_all_nul bytes = all (λ byte. byte == 0) bytes

-- `try_fold` with base 256
unfoldable pub base256_loop : Bytes → ℕ → Option ℕ
base256_loop [] value = some value
base256_loop (byte ∷ bytes) value =
    and_then (checked_mul value 256)
      (λ v. and_then (checked_add v byte) (λ w. base256_loop bytes w))

unfoldable pub parse_gnu_number : Bytes → Option ℕ
unfolding base256_loop parse_octal
parse_gnu_number [] = none
parse_gnu_number (byte ∷ bytes) =
    if byte == 0x80
    then base256_loop bytes 0
    else if byte == 0xff
    then none
    else parse_octal (byte ∷ bytes)

unfoldable pub parse_number : ArchiveFormat → Bytes → Option ℕ
unfolding parse_octal parse_gnu_number
parse_number ArchiveFormat.pax bytes = parse_octal bytes
parse_number ArchiveFormat.gnu bytes = parse_gnu_number bytes
