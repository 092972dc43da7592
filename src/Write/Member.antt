-- ===== src/Write/Member.antt =====
-- crates/tar-framing/src/write.rs: the framing of one member. Rust's `&str` is its UTF-8 bytes here,
-- and a buffer that a function fills is what it returns.
pub mod Paths
pub mod Sizes
pub mod Suffix
pub mod Valid
pub mod Headers
pub mod Framed
pub mod Records
use tar_codec.Base.{
  ℕ, zero, suc, ◌+◌, ◌-◌, ◌*◌, ◌/◌, ◌%◌, ◌^◌, Bool, true, false, not, ◌&&◌, ◌||◌, Option, none,
  some, List, [], ◌∷◌, ◌++◌, Bytes, length, take, drop, get_elem?, replicate, contains, eq_bytes,
  ltb, leb, ◌==◌, if◌then◌else◌, u64_limit, checked_add, Result, ok, err, ◌>>=◌, ◌>>◌, fail_if,
  ok_or, and_then,
}
use tar_codec.Text.{String, codes, is_empty, ends_with}
use tar_codec.Header.{
  Range, field, write_at, block_size, name_range, mode_range, uid_range, gid_range, size_range,
  mtime_range, typeflag_offset, link_name_range, identity_range, devmajor_range, devminor_range,
  prefix_range, ustar_identity, encode_octal, encode_checksum,
}
use tar_codec.Pax.{PaxKeyword}
use tar_codec.Stream.{UstarKind}
use tar_codec.Write.{FramingWriteError, Written, PaxMember}
use tar_codec.Write.Decimal.{decimal_u64}
use tar_codec.Write.Records.{append_pax_record}

unfoldable pub payload_padding : ℕ → Bytes
payload_padding size = replicate ((u64_limit - size) % u64_limit % block_size) 0

abbrev pub end_marker_bytes : Bytes
end_marker_bytes = replicate (block_size * 2) 0

unfoldable pub validate_text : String → Bytes → Written (Unit {0})
validate_text field_name value =
    fail_if (is_empty value || contains 0 value) (FramingWriteError.invalid_text field_name)

-- `rsplit('/').next()`: what stands behind the last `/`
abbrev pub last_component : Bytes → Bytes → Bytes
last_component seen [] = seen
last_component seen (b ∷ bs) = last_component (if b == b'/' then [] else seen ++ (b ∷ [])) bs

abbrev pub is_directory : UstarKind → Bool
is_directory UstarKind.directory = true
is_directory _ = false

abbrev pub is_some {ℓ} : {A : Type ℓ} → Option A → Bool
is_some none = false
is_some (some a) = true

unfoldable pub directory_required : Bytes → Bool
directory_required path =
    let component = last_component [] path in
    ends_with b'/' path || (eq_bytes component (codes ".") || eq_bytes component (codes ".."))

unfoldable pub validate_kind : PaxMember → UstarKind → Written (Unit {0})
unfolding validate_text
validate_kind member UstarKind.regular =
    fail_if (is_some member.link_path) (FramingWriteError.unexpected_link_path UstarKind.regular)
validate_kind member UstarKind.directory = do
  fail_if (is_some member.link_path) (FramingWriteError.unexpected_link_path UstarKind.directory)
  fail_if (not (member.size == 0))
      (FramingWriteError.invalid_member_size UstarKind.directory member.size)
validate_kind member UstarKind.symbolic_link = do
  fail_if (not (member.size == 0))
      (FramingWriteError.invalid_member_size UstarKind.symbolic_link member.size)
  link_path ← ok_or member.link_path FramingWriteError.missing_link_path
  validate_text "linkpath" link_path
validate_kind member kind = err (FramingWriteError.unsupported_member_kind kind)

unfoldable pub validate_member : PaxMember → Written (Unit {0})
unfolding validate_text validate_kind directory_required
validate_member member = do
  _ ← validate_text "path" member.path
  _ ←
      fail_if (not (is_directory member.kind) && directory_required member.path)
        (FramingWriteError.directory_required_path_suffix member.kind)
  validate_kind member member.kind

-- A field that takes an octal number, if the number fits.
unfoldable pub put_octal : Range → ℕ → Bytes → Option Bytes
unfolding encode_octal
put_octal r value block =
    let (digits, fits) = encode_octal (field block r) value in
    if fits then some (write_at block r.start digits) else none

-- The octal fields, in the order of the `||` chain of `build_header_into`.
unfoldable pub put_numbers : ℕ → ℕ → Bytes → Option Bytes
unfolding put_octal
put_numbers mode size block = and_then (put_octal mode_range mode block) (λ b₁.
    and_then (put_octal uid_range 0 b₁) (λ b₂. and_then (put_octal gid_range 0 b₂) (λ b₃.
      and_then (put_octal size_range size b₃) (λ b₄.
        and_then (put_octal mtime_range 0 b₄)
          (λ b₅. and_then (put_octal devmajor_range 0 b₅) (λ b₆. put_octal devminor_range 0 b₆))))))

abbrev pub put_names : Bytes → Bytes → Bytes → Bytes → Bytes
put_names block prefix name link_path =
    let named = write_at (write_at block 0 name) prefix_range.start prefix in
    if leb (length link_path) 100 then write_at named link_name_range.start link_path else named

unfoldable pub build_header_into : Bytes → Bytes × Bytes → ℕ → ℕ → ℕ → Bytes → Written Bytes
unfolding put_numbers encode_checksum
build_header_into block (prefix, name) mode size typeflag link_path = do
  fail_if (not (length block == block_size))
      (FramingWriteError.arithmetic_overflow "ustar header block length")
  numbered ←
      ok_or (put_numbers mode size (put_names block prefix name link_path))
        (FramingWriteError.extended_header_too_large size)
  ok (
      encode_checksum (
        write_at (write_at numbered typeflag_offset (typeflag ∷ [])) identity_range.start
          ustar_identity))

-- `checked_ilog(8)`, plus one; a `u64` has 22 octal digits at most.
unfoldable pub octal_width : ℕ → ℕ → ℕ
octal_width zero value = 1
octal_width (suc fuel) value = elim (value / 8) [
  | zero ↦ 1
  | suc q ↦ suc (octal_width fuel (suc q))
]

unfoldable pub fits_octal : ℕ → ℕ → Bool
unfolding octal_width
fits_octal field_len value = ltb (octal_width 22 value) field_len

-- The separators from the last one on: `i` bytes are left to look at.
unfoldable pub find_split : Bytes → ℕ → Option (Bytes × Bytes)
find_split path zero = none
find_split path (suc i) =
    let prefix = take i path in
    let name = drop (suc i) path in
    let rest = find_split path i in
    if elim (get_elem? path i) [ none ↦ false | some b ↦ b == b'/' ]
      && (not (is_empty prefix)
          && (leb (length prefix) 155 && (not (is_empty name) && leb (length name) 100)))
    then some (prefix, name)
    else rest

unfoldable pub split_ustar_path : Bytes → Option (Bytes × Bytes)
unfolding find_split
split_ustar_path path =
    if leb (length path) 100 then some ([], path) else find_split path (length path)

-- `checked_next_multiple_of(BLOCK_SIZE)`
unfoldable pub padded_payload_len : ℕ → Written ℕ
padded_payload_len len =
    ok_or
      (if len % block_size == 0 then some len else checked_add len (block_size - len % block_size))
      (FramingWriteError.arithmetic_overflow "padded pax payload length")

unfoldable pub prefixed_decimal_name : Bytes → ℕ → Bytes
unfolding decimal_u64
prefixed_decimal_name prefix value = prefix ++ decimal_u64 value

abbrev pub mode_and_typeflag : PaxMember → UstarKind → Written (ℕ × ℕ)
mode_and_typeflag member UstarKind.regular = ok (if member.executable then 493 else 420, b'0')
mode_and_typeflag member UstarKind.directory = ok (493, b'5')
mode_and_typeflag member UstarKind.symbolic_link = ok (511, b'2')
mode_and_typeflag member kind = err (FramingWriteError.unsupported_member_kind kind)

-- The part of `frame_pax_member_into` that fills the buffer with the records, behind the block that
-- stays free for the extended header.
unfoldable pub member_records : PaxMember → Written Bytes
unfolding append_pax_record decimal_u64
member_records member = do
  b₁ ← append_pax_record (replicate block_size 0) PaxKeyword.path member.path
  b₂ ← append_pax_record b₁ PaxKeyword.size (decimal_u64 member.size)
  elim member.link_path [
    | none ↦ ok b₂
    | some link_path ↦ append_pax_record b₂ PaxKeyword.linkpath link_path
  ]

abbrev pub unwrap_or_empty : Option Bytes → Bytes
unwrap_or_empty none = []
unwrap_or_empty (some bytes) = bytes

unfoldable pub member_path : ℕ → Bytes → Bytes × Bytes
unfolding split_ustar_path prefixed_decimal_name
member_path sequence path = elim (split_ustar_path path) [
  | none ↦ ([], prefixed_decimal_name (codes "PaxEntries/") sequence)
  | some split ↦ split
]

-- The part behind the records: the padding, and the two headers. `payload_len` bytes of records
-- stand behind the first block.
unfoldable pub finish_member : ℕ → PaxMember → Bytes → Written Bytes
unfolding padded_payload_len build_header_into prefixed_decimal_name member_path fits_octal
finish_member sequence member records = do
  let payload_len = length records - block_size
  padded ← padded_payload_len payload_len
  (mode, typeflag) ← mode_and_typeflag member member.kind
  framing_len ←
      ok_or (checked_add padded (block_size * 2))
        (FramingWriteError.arithmetic_overflow "pax framing length")
  let buffer = records ++ replicate (framing_len - length records) 0
  let rest = drop block_size buffer
  extended_header ←
      build_header_into (take block_size buffer)
        ([], prefixed_decimal_name (codes "PaxHeaders/") sequence) 420 payload_len b'x' []
  member_header ←
      build_header_into (drop padded rest) (member_path sequence member.path) mode
        (if fits_octal 12 member.size then member.size else 0) typeflag
        (unwrap_or_empty member.link_path)
  ok (extended_header ++ (take padded rest ++ member_header))

-- The buffer that it clears is written anew, so the bytes it had do not matter.
unfoldable pub frame_pax_member_into : ℕ → PaxMember → Written Bytes
unfolding validate_member member_records finish_member
frame_pax_member_into sequence member = do
  _ ← validate_member member
  records ← member_records member
  finish_member sequence member records
