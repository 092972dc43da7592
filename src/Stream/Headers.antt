-- ===== src/Stream/Headers.antt =====
-- crates/tar-framing/src/stream.rs: from a header block to a `ParsedHeader` and a `HeaderFrame`.
use tar_codec.Base.{
  ℕ, Bool, true, false, not, ◌&&◌, ◌||◌, Option, none, some, [], ◌∷◌, ◌++◌, Bytes, all, contains,
  get_elem?, eq_bytes, ◌==◌, if◌then◌else◌, ok, err, ◌>>=◌, ◌>>◌, fail_if, ok_or,
}
use tar_codec.Text.{String}
use tar_codec.Header.{
  ArchiveFormat, field, checksum, parse_octal, parse_number, is_all_nul, name_range, mode_range,
  uid_range, gid_range, size_range, mtime_range, checksum_range, typeflag_offset, identity_range,
  uname_range, gname_range, prefix_range, ustar_identity, gnu_identity,
}
use tar_codec.Pax.{PaxValue, PaxRecords, GlobalPaxRecords}
use tar_codec.Pax.Globals.{effective_size}
use tar_codec.Stream.{UstarKind, FrameErrorInner, at, Framed, HeaderFrame}

pub record ParsedHeader : Type 0 where
  pub format : ArchiveFormat
  pub typeflag : ℕ
  pub size : ℕ

abbrev pub is_zero_block : Bytes → Bool
is_zero_block block = all (λ byte. byte == 0) block

-- `&bytes[..position of the first NUL]`
unfoldable pub trim_nul : Bytes → Bytes
trim_nul [] = []
trim_nul (b ∷ bs) = if b == 0 then [] else b ∷ trim_nul bs

-- `block[at]`; a block has 512 bytes, so the index is within.
abbrev pub byte_at : Bytes → ℕ → ℕ
byte_at block i = elim (get_elem? block i) [ none ↦ 0 | some b ↦ b ]

unfoldable pub format_of : ℕ → Bytes → Framed ArchiveFormat
unfolding eq_bytes
format_of p identity =
    if eq_bytes identity ustar_identity
    then ok ArchiveFormat.pax
    else if eq_bytes identity gnu_identity
    then ok ArchiveFormat.gnu
    else err (at p (FrameErrorInner.invalid_identity identity))

checksum_matches : Option ℕ → ℕ → Bool
checksum_matches none actual = false
checksum_matches (some expected) actual = expected == actual

-- `ParsedHeader::try_from_framed`
unfoldable pub parse_header : ℕ → Bytes → Framed ParsedHeader
unfolding format_of checksum_matches parse_number parse_octal
parse_header p block = do
  f ← format_of p (field block identity_range)
  let actual = checksum block
  let expected = parse_octal (field block checksum_range)
  fail_if (not (checksum_matches expected actual))
      (at p (FrameErrorInner.invalid_checksum expected actual))
  n ←
      ok_or (parse_number f (field block size_range))
        (at p (FrameErrorInner.invalid_size (field block size_range)))
  ok (record { format = f; typeflag = byte_at block typeflag_offset; size = n })

-- `UstarKind::try_from_framed`
unfoldable pub kind_of : ℕ → ℕ → Framed UstarKind
kind_of p typeflag =
    if typeflag == 0 || typeflag == b'0'
    then ok UstarKind.regular
    else if typeflag == b'1'
    then ok UstarKind.hard_link
    else if typeflag == b'2'
    then ok UstarKind.symbolic_link
    else if typeflag == b'3'
    then ok UstarKind.character_device
    else if typeflag == b'4'
    then ok UstarKind.block_device
    else if typeflag == b'5'
    then ok UstarKind.directory
    else if typeflag == b'6'
    then ok UstarKind.fifo
    else if typeflag == b'7'
    then ok UstarKind.contiguous
    else err (at p (FrameErrorInner.unsupported_typeflag typeflag))

unfoldable pub validate_payload_free_size : ℕ → UstarKind → ℕ → Framed (Unit {0})
validate_payload_free_size p kind size =
    if size == 0 then ok tt else err (at p (FrameErrorInner.invalid_member_size kind size))

unfoldable pub validate_pax_member_size : ℕ → UstarKind → ℕ → ℕ → Framed (Unit {0})
unfolding validate_payload_free_size
validate_pax_member_size p UstarKind.regular declared effective = ok tt
validate_pax_member_size p UstarKind.hard_link declared effective = ok tt
validate_pax_member_size p UstarKind.contiguous declared effective = ok tt
validate_pax_member_size p kind declared effective = do
  validate_payload_free_size p kind declared
  validate_payload_free_size p kind effective

unfoldable pub validate_gnu_member_size : ℕ → UstarKind → ℕ → Framed (Unit {0})
unfolding validate_payload_free_size
validate_gnu_member_size p UstarKind.regular size = ok tt
validate_gnu_member_size p UstarKind.contiguous size = ok tt
validate_gnu_member_size p kind size = validate_payload_free_size p kind size

-- `HeaderFrame::parse_numeric_field`
unfoldable pub parse_numeric_field : ℕ → ArchiveFormat → String → Bytes → Bool → Framed (Option ℕ)
unfolding parse_number
parse_numeric_field p format name bytes allow_all_nul =
    if allow_all_nul && is_all_nul bytes then ok none else (do
      n ←
          ok_or (parse_number format bytes)
            (at p (FrameErrorInner.invalid_numeric_field name bytes))
      ok (some n))

-- The closure `validate_string_field` of `HeaderFrame::ustar`.
unfoldable pub validate_string_field : ℕ → String → Bytes → Framed (Unit {0})
validate_string_field p name bytes =
    fail_if (not (contains 0 bytes)) (at p (FrameErrorInner.unterminated_ustar_string_field name))

size_after : ℕ → ℕ → Option (PaxValue ℕ) → Framed ℕ
size_after p declared none = ok declared
size_after p declared (some (PaxValue.value n)) = ok n
size_after p declared (some PaxValue.deleted) =
    err (at p (FrameErrorInner.deleted_pax_metadata "size"))

-- The effective size: a pax `size` record over the declared size.
unfoldable pub size_with_records : ℕ → ℕ → Option PaxRecords → Option GlobalPaxRecords → Framed ℕ
unfolding size_after
size_with_records p declared locals globals = size_after p declared (effective_size locals globals)

-- `HeaderFrame::ustar`
unfoldable pub ustar_frame :
    ℕ → Bytes → ℕ → ℕ → Option PaxRecords → Option GlobalPaxRecords → Bool → Framed HeaderFrame
ustar_frame p block typeflag declared locals globals allow = do
  kind ← kind_of p typeflag
  mode ← parse_numeric_field p ArchiveFormat.pax "mode" (field block mode_range) allow
  uid ← parse_numeric_field p ArchiveFormat.pax "uid" (field block uid_range) allow
  gid ← parse_numeric_field p ArchiveFormat.pax "gid" (field block gid_range) allow
  mtime ← parse_numeric_field p ArchiveFormat.pax "mtime" (field block mtime_range) allow
  validate_string_field p "uname" (field block uname_range)
  validate_string_field p "gname" (field block gname_range)
  effective ← size_with_records p declared locals globals
  validate_pax_member_size p kind declared effective
  ok (record {
    position = p;
    block = block;
    format = ArchiveFormat.pax;
    kind = kind;
    declared_size = declared;
    effective_size = effective;
    mode = mode;
    uid = uid;
    gid = gid;
    mtime = mtime;
  })

is_link : UstarKind → Bool
is_link UstarKind.hard_link = true
is_link UstarKind.symbolic_link = true
is_link _ = false

-- `HeaderFrame::gnu`
unfoldable pub gnu_frame : ℕ → Bytes → ℕ → ℕ → Bool → Bool → Framed HeaderFrame
unfolding is_link
gnu_frame p block typeflag declared require_link_kind allow = do
  kind ← kind_of p typeflag
  fail_if (require_link_kind && not (is_link kind)) (
      at p (
        FrameErrorInner.unexpected_order
          "hard-link or symbolic-link member after GNU long-link extension"
          "non-link ordinary member"))
  validate_gnu_member_size p kind declared
  mode ← parse_numeric_field p ArchiveFormat.gnu "mode" (field block mode_range) allow
  uid ← parse_numeric_field p ArchiveFormat.gnu "uid" (field block uid_range) allow
  gid ← parse_numeric_field p ArchiveFormat.gnu "gid" (field block gid_range) allow
  mtime ← parse_numeric_field p ArchiveFormat.gnu "mtime" (field block mtime_range) allow
  ok (record {
    position = p;
    block = block;
    format = ArchiveFormat.gnu;
    kind = kind;
    declared_size = declared;
    effective_size = declared;
    mode = mode;
    uid = uid;
    gid = gid;
    mtime = mtime;
  })

-- `HeaderFrame::copy_header_path_into`: the path that it leaves in the buffer.
header_path_in : ArchiveFormat → Bytes → Bytes → Bytes
header_path_in ArchiveFormat.gnu prefix name = name
header_path_in ArchiveFormat.pax [] name = name
header_path_in ArchiveFormat.pax (b ∷ bs) name = (b ∷ bs) ++ (b'/' ∷ name)

unfoldable pub header_path : HeaderFrame → Bytes
unfolding trim_nul header_path_in
header_path h =
    header_path_in h.format (trim_nul (field h.block prefix_range))
      (trim_nul (field h.block name_range))
