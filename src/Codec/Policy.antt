-- ===== src/Codec/Policy.antt =====
-- crates/tar-codec/src/decode.rs: the checks of a `DecodePolicy`.
pub mod Accepts
use tar_codec.Base.{
  ℕ, Bool, true, false, not, ◌&&◌, ◌||◌, min, Option, none, some, List, [], ◌∷◌, ◌++◌, Bytes,
  eq_bytes, if◌then◌else◌, Result, ok, err, ◌>>=◌, ◌>>◌, fail_if,
}
use tar_codec.Text.{String, is_utf8}
use tar_codec.Header.{ArchiveFormat}
use tar_codec.Pax.{
  PaxKind, PaxKeyword, PaxValue, PaxRecord, PaxRecords, PaxExtension, PaxState, keyword, keyword_eq,
}
use tar_codec.Logical.{GnuMetadata, MemberExtensions, MemberFrame}
use tar_codec.Codec.{
  PaxVendorExtensionPolicy, PaxDecodePolicy, DecodePolicy, DecodePolicyViolation, DecodeError,
  Decoded,
}

abbrev pub violation : ℕ → DecodePolicyViolation → DecodeError
violation position v = DecodeError.policy_violation position v

unfoldable pub check_format : DecodePolicy → ℕ → ArchiveFormat → Decoded (Unit {0})
check_format policy position ArchiveFormat.gnu =
    fail_if (not policy.allow_gnu) (violation position DecodePolicyViolation.gnu_archive)
check_format policy position ArchiveFormat.pax = ok tt

unfoldable pub check_global_pax_extension : PaxDecodePolicy → ℕ → Decoded (Unit {0})
check_global_pax_extension policy position =
    fail_if (not policy.allow_global_pax_extensions)
      (violation position DecodePolicyViolation.global_pax_extension)

-- `contains` of a set of namespaces
abbrev pub listed : Bytes → List Bytes → Bool
listed vendor [] = false
listed vendor (v ∷ vendors) = eq_bytes v vendor || listed vendor vendors

unfoldable pub vendor_allowed : PaxVendorExtensionPolicy → Bytes → Bool
vendor_allowed PaxVendorExtensionPolicy.reject_unknown vendor = false
vendor_allowed (PaxVendorExtensionPolicy.ignore allowed) vendor = listed vendor allowed
vendor_allowed PaxVendorExtensionPolicy.allow_unknown vendor = true

abbrev pub not_utf8 : PaxValue Bytes → Bool
not_utf8 (PaxValue.value bytes) = not (is_utf8 bytes)
not_utf8 PaxValue.deleted = false

-- The body of the first loop of `check_pax_records`.
unfoldable pub check_vendor : PaxDecodePolicy → ℕ → PaxRecord → Decoded (Unit {0})
unfolding vendor_allowed
check_vendor policy position (PaxRecord.vendor vendor name v) = do
  fail_if (not (vendor_allowed policy.vendor_extension_policy vendor))
      (violation position (DecodePolicyViolation.pax_vendor_extension vendor name))
  fail_if (not policy.allow_non_utf8_pax_vendor_values && not_utf8 v)
      (violation position (DecodePolicyViolation.non_utf8_pax_vendor_value vendor name))
check_vendor policy position record_ = ok tt

unfoldable pub check_vendors : PaxDecodePolicy → ℕ → PaxRecords → Decoded (Unit {0})
unfolding check_vendor
check_vendors policy position [] = ok tt
check_vendors policy position (r ∷ records) = do
  check_vendor policy position r
  check_vendors policy position records

unfoldable pub restricted : PaxKeyword → Option String
restricted PaxKeyword.path = some "path"
restricted PaxKeyword.linkpath = some "linkpath"
restricted PaxKeyword.size = some "size"
restricted _ = none

-- The second loop.
unfoldable pub check_metadata : ℕ → PaxRecords → Decoded (Unit {0})
unfolding restricted keyword
check_metadata position [] = ok tt
check_metadata position (r ∷ records) = elim (restricted (keyword r)) [
  | none ↦ check_metadata position records
  | some name ↦ err (violation position (DecodePolicyViolation.global_pax_member_metadata name))
]

abbrev pub seen_in : PaxKeyword → List PaxKeyword → Bool
seen_in k [] = false
seen_in k (j ∷ keywords) = keyword_eq j k || seen_in k keywords

-- The third loop; `keywords` is the set that it fills.
unfoldable pub check_duplicates : ℕ → PaxRecords → List PaxKeyword → Decoded (Unit {0})
unfolding keyword keyword_eq
check_duplicates position [] keywords = ok tt
check_duplicates position (r ∷ records) keywords =
    let rest = check_duplicates position records (keyword r ∷ keywords) in
    if seen_in (keyword r) keywords
    then err (violation position (DecodePolicyViolation.duplicate_pax_record (keyword r)))
    else rest

abbrev pub is_global : PaxKind → Bool
is_global PaxKind.global = true
is_global PaxKind.local = false

-- A loop that is run under a condition.
abbrev pub when : Bool → Decoded (Unit {0}) → Decoded (Unit {0})
when true check = check
when false check = ok tt

unfoldable pub check_pax_records : PaxDecodePolicy → ℕ → PaxKind → PaxRecords → Decoded (Unit {0})
unfolding check_vendors check_metadata check_duplicates
check_pax_records policy position kind records = do
  check_vendors policy position records
  when (is_global kind && not policy.allow_global_pax_member_metadata)
      (check_metadata position records)
  when (not policy.allow_duplicate_pax_records) (check_duplicates position records [])

unfoldable pub check_global_pax : DecodePolicy → ℕ → PaxRecords → Decoded (Unit {0})
unfolding check_global_pax_extension check_pax_records
check_global_pax policy position records = do
  check_global_pax_extension policy.pax_policy position
  check_pax_records policy.pax_policy position PaxKind.global records

abbrev pub option_list {ℓ} : {A : Type ℓ} → Option A → List A
option_list none = []
option_list (some a) = a ∷ []

-- `PaxState::extensions`: the global ones, and then the local one.
abbrev pub extensions : PaxState → List PaxExtension
extensions state = state.global_extensions ++ option_list state.local_extension

unfoldable pub check_globals : DecodePolicy → List PaxExtension → Decoded (Unit {0})
unfolding check_global_pax
check_globals policy [] = ok tt
check_globals policy (e ∷ es) = do
  when (is_global e.kind) (check_global_pax policy e.position e.records)
  check_globals policy es

unfoldable pub check_locals : DecodePolicy → List PaxExtension → Decoded (Unit {0})
unfolding check_pax_records
check_locals policy [] = ok tt
check_locals policy (e ∷ es) = do
  when (not (is_global e.kind))
      (check_pax_records policy.pax_policy e.position PaxKind.local e.records)
  check_locals policy es

abbrev pub least : Option GnuMetadata → Option GnuMetadata → ℕ → ℕ
least none none position = position
least (some a) none position = a.position
least none (some b) position = b.position
least (some a) (some b) position = min a.position b.position

unfoldable pub check_member : DecodePolicy → MemberFrame → Decoded (Unit {0})
unfolding check_globals check_locals check_format
check_member policy frame = elim frame.extensions [
  | MemberExtensions.pax state ↦
      (check_globals policy (extensions state)
        >> check_format policy frame.header.position frame.header.format
        >> check_locals policy (extensions state))
  | MemberExtensions.gnu long_name long_link ↦
      check_format policy (least long_name long_link frame.header.position) frame.header.format
]
