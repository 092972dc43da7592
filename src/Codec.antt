-- ===== src/Codec.antt =====
-- crates/tar-codec/src/decode.rs: policies, errors, and the state of a decoder.
mod Examples
pub mod Policy
pub mod Project
use tar_codec.Base.{ℕ, Bool, true, false, Option, none, some, List, Bytes, Result}
use tar_codec.Text.{String}
use tar_codec.Pax.{PaxKeyword}
use tar_codec.Stream.{FrameError}

-- The allowlist of `Ignore` is its namespaces.
pub data PaxVendorExtensionPolicy : Type 0 where
  reject_unknown : PaxVendorExtensionPolicy
  ignore : List Bytes → PaxVendorExtensionPolicy
  allow_unknown : PaxVendorExtensionPolicy

pub record PaxDecodePolicy : Type 0 where
  pub max_extension_size : ℕ
  pub max_global_extensions_size : ℕ
  pub allow_non_utf8_pax_vendor_values : Bool
  pub allow_global_pax_extensions : Bool
  pub vendor_extension_policy : PaxVendorExtensionPolicy
  pub allow_duplicate_pax_records : Bool
  pub allow_global_pax_member_metadata : Bool

pub record DecodePolicy : Type 0 where
  pub allow_gnu : Bool
  pub allow_all_nul_numeric_fields : Bool
  pub max_gnu_extension_size : ℕ
  pub pax_policy : PaxDecodePolicy

-- A repeated keyword is kept itself in place of the text that it prints.
pub data DecodePolicyViolation : Type 0 where
  gnu_archive : DecodePolicyViolation
  global_pax_extension : DecodePolicyViolation
  pax_vendor_extension : Bytes → Bytes → DecodePolicyViolation
  non_utf8_pax_vendor_value : Bytes → Bytes → DecodePolicyViolation
  duplicate_pax_record : PaxKeyword → DecodePolicyViolation
  global_pax_member_metadata : String → DecodePolicyViolation

pub data DecodeError : Type 0 where
  framing : FrameError → DecodeError
  invalid_utf8 : ℕ → String → DecodeError
  policy_violation : ℕ → DecodePolicyViolation → DecodeError

abbrev pub Decoded : Type 0 → Type 0
Decoded A = Result A DecodeError
