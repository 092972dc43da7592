-- ===== src/Pax.antt =====
-- crates/tar-framing/src/pax.rs: the data of pax extended headers. `Arc<str>` and `Arc<[u8]>` are
-- byte lists; a `HashMap` is an association list.
mod Examples
pub mod Parse
pub mod Globals
pub mod Total
pub mod Keywords
pub mod Updates
pub mod Overrides
use tar_codec.Base.{
  ℕ, zero, suc, Bool, true, false, ◌&&◌, Option, none, some, List, [], ◌∷◌, Bytes, eq_bytes, ◌==◌,
}
use tar_codec.Text.{String}

pub data PaxKind : Type 0 where
  local global : PaxKind

pub data PaxError : Type 0 where
  invalid_records : String → PaxError
  invalid_utf8 : PaxError
  invalid_keyword : Bytes → PaxError
  invalid_integer : String → Bytes → PaxError
  invalid_time : String → Bytes → PaxError
  unsupported_charset : Bytes → PaxError
  arithmetic_overflow : String → PaxError

pub data PaxKeyword : Type 0 where
  atime charset comment ctime gid gname hdrcharset linkpath mtime path size uid uname : PaxKeyword
  realtime : Bytes → PaxKeyword
  security : Bytes → PaxKeyword
  vendor : Bytes → Bytes → PaxKeyword

pub data HdrCharset : Type 0 where
  utf8 binary : HdrCharset

pub data PaxString : Type 0 where
  utf8 : Bytes → PaxString
  binary : Bytes → PaxString

pub data PaxValue {ℓ} (A : Type ℓ) : Type ℓ where
  value : A → PaxValue A
  deleted : PaxValue A

pub data PaxRecord : Type 0 where
  atime : PaxValue ℕ → PaxRecord
  charset : PaxValue Bytes → PaxRecord
  comment : PaxValue Bytes → PaxRecord
  ctime : PaxValue ℕ → PaxRecord
  gid : PaxValue ℕ → PaxRecord
  gname : PaxValue PaxString → PaxRecord
  hdrcharset : PaxValue HdrCharset → PaxRecord
  linkpath : PaxValue PaxString → PaxRecord
  mtime : PaxValue ℕ → PaxRecord
  path : PaxValue PaxString → PaxRecord
  realtime : Bytes → PaxValue Bytes → PaxRecord
  security : Bytes → PaxValue Bytes → PaxRecord
  size : PaxValue ℕ → PaxRecord
  uid : PaxValue ℕ → PaxRecord
  uname : PaxValue PaxString → PaxRecord
  vendor : Bytes → Bytes → PaxValue Bytes → PaxRecord

-- `PaxRecords(Vec<PaxRecord>)`
abbrev pub PaxRecords : Type 0
PaxRecords = List PaxRecord

unfoldable pub keyword : PaxRecord → PaxKeyword
keyword (PaxRecord.atime v) = PaxKeyword.atime
keyword (PaxRecord.charset v) = PaxKeyword.charset
keyword (PaxRecord.comment v) = PaxKeyword.comment
keyword (PaxRecord.ctime v) = PaxKeyword.ctime
keyword (PaxRecord.gid v) = PaxKeyword.gid
keyword (PaxRecord.gname v) = PaxKeyword.gname
keyword (PaxRecord.hdrcharset v) = PaxKeyword.hdrcharset
keyword (PaxRecord.linkpath v) = PaxKeyword.linkpath
keyword (PaxRecord.mtime v) = PaxKeyword.mtime
keyword (PaxRecord.path v) = PaxKeyword.path
keyword (PaxRecord.realtime name v) = PaxKeyword.realtime name
keyword (PaxRecord.security name v) = PaxKeyword.security name
keyword (PaxRecord.size v) = PaxKeyword.size
keyword (PaxRecord.uid v) = PaxKeyword.uid
keyword (PaxRecord.uname v) = PaxKeyword.uname
keyword (PaxRecord.vendor vendor_name name v) = PaxKeyword.vendor vendor_name name

-- The derived `PartialEq` of `PaxKeyword` compares the variants, then their fields.
abbrev pub variant : PaxKeyword → ℕ
variant PaxKeyword.atime = 0
variant PaxKeyword.charset = 1
variant PaxKeyword.comment = 2
variant PaxKeyword.ctime = 3
variant PaxKeyword.gid = 4
variant PaxKeyword.gname = 5
variant PaxKeyword.hdrcharset = 6
variant PaxKeyword.linkpath = 7
variant PaxKeyword.mtime = 8
variant PaxKeyword.path = 9
variant (PaxKeyword.realtime name) = 10
variant (PaxKeyword.security name) = 11
variant PaxKeyword.size = 12
variant PaxKeyword.uid = 13
variant PaxKeyword.uname = 14
variant (PaxKeyword.vendor vendor_name name) = 15

abbrev pub variant_fields : PaxKeyword → Bytes × Bytes
variant_fields (PaxKeyword.realtime name) = (name, [])
variant_fields (PaxKeyword.security name) = (name, [])
variant_fields (PaxKeyword.vendor vendor_name name) = (vendor_name, name)
variant_fields _ = ([], [])

unfoldable pub keyword_eq : PaxKeyword → PaxKeyword → Bool
unfolding eq_bytes
keyword_eq a b =
    variant a == variant b
    && eq_bytes (variant_fields a).0 (variant_fields b).0
    && eq_bytes (variant_fields a).1 (variant_fields b).1

-- `GlobalPaxRecords`: the records, and the index of the effective record of each keyword.
pub record GlobalPaxRecords : Type 0 where
  pub records : PaxRecords
  pub indices : List (PaxKeyword × ℕ)

pub record PaxExtension : Type 0 where
  pub position : ℕ
  pub kind : PaxKind
  pub records : PaxRecords

pub record PaxState : Type 0 where
  pub global_records : Option GlobalPaxRecords
  pub global_extensions : List PaxExtension
  pub local_extension : Option PaxExtension
