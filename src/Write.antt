-- ===== src/Write.antt =====
-- crates/tar-framing/src/write.rs: the writer of pax framing. A buffer that is appended to is the
-- list of its bytes.
mod Examples
pub mod Decimal
pub mod Records
pub mod Member
use tar_codec.Base.{ℕ, Bool, Option, none, some, List, [], ◌∷◌, Bytes, Result}
use tar_codec.Text.{String, codes}
use tar_codec.Pax.{PaxKeyword}
use tar_codec.Stream.{UstarKind}

pub data FramingWriteError : Type 0 where
  unsupported_member_kind : UstarKind → FramingWriteError
  invalid_member_size : UstarKind → ℕ → FramingWriteError
  missing_link_path : FramingWriteError
  unexpected_link_path : UstarKind → FramingWriteError
  invalid_text : String → FramingWriteError
  invalid_pax_record_keyword : FramingWriteError
  directory_required_path_suffix : UstarKind → FramingWriteError
  extended_header_too_large : ℕ → FramingWriteError
  arithmetic_overflow : String → FramingWriteError

abbrev pub Written : Type 0 → Type 0
Written A = Result A FramingWriteError

pub record PaxMember : Type 0 where
  pub path : Bytes
  pub kind : UstarKind
  pub size : ℕ
  pub link_path : Option Bytes
  pub executable : Bool

-- `PaxKeyword::components` of pax.rs
unfoldable pub components : PaxKeyword → Bytes × Option Bytes
components PaxKeyword.atime = (codes "atime", none)
components PaxKeyword.charset = (codes "charset", none)
components PaxKeyword.comment = (codes "comment", none)
components PaxKeyword.ctime = (codes "ctime", none)
components PaxKeyword.gid = (codes "gid", none)
components PaxKeyword.gname = (codes "gname", none)
components PaxKeyword.hdrcharset = (codes "hdrcharset", none)
components PaxKeyword.linkpath = (codes "linkpath", none)
components PaxKeyword.mtime = (codes "mtime", none)
components PaxKeyword.path = (codes "path", none)
components (PaxKeyword.realtime name) = (codes "realtime", some name)
components (PaxKeyword.security name) = (codes "security", some name)
components PaxKeyword.size = (codes "size", none)
components PaxKeyword.uid = (codes "uid", none)
components PaxKeyword.uname = (codes "uname", none)
components (PaxKeyword.vendor vendor_name name) = (vendor_name, some name)
