-- ===== src/Stream.antt =====
-- crates/tar-framing/src/stream.rs, lib.rs and error.rs: the frames, errors and state of the
-- physical stream. A `&'static str` is a native string, an `io::Error` a number.
mod Examples
pub mod Headers
pub mod Machine
pub mod Format
pub mod Invariant
pub mod Reader
pub mod Chunk
pub mod Diagram
pub mod Payload
use tar_codec.Base.{ℕ, Bool, true, false, Option, none, some, Bytes, ◌*◌, Result, ok, err}
use tar_codec.Text.{String}
use tar_codec.Header.{ArchiveFormat}
use tar_codec.Pax.{PaxKind, PaxError, PaxRecords, GlobalPaxRecords}

pub data GnuKind : Type 0 where
  long_name long_link : GnuKind

pub data UstarKind : Type 0 where
  regular hard_link symbolic_link character_device block_device directory fifo contiguous :
      UstarKind

pub data DataOwner : Type 0 where
  pax : PaxKind → DataOwner
  gnu : GnuKind → DataOwner
  member : DataOwner

pub data FrameErrorInner : Type 0 where
  io : ℕ → FrameErrorInner
  incomplete_block : ℕ → FrameErrorInner
  invalid_identity : Bytes → FrameErrorInner
  invalid_checksum : Option ℕ → ℕ → FrameErrorInner
  invalid_size : Bytes → FrameErrorInner
  invalid_numeric_field : String → Bytes → FrameErrorInner
  unterminated_ustar_string_field : String → FrameErrorInner
  unsupported_typeflag : ℕ → FrameErrorInner
  format_mismatch : ArchiveFormat → ArchiveFormat → FrameErrorInner
  unexpected_order : String → String → FrameErrorInner
  invalid_pax_record : PaxError → FrameErrorInner
  extension_too_large : ArchiveFormat → ℕ → ℕ → FrameErrorInner
  global_pax_extensions_too_large : ℕ → ℕ → FrameErrorInner
  invalid_gnu_metadata : GnuKind → String → FrameErrorInner
  deleted_pax_metadata : String → FrameErrorInner
  empty_member_path : FrameErrorInner
  nul_in_member_name : String → FrameErrorInner
  arithmetic_overflow : String → FrameErrorInner
  invalid_member_size : UstarKind → ℕ → FrameErrorInner
  truncated_payload : DataOwner → ℕ → FrameErrorInner
  unexpected_eof : String → FrameErrorInner
  missing_end_marker : FrameErrorInner
  invalid_end_marker : FrameErrorInner

pub record FrameError : Type 0 where
  pub position : ℕ
  pub inner : FrameErrorInner

abbrev pub at : ℕ → FrameErrorInner → FrameError
at p e = record { position = p; inner = e }

abbrev pub Framed : Type 0 → Type 0
Framed A = Result A FrameError

pub record HeaderFrame : Type 0 where
  pub position : ℕ
  pub block : Bytes
  pub format : ArchiveFormat
  pub kind : UstarKind
  pub declared_size : ℕ
  pub effective_size : ℕ
  pub mode : Option ℕ
  pub uid : Option ℕ
  pub gid : Option ℕ
  pub mtime : Option ℕ

pub record PaxFrame : Type 0 where
  pub position : ℕ
  pub block : Bytes
  pub kind : PaxKind
  pub payload_size : ℕ

pub record GnuFrame : Type 0 where
  pub position : ℕ
  pub block : Bytes
  pub kind : GnuKind
  pub payload_size : ℕ

pub record DataFrame : Type 0 where
  pub position : ℕ
  pub block : Bytes
  pub len : ℕ
  pub owner : DataOwner
  pub completed_pax_records : Option PaxRecords

pub data Frame : Type 0 where
  pax : PaxFrame → Frame
  gnu : GnuFrame → Frame
  header : HeaderFrame → Frame
  payload : DataFrame → Frame

pub record PendingGnu : Type 0 where
  pub long_name : Bool
  pub long_link : Bool

abbrev pub no_pending : PendingGnu
no_pending = record { long_name = false; long_link = false }

pub data State : Type 0 where
  awaiting_header : State
  reading_pax : PaxKind → ℕ → ℕ → Bytes → State
  awaiting_ustar_header : PaxRecords → State
  reading_gnu : GnuKind → ℕ → PendingGnu → State
  awaiting_gnu_member : PendingGnu → State
  reading_member : ℕ → State
  awaiting_second_zero : State
  complete : State
  failed : State

pub record StreamPolicy : Type 0 where
  pub max_pax_extension_size : ℕ
  pub max_global_pax_extensions_size : ℕ
  pub allow_all_nul_numeric_fields : Bool
  pub max_gnu_extension_size : ℕ

abbrev pub default_policy : StreamPolicy
default_policy = record {
  max_pax_extension_size = 256 * 1024;
  max_global_pax_extensions_size = 4 * (256 * 1024);
  allow_all_nul_numeric_fields = true;
  max_gnu_extension_size = 128 * 1024;
}

-- What `process_block` reads and writes of a `TarStream`; the reader stands in Stream/Reader.
pub record TarStream : Type 0 where
  pub format : Option ArchiveFormat
  pub global_pax_records : Option GlobalPaxRecords
  pub policy : StreamPolicy
  pub global_pax_extensions_size : ℕ
  pub state : State

abbrev pub new_stream : StreamPolicy → TarStream
new_stream p = record {
  format = none;
  global_pax_records = none;
  policy = p;
  global_pax_extensions_size = 0;
  state = State.awaiting_header;
}
