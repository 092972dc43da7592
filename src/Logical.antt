-- ===== src/Logical.antt =====
-- crates/tar-framing/src/logical.rs: archive members assembled from the frames of the stream. A
-- buffer that the reader reuses, and from which a header borrows, is the value it holds.
pub mod Lockstep
pub mod Names
pub mod Payload
mod Examples
use tar_codec.Base.{
  ℕ, ◌-◌, ◌≤◌, Bool, true, false, not, Option, none, some, List, [], ◌∷◌, ◌++◌, Bytes, take, drop,
  all, contains, position, leb, ◌==◌, if◌then◌else◌, and_then, ok, err, Result, ◌>>=◌, ◌>>◌,
  fail_if, ok_or,
}
use tar_codec.Text.{String, is_empty}
use tar_codec.Header.{ArchiveFormat, field, link_name_range, uname_range, gname_range}
use tar_codec.Pax.{
  PaxKind, PaxKeyword, PaxString, PaxValue, PaxRecord, PaxRecords, GlobalPaxRecords, PaxExtension,
  PaxState,
}
use tar_codec.Pax.Globals.{apply_global, effective_record}
use tar_codec.Stream.{
  GnuKind, UstarKind, DataOwner, FrameErrorInner, FrameError, at, Framed, HeaderFrame, PaxFrame,
  GnuFrame, DataFrame, Frame,
}
use tar_codec.Stream.Headers.{trim_nul, header_path}

pub record GnuMetadata : Type 0 where
  pub position : ℕ
  pub payload : Bytes

pub data MemberExtensions : Type 0 where
  pax : PaxState → MemberExtensions
  gnu : Option GnuMetadata → Option GnuMetadata → MemberExtensions

pub record Header : Type 0 where
  pub position : ℕ
  pub format : ArchiveFormat
  pub kind : UstarKind
  pub declared_size : ℕ
  pub effective_size : ℕ
  pub mode : Option ℕ
  pub uid : Option ℕ
  pub gid : Option ℕ
  pub mtime : Option ℕ
  pub uname : Bytes
  pub gname : Bytes
  pub path : Bytes
  pub link_name : Bytes

-- `MemberFrame`, without the cursor that it lends.
pub record MemberFrame : Type 0 where
  pub header : Header
  pub extensions : MemberExtensions

pub record PendingExtensions : Type 0 where
  pub global_pax : List PaxExtension
  pub local_pax : Option PaxExtension
  pub gnu_long_name : Option GnuMetadata
  pub gnu_long_link : Option GnuMetadata

abbrev pub no_extensions : PendingExtensions
no_extensions = record {
  global_pax = [];
  local_pax = none;
  gnu_long_name = none;
  gnu_long_link = none;
}

pub data ExtensionPayload : Type 0 where
  pax : ℕ → PaxKind → ExtensionPayload
  gnu : ℕ → GnuKind → ℕ → Bytes → ExtensionPayload

-- `TarReader` and `PayloadReader::remaining`, without the stream that they read.
pub record Assembly : Type 0 where
  pub global_pax_records : Option GlobalPaxRecords
  pub remaining : ℕ
  pub pending_extensions : PendingExtensions
  pub extension_payload : Option ExtensionPayload

abbrev pub new_assembly : Assembly
new_assembly = record {
  global_pax_records = none;
  remaining = 0;
  pending_extensions = no_extensions;
  extension_payload = none;
}

-- `copy_string_field_into`
abbrev copy_string_field : Bytes → Bytes
copy_string_field bytes = trim_nul bytes

-- `HeaderStorage::update`
unfoldable pub header_of : HeaderFrame → Header
unfolding header_path trim_nul
header_of frame = record {
  position = frame.position;
  format = frame.format;
  kind = frame.kind;
  declared_size = frame.declared_size;
  effective_size = frame.effective_size;
  mode = frame.mode;
  uid = frame.uid;
  gid = frame.gid;
  mtime = frame.mtime;
  uname = copy_string_field (field frame.block uname_range);
  gname = copy_string_field (field frame.block gname_range);
  path = header_path frame;
  link_name = copy_string_field (field frame.block link_name_range);
}

-- `PendingExtensions::set_gnu`
unfoldable pub set_gnu : GnuKind → GnuMetadata → PendingExtensions → PendingExtensions
set_gnu GnuKind.long_name m p = record p { gnu_long_name = some m }
set_gnu GnuKind.long_link m p = record p { gnu_long_link = some m }

unfoldable pub clear_extension_state : Assembly → Assembly
clear_extension_state a = record a { pending_extensions = no_extensions; extension_payload = none }

abbrev pub Assembled : Type 0
Assembled = Assembly × Framed (Option MemberFrame)

unfoldable pub same_pax_kind : PaxKind → PaxKind → Bool
same_pax_kind PaxKind.local PaxKind.local = true
same_pax_kind PaxKind.global PaxKind.global = true
same_pax_kind _ _ = false

unfoldable pub same_gnu_kind : GnuKind → GnuKind → Bool
same_gnu_kind GnuKind.long_name GnuKind.long_name = true
same_gnu_kind GnuKind.long_link GnuKind.long_link = true
same_gnu_kind _ _ = false

unfoldable pub owned_by_pax : DataOwner → PaxKind → Bool
unfolding same_pax_kind
owned_by_pax (DataOwner.pax k) kind = same_pax_kind k kind
owned_by_pax _ kind = false

unfoldable pub owned_by_gnu : DataOwner → GnuKind → Bool
unfolding same_gnu_kind
owned_by_gnu (DataOwner.gnu k) kind = same_gnu_kind k kind
owned_by_gnu _ kind = false

-- The arm of `ExtensionPayload::Pax` behind its check of the owner.
unfoldable pub complete_pax_data : ℕ → PaxKind → Option PaxRecords → Assembly → Assembly
complete_pax_data position kind none a = record a {
  extension_payload = some (ExtensionPayload.pax position kind);
}
complete_pax_data position PaxKind.global (some records) a = record a {
  global_pax_records = apply_global records a.global_pax_records;
  pending_extensions = record (a.pending_extensions) {
    global_pax =
        a.pending_extensions.global_pax
        ++ (record { position = position; kind = PaxKind.global; records = records } ∷ []);
  };
}
complete_pax_data position PaxKind.local (some records) a = record a {
  pending_extensions = record (a.pending_extensions) {
    local_pax = some (record { position = position; kind = PaxKind.local; records = records });
  };
}

-- The arm of `ExtensionPayload::Gnu` behind its checks.
unfoldable pub complete_gnu_data : ℕ → GnuKind → ℕ → Bytes → Assembly → Assembly
unfolding set_gnu
complete_gnu_data position kind remaining payload a =
    if remaining == 0
    then record a {
      pending_extensions =
          set_gnu kind (record { position = position; payload = payload }) a.pending_extensions;
    }
    else record a {
      extension_payload = some (ExtensionPayload.gnu position kind remaining payload);
    }

-- `process_extension_data`, on the payload that it has taken out of the reader.
unfoldable pub extension_data_in :
    Option ExtensionPayload → DataFrame → Assembly → Assembly × Framed (Unit {0})
unfolding owned_by_pax owned_by_gnu complete_pax_data complete_gnu_data
extension_data_in none frame a = (
  a,
  err (
      at frame.position (
        FrameErrorInner.unexpected_order "extension header or ordinary member header"
          "unattached payload data")),
)
extension_data_in (some (ExtensionPayload.pax position kind)) frame a =
    if owned_by_pax frame.owner kind
    then (complete_pax_data position kind frame.completed_pax_records a, ok tt)
    else (
      a,
      err (
          at frame.position
            (FrameErrorInner.unexpected_order "pax extension payload" "different payload data")),
    )
extension_data_in (some (ExtensionPayload.gnu position kind remaining payload)) frame a =
    if not (owned_by_gnu frame.owner kind)
    then (
      a,
      err (
          at frame.position
            (FrameErrorInner.unexpected_order "GNU metadata payload" "different payload data")),
    )
    else if leb frame.len remaining
    then (
      complete_gnu_data position kind (remaining - frame.len)
          (payload ++ take frame.len frame.block) a,
      ok tt,
    )
    else (
      a,
      err (
          at frame.position (
            FrameErrorInner.unexpected_order "bounded GNU metadata payload"
              "oversized GNU metadata payload")),
    )

unfoldable pub process_extension_data : DataFrame → Assembly → Assembly × Framed (Unit {0})
unfolding extension_data_in
process_extension_data frame a =
    extension_data_in a.extension_payload frame (record a { extension_payload = none })

unfoldable pub extensions_of : ArchiveFormat → Assembly → MemberExtensions
extensions_of ArchiveFormat.pax a = MemberExtensions.pax (record {
  global_records = a.global_pax_records;
  global_extensions = a.pending_extensions.global_pax;
  local_extension = a.pending_extensions.local_pax;
})
extensions_of ArchiveFormat.gnu a =
    MemberExtensions.gnu a.pending_extensions.gnu_long_name a.pending_extensions.gnu_long_link

-- The end of the arm of `Frame::Data`: an error clears what is pending.
unfoldable pub after_data : Assembly × Framed (Unit {0}) → Assembled
unfolding clear_extension_state
after_data (a, ok u) = (a, ok none)
after_data (a, err e) = (clear_extension_state a, err e)

unfoldable pub start_gnu : GnuFrame → Assembly → Assembly
unfolding set_gnu
start_gnu frame a =
    if frame.payload_size == 0
    then record a {
      pending_extensions =
          set_gnu frame.kind (record { position = frame.position; payload = [] })
            a.pending_extensions;
    }
    else record a {
      extension_payload =
          some (ExtensionPayload.gnu frame.position frame.kind frame.payload_size []);
    }

-- The `match frame` of `next_frame`: the member that it returns, if the frame is its header.
unfoldable pub process_frame : Frame → Assembly → Assembled
unfolding extensions_of header_of after_data process_extension_data start_gnu
process_frame (Frame.pax frame) a = (
  record a { extension_payload = some (ExtensionPayload.pax frame.position frame.kind) },
  ok none,
)
process_frame (Frame.gnu frame) a = (start_gnu frame a, ok none)
process_frame (Frame.header frame) a = (
  record a { pending_extensions = no_extensions; remaining = frame.effective_size },
  ok (some (record { header = header_of frame; extensions = extensions_of frame.format a })),
)
process_frame (Frame.payload frame) a = after_data (process_extension_data frame a)

unfoldable pub reject_nul : ℕ → String → Bytes → Framed (Unit {0})
reject_nul p name value =
    fail_if (contains 0 value) (at p (FrameErrorInner.nul_in_member_name name))

-- The `select` of `effective_path` and of `effective_link_path`.
abbrev pub path_value : PaxRecord → Option (PaxValue PaxString)
path_value (PaxRecord.path v) = some v
path_value _ = none

abbrev pub linkpath_value : PaxRecord → Option (PaxValue PaxString)
linkpath_value (PaxRecord.linkpath v) = some v
linkpath_value _ = none

unfoldable pub pax_value : ℕ → String → PaxValue PaxString → Framed Bytes
pax_value p name (PaxValue.value (PaxString.utf8 bytes)) = ok bytes
pax_value p name (PaxValue.value (PaxString.binary bytes)) = ok bytes
pax_value p name PaxValue.deleted = err (at p (FrameErrorInner.deleted_pax_metadata name))

unfoldable pub resolve_pax_text :
    ℕ
    → PaxState
    → PaxKeyword
    → String
    → Bytes
    → (PaxRecord → Option (PaxValue PaxString))
    → Framed Bytes
unfolding pax_value effective_record
resolve_pax_text p state keyword name header_value select =
    elim (and_then (effective_record state keyword) select) [
      | some v ↦ pax_value p name v
      | none ↦ ok header_value
    ]

unfoldable pub parse_gnu_metadata : GnuMetadata → GnuKind → Framed Bytes
unfolding position
parse_gnu_metadata m kind = do
  terminator ←
      ok_or (position 0 m.payload)
        (at m.position (FrameErrorInner.invalid_gnu_metadata kind "value is not NUL-terminated"))
  _ ← fail_if (not (all (λ byte. byte == 0) (drop terminator m.payload))) (
      at m.position
        (FrameErrorInner.invalid_gnu_metadata kind "non-NUL bytes follow the terminator"))
  ok (take terminator m.payload)

unfoldable pub gnu_text : Option GnuMetadata → GnuKind → Bytes → Framed Bytes
unfolding parse_gnu_metadata
gnu_text none kind header_value = ok header_value
gnu_text (some m) kind header_value = parse_gnu_metadata m kind

unfoldable pub effective_member_path : Header → MemberExtensions → Framed Bytes
unfolding resolve_pax_text gnu_text
effective_member_path h (MemberExtensions.pax state) =
    resolve_pax_text h.position state PaxKeyword.path "path" h.path path_value
effective_member_path h (MemberExtensions.gnu long_name long_link) =
    gnu_text long_name GnuKind.long_name h.path

unfoldable pub effective_path : MemberFrame → Framed Bytes
unfolding effective_member_path reject_nul
effective_path m = do
  path ← effective_member_path m.header m.extensions
  _ ← fail_if (is_empty path) (at m.header.position FrameErrorInner.empty_member_path)
  _ ← reject_nul m.header.position "path" path
  ok path

unfoldable pub member_link_path : Header → MemberExtensions → Framed Bytes
unfolding resolve_pax_text gnu_text
member_link_path h (MemberExtensions.pax state) =
    resolve_pax_text h.position state PaxKeyword.linkpath "linkpath" h.link_name linkpath_value
member_link_path h (MemberExtensions.gnu long_name long_link) =
    gnu_text long_link GnuKind.long_link h.link_name

unfoldable pub effective_link_path : MemberFrame → Framed Bytes
unfolding member_link_path reject_nul
effective_link_path m = do
  path ← member_link_path m.header m.extensions
  _ ← reject_nul m.header.position "link path" path
  ok path
