-- ===== src/Logical/Lockstep.antt =====
-- The assembly of crates/tar-framing/src/logical.rs beside the machine of stream.rs: what each state of
-- the stream says of what the assembly has pending.
pub mod Steps
pub mod Headers
pub mod Payloads
pub mod Blocks
use tar_codec.Base.{
  ℕ, ◌-◌, ◌≡◌, refl, sym, ap, ◌∙◌, Bool, true, false, Option, none, some, List, [], ◌∷◌, ◌++◌,
  arith, Bytes, Result, ok, err, ◌==◌, if◌then◌else◌, ltb, ◌||◌, Bool-cases, leb, take, length,
  subst, inl, inr,
}
use tar_codec.Header.{ArchiveFormat}
use tar_codec.Pax.{PaxError, PaxKind, PaxRecords, GlobalPaxRecords, PaxExtension}
use tar_codec.Stream.{
  GnuKind, DataOwner, FrameErrorInner, FrameError, at, Framed, Frame, HeaderFrame, PendingGnu,
  no_pending, State, TarStream, StreamPolicy, new_stream,
}
use tar_codec.Stream.Headers.{ParsedHeader, parse_header, is_zero_block}
use tar_codec.Stream.Machine
use tar_codec.Stream.Machine.{
  Handler, process_pax_header, process_ustar_header, process_gnu_header, already_seen, check_format,
  same_format, after, boundary_in, parse_payload, inherited_charset, complete_pax, data_frame,
  block_len, process_pax_boundary_header, begin_gnu_extension, process_gnu_extension,
  process_gnu_member, gnu_header_in, extension_kind, process_boundary_header, read_pax, process_in,
  read_ustar_header, read_gnu_header, process_in, process_block, parse_format_checked_header,
}
use tar_codec.Stream.Invariant.{StateFits, IsValid, StateFits-failed}
use tar_codec.Pax.Parse.{parse_records}
use tar_codec.Logical.{
  GnuMetadata, PendingExtensions, ExtensionPayload, Assembly, MemberFrame, Assembled, process_frame,
  process_extension_data, extension_data_in, owned_by_gnu, complete_gnu_data, new_assembly,
}

abbrev pub is_some {ℓ} : {A : Type ℓ} → Option A → Bool
is_some none = false
is_some (some a) = true

abbrev pub records_of : Option PaxExtension → Option PaxRecords
records_of none = none
records_of (some e) = some e.records

-- Nothing of the next member has been read, but for global extensions.
abbrev pub Fresh : PendingExtensions → Type 0
Fresh p = (p.local_pax ≡ none) × (p.gnu_long_name ≡ none) × (p.gnu_long_link ≡ none)

-- The GNU extensions that are pending are those that the stream has seen, the one whose payload is
-- being read counted in.
abbrev pub Seen : PendingGnu → PendingExtensions → Type 0
Seen pending p =
    (p.local_pax ≡ none)
    × (is_some p.gnu_long_name ≡ pending.long_name)
    × (is_some p.gnu_long_link ≡ pending.long_link)

abbrev pub unmark : GnuKind → PendingGnu → PendingGnu
unmark GnuKind.long_name pending = record pending { long_name = false }
unmark GnuKind.long_link pending = record pending { long_link = false }

-- The reader has a member's payload left to drain.
abbrev pub is_reading_member : State → Bool
is_reading_member (State.reading_member remaining) = true
is_reading_member _ = false

-- What the assembly has, for each state of the stream.
abbrev pub Matches : State → Assembly → Type 0
Matches State.awaiting_header a = (a.extension_payload ≡ none) × Fresh a.pending_extensions
Matches (State.reading_pax kind h remaining payload) a =
    (a.extension_payload ≡ some (ExtensionPayload.pax h kind)) × Fresh a.pending_extensions
Matches (State.awaiting_ustar_header records) a =
    (a.extension_payload ≡ none)
    × (records_of a.pending_extensions.local_pax ≡ some records)
    × (a.pending_extensions.gnu_long_name ≡ none)
    × (a.pending_extensions.gnu_long_link ≡ none)
Matches (State.reading_gnu kind remaining pending) a =
    ((h : ℕ) × (bytes : Bytes) × (a.extension_payload
        ≡ some (ExtensionPayload.gnu h kind remaining bytes)))
    × Seen (unmark kind pending) a.pending_extensions
Matches (State.awaiting_gnu_member pending) a =
    (a.extension_payload ≡ none) × Seen pending a.pending_extensions
Matches (State.reading_member remaining) a =
    (a.extension_payload ≡ none) × Fresh a.pending_extensions × (a.remaining ≡ remaining)
Matches _ a = Unit {0}

pub record InStep (a : Assembly) (s : TarStream) : Type 0 where
  pub globals : a.global_pax_records ≡ s.global_pax_records
  pub pending : Matches s.state a

-- After a frame the two are in step, and the assembly has not refused the frame.
abbrev pub Follows : Assembled → TarStream → Type 0
Follows (a, ok member) s = InStep a s
Follows (a, err e) s = ⊥

abbrev pub FollowsFrame : Assembly → TarStream × Framed Frame → Type 0
FollowsFrame a (s, ok frame) = Follows (process_frame frame a) s
FollowsFrame a (s, err e) = Unit {0}

abbrev pub FollowsBlock : Assembly → TarStream × Framed (Option Frame) → Type 0
FollowsBlock a (s, ok (some frame)) = Follows (process_frame frame a) s
FollowsBlock a (s, ok none) = InStep a s
FollowsBlock a (s, err e) = Unit {0}
