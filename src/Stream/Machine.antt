-- ===== src/Stream/Machine.antt =====
-- crates/tar-framing/src/stream.rs: `process_block` and the handlers that it calls. A handler maps
-- the stream to the stream after it, and a result: what it wrote before an error stays written.
use tar_codec.Base.{
  ℕ, ◌-◌, min, Bool, true, false, not, ◌||◌, Option, none, some, [], ◌++◌, Bytes, take, ltb, ◌==◌,
  if◌then◌else◌, checked_add, ok, err,
}
use tar_codec.Header.{ArchiveFormat, block_size}
use tar_codec.Pax.{PaxKind, PaxError, HdrCharset, PaxRecords, GlobalPaxRecords}
use tar_codec.Pax.Parse.{parse_records}
use tar_codec.Pax.Globals.{apply_global, hdrcharset}
use tar_codec.Stream.{
  GnuKind, DataOwner, FrameErrorInner, FrameError, at, Framed, Frame, PendingGnu, no_pending, State,
  TarStream,
}
use tar_codec.Stream.Headers.{ParsedHeader, is_zero_block, parse_header, ustar_frame, gnu_frame}

abbrev pub Handler : Type 0 → Type 0
Handler A = TarStream → TarStream × Framed A

abbrev pub pure : {A : Type 0} → A → Handler A
pure a s = (s, ok a)

abbrev pub fail : {A : Type 0} → FrameError → Handler A
fail e s = (s, err e)

-- A call that reads the stream and does not write it.
abbrev pub lift : {A : Type 0} → Framed A → Handler A
lift r s = (s, r)

abbrev pub after : {A B : Type 0} → (A → Handler B) → TarStream → Framed A → TarStream × Framed B
after f s (ok a) = f a s
after f s (err e) = (s, err e)

infixl 5 ◌>>=◌ ◌>>◌
abbrev pub ◌>>=◌ : {A B : Type 0} → Handler A → (A → Handler B) → Handler B
◌>>=◌ m f s = after f (m s).0 (m s).1

abbrev pub ◌>>◌ : {B : Type 0} → Handler (Unit {0}) → Handler B → Handler B
m >> k = m >>= λ _. k

abbrev pub fail_if : Bool → FrameError → Handler (Unit {0})
fail_if true e s = (s, err e)
fail_if false e s = (s, ok tt)

abbrev pub set_state : State → Handler (Unit {0})
set_state q s = (record s { state = q }, ok tt)

abbrev unexpected : ℕ → FrameErrorInner → FrameError
unexpected p e = at p e

unfoldable pub member_payload_state : ℕ → State
member_payload_state remaining =
    if remaining == 0 then State.awaiting_header else State.reading_member remaining

unfoldable pub same_format : ArchiveFormat → ArchiveFormat → Bool
same_format ArchiveFormat.pax ArchiveFormat.pax = true
same_format ArchiveFormat.gnu ArchiveFormat.gnu = true
same_format _ _ = false

unfoldable pub check_format : ℕ → ParsedHeader → Option ArchiveFormat → Handler ParsedHeader
unfolding same_format
check_format p parsed none s = (record s { format = some parsed.format }, ok parsed)
check_format p parsed (some expected) s =
    if same_format parsed.format expected
    then (s, ok parsed)
    else (s, err (at p (FrameErrorInner.format_mismatch expected parsed.format)))

unfoldable pub parse_format_checked_header : ℕ → Bytes → Handler ParsedHeader
unfolding check_format
parse_format_checked_header p block = do
  parsed ← lift (parse_header p block)
  λ s. check_format p parsed s.format s

overflow : ℕ → FrameError
overflow p = at p (FrameErrorInner.arithmetic_overflow "global pax extension payload total")

-- The archive-wide limit on global extensions.
count_total : ℕ → Option ℕ → Handler (Unit {0})
unfolding overflow
count_total p none s = (s, err (overflow p))
count_total p (some total) s =
    if ltb s.policy.max_global_pax_extensions_size total
    then (
      s,
      err (
          at p (
            FrameErrorInner.global_pax_extensions_too_large total
              s.policy.max_global_pax_extensions_size)),
    )
    else (record s { global_pax_extensions_size = total }, ok tt)

count_global : ℕ → ℕ → PaxKind → Handler (Unit {0})
unfolding count_total
count_global p payload_size PaxKind.local s = (s, ok tt)
count_global p payload_size PaxKind.global s =
    count_total p (checked_add s.global_pax_extensions_size payload_size) s

unfoldable pub process_pax_header : ℕ → Bytes → ℕ → PaxKind → Handler Frame
unfolding count_global
process_pax_header p block payload_size kind = do
  λ s.
      fail_if (ltb s.policy.max_pax_extension_size payload_size)
        (at p (
          FrameErrorInner.extension_too_large ArchiveFormat.pax payload_size
            s.policy.max_pax_extension_size))
        s
  count_global p payload_size kind
  fail_if (payload_size == 0) (
      at p (
        FrameErrorInner.invalid_pax_record
          (PaxError.invalid_records "extended header payload contains no records")))
  set_state (State.reading_pax kind p payload_size [])
  pure
      (Frame.pax (record { position = p; block = block; kind = kind; payload_size = payload_size }))

unfoldable pub process_ustar_header : ℕ → Bytes → ParsedHeader → Option PaxRecords → Handler Frame
unfolding member_payload_state
process_ustar_header p block parsed locals = do
  h ← λ s.
      lift
        (ustar_frame p block parsed.typeflag parsed.size locals s.global_pax_records
          s.policy.allow_all_nul_numeric_fields)
        s
  set_state (member_payload_state h.effective_size)
  pure (Frame.header h)

unfoldable pub process_pax_boundary_header : ℕ → Bytes → ParsedHeader → Handler Frame
unfolding process_pax_header process_ustar_header
process_pax_boundary_header p block parsed =
    if parsed.typeflag == b'x'
    then process_pax_header p block parsed.size PaxKind.local
    else if parsed.typeflag == b'g'
    then process_pax_header p block parsed.size PaxKind.global
    else process_ustar_header p block parsed none

unfoldable pub extension_kind : ℕ → Option GnuKind
extension_kind typeflag =
    if typeflag == b'L'
    then some GnuKind.long_name
    else if typeflag == b'K'
    then some GnuKind.long_link
    else none

unfoldable pub already_seen : GnuKind → PendingGnu → Bool
already_seen GnuKind.long_name pending = pending.long_name
already_seen GnuKind.long_link pending = pending.long_link

unfoldable pub mark_seen : GnuKind → PendingGnu → PendingGnu
mark_seen GnuKind.long_name pending = record pending { long_name = true }
mark_seen GnuKind.long_link pending = record pending { long_link = true }

-- The end of the arm of an extension, behind its checks.
unfoldable pub begin_gnu_extension : ℕ → Bytes → ParsedHeader → PendingGnu → GnuKind → Handler Frame
unfolding mark_seen
begin_gnu_extension p block parsed pending kind = do
  set_state (
      if parsed.size == 0
      then State.awaiting_gnu_member (mark_seen kind pending)
      else State.reading_gnu kind parsed.size (mark_seen kind pending))
  pure (Frame.gnu (record { position = p; block = block; kind = kind; payload_size = parsed.size }))

unfoldable pub process_gnu_extension :
    ℕ → Bytes → ParsedHeader → PendingGnu → GnuKind → Handler Frame
unfolding already_seen begin_gnu_extension
process_gnu_extension p block parsed pending kind = do
  fail_if (already_seen kind pending) (
      at p (
        FrameErrorInner.unexpected_order
          "ordinary GNU member header or the other GNU metadata extension"
          "duplicate GNU metadata extension"))
  λ s.
      fail_if (ltb s.policy.max_gnu_extension_size parsed.size)
        (at p (
          FrameErrorInner.extension_too_large ArchiveFormat.gnu parsed.size
            s.policy.max_gnu_extension_size))
        s
  begin_gnu_extension p block parsed pending kind

unfoldable pub process_gnu_member : ℕ → Bytes → ParsedHeader → PendingGnu → Handler Frame
unfolding member_payload_state
process_gnu_member p block parsed pending = do
  h ← λ s.
      lift
        (gnu_frame p block parsed.typeflag parsed.size pending.long_link
          s.policy.allow_all_nul_numeric_fields)
        s
  set_state (member_payload_state h.effective_size)
  pure (Frame.header h)

unfoldable pub gnu_header_in :
    ℕ → Bytes → ParsedHeader → PendingGnu → Option GnuKind → Handler Frame
unfolding process_gnu_extension process_gnu_member
gnu_header_in p block parsed pending (some kind) = process_gnu_extension p block parsed pending kind
gnu_header_in p block parsed pending none = process_gnu_member p block parsed pending

unfoldable pub process_gnu_header : ℕ → Bytes → ParsedHeader → PendingGnu → Handler Frame
unfolding gnu_header_in extension_kind
process_gnu_header p block parsed pending =
    gnu_header_in p block parsed pending (extension_kind parsed.typeflag)

unfoldable pub boundary_in : ArchiveFormat → ℕ → Bytes → ParsedHeader → Handler Frame
unfolding process_pax_boundary_header process_gnu_header
boundary_in ArchiveFormat.pax p block parsed = process_pax_boundary_header p block parsed
boundary_in ArchiveFormat.gnu p block parsed = process_gnu_header p block parsed no_pending

unfoldable pub process_boundary_header : ℕ → Bytes → Handler Frame
unfolding boundary_in parse_format_checked_header
process_boundary_header p block = do
  parsed ← parse_format_checked_header p block
  boundary_in parsed.format p block parsed

-- The length of the meaningful part of a payload block.
abbrev pub block_len : ℕ → ℕ
block_len remaining = min remaining block_size

abbrev pub data_frame : ℕ → Bytes → ℕ → DataOwner → Option PaxRecords → Frame
data_frame p block n owner records = Frame.payload (record {
  position = p;
  block = block;
  len = n;
  owner = owner;
  completed_pax_records = records;
})

unfoldable pub inherited_charset : Option GlobalPaxRecords → HdrCharset
inherited_charset none = HdrCharset.utf8
inherited_charset (some g) = hdrcharset g

unfoldable pub complete_pax : PaxKind → PaxRecords → Handler (Unit {0})
complete_pax PaxKind.local records s =
    (record s { state = State.awaiting_ustar_header records }, ok tt)
complete_pax PaxKind.global records s = (
  record s {
    global_pax_records = apply_global records s.global_pax_records;
    state = State.awaiting_header;
  },
  ok tt,
)

unfoldable pub parse_payload : ℕ → Bytes → Handler PaxRecords
unfolding inherited_charset
parse_payload header_position payload s =
    elim (parse_records payload (inherited_charset s.global_pax_records)) [
      | ok records ↦ (s, ok records)
      | err e ↦ (s, err (at header_position (FrameErrorInner.invalid_pax_record e)))
    ]

-- The arm of `State::ReadingPax`.
unfoldable pub read_pax : PaxKind → ℕ → ℕ → Bytes → ℕ → Bytes → Handler (Option Frame)
unfolding parse_payload complete_pax
read_pax kind header_position remaining payload p block =
    let n = block_len remaining in
    let payload' = payload ++ take n block in
    if remaining - n == 0
    then (do
      records ← parse_payload header_position payload'
      complete_pax kind records
      pure (some (data_frame p block n (DataOwner.pax kind) (some records))))
    else (do
      set_state (State.reading_pax kind header_position (remaining - n) payload')
      pure (some (data_frame p block n (DataOwner.pax kind) none)))

-- The arm of `State::AwaitingUstarHeader`.
unfoldable pub read_ustar_header : PaxRecords → ℕ → Bytes → Handler (Option Frame)
unfolding parse_format_checked_header process_ustar_header
read_ustar_header records p block = do
  fail_if (is_zero_block block) (
      at p (
        FrameErrorInner.unexpected_order "ordinary ustar member header after a local pax header"
          "end-of-archive marker"))
  parsed ← parse_format_checked_header p block
  fail_if (parsed.typeflag == b'x' || parsed.typeflag == b'g') (
      at p (
        FrameErrorInner.unexpected_order "ordinary ustar member header after a local pax header"
          "another pax extended header"))
  frame ← process_ustar_header p block parsed (some records)
  pure (some frame)

-- The arm of `State::AwaitingGnuMember`.
unfoldable pub read_gnu_header : PendingGnu → ℕ → Bytes → Handler (Option Frame)
unfolding parse_format_checked_header process_gnu_header
read_gnu_header pending p block = do
  fail_if (is_zero_block block) (
      at p (
        FrameErrorInner.unexpected_order "ordinary GNU member header after a GNU metadata extension"
          "end-of-archive marker"))
  parsed ← parse_format_checked_header p block
  frame ← process_gnu_header p block parsed pending
  pure (some frame)

-- The `match` of `process_block`, on the state that it has taken out of the stream.
unfoldable pub process_in : State → ℕ → Bytes → Handler (Option Frame)
unfolding process_boundary_header read_pax read_ustar_header read_gnu_header member_payload_state
process_in State.awaiting_header p block =
    if is_zero_block block
    then (do set_state State.awaiting_second_zero; pure none)
    else (do frame ← process_boundary_header p block; pure (some frame))
process_in (State.reading_pax kind header_position remaining payload) p block =
    read_pax kind header_position remaining payload p block
process_in (State.awaiting_ustar_header records) p block = read_ustar_header records p block
process_in (State.reading_gnu kind remaining pending) p block = do
  let n = block_len remaining
  set_state (
      if remaining - n == 0
      then State.awaiting_gnu_member pending
      else State.reading_gnu kind (remaining - n) pending)
  pure (some (data_frame p block n (DataOwner.gnu kind) none))
process_in (State.awaiting_gnu_member pending) p block = read_gnu_header pending p block
process_in (State.reading_member remaining) p block = do
  let n = block_len remaining
  set_state (member_payload_state (remaining - n))
  pure (some (data_frame p block n DataOwner.member none))
process_in State.awaiting_second_zero p block = do
  fail_if (not (is_zero_block block)) (at p FrameErrorInner.invalid_end_marker)
  set_state State.complete
  pure none
process_in State.complete p block = do set_state State.complete; pure none
process_in State.failed p block = pure none

-- `mem::replace(&mut self.state, State::Failed)`, then the match.
unfoldable pub process_block : ℕ → Bytes → Handler (Option Frame)
unfolding process_in
process_block p block s = process_in s.state p block (record s { state = State.failed })
