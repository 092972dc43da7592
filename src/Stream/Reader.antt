-- ===== src/Stream/Reader.antt =====
-- crates/tar-framing/src/stream.rs: `poll_read_block`, `handle_eof` and `poll_next_frame`, over a
-- reader that is not the repository's. A `Poll::Pending` leaves the stream as it stands, so a later
-- call goes on from there. Each loop takes fuel; `none` means that it ran out.
pub mod Reads
pub mod Rounds
use tar_codec.Base.{
  ℕ, zero, suc, ◌+◌, ◌-◌, ◌≤◌, Bool, true, false, Option, none, some, List, [], ◌∷◌, ◌++◌, Bytes,
  length, ltb, ◌==◌, if◌then◌else◌, checked_add, Result, ok, err, ◌≡◌,
}
use tar_codec.Header.{block_size}
use tar_codec.Stream.{
  DataOwner, FrameErrorInner, FrameError, at, Framed, Frame, State, TarStream, StreamPolicy,
  new_stream,
}
use tar_codec.Stream.Machine.{process_block}

-- What one `poll_read` answers: pending, the bytes read (none at the end of the input), or an error.
pub data Read : Type 0 where
  pending : Read
  filled : Bytes → Read
  failed : ℕ → Read

pub data Poll {ℓ} (A : Type ℓ) : Type ℓ where
  pending : Poll A
  ready : A → Poll A

-- A `tokio::io::AsyncRead`, asked for at most so many bytes.
pub record AsyncRead : Type 1 where
  pub Source : Type 0
  pub poll_read : Source → ℕ → Source × Read

-- The error of `handle_eof` for each state.
unfoldable pub eof_error : State → FrameErrorInner
eof_error State.awaiting_header = FrameErrorInner.missing_end_marker
eof_error State.awaiting_second_zero = FrameErrorInner.missing_end_marker
eof_error (State.reading_pax kind h remaining payload) =
    FrameErrorInner.truncated_payload (DataOwner.pax kind) remaining
eof_error (State.awaiting_ustar_header records) =
    FrameErrorInner.unexpected_eof "ordinary ustar member header after a local pax header"
eof_error (State.reading_gnu kind remaining _) =
    FrameErrorInner.truncated_payload (DataOwner.gnu kind) remaining
eof_error (State.awaiting_gnu_member _) =
    FrameErrorInner.unexpected_eof "ordinary GNU member header after a GNU metadata extension"
eof_error (State.reading_member remaining) =
    FrameErrorInner.truncated_payload DataOwner.member remaining
eof_error _ = FrameErrorInner.unexpected_eof "no further input"

pub is_over : State → Bool
is_over State.complete = true
is_over State.failed = true
is_over _ = false

module _ (reader : AsyncRead) where
  open reader use {Source, poll_read}

  -- `TarStream`, with the reader, the position and the bytes of a block that is not yet whole.
  pub record Stream : Type 0 where
    pub position : ℕ
    pub inner : Source
    pub block : Bytes
    pub core : TarStream

  abbrev pub open_stream : Source → StreamPolicy → Stream
  open_stream source policy = record {
    position = 0;
    inner = source;
    block = [];
    core = new_stream policy;
  }

  -- The end of `poll_read_block`, on a whole block.
  pub take_block : Stream → Option ℕ → Stream × Poll (Framed (Option (ℕ × Bytes)))
  take_block s none =
      (s, Poll.ready (err (at s.position (FrameErrorInner.arithmetic_overflow "stream position"))))
  take_block s (some next) =
      (record s { position = next; block = [] }, Poll.ready (ok (some (s.position, s.block))))

  pub at_end : Stream → Bytes → Framed (Option (ℕ × Bytes))
  at_end s [] = ok none
  at_end s (b ∷ bs) = err (at s.position (FrameErrorInner.incomplete_block (length (b ∷ bs))))

  -- The bytes read are appended by the caller; here is what a read that adds none decides.
  pub stops : Stream → Read → Option (Stream × Poll (Framed (Option (ℕ × Bytes))))
  unfolding at_end
  stops s Read.pending = some (s, Poll.pending)
  stops s (Read.failed e) =
      some (s, Poll.ready (err (at (s.position + length s.block) (FrameErrorInner.io e))))
  stops s (Read.filled []) = some (s, Poll.ready (at_end s s.block))
  stops s (Read.filled (b ∷ bs)) = none

  abbrev pub added : Read → Bytes
  added (Read.filled bs) = bs
  added _ = []

  unfoldable pub poll_read_block : ℕ → Stream → Option (Stream × Poll (Framed (Option (ℕ × Bytes))))
  unfolding take_block stops
  poll_read_block zero s = none
  poll_read_block (suc fuel) s =
      let answer = poll_read s.inner (block_size - length s.block) in
      let t = record s { inner = answer.0 } in
      let u = record t { block = s.block ++ added answer.1 } in
      let rest = poll_read_block fuel u in
      if ltb (length s.block) block_size
      then (elim (stops t answer.1) [ none ↦ rest | some r ↦ some r ])
      else some (take_block s (checked_add s.position block_size))

  -- `handle_eof`
  unfoldable pub handle_eof : Stream → FrameError
  unfolding eof_error
  handle_eof s = at s.position (eof_error s.core.state)

  abbrev pub Frames : Type 0
  Frames = Stream × Poll (Framed (Option Frame))

  -- A block goes to `process_block`; `none` asks for the next round of the loop.
  pub feed : Stream → ℕ → Bytes → Stream × Option (Framed Frame)
  feed s p block =
      let (core, r) = process_block p block s.core in
      (
        record s { core = core },
        elim r [ ok none ↦ none | ok (some frame) ↦ some (ok frame) | err e ↦ some (err e) ],
      )

  -- The end of the loop's body: the frame or the error of `process_block`, or another round.
  pub after_block : (Stream → Option Frames) → Stream × Option (Framed Frame) → Option Frames
  after_block again (t, none) = again t
  after_block again (t, some (ok frame)) = some (t, Poll.ready (ok (some frame)))
  after_block again (t, some (err e)) = some (t, Poll.ready (err e))

  -- The loop's body behind `poll_read_block`.
  pub after_read :
      (Stream → Option Frames) → Stream × Poll (Framed (Option (ℕ × Bytes))) → Option Frames
  unfolding after_block
  after_read again (t, Poll.pending) = some (t, Poll.pending)
  after_read again (t, Poll.ready (err e)) = some (t, Poll.ready (err e))
  after_read again (t, Poll.ready (ok none)) = some (t, Poll.ready (err (handle_eof t)))
  after_read again (t, Poll.ready (ok (some (p, block)))) = after_block again (feed t p block)

  pub poll_frame_body : ℕ → (Stream → Option Frames) → Stream → Option Frames
  unfolding after_read
  poll_frame_body fuel again s = elim (poll_read_block fuel s) [
    | none ↦ none
    | some r ↦ after_read again r
  ]

  -- `poll_next_frame`: `rounds` bounds its own loop, `fuel` each call of `poll_read_block`.
  unfoldable pub poll_next_frame : ℕ → ℕ → Stream → Option Frames
  unfolding is_over poll_frame_body feed handle_eof
  poll_next_frame zero fuel s = none
  poll_next_frame (suc rounds) fuel s =
      if is_over s.core.state
      then some (s, Poll.ready (ok none))
      else poll_frame_body fuel (λ t. poll_next_frame rounds fuel t) s

  -- `fail_on_error`
  unfoldable pub fail_on_error : Frames → Frames
  fail_on_error (s, Poll.ready (err e)) =
      (record s { core = record (s.core) { state = State.failed } }, Poll.ready (err e))
  fail_on_error (s, r) = (s, r)

  -- One poll of `next_frame`.
  unfoldable pub next_frame : ℕ → ℕ → Stream → Option Frames
  unfolding poll_next_frame fail_on_error
  next_frame rounds fuel s = elim (poll_next_frame rounds fuel s) [
    | none ↦ none
    | some r ↦ some (fail_on_error r)
  ]
