-- ===== src/Stream/Chunk.antt =====
-- crates/tar-framing/src/stream.rs: the payload of a member read in chunks or in blocks, without frames.
-- The chunk is kept with the stream, so that a read that is cancelled loses nothing. The caller's
-- buffer is an argument, and what it holds afterwards is returned.
pub mod Completion
pub mod Delivery
pub mod Calls
use tar_codec.Base.{
  ℕ, zero, suc, ◌+◌, ◌-◌, ◌*◌, ◌/◌, ◌%◌, min, Bool, true, false, not, ◌&&◌, Option, none, some,
  List, [], ◌∷◌, ◌++◌, Bytes, length, take, drop, replicate, leb, ◌==◌, if◌then◌else◌, checked_add,
  checked_mul, checked_sub, and_then, ok_or, Result, ok, err,
}
use tar_codec.Header.{block_size, write_at}
use tar_codec.Stream.{DataOwner, FrameErrorInner, FrameError, at, Framed, State, TarStream}
use tar_codec.Stream.Machine.{member_payload_state}
use tar_codec.Stream.Reader.{Read, Poll, AsyncRead, Stream, poll_read_block, handle_eof}

pub data MemberChunkState : Type 0 where
  reading : ℕ → ℕ → MemberChunkState
  ready : ℕ → MemberChunkState

pub record MemberChunk : Type 0 where
  pub buffer : Bytes
  pub start_position : ℕ
  pub physical_len : ℕ
  pub meaningful_len : ℕ
  pub state : Option MemberChunkState

abbrev pub no_chunk : MemberChunk
no_chunk = record {
  buffer = [];
  start_position = 0;
  physical_len = 0;
  meaningful_len = 0;
  state = none;
}

unfoldable pub checked_position : ℕ → ℕ → Framed ℕ
checked_position position len =
    ok_or (checked_add position len)
      (at position (FrameErrorInner.arithmetic_overflow "stream position"))

-- `resize(len, 0)`
abbrev pub resize : ℕ → Bytes → Bytes
resize n bytes = take n bytes ++ replicate (n - length bytes) 0

-- The physical and the meaningful length of the chunk that a target asks for.
unfoldable pub chunk_lens : ℕ → ℕ → Option (ℕ × ℕ)
chunk_lens member_remaining target_len =
    let wanted =
      min member_remaining (if leb block_size target_len then target_len else block_size) in
    and_then (checked_mul ((wanted + (block_size - 1)) / block_size) block_size)
      (λ physical_len. some (physical_len, min member_remaining physical_len))

unfoldable pub member_remaining_of : State → Option ℕ
member_remaining_of (State.reading_member remaining) = some remaining
member_remaining_of _ = none

-- `take_member_chunk`: the chunk after it, the buffer that the caller gets, and its length.
unfoldable pub take_member_chunk : ℕ → MemberChunk → Bytes → MemberChunk × Bytes × Framed ℕ
take_member_chunk position chunk buffer = elim chunk.state [
  | some (MemberChunkState.ready delivered) ↦ elim (checked_sub chunk.meaningful_len delivered) [
    | none ↦ (
      record chunk { state = none },
      buffer,
      err (at position (FrameErrorInner.arithmetic_overflow "undelivered member payload length")),
    )
    | some remaining_len ↦ (
      record chunk { state = none; buffer = buffer },
      take remaining_len (drop delivered chunk.buffer),
      ok remaining_len,
    )
  ]
  | _ ↦ (
    record chunk { state = none },
    buffer,
    err (
        at position (
          FrameErrorInner.unexpected_order "completed member payload chunk"
            "incomplete member payload chunk")),
  )
]

-- The state of a chunk after a block of it is handed out.
abbrev pub next_state : ℕ → ℕ → Option MemberChunkState
next_state delivered physical_len =
    if delivered == physical_len then none else some (MemberChunkState.ready delivered)

-- `take_member_block_from_chunk`
unfoldable pub take_member_block_from_chunk : ℕ → MemberChunk → MemberChunk × Framed (ℕ × Bytes × ℕ)
unfolding checked_position
take_member_block_from_chunk position chunk = elim chunk.state [
  | some (MemberChunkState.ready delivered) ↦
      elim (checked_position chunk.start_position delivered) [
        | err e ↦ (record chunk { state = none }, err e)
        | ok block_position ↦ elim (checked_sub chunk.meaningful_len delivered) [
          | none ↦ (
            record chunk { state = none },
            err (
                at position
                  (FrameErrorInner.arithmetic_overflow "undelivered member payload length")),
          )
          | some undelivered ↦ (
            record chunk { state = next_state (delivered + block_size) chunk.physical_len },
            ok (
              block_position,
              take block_size (drop delivered chunk.buffer),
              min undelivered block_size,
            ),
          )
        ]
      ]
  | _ ↦ (
    chunk,
    err (
        at position (
          FrameErrorInner.unexpected_order "completed member payload chunk"
            "incomplete member payload chunk")),
  )
]

module _ (reader : AsyncRead) where
  open reader use {Source, poll_read}

  -- `TarStream` with its chunk.
  pub record ChunkStream : Type 0 where
    pub stream : Stream reader
    pub chunk : MemberChunk

  abbrev pub with_state : State → Stream reader → Stream reader
  with_state q s = record s { core = record (s.core) { state = q } }

  -- `start_member_chunk`, and the buffer that the caller has then.
  unfoldable pub start_member_chunk :
      ChunkStream → Bytes → ℕ → ChunkStream × Bytes × Framed (Unit {0})
  unfolding chunk_lens member_remaining_of
  start_member_chunk c buffer target_len =
      let p = c.stream.position in
      elim (member_remaining_of c.stream.core.state) [
        | none ↦ (
          c,
          buffer,
          err (
              at p (
                FrameErrorInner.unexpected_order "ordinary member payload"
                  "parser state without member payload")),
        )
        | some member_remaining ↦
            if not (length c.stream.block == 0)
            then (
              c,
              buffer,
              err (
                  at p (
                    FrameErrorInner.unexpected_order "aligned ordinary member payload"
                      "partially buffered physical block")),
            )
            else elim (chunk_lens member_remaining target_len) [
              | none ↦ (
                c,
                buffer,
                err (
                    at p
                      (FrameErrorInner.arithmetic_overflow "member payload chunk physical length")),
              )
              | some (physical_len, meaningful_len) ↦ (
                record c {
                  chunk = record {
                    buffer = resize physical_len buffer;
                    start_position = p;
                    physical_len = physical_len;
                    meaningful_len = meaningful_len;
                    state = some (MemberChunkState.reading member_remaining 0);
                  };
                },
                [],
                ok tt,
              )
            ]
      ]

  abbrev dropped : ChunkStream → ChunkStream
  dropped c = record c { chunk = record (c.chunk) { state = none } }

  abbrev moved : ℕ → ChunkStream → ChunkStream
  moved p c = record c { stream = record (c.stream) { position = p } }

  -- The chunk is whole.
  unfoldable pub chunk_whole : ChunkStream → ℕ → ChunkStream × Framed (Unit {0})
  unfolding checked_position member_payload_state
  chunk_whole c member_remaining =
      elim (checked_position c.chunk.start_position c.chunk.physical_len) [
        | err e ↦ (dropped c, err e)
        | ok p ↦ elim (checked_sub member_remaining c.chunk.meaningful_len) [
          | none ↦ (
            moved p (dropped c),
            err (
                at c.chunk.start_position
                  (FrameErrorInner.arithmetic_overflow "remaining member payload length")),
          )
          | some remaining ↦ (
            record {
              stream = record (with_state (member_payload_state remaining) c.stream) {
                position = p;
              };
              chunk = record (c.chunk) { state = some (MemberChunkState.ready 0) };
            },
            ok tt,
          )
        ]
      ]

  -- A read that fails: the position is that of the last whole block.
  unfoldable pub read_fails : ChunkStream → ℕ → ℕ → ChunkStream × Framed (Unit {0})
  unfolding checked_position
  read_fails c filled e = elim (checked_position c.chunk.start_position filled) [
    | err failure ↦ (dropped c, err failure)
    | ok error_position ↦
        elim (checked_position c.chunk.start_position (filled - filled % block_size)) [
          | err failure ↦ (dropped c, err failure)
          | ok p ↦ (moved p (dropped c), err (at error_position (FrameErrorInner.io e)))
        ]
  ]

  -- The end of the input within a chunk.
  unfoldable pub chunk_truncated : ChunkStream → ℕ → ℕ → ChunkStream × Framed (Unit {0})
  unfolding checked_position
  chunk_truncated c member_remaining filled =
      let partial_len = filled % block_size in
      let completed_len = filled - partial_len in
      elim (checked_position c.chunk.start_position completed_len) [
        | err failure ↦ (dropped c, err failure)
        | ok p ↦ (
          moved p (dropped c),
          if not (partial_len == 0)
              then err (at p (FrameErrorInner.incomplete_block partial_len))
              else err (
                  at p (
                    FrameErrorInner.truncated_payload DataOwner.member
                      (member_remaining - min member_remaining completed_len))),
        )
      ]

  -- The bytes of a read, written behind those that the chunk has.
  abbrev pub grown_chunk : ChunkStream → ℕ → ℕ → Bytes → ChunkStream
  grown_chunk c member_remaining filled bytes = record c {
    chunk = record (c.chunk) {
      buffer = write_at c.chunk.buffer filled bytes;
      state = some (MemberChunkState.reading member_remaining (filled + length bytes));
    };
  }

  abbrev pub Completion : Type 0
  Completion = ChunkStream × Poll (Framed (Unit {0}))

  -- One round of `complete_member_chunk` on what a read answers; `again` is the next round.
  unfoldable pub after_chunk_read :
      (ChunkStream → Option Completion) → ChunkStream → ℕ → ℕ → Read → Option Completion
  unfolding read_fails chunk_truncated
  after_chunk_read again c member_remaining filled Read.pending = some (c, Poll.pending)
  after_chunk_read again c member_remaining filled (Read.failed e) =
      let (c', r) = read_fails c filled e in some (c', Poll.ready r)
  after_chunk_read again c member_remaining filled (Read.filled []) =
      let (c', r) = chunk_truncated c member_remaining filled in some (c', Poll.ready r)
  after_chunk_read again c member_remaining filled (Read.filled (b ∷ bs)) =
      again (grown_chunk c member_remaining filled (b ∷ bs))

  -- The loop's body, by the state of the chunk.
  pub complete_body :
      (ChunkStream → Option Completion) → ChunkStream → Option MemberChunkState → Option Completion
  unfolding chunk_whole after_chunk_read
  complete_body again c none = some (
    c,
    Poll.ready (
        err (
          at c.stream.position (
            FrameErrorInner.unexpected_order "pending member payload chunk"
              "parser state without a pending chunk"))),
  )
  complete_body again c (some (MemberChunkState.ready delivered)) = some (c, Poll.ready (ok tt))
  complete_body again c (some (MemberChunkState.reading member_remaining filled)) =
      if filled == c.chunk.physical_len
      then (let (c', r) = chunk_whole c member_remaining in some (c', Poll.ready r))
      else (let answer = poll_read c.stream.inner (c.chunk.physical_len - filled) in
          after_chunk_read again (record c { stream = record (c.stream) { inner = answer.0 } })
            member_remaining filled answer.1)

  -- `complete_member_chunk`; a read answers at once, or leaves the chunk for the next call.
  unfoldable pub complete_member_chunk : ℕ → ChunkStream → Option Completion
  unfolding complete_body
  complete_member_chunk zero c = none
  complete_member_chunk (suc fuel) c =
      complete_body (λ t. complete_member_chunk fuel t) c c.chunk.state
