-- ===== src/Stream/Chunk/Calls.antt =====
-- crates/tar-framing/src/stream.rs: `read_member_block` and `read_member_chunk`. A read that is
-- pending leaves the stream so that the same call goes on from there.
pub mod Errors
use tar_codec.Base.{
  ℕ, ◌-◌, min, Bool, true, false, not, ◌&&◌, Option, none, some, [], Bytes, length, take, ◌==◌,
  if◌then◌else◌, and_then, ok, err,
}
use tar_codec.Header.{block_size}
use tar_codec.Stream.{FrameErrorInner, at, Framed, State}
use tar_codec.Stream.Machine.{member_payload_state}
use tar_codec.Stream.Reader.{Poll, AsyncRead, Stream, poll_read_block, handle_eof}
use tar_codec.Stream.Chunk.{
  MemberChunk, MemberChunkState, ChunkStream, Completion, with_state, member_remaining_of,
  start_member_chunk, complete_member_chunk, take_member_chunk, take_member_block_from_chunk,
}

module _ (reader : AsyncRead) where
  -- `fail_on_error`
  unfoldable pub fail_member_on_error :
      {A : Type 0} → ChunkStream reader × Framed A → ChunkStream reader × Framed A
  fail_member_on_error (c, err e) =
      (record c { stream = with_state reader State.failed c.stream }, err e)
  fail_member_on_error (c, ok a) = (c, ok a)

  abbrev pub BlockRead : Type 0
  BlockRead = ChunkStream reader × Poll (Framed (ℕ × Bytes × ℕ))

  -- A block of the chunk, once that is whole.
  unfoldable pub block_of_chunk : Completion reader → BlockRead
  unfolding take_member_block_from_chunk
  block_of_chunk (c, Poll.pending) = (c, Poll.pending)
  block_of_chunk (c, Poll.ready (err e)) = (c, Poll.ready (err e))
  block_of_chunk (c, Poll.ready (ok _)) =
      let (chunk, r) = take_member_block_from_chunk c.stream.position c.chunk in
      (record c { chunk = chunk }, Poll.ready r)

  -- A block of the stream itself.
  unfoldable pub block_of_stream :
      MemberChunk → ℕ → Stream reader × Poll (Framed (Option (ℕ × Bytes))) → BlockRead
  unfolding handle_eof member_payload_state
  block_of_stream chunk remaining (s, Poll.pending) =
      (record { stream = s; chunk = chunk }, Poll.pending)
  block_of_stream chunk remaining (s, Poll.ready (err e)) =
      (record { stream = s; chunk = chunk }, Poll.ready (err e))
  block_of_stream chunk remaining (s, Poll.ready (ok none)) =
      (record { stream = s; chunk = chunk }, Poll.ready (err (handle_eof reader s)))
  block_of_stream chunk remaining (s, Poll.ready (ok (some (position, block)))) =
      let meaningful_len = min remaining block_size in
      (
        record {
          stream = with_state reader (member_payload_state (remaining - meaningful_len)) s;
          chunk = chunk;
        },
        Poll.ready (ok (position, block, meaningful_len)),
      )

  -- `read_member_block_inner`
  unfoldable pub read_member_block_inner : ℕ → ChunkStream reader → Option BlockRead
  unfolding block_of_chunk block_of_stream complete_member_chunk poll_read_block member_remaining_of
  read_member_block_inner fuel c = elim c.chunk.state [
    | some state ↦ and_then (complete_member_chunk reader fuel c) (λ r. some (block_of_chunk r))
    | none ↦ elim (member_remaining_of c.stream.core.state) [
      | none ↦ some (
        c,
        Poll.ready (
            err (
              at c.stream.position (
                FrameErrorInner.unexpected_order "ordinary member payload"
                  "parser state without member payload"))),
      )
      | some remaining ↦
          and_then (poll_read_block reader fuel c.stream)
            (λ r. some (block_of_stream c.chunk remaining r))
    ]
  ]

  abbrev pub failing :
      {A : Type 0} → ChunkStream reader × Poll (Framed A) → ChunkStream reader × Poll (Framed A)
  failing (c, Poll.pending) = (c, Poll.pending)
  failing (c, Poll.ready r) = let (c', r') = fail_member_on_error (c, r) in (c', Poll.ready r')

  -- `read_member_block`
  unfoldable pub read_member_block : ℕ → ChunkStream reader → Option BlockRead
  unfolding fail_member_on_error read_member_block_inner
  read_member_block fuel c = and_then (read_member_block_inner fuel c) (λ r. some (failing r))

  -- The stream, the caller's buffer and the length that is read.
  abbrev pub ChunkRead : Type 0
  ChunkRead = ChunkStream reader × Bytes × Poll (Framed ℕ)

  -- A block that a cancelled read began, handed out in the caller's buffer.
  unfoldable pub block_as_chunk : Bytes → BlockRead → ChunkRead
  block_as_chunk buffer (c, Poll.pending) = (c, buffer, Poll.pending)
  block_as_chunk buffer (c, Poll.ready (err e)) = (c, buffer, Poll.ready (err e))
  block_as_chunk buffer (c, Poll.ready (ok (position, block, meaningful_len))) =
      (c, take meaningful_len block, Poll.ready (ok meaningful_len))

  -- The end of `read_member_chunk`, on a chunk that may be whole.
  unfoldable pub chunk_of : Bytes → Completion reader → ChunkRead
  unfolding take_member_chunk fail_member_on_error
  chunk_of buffer (c, Poll.pending) = (c, buffer, Poll.pending)
  chunk_of buffer (c, Poll.ready (err e)) =
      ((fail_member_on_error {A = Unit {0}} (c, err e)).0, buffer, Poll.ready (err e))
  chunk_of buffer (c, Poll.ready (ok _)) =
      let (chunk, taken, r) = take_member_chunk c.stream.position c.chunk buffer in
      let (c', r') = fail_member_on_error (record c { chunk = chunk }, r) in
      (c', taken, Poll.ready r')

  -- The chunk is started, or is there from an earlier call.
  unfoldable pub started_chunk :
      ChunkStream reader → Bytes → ℕ → ChunkStream reader × Bytes × Framed (Unit {0})
  unfolding start_member_chunk fail_member_on_error
  started_chunk c buffer target_len = elim c.chunk.state [
    | some state ↦ (c, buffer, ok tt)
    | none ↦
        let (t, left, r) = start_member_chunk reader c buffer target_len in
        let (t', r') = fail_member_on_error (t, r) in (t', left, r')
  ]

  unfoldable pub after_start : ℕ → ChunkStream reader × Bytes × Framed (Unit {0}) → Option ChunkRead
  unfolding chunk_of complete_member_chunk
  after_start fuel (c, buffer, err e) = some (c, buffer, Poll.ready (err e))
  after_start fuel (c, buffer, ok _) =
      and_then (complete_member_chunk reader fuel c) (λ r. some (chunk_of buffer r))

  abbrev pub no_chunk_is : Option MemberChunkState → Bool
  no_chunk_is none = true
  no_chunk_is (some state) = false

  -- `read_member_chunk`
  unfoldable pub read_member_chunk : ℕ → ChunkStream reader → Bytes → ℕ → Option ChunkRead
  unfolding read_member_block block_as_chunk started_chunk after_start
  read_member_chunk fuel c buffer target_len =
      if no_chunk_is c.chunk.state && not (length c.stream.block == 0)
      then and_then (read_member_block fuel c) (λ r. some (block_as_chunk buffer r))
      else after_start fuel (started_chunk c buffer target_len)
