-- ===== src/Stream/Examples.antt =====
-- Concrete streams and readers.
use tar_codec.Base.{
  ℕ, zero, suc, ◌<◌, ◌≡◌, refl, sym, ap, ◌∙◌, some, [], ◌∷◌, ◌++◌, arith, Bytes, length, take, drop,
  replicate, take-append-drop, length-take, err,
}
use tar_codec.Header.{block_size, ArchiveFormat}
use tar_codec.Stream.{FrameErrorInner, at, State, TarStream, default_policy, new_stream}
use tar_codec.Stream.Headers.{parse_header}
use tar_codec.Stream.Machine.{member_payload_state, process_block}
use tar_codec.Stream.Format.{process_block_keeps, process_block_fails}
use tar_codec.Stream.Invariant.{IsValid, process_block-IsValid, new_stream-IsValid}
use tar_codec.Stream.Diagram.{node, Reached, Move, Reached-Move}
use tar_codec.Stream.Payload.{run, flatten, member_bytes, run_member}
use tar_codec.Stream.Reader.{
  Read, Poll, AsyncRead, Stream, open_stream, poll_read_block, Frames, poll_next_frame,
}
use tar_codec.Stream.Reader.Reads.{
  ReadsInOrder, DeliversAt, Outcome, poll_read_block_total, poll_read_block-Delivers,
}
use tar_codec.Stream.Chunk.{
  no_chunk, MemberChunkState, MemberChunk, ChunkStream, Completion, complete_member_chunk,
  take_member_block_from_chunk,
}
use tar_codec.Stream.Chunk.Completion.{CompletesWith, complete_member_chunk-Completes}
use tar_codec.Stream.Chunk.Calls.{ChunkRead, read_member_chunk}
use tar_codec.Stream.Chunk.Calls.Errors.{FailsClosed, read_member_chunk-FailsClosed}
use tar_codec.Stream.Chunk.Delivery.{
  IsReady, HandsOutBlock, take_member_block_from_chunk-HandsOutBlock,
}
use tar_codec.Stream.Reader.Rounds.{poll_next_frame_total}

abbrev zeros : Bytes
zeros = replicate block_size 0

abbrev ones : Bytes
ones = replicate block_size 1

abbrev fresh : TarStream
fresh = new_stream default_policy

abbrev after_zeros : TarStream
after_zeros = (process_block 0 zeros fresh).0

Reached-Move_example : Move (node after_zeros) (node (process_block 512 zeros after_zeros).0)
Reached-Move_example = Reached-Move 512 zeros (Reached.next 0 zeros refl Reached.start)

process_block-IsValid_example : IsValid after_zeros
process_block-IsValid_example =
    process_block-IsValid 0 zeros fresh refl (new_stream-IsValid default_policy)

-- A stream of the GNU format within the payload of a member.
abbrev in_gnu_member : TarStream
in_gnu_member = record fresh { format = some ArchiveFormat.gnu; state = member_payload_state 3 }

process_block_keeps_example :
    ((process_block 512 zeros in_gnu_member).0.format ≡ some ArchiveFormat.gnu)
    × ((process_block 512 zeros in_gnu_member).0.policy ≡ default_policy)
process_block_keeps_example = process_block_keeps 512 zeros in_gnu_member

ones_refused :
    (process_block 0 ones fresh).1 ≡ err (at 0 (FrameErrorInner.invalid_identity (replicate 8 1)))
unfolding process_block parse_header
ones_refused = refl

process_block_fails_example : (process_block 0 ones fresh).0.state ≡ State.failed
process_block_fails_example =
    process_block_fails 0 ones fresh (at 0 (FrameErrorInner.invalid_identity (replicate 8 1)))
      ones_refused

-- A stream before the payload of a member of three bytes.
abbrev in_member : TarStream
in_member = record fresh { state = member_payload_state 3 }

run_member_example :
    ((run 512 (ones ∷ []) in_member).0.state ≡ State.awaiting_header)
    × (length (run 512 (ones ∷ []) in_member).1 ≡ 1)
    × (member_bytes (run 512 (ones ∷ []) in_member).1 ≡ take 3 (flatten (ones ∷ [])))
run_member_example =
    run_member 1 3 512 (ones ∷ []) in_member refl (refl, tt) (omega arith) (omega arith) refl

-- A reader of a list of bytes, which fills what it is given as far as bytes are left.
abbrev list_reader : AsyncRead
list_reader = record {
  Source = Bytes;
  poll_read = λ bytes n. (drop n bytes, Read.filled (take n bytes));
}

filled_injective : (a b : Bytes) → Read.filled a ≡ Read.filled b → a ≡ b
filled_injective a b e = cc

took_none : (bytes : Bytes) (n : ℕ) → 0 < n → take n bytes ≡ [] → bytes ≡ []
took_none [] n h e = refl
took_none (b ∷ bs) zero h e = absurd (omega arith)
took_none (b ∷ bs) (suc n) h e = cc

list_reader-ReadsInOrder : ReadsInOrder list_reader
list_reader-ReadsInOrder = record {
  contents = λ bytes. bytes;
  filled_next = λ bytes n bs e.
      (let same = filled_injective (take n bytes) bs e in
        (
          sym (take-append-drop n bytes) ∙ ap (λ t. t ++ drop n bytes) same,
          omega (arith, ap length same, length-take n bytes),
        ));
  none_at_end = λ bytes n h e. took_none bytes n h (filled_injective (take n bytes) [] e);
  pending_keeps = λ bytes n e. cc;
}

abbrev opened : Stream list_reader
opened = open_stream list_reader zeros default_policy

abbrev read_one : Stream list_reader × Outcome list_reader
read_one = (poll_read_block_total list_reader 513 opened (omega arith)).0

poll_read_block_total_example :
    (r : Stream list_reader × Outcome list_reader) × (poll_read_block list_reader 513 opened
      ≡ some r)
poll_read_block_total_example = poll_read_block_total list_reader 513 opened (omega arith)

poll_read_block-Delivers_example : DeliversAt list_reader list_reader-ReadsInOrder opened read_one
poll_read_block-Delivers_example =
    poll_read_block-Delivers list_reader list_reader-ReadsInOrder 513 opened read_one (omega arith)
      (poll_read_block_total list_reader 513 opened (omega arith)).1

poll_next_frame_total_example :
    (f : Frames list_reader) × (poll_next_frame list_reader 3 513 opened ≡ some f)
poll_next_frame_total_example =
    poll_next_frame_total list_reader 3 513 opened (omega arith) (omega arith)

-- A chunk of two blocks, of which 515 bytes are meaningful, with one block handed out.
abbrev half_chunk : MemberChunk
half_chunk = record {
  buffer = ones ++ zeros;
  start_position = 1024;
  physical_len = 1024;
  meaningful_len = 515;
  state = some (MemberChunkState.ready 512);
}

half_chunk-IsReady : IsReady half_chunk 512
half_chunk-IsReady = record {
  is_ready = refl;
  whole = refl;
  fits = omega arith;
  blocks_left = 0;
  aligned = refl;
  meaningful = omega arith;
  last_block = omega arith;
}

take_member_block_from_chunk-HandsOutBlock_example :
    HandsOutBlock half_chunk 512 (take_member_block_from_chunk 2048 half_chunk)
take_member_block_from_chunk-HandsOutBlock_example =
    take_member_block_from_chunk-HandsOutBlock 2048 512 half_chunk half_chunk-IsReady

-- A chunk of one block, of which the reader gave three bytes.
abbrev filling : ChunkStream list_reader
filling = record {
  stream = open_stream list_reader ones default_policy;
  chunk = record {
    buffer = zeros;
    start_position = 1024;
    physical_len = 512;
    meaningful_len = 512;
    state = some (MemberChunkState.reading 600 3);
  };
}

complete_member_chunk-Completes_example :
    (r : Completion list_reader) × (complete_member_chunk list_reader 510 filling ≡ some r)
    × CompletesWith list_reader list_reader-ReadsInOrder
        (take 3 zeros ++ ReadsInOrder.contents list_reader-ReadsInOrder ones)
        r
complete_member_chunk-Completes_example =
    complete_member_chunk-Completes list_reader list_reader-ReadsInOrder 510 filling 600 3
      (record { is_reading = refl; whole = refl; within = omega arith }) (omega arith)

-- A chunk asked of a stream that is not in the payload of a member.
abbrev failed_read : ChunkRead list_reader
failed_read = (
  record {
    stream = record opened { core = record fresh { state = State.failed } };
    chunk = no_chunk;
  },
  [],
  Poll.ready (
      err (
        at 0 (
          FrameErrorInner.unexpected_order "ordinary member payload"
            "parser state without member payload"))),
)

read_member_chunk-FailsClosed_example : FailsClosed list_reader {A = ℕ} failed_read.0 failed_read.2
unfolding read_member_chunk
read_member_chunk-FailsClosed_example =
    read_member_chunk-FailsClosed list_reader 1 (record { stream = opened; chunk = no_chunk }) []
      4096 failed_read refl
