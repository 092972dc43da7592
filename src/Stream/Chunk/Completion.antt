-- ===== src/Stream/Chunk/Completion.antt =====
-- How crates/tar-framing/src/stream.rs fills a chunk from its reader.
use tar_codec.Base.{
  ℕ, zero, suc, ◌+◌, ◌-◌, ◌≤◌, ◌<◌, true, false, Option, none, some, List, [], ◌∷◌, ◌++◌,
  append_assoc, Bytes, length, take, drop, min, ◌==◌, ==_iff, ◌⊎◌, checked_sub, ltb, u64_limit, ◌%◌,
  ok, err, ◌≡◌, refl, sym, ap, subst, ◌∙◌, arith, Bool-cases, Option-cases, inl, inr, length-take,
  length-drop, length-append, take-append,
}
use tar_codec.Header.{block_size, write_at}
use tar_codec.Stream.{Framed}
use tar_codec.Stream.Reader.{Read, Poll, AsyncRead}
use tar_codec.Stream.Reader.Reads.{ReadsInOrder}
use tar_codec.Stream.Chunk.{
  MemberChunkState, MemberChunk, checked_position, ChunkStream, chunk_whole, read_fails,
  chunk_truncated, grown_chunk, after_chunk_read, complete_body, complete_member_chunk, Completion,
}

write_at-take :
    (block : Bytes) (at : ℕ) (new : Bytes)
    → at + length new ≤ length block
    → take (at + length new) (write_at block at new) ≡ take at block ++ new
write_at-take block at new h =
    let size : length (take at block ++ new) ≡ at + length new =
      length-append (take at block) new
      ∙ ap (λ n. n + length new)
          (length-take at block ∙ (let e : min at (length block) ≡ at = omega (arith, h) in e)) in
    ap (take (at + length new))
      (sym (append_assoc (take at block) new (drop (at + length new) block)))
    ∙ take-append (at + length new) (take at block ++ new) (drop (at + length new) block) size

write_at-length :
    (block : Bytes) (at : ℕ) (new : Bytes)
    → at + length new ≤ length block
    → length (write_at block at new) ≡ length block
write_at-length block at new h =
    length-append (take at block) (new ++ drop (at + length new) block)
    ∙ (omega (
      arith,
      h,
      length-take at block,
      length-append new (drop (at + length new) block),
      length-drop (at + length new) block,
    ))

take_all {ℓ} : {A : Type ℓ} (xs : List A) → take (length xs) xs ≡ xs
take_all [] = refl
take_all (x ∷ xs) = ap (λ ys. x ∷ ys) (take_all xs)

-- A chunk of which some bytes are read.
pub record IsFilling (chunk : MemberChunk) (member_remaining : ℕ) (filled : ℕ) : Type 0 where
  pub is_reading : chunk.state ≡ some (MemberChunkState.reading member_remaining filled)
  pub whole : length chunk.buffer ≡ chunk.physical_len
  pub within : filled ≤ chunk.physical_len

Read-cases :
    (a : Read)
    → (a ≡ Read.pending)
      ⊎ ((x : ℕ) × (a ≡ Read.failed x))
      ⊎ (a ≡ Read.filled [])
      ⊎ ((b : ℕ) × (bs : Bytes) × (a ≡ Read.filled (b ∷ bs)))
Read-cases Read.pending = inl refl
Read-cases (Read.failed x) = inr (inl (x, refl))
Read-cases (Read.filled []) = inr (inr (inl refl))
Read-cases (Read.filled (b ∷ bs)) = inr (inr (inr (b, bs, refl)))

module _ (reader : AsyncRead) where
  abbrev asked_of : ChunkStream reader → ℕ → AsyncRead.Source reader × Read
  asked_of c filled = AsyncRead.poll_read reader c.stream.inner (c.chunk.physical_len - filled)

  abbrev asked : ChunkStream reader → ℕ → ChunkStream reader
  asked c filled = record c { stream = record (c.stream) { inner = (asked_of c filled).0 } }

  body_whole :
      (again : ChunkStream reader → Option (Completion reader)) (c : ChunkStream reader)
      (rem filled : ℕ)
      → (filled == c.chunk.physical_len) ≡ true
      → complete_body reader again c (some (MemberChunkState.reading rem filled))
        ≡ some ((chunk_whole reader c rem).0, Poll.ready (chunk_whole reader c rem).1)
  unfolding complete_body
  body_whole again c rem filled h = rw h refl

  body_reads :
      (again : ChunkStream reader → Option (Completion reader)) (c : ChunkStream reader)
      (rem filled : ℕ)
      → (filled == c.chunk.physical_len) ≡ false
      → complete_body reader again c (some (MemberChunkState.reading rem filled))
        ≡ after_chunk_read reader again (asked c filled) rem filled (asked_of c filled).1
  unfolding complete_body
  body_reads again c rem filled h = rw h refl

  of_body :
      (fuel : ℕ) (c : ChunkStream reader) (state : Option MemberChunkState)
      → c.chunk.state ≡ state
      → complete_member_chunk reader (suc fuel) c
        ≡ complete_body reader (λ t. complete_member_chunk reader fuel t) c state
  unfolding complete_member_chunk
  of_body fuel c state e = ap (complete_body reader (λ t. complete_member_chunk reader fuel t) c) e

  -- What a round does on each answer of the reader.
  after_read-eq :
      (again : ChunkStream reader → Option (Completion reader)) (c : ChunkStream reader)
      (rem filled : ℕ) (a b : Read)
      → a ≡ b
      → after_chunk_read reader again c rem filled a ≡ after_chunk_read reader again c rem filled b
  after_read-eq again c rem filled a b e = ap (after_chunk_read reader again c rem filled) e

  module _ (law : ReadsInOrder reader) where
    open law use {contents, filled_next, none_at_end, pending_keeps}

    -- The bytes of the chunk that are read, and those that the reader still has.
    abbrev known : ChunkStream reader → ℕ → Bytes
    known c filled = take filled c.chunk.buffer ++ contents c.stream.inner

    -- What a poll leaves, where those bytes were known.
    abbrev pub Completes : Bytes → ChunkStream reader → Poll (Framed (Unit {0})) → Type 0
    Completes bytes c Poll.pending =
        (rem : ℕ) × (filled : ℕ) × IsFilling c.chunk rem filled × (known c filled ≡ bytes)
    Completes bytes c (Poll.ready (ok _)) =
        (c.chunk.state ≡ some (MemberChunkState.ready 0))
        × (length c.chunk.buffer ≡ c.chunk.physical_len)
        × (c.chunk.buffer ++ contents c.stream.inner ≡ bytes)
    Completes bytes c (Poll.ready (err e)) = c.chunk.state ≡ none

    abbrev pub CompletesWith : Bytes → Completion reader → Type 0
    CompletesWith bytes r = Completes bytes r.0 r.1

    abbrev ready_of : ChunkStream reader × Framed (Unit {0}) → Completion reader
    ready_of r = (r.0, Poll.ready r.1)

    chunk_whole-Completes :
        (c : ChunkStream reader) (rem filled : ℕ)
        → IsFilling c.chunk rem filled
        → filled ≡ c.chunk.physical_len
        → CompletesWith (known c filled) (ready_of (chunk_whole reader c rem))
    unfolding chunk_whole checked_position
    chunk_whole-Completes c rem filled v same =
        elim (Bool-cases (ltb (c.chunk.start_position + c.chunk.physical_len) u64_limit)) [
          | inr over ↦ rw (over, chunk_whole) refl
          | inl fits ↦ elim (Option-cases (checked_sub rem c.chunk.meaningful_len)) [
            | inl e ↦ rw (fits, chunk_whole, e) refl
            | inr (n, e) ↦
                rw (fits, chunk_whole, e)
                  (
                    refl,
                    v.whole,
                    ap (λ t. t ++ contents c.stream.inner)
                        (sym (
                          ap (λ k. take k c.chunk.buffer) (same ∙ sym v.whole)
                          ∙ take_all c.chunk.buffer)),
                  )
          ]
        ]

    read_fails-Completes :
        (bytes : Bytes) (c : ChunkStream reader) (filled x : ℕ)
        → CompletesWith bytes (ready_of (read_fails reader c filled x))
    unfolding read_fails checked_position
    read_fails-Completes bytes c filled x =
        elim (Bool-cases (ltb (c.chunk.start_position + filled) u64_limit)) [
          | inr over ↦ rw (over, read_fails) refl
          | inl fits ↦
              elim (Bool-cases
                (ltb (c.chunk.start_position + (filled - filled % block_size)) u64_limit)) [
                  | inr over ↦ rw (fits, read_fails, over) refl
                  | inl fits' ↦ rw (fits, read_fails, fits') refl
                ]
        ]

    chunk_truncated-Completes :
        (bytes : Bytes) (c : ChunkStream reader) (rem filled : ℕ)
        → CompletesWith bytes (ready_of (chunk_truncated reader c rem filled))
    unfolding chunk_truncated checked_position
    chunk_truncated-Completes bytes c rem filled =
        elim (Bool-cases
          (ltb (c.chunk.start_position + (filled - filled % block_size)) u64_limit)) [
            | inr over ↦ rw (over, chunk_truncated) refl
            | inl fits ↦ elim (Bool-cases (filled % block_size == 0)) [
              | inr part ↦ rw (fits, chunk_truncated, part) refl
              | inl whole ↦ rw (fits, chunk_truncated, whole) refl
            ]
          ]

    -- Bytes read: the chunk after them, and what is known then.
    grown-IsFilling :
        (c : ChunkStream reader) (rem filled : ℕ) (bs : Bytes)
        → IsFilling c.chunk rem filled
        → (asked_of c filled).1 ≡ Read.filled bs
        → let g = grown_chunk reader (asked c filled) rem filled bs in
          IsFilling g.chunk rem (filled + length bs)
          × (known g (filled + length bs) ≡ known c filled)
    grown-IsFilling c rem filled bs v e =
        let (next, fits) = filled_next c.stream.inner (c.chunk.physical_len - filled) bs e in
        let room : filled + length bs ≤ length c.chunk.buffer =
          omega (arith, fits, v.within, v.whole) in
        (
          record {
            is_reading = refl;
            whole = write_at-length c.chunk.buffer filled bs room ∙ v.whole;
            within = omega (arith, room, v.whole);
          },
          ap (λ t. t ++ contents (asked_of c filled).0)
                (write_at-take c.chunk.buffer filled bs room)
              ∙ append_assoc (take filled c.chunk.buffer) bs (contents (asked_of c filled).0)
              ∙ ap (λ t. take filled c.chunk.buffer ++ t) (sym next),
        )

    -- From a chunk that is being filled, `complete_member_chunk` ends within a round more than there
    -- are bytes to read. Either the chunk is ready and whole, with the bytes it had and then the next
    -- ones of the reader; or the reader is pending, and no byte is lost; or an error drops the chunk.
    pub complete_member_chunk-Completes :
        (fuel : ℕ) (c : ChunkStream reader) (rem filled : ℕ)
        → IsFilling c.chunk rem filled
        → c.chunk.physical_len - filled < fuel
        → (r : Completion reader) × (complete_member_chunk reader fuel c ≡ some r)
          × CompletesWith (known c filled) r
    unfolding after_chunk_read
    complete_member_chunk-Completes zero c rem filled v h = absurd (omega (arith, h))
    complete_member_chunk-Completes (suc fuel) c rem filled v h =
        let again = λ (t : ChunkStream reader). complete_member_chunk reader fuel t in
        let run = of_body fuel c (some (MemberChunkState.reading rem filled)) v.is_reading in
        elim (Bool-cases (filled == c.chunk.physical_len)) [
          | inl same ↦ (
            ((chunk_whole reader c rem).0, Poll.ready (chunk_whole reader c rem).1),
            run ∙ body_whole again c rem filled same,
            chunk_whole-Completes c rem filled v ((==_iff filled c.chunk.physical_len).0 same),
          )
          | inr more ↦
              let asks = run ∙ body_reads again c rem filled more in
              elim (Read-cases (asked_of c filled).1) [
                | inl e ↦ (
                  (asked c filled, Poll.pending),
                  asks ∙ after_read-eq again (asked c filled) rem filled _ _ e,
                  (
                    rem,
                    filled,
                    record { is_reading = v.is_reading; whole = v.whole; within = v.within },
                    ap (λ t. take filled c.chunk.buffer ++ t)
                        (pending_keeps c.stream.inner (c.chunk.physical_len - filled) e),
                  ),
                )
                | inr (inl (x, e)) ↦ (
                  ready_of (read_fails reader (asked c filled) filled x),
                  asks ∙ after_read-eq again (asked c filled) rem filled _ _ e,
                  read_fails-Completes (known c filled) (asked c filled) filled x,
                )
                | inr (inr (inl e)) ↦ (
                  ready_of (chunk_truncated reader (asked c filled) rem filled),
                  asks ∙ after_read-eq again (asked c filled) rem filled _ _ e,
                  chunk_truncated-Completes (known c filled) (asked c filled) rem filled,
                )
                | inr (inr (inr (b, bs, e))) ↦
                    let (w, same) = grown-IsFilling c rem filled (b ∷ bs) v e in
                    let (r, e', done) =
                      complete_member_chunk-Completes fuel
                        (grown_chunk reader (asked c filled) rem filled (b ∷ bs)) rem
                        (filled + length (b ∷ bs)) w (omega (arith, h, w.within)) in
                    (
                      r,
                      asks ∙ after_read-eq again (asked c filled) rem filled _ _ e ∙ e',
                      subst (λ t. CompletesWith t r) same done,
                    )
              ]
        ]
