-- ===== src/Stream/Chunk/Calls/Errors.antt =====
-- An error of `read_member_chunk` or `read_member_block` fuses the stream.
use tar_codec.Base.{
  ℕ, some, some-injective, Bytes, ok, err, ◌≡◌, refl, sym, subst, ◌∙◌, Bool-cases, Option-cases,
  inl, inr, and_then, and_then-eq-some, ◌==◌, length, not, ◌&&◌,
}
use tar_codec.Stream.{Framed, State}
use tar_codec.Stream.Reader.{Poll, AsyncRead}
use tar_codec.Stream.Chunk.{
  ChunkStream, start_member_chunk, complete_member_chunk, take_member_chunk,
}
use tar_codec.Stream.Chunk.Calls.{
  fail_member_on_error, failing, BlockRead, ChunkRead, read_member_block_inner, read_member_block,
  block_as_chunk, chunk_of, started_chunk, after_start, no_chunk_is, read_member_chunk,
}

module _ (reader : AsyncRead) where
  -- An error comes with a stream that failed.
  abbrev pub FailsClosed : {A : Type 0} → ChunkStream reader → Poll (Framed A) → Type 0
  FailsClosed c (Poll.ready (err e)) = c.stream.core.state ≡ State.failed
  FailsClosed c _ = Unit {0}

  abbrev ReadFailsClosed : ChunkRead reader → Type 0
  ReadFailsClosed r = FailsClosed r.0 r.2

  fail_member_on_error-FailsClosed :
      {A : Type 0} (c : ChunkStream reader) (r : Framed A)
      → FailsClosed
          (fail_member_on_error reader (c, r)).0
          (Poll.ready (fail_member_on_error reader (c, r)).1)
  unfolding fail_member_on_error
  fail_member_on_error-FailsClosed c (ok a) = tt
  fail_member_on_error-FailsClosed c (err e) = refl

  failing-FailsClosed :
      {A : Type 0} (c : ChunkStream reader) (r : Poll (Framed A))
      → FailsClosed (failing reader (c, r)).0 (failing reader (c, r)).1
  failing-FailsClosed c Poll.pending = tt
  failing-FailsClosed c (Poll.ready r) = fail_member_on_error-FailsClosed c r

  block_as_chunk-FailsClosed :
      (buffer : Bytes) (c : ChunkStream reader) (r : Poll (Framed (ℕ × Bytes × ℕ)))
      → FailsClosed c r
      → ReadFailsClosed (block_as_chunk reader buffer (c, r))
  unfolding block_as_chunk
  block_as_chunk-FailsClosed buffer c Poll.pending h = tt
  block_as_chunk-FailsClosed buffer c (Poll.ready (ok (p, block, n))) h = tt
  block_as_chunk-FailsClosed buffer c (Poll.ready (err e)) h = h

  chunk_of-FailsClosed :
      (buffer : Bytes) (c : ChunkStream reader) (r : Poll (Framed (Unit {0})))
      → ReadFailsClosed (chunk_of reader buffer (c, r))
  unfolding chunk_of fail_member_on_error
  chunk_of-FailsClosed buffer c Poll.pending = tt
  chunk_of-FailsClosed buffer c (Poll.ready (err e)) = refl
  chunk_of-FailsClosed buffer c (Poll.ready (ok u)) =
      fail_member_on_error-FailsClosed
        (record c { chunk = (take_member_chunk c.stream.position c.chunk buffer).0 })
        (take_member_chunk c.stream.position c.chunk buffer).2

  started_chunk-FailsClosed :
      (c : ChunkStream reader) (buffer : Bytes) (n : ℕ)
      → FailsClosed
          (started_chunk reader c buffer n).0
          (Poll.ready (started_chunk reader c buffer n).2)
  unfolding started_chunk
  started_chunk-FailsClosed c buffer n = elim (Option-cases c.chunk.state) [
    | inl e ↦
        rw (e, started_chunk)
          (fail_member_on_error-FailsClosed (start_member_chunk reader c buffer n).0
            (start_member_chunk reader c buffer n).2)
    | inr (state, e) ↦ rw (e, started_chunk) tt
  ]

  after_start-FailsClosed :
      (fuel : ℕ) (c : ChunkStream reader) (buffer : Bytes) (s : Framed (Unit {0}))
      (r : ChunkRead reader)
      → FailsClosed c (Poll.ready s)
      → after_start reader fuel (c, buffer, s) ≡ some r
      → ReadFailsClosed r
  unfolding after_start
  after_start-FailsClosed fuel c buffer (err e) r h eq =
      subst ReadFailsClosed (some-injective _ _ eq) h
  after_start-FailsClosed fuel c buffer (ok u) r h eq =
      let (mid, _, same) =
        and_then-eq-some (complete_member_chunk reader fuel c)
          (λ t. some (chunk_of reader buffer t)) eq in
      subst ReadFailsClosed (some-injective _ _ same) (chunk_of-FailsClosed buffer mid.0 mid.1)

  read_member_block-FailsClosed :
      (fuel : ℕ) (c : ChunkStream reader) (r : BlockRead reader)
      → read_member_block reader fuel c ≡ some r
      → FailsClosed r.0 r.1
  unfolding read_member_block
  read_member_block-FailsClosed fuel c r e =
      let (mid, _, same) =
        and_then-eq-some (read_member_block_inner reader fuel c) (λ t. some (failing reader t)) e in
      subst (λ (t : BlockRead reader). FailsClosed t.0 t.1) (some-injective _ _ same)
        (failing-FailsClosed mid.0 mid.1)

  -- Where `read_member_chunk` answers with an error, on whichever way it took, the stream is left in
  -- the failed state.
  pub read_member_chunk-FailsClosed :
      (fuel : ℕ) (c : ChunkStream reader) (buffer : Bytes) (target_len : ℕ) (r : ChunkRead reader)
      → read_member_chunk reader fuel c buffer target_len ≡ some r
      → FailsClosed r.0 r.2
  unfolding read_member_chunk
  read_member_chunk-FailsClosed fuel c buffer target_len r e =
      elim (Bool-cases (no_chunk_is reader c.chunk.state && not (length c.stream.block == 0))) [
        | inl cancelled ↦
            let e' : and_then (read_member_block reader fuel c)
                  (λ t. some (block_as_chunk reader buffer t))
                ≡ some r =
              sym (rw (cancelled, read_member_chunk) refl) ∙ e in
            let (mid, read, same) =
              and_then-eq-some (read_member_block reader fuel c)
                (λ t. some (block_as_chunk reader buffer t)) e' in
            subst ReadFailsClosed (some-injective _ _ same) (
              block_as_chunk-FailsClosed buffer mid.0 mid.1
                (read_member_block-FailsClosed fuel c mid read))
        | inr fresh ↦
            let start = started_chunk reader c buffer target_len in
            let e' : after_start reader fuel start ≡ some r =
              sym (rw (fresh, read_member_chunk) refl) ∙ e in
            after_start-FailsClosed fuel start.0 start.1 start.2 r
              (started_chunk-FailsClosed c buffer target_len) e'
      ]
