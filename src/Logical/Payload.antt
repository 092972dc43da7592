-- ===== src/Logical/Payload.antt =====
-- crates/tar-framing/src/logical.rs: `PayloadReader`, which reads the payload of the current member.
-- The buffer that `drain_payload` keeps for its allocation is not state of the model.
use tar_codec.Base.{
  ℕ, zero, suc, Bool, true, false, Option, none, some, some-injective, Bytes, ◌==◌, ==_iff,
  if◌then◌else◌, checked_sub, and_then, and_then-eq-some, ok, err, ◌≡◌, refl, sym, subst, ◌∙◌,
  Bool-cases, Option-cases, inl, inr,
}
use tar_codec.Stream.{FrameErrorInner, FrameError, at, Framed}
use tar_codec.Stream.Reader.{Poll, AsyncRead}
use tar_codec.Stream.Chunk.{ChunkStream}
use tar_codec.Stream.Chunk.Calls.{BlockRead, ChunkRead, read_member_block, read_member_chunk}
use tar_codec.Text.{String}

abbrev payload_drain_chunk_bytes : ℕ
payload_drain_chunk_bytes = 1048576

pub record PayloadBlock : Type 0 where
  pub position : ℕ
  pub block : Bytes
  pub len : ℕ

module _ (reader : AsyncRead) where
  pub record PayloadReader : Type 0 where
    pub stream : ChunkStream reader
    pub remaining : ℕ

  oversized : ℕ → String → FrameError
  oversized position what =
      at position (FrameErrorInner.unexpected_order "bounded member payload" what)

  -- What `next_payload_block` does with a block that was read.
  unfoldable after_payload_block :
      ℕ → BlockRead reader → PayloadReader × Poll (Framed (Option PayloadBlock))
  unfolding oversized
  after_payload_block remaining (s, Poll.pending) =
      (record { stream = s; remaining = remaining }, Poll.pending)
  after_payload_block remaining (s, Poll.ready (err e)) =
      (record { stream = s; remaining = remaining }, Poll.ready (err e))
  after_payload_block remaining (s, Poll.ready (ok (position, block, len))) =
      elim (checked_sub remaining len) [
        | none ↦ (
          record { stream = s; remaining = remaining },
          Poll.ready (err (oversized position "oversized member payload")),
        )
        | some rest ↦ (
          record { stream = s; remaining = rest },
          Poll.ready (ok (some record { position = position; block = block; len = len })),
        )
      ]

  -- `next_payload_block`
  unfoldable next_payload_block :
      ℕ → PayloadReader → Option (PayloadReader × Poll (Framed (Option PayloadBlock)))
  unfolding read_member_block after_payload_block
  next_payload_block fuel p =
      if p.remaining == 0
      then some (p, Poll.ready (ok none))
      else and_then (read_member_block reader fuel p.stream)
          (λ r. some (after_payload_block p.remaining r))

  abbrev PayloadChunk : Type 0
  PayloadChunk = PayloadReader × Bytes × Poll (Framed Bool)

  -- What `next_payload_chunk` does with a chunk that was read.
  unfoldable after_payload_chunk : ℕ → ChunkRead reader → PayloadChunk
  unfolding oversized
  after_payload_chunk remaining (s, buffer, Poll.pending) =
      (record { stream = s; remaining = remaining }, buffer, Poll.pending)
  after_payload_chunk remaining (s, buffer, Poll.ready (err e)) =
      (record { stream = s; remaining = remaining }, buffer, Poll.ready (err e))
  after_payload_chunk remaining (s, buffer, Poll.ready (ok len)) =
      elim (checked_sub remaining len) [
        | none ↦ (
          record { stream = s; remaining = remaining },
          buffer,
          Poll.ready (err (oversized s.stream.position "oversized member payload chunk")),
        )
        | some rest ↦ (record { stream = s; remaining = rest }, buffer, Poll.ready (ok true))
      ]

  -- `next_payload_chunk`
  unfoldable next_payload_chunk : ℕ → PayloadReader → Bytes → ℕ → Option PayloadChunk
  unfolding read_member_chunk after_payload_chunk
  next_payload_chunk fuel p buffer target_len =
      if p.remaining == 0
      then some (p, buffer, Poll.ready (ok false))
      else and_then (read_member_chunk reader fuel p.stream buffer target_len)
          (λ r. some (after_payload_chunk p.remaining r))

  abbrev Drained : Type 0
  Drained = PayloadReader × Poll (Framed (Unit {0}))

  -- The loop of `drain_payload` on a chunk; `again` is its next round.
  unfoldable after_drained :
      (PayloadReader → Bytes → Option Drained) → PayloadChunk → Option Drained
  after_drained again (p, buffer, Poll.pending) = some (p, Poll.pending)
  after_drained again (p, buffer, Poll.ready (err e)) = some (p, Poll.ready (err e))
  after_drained again (p, buffer, Poll.ready (ok true)) = again p buffer
  after_drained again (p, buffer, Poll.ready (ok false)) = some (p, Poll.ready (ok tt))

  -- `drain_payload`: `rounds` bounds its own loop, `fuel` each read.
  unfoldable drain_payload : ℕ → ℕ → PayloadReader → Bytes → Option Drained
  unfolding next_payload_chunk after_drained
  drain_payload zero fuel p buffer = none
  drain_payload (suc rounds) fuel p buffer =
      and_then (next_payload_chunk fuel p buffer payload_drain_chunk_bytes)
        (λ r. after_drained (λ t b. drain_payload rounds fuel t b) r)

  -- A drain that ends without an error leaves nothing of the payload.
  abbrev Empties : Drained → Type 0
  Empties (p, Poll.ready (ok _)) = p.remaining ≡ 0
  Empties _ = Unit {0}

  abbrev EndsEmpty : PayloadChunk → Type 0
  EndsEmpty (p, buffer, Poll.ready (ok false)) = p.remaining ≡ 0
  EndsEmpty _ = Unit {0}

  rest_chunk-EndsEmpty :
      (s : ChunkStream reader) (remaining : ℕ) (buffer : Bytes) (len : ℕ)
      → EndsEmpty (after_payload_chunk remaining (s, buffer, Poll.ready (ok len)))
  unfolding after_payload_chunk
  rest_chunk-EndsEmpty s remaining buffer len = elim (Option-cases (checked_sub remaining len)) [
    | inl e ↦ rw (e, after_payload_chunk) tt
    | inr (rest, e) ↦ rw (e, after_payload_chunk) tt
  ]

  after_payload_chunk-EndsEmpty :
      (remaining : ℕ) (r : ChunkRead reader) → EndsEmpty (after_payload_chunk remaining r)
  unfolding after_payload_chunk
  after_payload_chunk-EndsEmpty remaining (s, buffer, Poll.pending) = tt
  after_payload_chunk-EndsEmpty remaining (s, buffer, Poll.ready (err e)) = tt
  after_payload_chunk-EndsEmpty remaining (s, buffer, Poll.ready (ok len)) =
      rest_chunk-EndsEmpty s remaining buffer len

  next_payload_chunk-EndsEmpty :
      (fuel : ℕ) (p : PayloadReader) (buffer : Bytes) (target_len : ℕ) (r : PayloadChunk)
      → next_payload_chunk fuel p buffer target_len ≡ some r
      → EndsEmpty r
  unfolding next_payload_chunk
  next_payload_chunk-EndsEmpty fuel p buffer target_len r e = elim (Bool-cases (p.remaining == 0)) [
    | inl over ↦
        let same : some (p, buffer, Poll.ready (ok false)) ≡ some r =
          sym (rw (over, next_payload_chunk) refl) ∙ e in
        subst EndsEmpty (some-injective _ _ same) ((==_iff p.remaining 0).0 over)
    | inr more ↦
        let next = λ (t : ChunkRead reader). some (after_payload_chunk p.remaining t) in
        let same : and_then (read_member_chunk reader fuel p.stream buffer target_len) next
            ≡ some r =
          sym (rw (more, next_payload_chunk) refl) ∙ e in
        let (mid, _, last) =
          and_then-eq-some (read_member_chunk reader fuel p.stream buffer target_len) next same in
        subst EndsEmpty (some-injective _ _ last) (after_payload_chunk-EndsEmpty p.remaining mid)
  ]

  after_drained-Empties :
      (again : PayloadReader → Bytes → Option Drained) (r : PayloadChunk) (d : Drained)
      → ((t : PayloadReader) (b : Bytes) → again t b ≡ some d → Empties d)
      → EndsEmpty r
      → after_drained again r ≡ some d
      → Empties d
  unfolding after_drained
  after_drained-Empties again (p, buffer, Poll.pending) d h v e =
      subst Empties (some-injective _ _ e) tt
  after_drained-Empties again (p, buffer, Poll.ready (err x)) d h v e =
      subst Empties (some-injective _ _ e) tt
  after_drained-Empties again (p, buffer, Poll.ready (ok true)) d h v e = h p buffer e
  after_drained-Empties again (p, buffer, Poll.ready (ok false)) d h v e =
      subst Empties (some-injective _ _ e) v

  drain_payload-Empties :
      (rounds fuel : ℕ) (p : PayloadReader) (buffer : Bytes) (d : Drained)
      → drain_payload rounds fuel p buffer ≡ some d
      → Empties d
  unfolding drain_payload
  drain_payload-Empties zero fuel p buffer d e = cc
  drain_payload-Empties (suc rounds) fuel p buffer d e =
      let again = λ (t : PayloadReader) (b : Bytes). drain_payload rounds fuel t b in
      let (mid, ran, last) =
        and_then-eq-some (next_payload_chunk fuel p buffer payload_drain_chunk_bytes)
          (λ r. after_drained again r) e in
      after_drained-Empties again mid d (λ t b. drain_payload-Empties rounds fuel t b d)
        (next_payload_chunk-EndsEmpty fuel p buffer payload_drain_chunk_bytes mid ran) last
