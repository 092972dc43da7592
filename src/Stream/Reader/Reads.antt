-- ===== src/Stream/Reader/Reads.antt =====
-- `poll_read_block` ends, and loses no byte: not at a block's end, and not at a `Pending`.
use tar_codec.Base.{
  ℕ, zero, suc, ◌+◌, ◌-◌, ◌≤◌, ◌<◌, ◌≡◌, ◌⊎◌, inl, inr, refl, sym, ap, subst, ◌∙◌, Option, none,
  some, some-injective, [], ◌∷◌, ◌++◌, append-nil, append_assoc, arith, Bytes, length,
  length-append, ltb, ltb→lt, u64_limit, Bool-cases, Option-cases, checked_add, ok, err,
}
use tar_codec.Header.{block_size}
use tar_codec.Stream.{FrameErrorInner, at, Framed, TarStream}
use tar_codec.Stream.Reader.{
  Read, Poll, AsyncRead, Stream, take_block, at_end, stops, added, poll_read_block,
}

-- What the documentation of `AsyncRead` says of a source whose unread bytes are `contents`: the
-- bytes that it fills in are the next ones, no more than asked for, and none only at the end.
pub record ReadsInOrder (reader : AsyncRead) : Type 1 where
  pub contents : AsyncRead.Source reader → Bytes
  pub filled_next :
      (r : AsyncRead.Source reader) (n : ℕ) (bs : Bytes)
      → (AsyncRead.poll_read reader r n).1 ≡ Read.filled bs
      → (contents r ≡ bs ++ contents (AsyncRead.poll_read reader r n).0) × (length bs ≤ n)
  pub none_at_end :
      (r : AsyncRead.Source reader) (n : ℕ)
      → 0 < n
      → (AsyncRead.poll_read reader r n).1 ≡ Read.filled []
      → contents r ≡ []
  pub pending_keeps :
      (r : AsyncRead.Source reader) (n : ℕ)
      → (AsyncRead.poll_read reader r n).1 ≡ Read.pending
      → contents (AsyncRead.poll_read reader r n).0 ≡ contents r

module _ (reader : AsyncRead) where
  stops-none :
      (s : Stream reader) (r : Read) → stops reader s r ≡ none → 0 < length (added reader r)
  unfolding stops
  stops-none s Read.pending e = cc
  stops-none s (Read.failed x) e = cc
  stops-none s (Read.filled []) e = cc
  stops-none s (Read.filled (b ∷ bs)) e = omega arith

  -- What one round asks the reader, the stream after it, and that stream with the bytes kept.
  abbrev answer : Stream reader → Read
  answer s = (AsyncRead.poll_read reader s.inner (block_size - length s.block)).1

  abbrev asked : Stream reader → Stream reader
  asked s = record s {
    inner = (AsyncRead.poll_read reader s.inner (block_size - length s.block)).0;
  }

  abbrev grown : Stream reader → Stream reader
  grown s = record (asked s) { block = s.block ++ added reader (answer s) }

  abbrev pub Outcome : Type 0
  Outcome = Poll (Framed (Option (ℕ × Bytes)))

  -- The three ways in which a round goes.
  round_cases :
      (fuel : ℕ) (s : Stream reader)
      → ((block_size ≤ length s.block)
          × (poll_read_block reader (suc fuel) s
              ≡ some (take_block reader s (checked_add s.position block_size))))
        ⊎ ((length s.block < block_size)
            × ((r : Stream reader × Outcome) × (stops reader (asked s) (answer s) ≡ some r)
                × (poll_read_block reader (suc fuel) s ≡ some r)))
        ⊎ ((length s.block < block_size)
            × (stops reader (asked s) (answer s) ≡ none)
            × (poll_read_block reader (suc fuel) s ≡ poll_read_block reader fuel (grown s)))
  unfolding poll_read_block
  round_cases fuel s = elim (Bool-cases (ltb (length s.block) block_size)) [
    | inl room ↦ elim (Option-cases (stops reader (asked s) (answer s))) [
      | inl goes ↦ inr (inr (omega (arith, ltb→lt _ _ room), goes, rw room (rw goes)))
      | inr (r, ends) ↦ inr (inl (omega (arith, ltb→lt _ _ room), (r, ends, rw room (rw ends))))
    ]
    | inr whole ↦ inl (ground arith, rw whole)
  ]

  -- The loop of `poll_read_block` ends: a round reads a byte at least, or it is the last. So one
  -- round more than a block has bytes is fuel enough.
  pub poll_read_block_total :
      (fuel : ℕ) (s : Stream reader)
      → block_size - length s.block < fuel
      → (r : Stream reader × Outcome) × (poll_read_block reader fuel s ≡ some r)
  poll_read_block_total zero s h = absurd (omega arith)
  poll_read_block_total (suc fuel) s h = elim (round_cases fuel s) [
    | inl (whole, e) ↦ (_, e)
    | inr (inl (room, (r, ends, e))) ↦ (r, e)
    | inr (inr (room, goes, e)) ↦
        let (r, e') = poll_read_block_total fuel (grown s) (
          omega (
            arith,
            stops-none (asked s) (answer s) goes,
            length-append s.block (added reader (answer s)),
          )) in
        (r, e ∙ e')
  ]

  no_fuel :
      (s : Stream reader) (r : Stream reader × Outcome) → poll_read_block reader 0 s ≡ some r → ⊥
  unfolding poll_read_block
  no_fuel s r e = cc

  stops_core :
      (s : Stream reader) (a : Read) (r : Stream reader × Outcome)
      → stops reader s a ≡ some r
      → r.0.core ≡ s.core
  unfolding stops
  stops_core s Read.pending r e =
      ap (λ (q : Stream reader × Outcome). q.0.core) (some-injective _ _ (sym e))
  stops_core s (Read.failed x) r e =
      ap (λ (q : Stream reader × Outcome). q.0.core) (some-injective _ _ (sym e))
  stops_core s (Read.filled []) r e =
      ap (λ (q : Stream reader × Outcome). q.0.core) (some-injective _ _ (sym e))
  stops_core s (Read.filled (b ∷ bs)) r e = cc

  take_block_core :
      (s : Stream reader) (next : Option ℕ) → (take_block reader s next).0.core ≡ s.core
  unfolding take_block
  take_block_core s none = refl
  take_block_core s (some next) = refl

  -- Reading a block leaves the parser as it was.
  pub poll_read_block_core :
      (fuel : ℕ) (s : Stream reader) (r : Stream reader × Outcome)
      → poll_read_block reader fuel s ≡ some r
      → r.0.core ≡ s.core
  poll_read_block_core zero s r e = absurd (no_fuel s r e)
  poll_read_block_core (suc fuel) s r e = elim (round_cases fuel s) [
    | inl (whole, e') ↦
        subst (λ (q : Stream reader × Outcome). q.0.core ≡ s.core) (some-injective _ _ (sym e' ∙ e))
          (take_block_core s _)
    | inr (inl (room, (r', ends, e'))) ↦
        subst (λ (q : Stream reader × Outcome). q.0.core ≡ s.core) (some-injective _ _ (sym e' ∙ e))
          (stops_core (asked s) (answer s) r' ends)
    | inr (inr (room, goes, e')) ↦ poll_read_block_core fuel (grown s) r (sym e' ∙ e)
  ]

  module _ (law : ReadsInOrder reader) where
    open law use {contents, filled_next, none_at_end, pending_keeps}

    -- The bytes that have not been handed out as a block.
    abbrev pub unread : Stream reader → Bytes
    unread s = s.block ++ contents s.inner

    -- What a poll of a block leaves, by its outcome, of a stream with those bytes unread.
    abbrev pub Delivers : Bytes → ℕ → TarStream → Stream reader → Outcome → Type 0
    Delivers bytes start core t Poll.pending =
        (unread t ≡ bytes) × (t.position ≡ start) × (t.core ≡ core)
    Delivers bytes start core t (Poll.ready (ok none)) = (bytes ≡ []) × (t.core ≡ core)
    Delivers bytes start core t (Poll.ready (ok (some (p, block)))) =
        (block ++ contents t.inner ≡ bytes)
        × (length block ≡ block_size)
        × (p ≡ start)
        × (t.position ≡ start + block_size)
        × (t.block ≡ [])
        × (t.core ≡ core)
    Delivers bytes start core t (Poll.ready (err e)) =
        (t.core ≡ core)
        × ((e ≡ at start (FrameErrorInner.incomplete_block (length bytes)))
            ⊎ ((x : ℕ) × (e ≡ at (start + length t.block) (FrameErrorInner.io x)))
            ⊎ ((u64_limit ≤ start + block_size)
                × (e ≡ at start (FrameErrorInner.arithmetic_overflow "stream position"))))

    grown-unread :
        (s : Stream reader) (r : Read)
        → answer s ≡ r
        → stops reader (asked s) r ≡ none
        → (unread (grown s) ≡ unread s)
          × (length (grown s).block ≤ length s.block + (block_size - length s.block))
    unfolding stops
    grown-unread s Read.pending e goes = cc
    grown-unread s (Read.failed x) e goes = cc
    grown-unread s (Read.filled []) e goes = cc
    grown-unread s (Read.filled (b ∷ bs)) e goes =
        let (next, fits) = filled_next s.inner (block_size - length s.block) (b ∷ bs) e in
        rw e (
          append_assoc s.block (b ∷ bs) _ ∙ ap (λ c. s.block ++ c) (sym next),
          omega (arith, length-append s.block (b ∷ bs)),
        )

    abbrev pub DeliversAt : Stream reader → Stream reader × Outcome → Type 0
    DeliversAt s (t, o) = Delivers (unread s) s.position s.core t o

    at_end-Delivers :
        (s : Stream reader) (block : Bytes)
        → unread s ≡ block
        → DeliversAt s (asked s, Poll.ready (at_end reader (asked s) block))
    unfolding at_end
    at_end-Delivers s [] e = (e, refl)
    at_end-Delivers s (b ∷ bs) e =
        (refl, inl (ap (λ c. at s.position (FrameErrorInner.incomplete_block (length c))) (sym e)))

    stops-Delivers :
        (s : Stream reader) (a : Read) (r : Stream reader × Outcome)
        → length s.block < block_size
        → answer s ≡ a
        → stops reader (asked s) a ≡ some r
        → DeliversAt s r
    unfolding stops
    stops-Delivers s Read.pending r room e ends =
        subst (DeliversAt s) (some-injective _ _ ends)
          (ap (λ c. s.block ++ c) (pending_keeps s.inner _ e), refl, refl)
    stops-Delivers s (Read.failed x) r room e ends =
        subst (DeliversAt s) (some-injective _ _ ends) (refl, inr (inl (x, refl)))
    stops-Delivers s (Read.filled []) r room e ends =
        subst (DeliversAt s) (some-injective _ _ ends) (
          at_end-Delivers s s.block
            (ap (λ c. s.block ++ c) (none_at_end s.inner _ (omega arith) e) ∙ append-nil s.block))
    stops-Delivers s (Read.filled (b ∷ bs)) r room e ends = cc

    take_block-Delivers :
        (s : Stream reader)
        → length s.block ≡ block_size
        → DeliversAt s (take_block reader s (checked_add s.position block_size))
    unfolding take_block
    take_block-Delivers s whole = elim (Bool-cases (ltb (s.position + block_size) u64_limit)) [
      | inl fits ↦ rw fits (refl, whole, refl, refl, refl, refl)
      | inr over ↦ rw over (refl, inr (inr (ground arith, refl)))
    ]

    -- A poll of a block hands out the next 512 unread bytes and their position, and nothing else;
    -- a pending poll loses no byte; the end of the input is found only where no byte is unread, and
    -- an incomplete block is reported with its length.
    pub poll_read_block-Delivers :
        (fuel : ℕ) (s : Stream reader) (r : Stream reader × Outcome)
        → length s.block ≤ block_size
        → poll_read_block reader fuel s ≡ some r
        → DeliversAt s r
    poll_read_block-Delivers zero s r h e = absurd (no_fuel s r e)
    poll_read_block-Delivers (suc fuel) s r h e = elim (round_cases fuel s) [
      | inl (whole, e') ↦
          subst (DeliversAt s) (some-injective _ _ (sym e' ∙ e))
            (take_block-Delivers s (omega arith))
      | inr (inl (room, (r', ends, e'))) ↦
          subst (DeliversAt s) (some-injective _ _ (sym e' ∙ e))
            (stops-Delivers s (answer s) r' room refl ends)
      | inr (inr (room, goes, e')) ↦
          let (same, fits) = grown-unread s (answer s) refl goes in
          subst (λ bytes. Delivers bytes s.position s.core r.0 r.1) same
            (poll_read_block-Delivers fuel (grown s) r (omega arith) (sym e' ∙ e))
    ]
