-- ===== src/Stream/Reader/Rounds.antt =====
-- `poll_next_frame` ends: at most three blocks are read before a frame, an error or the end.
use tar_codec.Base.{
  ℕ, zero, suc, ◌≤◌, ◌<◌, ◌≡◌, ◌⊎◌, inl, inr, refl, ap, ◌∙◌, true, false, Option, none, some, arith,
  Bytes, Bool-cases, ok, err,
}
use tar_codec.Header.{block_size}
use tar_codec.Stream.{Framed, Frame, State, TarStream}
use tar_codec.Stream.Machine.{process_in, process_block}
use tar_codec.Stream.Reader.{
  Poll, AsyncRead, Stream, Frames, is_over, feed, after_block, after_read, poll_frame_body,
  fail_on_error, poll_read_block, poll_next_frame, next_frame,
}
use tar_codec.Stream.Reader.Reads.{poll_read_block_total, poll_read_block_core}

-- The rounds that the loop may still take.
abbrev pub rounds_of : State → ℕ
rounds_of State.complete = 1
rounds_of State.failed = 1
rounds_of State.awaiting_second_zero = 2
rounds_of _ = 3

silent_step :
    (q : State) (p : ℕ) (block : Bytes) (s : TarStream)
    → s.state ≡ State.failed
    → (process_in q p block s).1 ≡ ok none
    → (rounds_of q ≡ 1) ⊎ (rounds_of (process_in q p block s).0.state < rounds_of q)
unfolding process_in
silent_step State.awaiting_header p block s f e = ground arith
silent_step _ p block s f e = ground arith

rounds_pos : (q : State) → 0 < rounds_of q
rounds_pos State.complete = omega arith
rounds_pos State.failed = omega arith
rounds_pos State.awaiting_second_zero = omega arith
rounds_pos _ = omega arith

rounds_le : (q : State) → rounds_of q ≤ 3
rounds_le State.complete = omega arith
rounds_le State.failed = omega arith
rounds_le State.awaiting_second_zero = omega arith
rounds_le _ = omega arith

over_iff : (q : State) → is_over q ≡ false → 1 < rounds_of q
unfolding is_over
over_iff State.complete e = cc
over_iff _ e = ground arith

silent_block :
    (p : ℕ) (block : Bytes) (s : TarStream)
    → is_over s.state ≡ false
    → (process_block p block s).1 ≡ ok none
    → rounds_of (process_block p block s).0.state < rounds_of s.state
unfolding process_block
silent_block p block s live e = omega (
  arith,
  over_iff s.state live,
  silent_step s.state p block (record s { state = State.failed }) refl e,
)

module _ (reader : AsyncRead) where
  feed-none :
      (s : Stream reader) (p : ℕ) (block : Bytes)
      → is_over s.core.state ≡ false
      → (feed reader s p block).1 ≡ none
      → rounds_of (feed reader s p block).0.core.state < rounds_of s.core.state
  unfolding feed
  feed-none s p block live e = ground (arith, silent_block p block s.core)

  block_total :
      (again : Stream reader → Option (Frames reader)) (r : Stream reader × Option (Framed Frame))
      → (r.1 ≡ none → (f : Frames reader) × (again r.0 ≡ some f))
      → (f : Frames reader) × (after_block reader again r ≡ some f)
  unfolding after_block
  block_total again (t, none) ih = ih refl
  block_total again (t, some (ok frame)) ih = (_, refl)
  block_total again (t, some (err e)) ih = (_, refl)

  read_total :
      (n : ℕ) (again : Stream reader → Option (Frames reader))
      (r : Stream reader × Poll (Framed (Option (ℕ × Bytes))))
      → is_over r.0.core.state ≡ false
      → rounds_of r.0.core.state ≤ suc n
      → ((t : Stream reader)
          → rounds_of t.core.state ≤ n
          → (f : Frames reader) × (again t ≡ some f))
      → (f : Frames reader) × (after_read reader again r ≡ some f)
  unfolding after_read
  read_total n again (t, Poll.pending) live h ih = (_, refl)
  read_total n again (t, Poll.ready (err x)) live h ih = (_, refl)
  read_total n again (t, Poll.ready (ok none)) live h ih = (_, refl)
  read_total n again (t, Poll.ready (ok (some (p, block)))) live h ih =
      block_total again (feed reader t p block)
        (λ e. ih (feed reader t p block).0 (omega (arith, feed-none t p block live e)))

  body_some :
      (fuel : ℕ) (again : Stream reader → Option (Frames reader)) (s : Stream reader)
      (r : Stream reader × Poll (Framed (Option (ℕ × Bytes))))
      → poll_read_block reader fuel s ≡ some r
      → poll_frame_body reader fuel again s ≡ after_read reader again r
  unfolding poll_frame_body
  body_some fuel again s r e =
      ap
        (λ (o : Option (Stream reader × Poll (Framed (Option (ℕ × Bytes))))).
          let f : Option (Frames reader) = elim o [
            | none ↦ none
            | some q ↦ after_read reader again q
          ] in
          f)
        e

  next_over :
      (n fuel : ℕ) (s : Stream reader)
      → is_over s.core.state ≡ true
      → poll_next_frame reader (suc n) fuel s ≡ some (s, Poll.ready (ok none))
  unfolding poll_next_frame
  next_over n fuel s over = rw over

  next_live :
      (n fuel : ℕ) (s : Stream reader)
      → is_over s.core.state ≡ false
      → poll_next_frame reader (suc n) fuel s
        ≡ poll_frame_body reader fuel (λ t. poll_next_frame reader n fuel t) s
  unfolding poll_next_frame
  next_live n fuel s live = rw live

  next_some :
      (rounds fuel : ℕ) (s : Stream reader) (f : Frames reader)
      → poll_next_frame reader rounds fuel s ≡ some f
      → next_frame reader rounds fuel s ≡ some (fail_on_error reader f)
  unfolding next_frame
  next_some rounds fuel s f e =
      ap
        (λ (o : Option (Frames reader)).
          let g : Option (Frames reader) = elim o [
            | none ↦ none
            | some q ↦ some (fail_on_error reader q)
          ] in
          g)
        e

  body_total :
      (n fuel : ℕ) (again : Stream reader → Option (Frames reader)) (s : Stream reader)
      → is_over s.core.state ≡ false
      → rounds_of s.core.state ≤ suc n
      → block_size < fuel
      → ((t : Stream reader)
          → rounds_of t.core.state ≤ n
          → (f : Frames reader) × (again t ≡ some f))
      → (f : Frames reader) × (poll_frame_body reader fuel again s ≡ some f)
  body_total n fuel again s live h enough ih =
      let (r, e) = poll_read_block_total reader fuel s (omega arith) in
      let same = poll_read_block_core reader fuel s r e in
      let (f, e') = read_total n again r (rw same live) (rw same h) ih in
      (f, body_some fuel again s r e ∙ e')

  -- A poll for the next frame ends: three rounds of its loop are enough, and 513 of the loop that
  -- reads a block, whatever the reader answers.
  pub poll_next_frame_total :
      (rounds fuel : ℕ) (s : Stream reader)
      → rounds_of s.core.state ≤ rounds
      → block_size < fuel
      → (f : Frames reader) × (poll_next_frame reader rounds fuel s ≡ some f)
  poll_next_frame_total zero fuel s h enough = absurd (omega (arith, rounds_pos s.core.state))
  poll_next_frame_total (suc n) fuel s h enough = elim (Bool-cases (is_over s.core.state)) [
    | inl over ↦ (_, next_over n fuel s over)
    | inr live ↦
        let (f, e) =
          body_total n fuel (λ t. poll_next_frame reader n fuel t) s live h enough
            (λ t h'. poll_next_frame_total n fuel t h' enough) in
        (f, next_live n fuel s live ∙ e)
  ]

  pub next_frame_total :
      (fuel : ℕ) (s : Stream reader)
      → block_size < fuel
      → (f : Frames reader) × (next_frame reader 3 fuel s ≡ some f)
  next_frame_total fuel s enough =
      let (f, e) = poll_next_frame_total 3 fuel s (rounds_le s.core.state) enough in
      (fail_on_error reader f, next_some 3 fuel s f e)
