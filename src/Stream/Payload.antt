-- ===== src/Stream/Payload.antt =====
-- The payload of a member: how many blocks are read for it, and which of their bytes count.
use tar_codec.Base.{
  ℕ, zero, suc, ◌+◌, ◌-◌, ◌*◌, ◌≤◌, ◌<◌, ◌≡◌, refl, sym, ap, ◌∙◌, Option, none, some, List, [], ◌∷◌,
  ◌++◌, arith, Bytes, All, length, take, ◌⊎◌, ok, err,
}
use tar_codec.Header.{block_size}
use tar_codec.Stream.{DataOwner, Framed, Frame, State, TarStream}
use tar_codec.Stream.Machine.{block_len, member_payload_state, process_block}

-- The stream and the frames after a list of blocks, from position `p` on; an error ends the run.
after_block :
    Bytes
    → (TarStream → TarStream × List Frame)
    → TarStream × Framed (Option Frame)
    → TarStream × List Frame
after_block block rest (s, err e) = (s, [])
after_block block rest (s, ok none) = rest s
after_block block rest (s, ok (some frame)) = ((rest s).0, frame ∷ (rest s).1)

unfoldable pub run : ℕ → List Bytes → TarStream → TarStream × List Frame
unfolding after_block
run p [] s = (s, [])
run p (block ∷ blocks) s =
    after_block block (λ t. run (p + block_size) blocks t) (process_block p block s)

abbrev pub flatten : List Bytes → Bytes
flatten [] = []
flatten (b ∷ bs) = b ++ flatten bs

-- The meaningful bytes of the data frames that belong to members.
abbrev pub member_bytes : List Frame → Bytes
member_bytes [] = []
member_bytes (Frame.payload d ∷ frames) =
    elim d.owner [ DataOwner.member ↦ take d.len d.block | _ ↦ [] ] ++ member_bytes frames
member_bytes (frame ∷ frames) = member_bytes frames

-- `n` elements of two lists: `m` of the first and `r` of the second, which is begun only if the
-- first is used up.
pub take-append_split {ℓ} :
    {A : Type ℓ} (n m r : ℕ) (xs ys : List A)
    → m + r ≡ n
    → m ≤ length xs
    → (m ≡ length xs) ⊎ (r ≡ 0)
    → take n (xs ++ ys) ≡ take m xs ++ take r ys
take-append_split n zero r [] ys e h c = let e' : n ≡ r = omega arith in rw e'
take-append_split n zero r (x ∷ xs) ys e h c =
    let e' : n ≡ 0 = omega arith in let e'' : r ≡ 0 = omega arith in rw (e', e'')
take-append_split n (suc m) r [] ys e h c = absurd (omega arith)
take-append_split zero (suc m) r (x ∷ xs) ys e h c = absurd (omega arith)
take-append_split (suc n) (suc m) r (x ∷ xs) ys e h c =
    ap (◌∷◌ x) (take-append_split n m r xs ys (omega arith) (omega arith) (omega arith))

abbrev member_frame : ℕ → ℕ → Bytes → Frame
member_frame n p block = Frame.payload (record {
  position = p;
  block = block;
  len = block_len n;
  owner = DataOwner.member;
  completed_pax_records = none;
})

member_step :
    (n p : ℕ) (block : Bytes) (s : TarStream)
    → s.state ≡ State.reading_member n
    → process_block p block s ≡ (
      record s { state = member_payload_state (n - block_len n) },
      ok (some (member_frame n p block)),
    )
unfolding process_block
member_step n p block s e = rw e refl

abbrev stepped : ℕ → TarStream → TarStream
stepped n s = record s { state = member_payload_state (n - block_len n) }

run_cons :
    (n p : ℕ) (block : Bytes) (blocks : List Bytes) (s : TarStream)
    → s.state ≡ State.reading_member n
    → run p (block ∷ blocks) s ≡ (
      (run (p + block_size) blocks (stepped n s)).0,
      member_frame n p block ∷ (run (p + block_size) blocks (stepped n s)).1,
    )
unfolding run
run_cons n p block blocks s e =
    ap (after_block block (λ t. run (p + block_size) blocks t)) (member_step n p block s e)

reading :
    (n : ℕ) (s : TarStream)
    → 0 < n
    → s.state ≡ member_payload_state n
    → s.state ≡ State.reading_member n
unfolding member_payload_state
reading n s h e = ground arith

-- From the first payload block of a member of `n` bytes on, the `k` blocks that cover `n` bytes
-- give one data frame each, whose meaningful bytes together are the first `n` of the blocks; and
-- then the stream awaits the next header.
pub run_member :
    (k n p : ℕ) (blocks : List Bytes) (s : TarStream)
    → length blocks ≡ k
    → All (λ block. length block ≡ block_size) blocks
    → n ≤ block_size * k
    → block_size * k < n + block_size
    → s.state ≡ member_payload_state n
    → ((run p blocks s).0.state ≡ State.awaiting_header)
      × (length (run p blocks s).1 ≡ k)
      × (member_bytes (run p blocks s).1 ≡ take n (flatten blocks))
run_member k n p [] s h whole lo hi e =
    let n0 : n ≡ 0 = omega arith in unfold run member_payload_state in (rw (e, n0), h, rw n0)
run_member zero n p (block ∷ blocks) s h whole lo hi e = absurd (omega arith)
run_member (suc k) n p (block ∷ blocks) s h whole lo hi e =
    let (ended, count, bytes) =
      run_member k (n - block_len n) (p + block_size) blocks (stepped n s) (omega arith) whole.1
        (omega arith) (omega arith) refl in
    rw (run_cons n p block blocks s (reading n s (omega arith) e)) (
      ended,
      ap suc count,
      ap (λ bs. take (block_len n) block ++ bs) bytes
          ∙ sym (
              take-append_split n (block_len n) (n - block_len n) block (flatten blocks)
                (omega arith) (omega (arith, whole.0)) (omega (arith, whole.0))),
    )
