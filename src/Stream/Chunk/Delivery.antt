-- ===== src/Stream/Chunk/Delivery.antt =====
-- What crates/tar-framing/src/stream.rs hands out of a chunk: its bytes, each once and in order.
use tar_codec.Base.{
  ℕ, zero, suc, ◌+◌, ◌-◌, ◌*◌, ◌≤◌, ◌<◌, min, true, false, Option, none, some, List, [], ◌∷◌, ◌++◌,
  Bytes, length, take, drop, leb, ◌==◌, ==_iff, checked_sub, u64_limit, ok, ◌≡◌, refl, sym, ap, ◌∙◌,
  arith, Bool-cases, inl, inr, subst, length-take, length-drop, leb→le, ◌⊎◌,
}
use tar_codec.Header.{block_size}
use tar_codec.Stream.{Framed}
use tar_codec.Stream.Chunk.{
  MemberChunkState, MemberChunk, checked_position, take_member_chunk, next_state,
  take_member_block_from_chunk,
}

-- The meaningful bytes that a chunk still has to hand out.
abbrev pub left_from : MemberChunk → Option MemberChunkState → Bytes
left_from chunk (some (MemberChunkState.ready delivered)) =
    drop delivered (take chunk.meaningful_len chunk.buffer)
left_from chunk _ = []

abbrev pub undelivered : MemberChunk → Bytes
undelivered chunk = left_from chunk chunk.state

-- A chunk that is ready: whole blocks, of which the last has a meaningful byte at least.
pub record IsReady (chunk : MemberChunk) (delivered : ℕ) : Type 0 where
  pub is_ready : chunk.state ≡ some (MemberChunkState.ready delivered)
  pub whole : length chunk.buffer ≡ chunk.physical_len
  pub fits : chunk.start_position + chunk.physical_len < u64_limit
  pub blocks_left : ℕ
  pub aligned : delivered + suc blocks_left * block_size ≡ chunk.physical_len
  pub meaningful : chunk.meaningful_len ≤ chunk.physical_len
  pub last_block : chunk.physical_len < chunk.meaningful_len + block_size

take_nil {ℓ} : {A : Type ℓ} (n : ℕ) → ◌≡◌ {A = List A} (take n []) []
take_nil zero = refl
take_nil (suc n) = refl

drop_nil {ℓ} : {A : Type ℓ} (n : ℕ) → ◌≡◌ {A = List A} (drop n []) []
drop_nil zero = refl
drop_nil (suc n) = refl

drop-take {ℓ} : {A : Type ℓ} (m k : ℕ) (xs : List A) → drop m (take k xs) ≡ take (k - m) (drop m xs)
drop-take zero k xs = let e : k ≡ k - 0 = omega arith in ap (λ n. take n xs) e
drop-take (suc m) zero xs =
    drop_nil (suc m) ∙ ap (λ n. take n (drop (suc m) xs)) (let e : 0 ≡ 0 - suc m = omega arith in e)
drop-take (suc m) (suc k) [] = sym (take_nil (suc k - suc m))
drop-take (suc m) (suc k) (x ∷ xs) =
    drop-take m k xs
    ∙ ap (λ n. take n (drop m xs)) (let e : k - m ≡ suc k - suc m = omega arith in e)

take-take {ℓ} : {A : Type ℓ} (n m : ℕ) (xs : List A) → n ≤ m → take n (take m xs) ≡ take n xs
take-take zero m xs h = refl
take-take (suc n) zero xs h = absurd (omega (arith, h))
take-take (suc n) (suc m) [] h = refl
take-take (suc n) (suc m) (x ∷ xs) h = ap (λ ys. x ∷ ys) (take-take n m xs (omega (arith, h)))

drop-drop {ℓ} : {A : Type ℓ} (n m : ℕ) (xs : List A) → drop (n + m) xs ≡ drop m (drop n xs)
drop-drop zero m xs = let e : 0 + m ≡ m = omega arith in ap (λ k. drop k xs) e
drop-drop (suc n) m [] = drop_nil (suc n + m) ∙ sym (drop_nil m)
drop-drop (suc n) m (x ∷ xs) =
    (let e : suc n + m ≡ suc (n + m) = omega arith in ap (λ k. drop k (x ∷ xs)) e)
    ∙ drop-drop n m xs

take-split {ℓ} :
    {A : Type ℓ} (n m : ℕ) (xs : List A) → take n xs ++ take m (drop n xs) ≡ take (n + m) xs
take-split zero m xs = let e : m ≡ 0 + m = omega arith in ap (λ k. take k xs) e
take-split (suc n) m [] = take_nil m ∙ sym (take_nil (suc n + m))
take-split (suc n) m (x ∷ xs) =
    ap (λ ys. x ∷ ys) (take-split n m xs)
    ∙ (let e : suc (n + m) ≡ suc n + m = omega arith in ap (λ k. take k (x ∷ xs)) e)

-- What is left, counted from what was handed out.
left_take :
    (chunk : MemberChunk) (delivered : ℕ)
    → chunk.state ≡ some (MemberChunkState.ready delivered)
    → undelivered chunk ≡ take (chunk.meaningful_len - delivered) (drop delivered chunk.buffer)
left_take chunk delivered e =
    ap (left_from chunk) e ∙ drop-take delivered chunk.meaningful_len chunk.buffer

some_left : (d b p m : ℕ) → d + suc b * block_size ≡ p → p < m + block_size → d < m
some_left d b p m aligned last = omega (arith, aligned, last)

checked_position-fits :
    (start d : ℕ) → start + d < u64_limit → checked_position start d ≡ ok (start + d)
unfolding checked_position
checked_position-fits start d h = ground arith

checked_sub-some : (a b : ℕ) → b ≤ a → checked_sub a b ≡ some (a - b)
checked_sub-some a b h = ground arith

left_length : (d m p : ℕ) → d < m → m ≤ p → m - d ≡ min (m - d) (p - d)
left_length d m p h h' = omega (arith, h, h')

take_member_chunk-eq :
    (position delivered : ℕ) (chunk : MemberChunk) (buffer : Bytes)
    → chunk.state ≡ some (MemberChunkState.ready delivered)
    → delivered ≤ chunk.meaningful_len
    → take_member_chunk position chunk buffer ≡ (
      record chunk { state = none; buffer = buffer },
      take (chunk.meaningful_len - delivered) (drop delivered chunk.buffer),
      ok (chunk.meaningful_len - delivered),
    )
unfolding take_member_chunk
take_member_chunk-eq position delivered chunk buffer e h =
    rw (e, take_member_chunk, checked_sub-some chunk.meaningful_len delivered h) refl

-- `take_member_chunk` hands out all that is left.
pub take_member_chunk-undelivered :
    (position delivered : ℕ) (chunk : MemberChunk) (buffer : Bytes)
    → IsReady chunk delivered
    → ((take_member_chunk position chunk buffer).1 ≡ undelivered chunk)
      × ((take_member_chunk position chunk buffer).2 ≡ ok (length (undelivered chunk)))
      × (undelivered (take_member_chunk position chunk buffer).0 ≡ [])
take_member_chunk-undelivered position delivered chunk buffer v =
    let d =
      some_left delivered v.blocks_left chunk.physical_len chunk.meaningful_len v.aligned
        v.last_block in
    let rest = left_take chunk delivered v.is_ready in
    let run = take_member_chunk-eq position delivered chunk buffer v.is_ready (omega (arith, d)) in
    let count : chunk.meaningful_len - delivered ≡ length (undelivered chunk) =
      left_length delivered chunk.meaningful_len chunk.physical_len d v.meaningful
      ∙ sym (
          ap length rest
          ∙ length-take (chunk.meaningful_len - delivered) (drop delivered chunk.buffer)
          ∙ ap (min (chunk.meaningful_len - delivered))
              (length-drop delivered chunk.buffer ∙ ap (λ n. n - delivered) v.whole)) in
    (ap (λ t. t.1) run ∙ sym rest, ap (λ t. t.2) run ∙ ap ok count, ap (λ t. undelivered t.0) run)

take_member_block_from_chunk-eq :
    (position delivered : ℕ) (chunk : MemberChunk)
    → chunk.state ≡ some (MemberChunkState.ready delivered)
    → chunk.start_position + delivered < u64_limit
    → delivered ≤ chunk.meaningful_len
    → take_member_block_from_chunk position chunk ≡ (
      record chunk { state = next_state (delivered + block_size) chunk.physical_len },
      ok (
        chunk.start_position + delivered,
        take block_size (drop delivered chunk.buffer),
        min (chunk.meaningful_len - delivered) block_size,
      ),
    )
unfolding take_member_block_from_chunk checked_position
take_member_block_from_chunk-eq position delivered chunk e fits h =
    rw
      (
        e,
        take_member_block_from_chunk,
        checked_position-fits chunk.start_position delivered fits,
        checked_sub-some chunk.meaningful_len delivered h,
      )
      refl

lt_of_not_leb : (a b : ℕ) → leb a b ≡ false → b < a
lt_of_not_leb a b h = ground arith

append_nil {ℓ} : {A : Type ℓ} (xs : List A) → xs ++ [] ≡ xs
append_nil [] = refl
append_nil (x ∷ xs) = ap (λ ys. x ∷ ys) (append_nil xs)

take_two {ℓ} :
    {A : Type ℓ} (r k : ℕ) (xs : List A) → take (min r k) xs ++ take (r - k) (drop k xs) ≡ take r xs
take_two r k xs = elim (Bool-cases (leb k r)) [
  | inl e ↦
      (let same : min r k ≡ k = omega (arith, leb→le k r e) in
        let total : k + (r - k) ≡ r = omega (arith, leb→le k r e) in
        ap (λ n. take n xs ++ take (r - k) (drop k xs)) same
        ∙ take-split k (r - k) xs
        ∙ ap (λ n. take n xs) total)
  | inr e ↦
      (let same : min r k ≡ r = omega (arith, lt_of_not_leb k r e) in
        let gone : r - k ≡ 0 = omega (arith, lt_of_not_leb k r e) in
        ap (λ n. take n xs ++ take (r - k) (drop k xs)) same
        ∙ ap (λ n. take r xs ++ take n (drop k xs)) gone
        ∙ append_nil (take r xs))
]

-- The block and what the chunk has after it, one behind the other.
block_and_rest :
    (m d k : ℕ) (buffer : Bytes)
    → take (min (m - d) k) (take k (drop d buffer)) ++ take (m - (d + k)) (drop (d + k) buffer)
      ≡ take (m - d) (drop d buffer)
block_and_rest m d k buffer =
    let least : min (m - d) k ≤ k = omega arith in
    let left : m - (d + k) ≡ (m - d) - k = omega arith in
    ap (λ t. t ++ take (m - (d + k)) (drop (d + k) buffer))
      (take-take (min (m - d) k) k (drop d buffer) least)
    ∙ ap (λ t. take (min (m - d) k) (drop d buffer) ++ take (m - (d + k)) t) (drop-drop d k buffer)
    ∙ ap (λ t. take (min (m - d) k) (drop d buffer) ++ take t (drop k (drop d buffer))) left
    ∙ take_two (m - d) k (drop d buffer)

-- The chunk after a block of it is handed out.
abbrev after_block : ℕ → MemberChunk → MemberChunk
after_block delivered chunk = record chunk {
  state = next_state (delivered + block_size) chunk.physical_len;
}

-- Nothing is left, or the chunk is ready at the next block.
abbrev pub IsDoneOrReady : MemberChunk → ℕ → Type 0
IsDoneOrReady chunk delivered = (chunk.state ≡ none) ⊎ IsReady chunk delivered

not_same : (a b : ℕ) → a < b → (a == b) ≡ false
not_same a b h = ground arith

after_block-left :
    (d b : ℕ) (chunk : MemberChunk)
    → IsReady chunk d
    → d + suc b * block_size ≡ chunk.physical_len
    → (undelivered (after_block d chunk)
        ≡ take (chunk.meaningful_len - (d + block_size)) (drop (d + block_size) chunk.buffer))
      × IsDoneOrReady (after_block d chunk) (d + block_size)
after_block-left d zero chunk v aligned =
    let done : (d + block_size) == chunk.physical_len ≡ true =
      (let same : d + block_size ≡ chunk.physical_len = omega (arith, aligned) in
        (==_iff (d + block_size) chunk.physical_len).1 same) in
    let gone : 0 ≡ chunk.meaningful_len - (d + block_size) = omega (arith, aligned, v.meaningful) in
    let over : next_state (d + block_size) chunk.physical_len ≡ none = rw done refl in
    (
      ap (left_from chunk) over ∙ ap (λ n. take n (drop (d + block_size) chunk.buffer)) gone,
      inl over,
    )
after_block-left d (suc b) chunk v aligned =
    let more : (d + block_size) == chunk.physical_len ≡ false =
      not_same (d + block_size) chunk.physical_len (omega (arith, aligned)) in
    let next : next_state (d + block_size) chunk.physical_len
        ≡ some (MemberChunkState.ready (d + block_size)) =
      rw more refl in
    (
      ap (left_from chunk) next ∙ drop-take (d + block_size) chunk.meaningful_len chunk.buffer,
      inr record {
        is_ready = next;
        whole = v.whole;
        fits = v.fits;
        blocks_left = b;
        aligned = omega (arith, aligned);
        meaningful = v.meaningful;
        last_block = v.last_block;
      },
    )

-- What `take_member_block_from_chunk` answers, and the chunk after it.
pub record HandsOutBlock (chunk : MemberChunk) (delivered : ℕ)
    (r : MemberChunk × Framed (ℕ × Bytes × ℕ)) : Type 0 where
  pub block : Bytes
  pub meaningful_len : ℕ
  pub answers : r.1 ≡ ok (chunk.start_position + delivered, block, meaningful_len)
  pub block_whole : length block ≡ block_size
  pub some_meaningful : 0 < meaningful_len
  pub in_block : meaningful_len ≤ block_size
  pub in_order : take meaningful_len block ++ undelivered r.0 ≡ undelivered chunk
  pub next : IsDoneOrReady r.0 (delivered + block_size)

-- A block of a chunk that is ready is handed out whole, at its position, with one meaningful byte
-- at least; those bytes, followed by what the chunk still has, are what it had, and then it is done or
-- ready at the next block.
pub take_member_block_from_chunk-HandsOutBlock :
    (position delivered : ℕ) (chunk : MemberChunk)
    → IsReady chunk delivered
    → HandsOutBlock chunk delivered (take_member_block_from_chunk position chunk)
take_member_block_from_chunk-HandsOutBlock position delivered chunk v =
    let d =
      some_left delivered v.blocks_left chunk.physical_len chunk.meaningful_len v.aligned
        v.last_block in
    let run =
      take_member_block_from_chunk-eq position delivered chunk v.is_ready
        (omega (arith, v.fits, d, v.meaningful)) (omega (arith, d)) in
    let after = after_block-left delivered v.blocks_left chunk v v.aligned in
    let size : min block_size (chunk.physical_len - delivered) ≡ block_size =
      omega (arith, v.aligned) in
    subst (HandsOutBlock chunk delivered) (sym run) record {
      block = take block_size (drop delivered chunk.buffer);
      meaningful_len = min (chunk.meaningful_len - delivered) block_size;
      answers = refl;
      block_whole =
          length-take block_size (drop delivered chunk.buffer)
          ∙ ap (min block_size)
              (length-drop delivered chunk.buffer ∙ ap (λ n. n - delivered) v.whole)
          ∙ size;
      some_meaningful = omega (arith, d);
      in_block = omega arith;
      in_order =
          ap
            (λ t.
              take (min (chunk.meaningful_len - delivered) block_size)
                (take block_size (drop delivered chunk.buffer))
              ++ t)
            after.0
          ∙ block_and_rest chunk.meaningful_len delivered block_size chunk.buffer
          ∙ sym (left_take chunk delivered v.is_ready);
      next = after.1;
    }
