-- ===== src/Write/Member/Sizes.antt =====
-- crates/tar-framing/src/write.rs: the padding of a payload, and which sizes an octal field holds.
use tar_codec.Base.{
  ℕ, zero, suc, ◌+◌, ◌-◌, ◌/◌, ◌%◌, ◌^◌, ◌≤◌, ◌<◌, ◌≡◌, ◌↔◌, refl, true, [], ◌∷◌, arith, Bytes,
  IsU64, length, length-replicate, ltb, ltb→lt, lt→ltb, ok,
}
use tar_codec.Header.{block_size, encode_octal}
use tar_codec.Header.Octal.{encode_octal_fits}
use tar_codec.Write.Member.{payload_padding, octal_width, fits_octal, padded_payload_len}

-- The padding of a payload of `size` bytes takes it to a block boundary, and is shorter than a
-- block, so that no shorter padding does.
pub payload_padding-block_size :
    (size : ℕ)
    → IsU64 size
    → ((size + length (payload_padding size)) % block_size ≡ 0)
      × (length (payload_padding size) < block_size)
unfolding payload_padding
payload_padding-block_size size h =
    rw (length-replicate {A = ℕ} (((2 ^ 64) - size) % (2 ^ 64) % 512) 0) (omega arith, omega arith)

-- The padded length of a payload of records is the next multiple of the block size.
pub padded_payload_len-block_size :
    (len padded : ℕ)
    → padded_payload_len len ≡ ok padded
    → (padded % block_size ≡ 0) × (len ≤ padded) × (padded < len + block_size)
unfolding padded_payload_len
padded_payload_len-block_size len padded e = ground arith

width_small : (fuel n : ℕ) → n / 8 ≡ 0 → octal_width (suc fuel) n ≡ 1
unfolding octal_width
width_small fuel n e = rw (e, octal_width)

width_big :
    (fuel n q : ℕ) → n / 8 ≡ suc q → octal_width (suc fuel) n ≡ suc (octal_width fuel (suc q))
unfolding octal_width
width_big fuel n q e = rw (e, octal_width)

width_pos : (fuel n : ℕ) → 1 ≤ octal_width fuel n
width_pos zero n = unfold octal_width in omega arith
width_pos (suc fuel) n = go (n / 8) refl
  where
    go : (q : ℕ) → n / 8 ≡ q → 1 ≤ octal_width (suc fuel) n
    go zero e = rw (width_small fuel n e) (omega arith)
    go (suc q) e = rw (width_big fuel n q e) (omega arith)

pow_pos : (k : ℕ) → 1 ≤ 8 ^ k
pow_pos zero = omega arith
pow_pos (suc k) = omega (arith, pow_pos k)

-- The width is the number of octal digits, at least one.
octal_width_iff : (fuel n k : ℕ) → n < 8 ^ fuel → (octal_width fuel n ≤ suc k) ↔ (n < 8 ^ suc k)
octal_width_iff zero n k h = (λ e. omega (arith, pow_pos k), λ e. unfold octal_width in omega arith)
octal_width_iff (suc fuel) n k h =
    go k (n / 8) refl (λ j. octal_width_iff fuel (n / 8) j (omega arith))
  where
    go :
        (k q : ℕ)
        → n / 8 ≡ q
        → ((j : ℕ) → (octal_width fuel q ≤ suc j) ↔ (q < 8 ^ suc j))
        → (octal_width (suc fuel) n ≤ suc k) ↔ (n < 8 ^ suc k)
    go k zero e ih = rw (width_small fuel n e) (λ _. omega (arith, pow_pos k), λ _. omega arith)
    go zero (suc q) e ih =
        rw (width_big fuel n q e)
          (λ h. absurd (omega (arith, width_pos fuel (suc q))), λ h. absurd (omega arith))
    go (suc k) (suc q) e ih = rw (width_big fuel n q e) (
      λ h. (let h' = (ih k).0 (omega arith) in omega arith),
      λ h. (let h' = (ih k).1 (omega arith) in omega arith),
    )

fits_octal_lem : (n value : ℕ) → fits_octal n value ≡ ltb (octal_width 22 value) n
unfolding fits_octal
fits_octal_lem n value = refl

-- `fits_octal` says, for each `u64`, whether `encode_octal` can write it to a field of that length,
-- if the field has two bytes at least.
pub fits_octal-encode_octal :
    (bytes : Bytes) (value : ℕ)
    → 2 ≤ length bytes
    → IsU64 value
    → (fits_octal (length bytes) value ≡ true) ↔ ((encode_octal bytes value).1 ≡ true)
fits_octal-encode_octal (b ∷ (c ∷ bs)) value long fits =
    let width = octal_width_iff 22 value (length bs) (omega arith) in
    let written = encode_octal_fits (b ∷ (c ∷ bs)) value in
    let room : suc (suc (length bs)) - 1 ≡ suc (length bs) = omega arith in
    rw (fits_octal_lem (suc (suc (length bs))) value) (
      λ e.
          (let short = ltb→lt (octal_width 22 value) (suc (suc (length bs))) e in
            written.1 (long, rw room (width.0 (omega arith)))),
      λ e.
          lt→ltb (octal_width 22 value) (suc (suc (length bs)))
            (let small = width.1 (rw room at (written.0 e).1) in omega arith),
    )
fits_octal-encode_octal [] value long fits = absurd (omega arith)
fits_octal-encode_octal (b ∷ []) value long fits = absurd (omega arith)
