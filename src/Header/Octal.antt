-- ===== src/Header/Octal.antt =====
-- The octal fields: what `encode_octal` writes, and which fields `parse_octal` accepts.
use tar_codec.Base.{
  ℕ, zero, suc, ◌+◌, ◌-◌, ◌*◌, ◌/◌, ◌%◌, ◌^◌, ◌≤◌, ◌<◌, ◌≡◌, ◌↔◌, refl, ap, ◌∙◌, Bool, true, false,
  some, [], ◌∷◌, ◌++◌, append_assoc, arith, Bytes, IsU64, length, length-append, length-take, ◌==◌,
  and_then, ==_iff,
}
use tar_codec.Header.{
  octal_digits, encode_octal_digits, encode_octal_with_suffix, encode_octal, OctalState,
  octal_start, octal_step, octal_loop, parse_octal,
}

pub length-octal_digits : (width value : ℕ) → length (octal_digits width value).0 ≡ width
unfolding octal_digits
length-octal_digits zero value = refl
length-octal_digits (suc width) value =
    length-append (octal_digits width (value / 8)).0 _
    ∙ omega (arith, length-octal_digits width (value / 8))

-- Nothing is left of the value exactly when it fits the width.
pub octal_digits-left : (width value : ℕ) → ((octal_digits width value).1 ≡ 0) ↔ (value < 8 ^ width)
unfolding octal_digits
octal_digits-left zero value = (λ h. omega arith, λ h. omega arith)
octal_digits-left (suc width) value =
    let ih = octal_digits-left width (value / 8) in
    (λ h. let h' = ih.0 h in omega arith, λ h. ih.1 (omega arith))

abbrev pub is_positive : ℕ → Bool
is_positive zero = false
is_positive (suc n) = true

abbrev pub after : ℕ → ℕ → OctalState
after width value = record { value = value; has_digits = is_positive width; terminated = false }

octal_step_digit :
    (s : OctalState) (d value : ℕ)
    → d < 8
    → s.terminated ≡ false
    → s.value * 8 + d ≡ value
    → IsU64 value
    → octal_step (b'0' + d) s
      ≡ some (record { value = value; has_digits = true; terminated = false })
unfolding octal_step
octal_step_digit s d value hd ht hv fits = ground arith

octal_loop-some :
    (byte : ℕ) (bytes : Bytes) (s t : OctalState)
    → octal_step byte s ≡ some t
    → octal_loop (byte ∷ bytes) s ≡ octal_loop bytes t
unfolding octal_loop
octal_loop-some byte bytes s t e = ap (λ o. and_then o (λ u. octal_loop bytes u)) e

-- The loop reads the digits of a value that fits, and goes on with what follows them.
pub octal_loop-octal_digits :
    (width value : ℕ) (rest : Bytes)
    → value < 8 ^ width
    → IsU64 value
    → octal_loop ((octal_digits width value).0 ++ rest) octal_start
      ≡ octal_loop rest (after width value)
unfolding octal_digits
octal_loop-octal_digits zero value rest h fits = ap (λ v. octal_loop rest (after 0 v)) (omega arith)
octal_loop-octal_digits (suc width) value rest h fits =
    ap (λ bs. octal_loop bs octal_start)
      (append_assoc (octal_digits width (value / 8)).0 ((b'0' + value % 8) ∷ []) rest)
    ∙ octal_loop-octal_digits width (value / 8) _ (omega arith) (omega arith)
    ∙ octal_loop-some _ rest (after width (value / 8)) (after (suc width) value) (
        octal_step_digit (after width (value / 8)) (value % 8) value (omega arith) refl
          (omega arith) fits)

-- `encode_octal_with_suffix` on a field that leaves `suc n` places for digits.
pub encode_octal_with_suffix_lem :
    (bytes : Bytes) (value n : ℕ) (suffix : Bytes)
    → length bytes ≡ suc n + length suffix
    → encode_octal_with_suffix bytes value suffix
      ≡ ((octal_digits (suc n) value).0 ++ suffix, (octal_digits (suc n) value).1 == 0)
unfolding encode_octal_with_suffix encode_octal_digits
encode_octal_with_suffix_lem bytes value n suffix h = ground (arith, length-take (suc n) bytes)

pub encode_octal_lem :
    (bytes : Bytes) (value n : ℕ)
    → length bytes ≡ suc (suc n)
    → encode_octal bytes value
      ≡ ((octal_digits (suc n) value).0 ++ 0 ∷ [], (octal_digits (suc n) value).1 == 0)
unfolding encode_octal
encode_octal_lem bytes value n h = encode_octal_with_suffix_lem bytes value n (0 ∷ []) (omega arith)

encode_octal_short :
    (bytes : Bytes) (value : ℕ) → length bytes < 2 → (encode_octal bytes value).1 ≡ false
unfolding encode_octal
encode_octal_short [] value h = refl
encode_octal_short (b ∷ []) value h = refl
encode_octal_short (b ∷ c ∷ bs) value h = absurd (omega arith)

-- `encode_octal` reports success exactly when the field has room for a digit beside the NUL, and
-- the value has no more octal digits than there is room for.
pub encode_octal_fits :
    (bytes : Bytes) (value : ℕ)
    → ((encode_octal bytes value).1 ≡ true)
      ↔ ((2 ≤ length bytes) × (value < 8 ^ (length bytes - 1)))
encode_octal_fits [] value =
    (λ e. cc (encode_octal_short [] value (omega arith)), λ h. absurd (omega arith))
encode_octal_fits (b ∷ []) value =
    (λ e. cc (encode_octal_short (b ∷ []) value (omega arith)), λ h. absurd (omega arith))
encode_octal_fits (b ∷ c ∷ bs) value = rw (encode_octal_lem (b ∷ c ∷ bs) value (length bs) refl) (
  λ e. (omega arith, rw room (left.0 ((==_iff _ 0).0 e))),
  λ h. (==_iff _ 0).1 (left.1 (rw room at h.1)),
)
  where
    left : ((octal_digits (suc (length bs)) value).1 ≡ 0) ↔ (value < 8 ^ suc (length bs))
    left = octal_digits-left (suc (length bs)) value

    room : suc (suc (length bs)) - 1 ≡ suc (length bs)
    room = omega arith

-- What `encode_octal` writes is read back by `parse_octal` as the same value, for a field of two
-- bytes or more and a value that fits the field and a `u64`; the call reports success.
pub parse_octal-encode_octal :
    (bytes : Bytes) (value n : ℕ)
    → length bytes ≡ suc (suc n)
    → value < 8 ^ suc n
    → IsU64 value
    → (parse_octal (encode_octal bytes value).0 ≡ some value)
      × ((encode_octal bytes value).1 ≡ true)
unfolding parse_octal
parse_octal-encode_octal bytes value n h hv fits = rw (encode_octal_lem bytes value n h) (
  octal_loop-octal_digits (suc n) value (0 ∷ []) hv fits,
  (==_iff _ 0).1 ((octal_digits-left (suc n) value).1 hv),
)
