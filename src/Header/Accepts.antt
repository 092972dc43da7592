-- ===== src/Header/Accepts.antt =====
-- The fields that `parse_octal` accepts, described without its loop.
use tar_codec.Base.{
  ℕ, ◌+◌, ◌-◌, ◌*◌, ◌≤◌, ◌<◌, ◌≡◌, ◌⊎◌, inl, inr, ◌↔◌, refl, sym, ap, ◌∙◌, Bool, true, false, none,
  some, [], ◌∷◌, ◌++◌, arith, Bytes, IsU64, All, length, checked, and_then, and_then-eq-some,
}
use tar_codec.Header.{
  OctalState, octal_step, octal_loop, parse_octal, base256_loop, parse_gnu_number,
}

abbrev pub IsOctalDigit : ℕ → Type 0
IsOctalDigit b = (b'0' ≤ b) × (b ≤ b'7')

abbrev pub IsTerminator : ℕ → Type 0
IsTerminator b = (b ≡ 0) ⊎ (b ≡ b' ')

abbrev pub octal_value : ℕ → Bytes → ℕ
octal_value v [] = v
octal_value v (b ∷ bs) = octal_value (v * 8 + (b - b'0')) bs

-- Digits, then at least one NUL or space, and a value that fits a `u64`. `before` is the value
-- read so far, and `seen` tells whether a digit has been read.
pub record Reads (before : ℕ) (seen : Bool) (bytes : Bytes) (value : ℕ) : Type 0 where
  pub digits : Bytes
  pub ending : Bytes
  pub splits : bytes ≡ digits ++ ending
  pub has_digit : (seen ≡ true) ⊎ (1 ≤ length digits)
  pub has_end : 1 ≤ length ending
  pub are_digits : All IsOctalDigit digits
  pub are_terminators : All IsTerminator ending
  pub value_is : octal_value before digits ≡ value
  pub fits : IsU64 value

abbrev pub IsOctalField : Bytes → ℕ → Type 0
IsOctalField bytes value = Reads 0 false bytes value

abbrev state : ℕ → Bool → Bool → OctalState
state v d t = record { value = v; has_digits = d; terminated = t }

octal_loop_ending :
    (bytes : Bytes) (v w : ℕ) (d : Bool)
    → octal_loop bytes (state v d true) ≡ some w
    → All IsTerminator bytes × (d ≡ true) × (v ≡ w)
unfolding octal_loop octal_step
octal_loop_ending [] v w d e = ground arith
octal_loop_ending (b ∷ bs) v w d e = ground (arith, octal_loop_ending bs v w d)

octal_loop_last :
    (bytes : Bytes) (v : ℕ) → All IsTerminator bytes → octal_loop bytes (state v true true) ≡ some v
unfolding octal_loop octal_step
octal_loop_last [] v h = refl
octal_loop_last (b ∷ bs) v h = ground (arith, octal_loop_last bs v)

Reads-cons :
    (b v value : ℕ) (d : Bool) (bs : Bytes)
    → IsOctalDigit b
    → Reads (v * 8 + (b - b'0')) true bs value
    → Reads v d (b ∷ bs) value
Reads-cons b v value d bs h r = record {
  digits = b ∷ r.digits;
  ending = r.ending;
  splits = ap (◌∷◌ b) r.splits;
  has_digit = inr (omega arith);
  has_end = r.has_end;
  are_digits = (h, r.are_digits);
  are_terminators = r.are_terminators;
  value_is = r.value_is;
  fits = r.fits;
}

Reads-ending :
    (b v value : ℕ) (d : Bool) (bs : Bytes)
    → IsTerminator b
    → IsU64 v
    → All IsTerminator bs × (d ≡ true) × (v ≡ value)
    → Reads v d (b ∷ bs) value
Reads-ending b v value d bs h fits r = record {
  digits = [];
  ending = b ∷ bs;
  splits = refl;
  has_digit = inl r.1;
  has_end = omega arith;
  are_digits = tt;
  are_terminators = (h, r.0);
  value_is = r.2;
  fits = omega arith;
}

-- The three ways in which a round before the terminator goes on.
octal_step_cases :
    (b v : ℕ) (d : Bool) (t : OctalState)
    → octal_step b (state v d false) ≡ some t
    → (IsOctalDigit b × IsU64 (v * 8 + (b - b'0')) × (t ≡ state (v * 8 + (b - b'0')) true false))
      ⊎ (IsTerminator b × (t ≡ state v d true))
unfolding octal_step
octal_step_cases b v d t e = ground arith

octal_loop-some :
    (b : ℕ) (bs : Bytes) (s : OctalState) (value : ℕ)
    → octal_loop (b ∷ bs) s ≡ some value
    → (t : OctalState) × (octal_step b s ≡ some t) × (octal_loop bs t ≡ some value)
unfolding octal_loop
octal_loop-some b bs s value e = and_then-eq-some (octal_step b s) (λ t. octal_loop bs t) e

octal_loop-Reads :
    (bytes : Bytes) (v value : ℕ) (d : Bool)
    → IsU64 v
    → octal_loop bytes (state v d false) ≡ some value
    → Reads v d bytes value
octal_loop-Reads [] v value d fits e = absurd (unfold octal_loop in ground arith)
octal_loop-Reads (b ∷ bs) v value d fits e =
    let (t, goes, later) = octal_loop-some b bs (state v d false) value e in
    elim (octal_step_cases b v d t goes) [
      | inl (digit, fits', e') ↦
          Reads-cons b v value d bs digit (octal_loop-Reads bs _ value true fits' (rw e' at later))
      | inr (end, e') ↦
          Reads-ending b v value d bs end fits (octal_loop_ending bs v value d (rw e' at later))
    ]

le-octal_value : (v : ℕ) (digits : Bytes) → v ≤ octal_value v digits
le-octal_value v [] = omega arith
le-octal_value v (b ∷ bs) = omega (arith, le-octal_value (v * 8 + (b - b'0')) bs)

octal_step_digit :
    (b v : ℕ) (d : Bool)
    → IsOctalDigit b
    → IsU64 (v * 8 + (b - b'0'))
    → octal_step b (state v d false) ≡ some (state (v * 8 + (b - b'0')) true false)
unfolding octal_step
octal_step_digit b v d h fits = ground arith

octal_loop-digits :
    (digits ending : Bytes) (v : ℕ) (d : Bool)
    → All IsOctalDigit digits
    → All IsTerminator ending
    → 1 ≤ length ending
    → (d ≡ true) ⊎ (1 ≤ length digits)
    → IsU64 (octal_value v digits)
    → octal_loop (digits ++ ending) (state v d false) ≡ some (octal_value v digits)
unfolding octal_loop
octal_loop-digits [] [] v d hd he he' h fits = absurd (omega arith)
octal_loop-digits [] (e ∷ es) v d hd he he' h fits =
    unfold octal_step in ground (arith, octal_loop_last es v)
octal_loop-digits (b ∷ bs) ending v d hd he he' h fits =
    ap (λ o. and_then o (λ t. octal_loop (bs ++ ending) t))
      (octal_step_digit b v d hd.0 (omega (arith, le-octal_value (v * 8 + (b - b'0')) bs)))
    ∙ octal_loop-digits bs ending (v * 8 + (b - b'0')) true hd.1 he he' (inl refl) fits

-- `parse_octal` returns a value exactly for the fields that are octal digits, one at least, then
-- NULs and spaces, one at least, where the value of the digits fits a `u64`; and it is that value.
pub parse_octal-IsOctalField :
    (bytes : Bytes) (value : ℕ) → (parse_octal bytes ≡ some value) ↔ IsOctalField bytes value
unfolding parse_octal
parse_octal-IsOctalField bytes value = (
  octal_loop-Reads bytes 0 value false (omega arith),
  λ r. rw r.splits (
      octal_loop-digits r.digits r.ending 0 false r.are_digits r.are_terminators r.has_end
        r.has_digit (rw r.value_is r.fits)
      ∙ ap some r.value_is),
)

abbrev pub base256_value : ℕ → Bytes → ℕ
base256_value v [] = v
base256_value v (b ∷ bs) = base256_value (v * 256 + b) bs

le-base256_value : (v : ℕ) (bytes : Bytes) → v ≤ base256_value v bytes
le-base256_value v [] = omega arith
le-base256_value v (b ∷ bs) = omega (arith, le-base256_value (v * 256 + b) bs)

base256_loop_lem :
    (bytes : Bytes) (v : ℕ) → IsU64 v → base256_loop bytes v ≡ checked (base256_value v bytes)
unfolding base256_loop
base256_loop_lem [] v fits = ground arith
base256_loop_lem (b ∷ bs) v fits =
    ground (arith, base256_loop_lem bs (v * 256 + b), le-base256_value (v * 256 + b) bs)

order : (a b : ℕ) → (a < b) ⊎ (a ≡ b) ⊎ (b < a)
order a b = ground arith

-- Which fields `parse_gnu_number` accepts, and the value that each stands for: after a first byte
-- 0x80 the big-endian number of the other bytes, if it fits a `u64`; after 0xff none; and the
-- octal fields.
abbrev pub IsGnuField : Bytes → ℕ → Type 0
IsGnuField bytes value =
    ((rest : Bytes) × (bytes ≡ 0x80 ∷ rest) × (base256_value 0 rest ≡ value) × IsU64 value)
    ⊎ IsOctalField bytes value

not-IsOctalField : (b value : ℕ) (bs : Bytes) → 0x80 ≤ b → ¬ IsOctalField (b ∷ bs) value
unfolding parse_octal octal_loop octal_step
not-IsOctalField b value bs h f =
    let e = (parse_octal-IsOctalField (b ∷ bs) value).1 f in ground arith

gnu_base256 : (bs : Bytes) → parse_gnu_number (0x80 ∷ bs) ≡ checked (base256_value 0 bs)
unfolding parse_gnu_number
gnu_base256 bs = base256_loop_lem bs 0 (omega arith)

gnu_empty : (parse_gnu_number [] ≡ none) × (parse_octal [] ≡ none)
unfolding parse_gnu_number
gnu_empty = (refl, refl)

gnu_octal : (b : ℕ) (bs : Bytes) → b < 0x80 → parse_gnu_number (b ∷ bs) ≡ parse_octal (b ∷ bs)
unfolding parse_gnu_number
gnu_octal b bs h = ground arith

gnu_other : (b : ℕ) (bs : Bytes) → 0x80 < b → parse_gnu_number (b ∷ bs) ≡ none
unfolding parse_gnu_number octal_step
gnu_other b bs h = ground arith

checked-eq-some : (v value : ℕ) → checked v ≡ some value → (v ≡ value) × IsU64 value
checked-eq-some v value e = ground arith

-- `parse_gnu_number` returns a value exactly for the fields that are octal as `parse_octal` reads
-- them, or whose first byte is 128 and is followed by a number in base 256 that fits a `u64`; and it
-- is that value.
pub parse_gnu_number-IsGnuField :
    (bytes : Bytes) (value : ℕ) → (parse_gnu_number bytes ≡ some value) ↔ IsGnuField bytes value
parse_gnu_number-IsGnuField [] value = (
  λ e. cc (gnu_empty.0, e),
  elim [
    | inl (rest, e, v, fits) ↦ cc e
    | inr f ↦ cc ((parse_octal-IsOctalField [] value).1 f, gnu_empty.1)
  ],
)
parse_gnu_number-IsGnuField (b ∷ bs) value = (reads (order b 0x80), field)
  where
    octal : (parse_octal (b ∷ bs) ≡ some value) ↔ IsOctalField (b ∷ bs) value
    octal = parse_octal-IsOctalField (b ∷ bs) value

    reads :
        (b < 0x80) ⊎ (b ≡ 0x80) ⊎ (0x80 < b)
        → parse_gnu_number (b ∷ bs) ≡ some value
        → IsGnuField (b ∷ bs) value
    reads (inl low) e = inr (octal.0 (sym (gnu_octal b bs low) ∙ e))
    reads (inr (inl is)) e =
        let (v, fits) = checked-eq-some _ value (sym (gnu_base256 bs) ∙ rw is at e) in
        inl (bs, ap (λ c. c ∷ bs) is, v, fits)
    reads (inr (inr high)) e = cc (gnu_other b bs high, e)

    field : IsGnuField (b ∷ bs) value → parse_gnu_number (b ∷ bs) ≡ some value
    field (inl (rest, e, v, fits)) = rw (e, gnu_base256 rest) (ground arith)
    field (inr f) = gnu_octal b bs (below f) ∙ octal.1 f
      where
        below : IsOctalField (b ∷ bs) value → b < 0x80
        below f = elim (order b 0x80) [
          | inl low ↦ low
          | inr (inl is) ↦ absurd (not-IsOctalField b value bs (omega arith) f)
          | inr (inr high) ↦ absurd (not-IsOctalField b value bs (omega arith) f)
        ]
