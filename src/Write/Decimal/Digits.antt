-- ===== src/Write/Decimal/Digits.antt =====
-- What `decimal_u64` writes: the decimal digits of the number, with no leading zero.
use mathlib.Core.WellFounded.{Acc}
use mathlib.Core.Logic.{dif_pos, dif_neg}
use native.Mathlib.Decide.{dec_le}
use native.Mathlib.Bridge.{le_prop}
use native.Mathlib.Nat.{mul-le-mul_right, mul_assoc}
use tar_codec.Base.{
  ltb→lt, lt_wf, ℕ, suc, ◌+◌, ◌-◌, ◌*◌, ◌/◌, ◌%◌, ◌^◌, ◌≤◌, ◌<◌, ◌≡◌, inl, inr, refl, sym, ap,
  subst, ◌∙◌, true, false, some, [], ◌∷◌, ◌++◌, append_assoc, append-nil, arith, Bytes, IsU64, All,
  length, ltb, leb, leb→le, Bool-cases,
}
use tar_codec.Text.{digits_loop, u64_from_str}
use tar_codec.Write.Decimal.{shrinks, large_tail, quad, large_loop, decimal_u64_large, decimal_u64}
use tar_codec.Write.Decimal.Groups.{
  IsDigit, decimal_value, IsDecimal, two, pair_at_lem, tail_more, tail_less, IsDecimal-quad,
  IsDecimal-two, one-IsDecimal, two-IsDecimal, leading-IsDecimal,
}

tail-IsDecimal :
    (n : ℕ) (written : Bytes)
    → n < 10_000
    → (front : Bytes) × (large_tail n written ≡ front ++ written) × IsDecimal front n
tail-IsDecimal n written h = elim (Bool-cases (leb 100 n)) [
  | inl more ↦
      let big = leb→le 100 n more in
      let (front, e, d) = leading-IsDecimal (n / 100) (two (n % 100) ++ written) (omega arith) in
      (
        front ++ two (n % 100),
        tail_more n written more
            ∙ rw (pair_at_lem (n % 100) (omega arith))
                (e ∙ sym (append_assoc front (two (n % 100)) written)),
        subst (IsDecimal (front ++ two (n % 100))) (omega arith)
            (IsDecimal-two front (n / 100) (n % 100) (omega arith) (omega arith) d),
      )
  | inr less ↦
      let (front, e, d) = leading-IsDecimal n written (ground arith) in
      (front, tail_less n written less ∙ e, d)
]

loop-IsDecimal :
    (n : ℕ) (written : Bytes) (w : Acc ◌<◌ n)
    → (front : Bytes) × (large_loop n written w ≡ front ++ written) × IsDecimal front n
unfolding large_loop
loop-IsDecimal n written (Acc.intro _ smaller) = elim (dec_le 10_000 n) [
  | yes more ↦
      let (front, e, d) =
        loop-IsDecimal (n / 10_000) (quad (n % 10_000) ++ written)
          (smaller (n / 10_000) (shrinks n more)) in
      (
        front ++ quad (n % 10_000),
        dif_pos (dec_le 10_000 n) le_prop more _ _
            ∙ e
            ∙ sym (append_assoc front (quad (n % 10_000)) written),
        subst (IsDecimal (front ++ quad (n % 10_000))) (omega arith)
            (IsDecimal-quad front (n / 10_000) (n % 10_000) (omega arith) (omega arith) d),
      )
  | no less ↦
      let (front, e, d) = tail-IsDecimal n written (omega arith) in
      (front, dif_neg (dec_le 10_000 n) less _ _ ∙ e, d)
]

three-IsDecimal :
    (n h t o : ℕ)
    → 100 ≤ n
    → h < 10
    → t < 10
    → o < 10
    → (h * 10 + t) * 10 + o ≡ n
    → IsDecimal ((b'0' + h) ∷ (b'0' + t) ∷ (b'0' + o) ∷ []) n
three-IsDecimal n h t o lo hh ht ho e = record {
  width = 2;
  has_width = refl;
  are_digits = omega arith;
  value_is = omega arith;
  no_leading_zero = inr (omega arith);
}

abbrev Rendered : ℕ → Type 0
Rendered n = IsDecimal (decimal_u64 n) n

large-IsDecimal : (n : ℕ) → IsDecimal (decimal_u64_large n) n
unfolding decimal_u64_large
large-IsDecimal n =
    let (front, e, d) = loop-IsDecimal n [] (lt_wf.apply n) in
    subst (λ bytes. IsDecimal bytes n) (sym (append-nil front) ∙ sym e) d

render_one : (n : ℕ) → ltb n 10 ≡ true → decimal_u64 n ≡ (b'0' + n) ∷ []
unfolding decimal_u64
render_one n h = rw h

render_two :
    (n : ℕ)
    → ltb n 10 ≡ false
    → ltb n 100 ≡ true
    → decimal_u64 n ≡ (b'0' + n / 10) ∷ (b'0' + n - n / 10 * 10) ∷ []
unfolding decimal_u64
render_two n h h' = rw (h, h')

abbrev tens : ℕ → ℕ
tens n = (n - n / 100 * 100) / 10

render_three :
    (n : ℕ)
    → ltb n 10 ≡ false
    → ltb n 100 ≡ false
    → ltb n 1_000 ≡ true
    → decimal_u64 n
      ≡ (b'0' + n / 100) ∷ (b'0' + tens n) ∷ (b'0' + (n - n / 100 * 100) - tens n * 10) ∷ []
unfolding decimal_u64
render_three n h h' h'' = rw (h, h', h'')

render_large :
    (n : ℕ)
    → ltb n 10 ≡ false
    → ltb n 100 ≡ false
    → ltb n 1_000 ≡ false
    → decimal_u64 n ≡ decimal_u64_large n
unfolding decimal_u64
render_large n h h' h'' = rw (h, h', h'')

-- `decimal_u64` writes each number as its decimal digits: all bytes are digits, their value is the
-- number, and there is no leading zero.
pub decimal_u64-IsDecimal : (n : ℕ) → IsDecimal (decimal_u64 n) n
decimal_u64-IsDecimal n = elim (Bool-cases (ltb n 10)) [
  | inl below_10 ↦
      subst (λ bytes. IsDecimal bytes n) (sym (render_one n below_10))
        (one-IsDecimal n (ltb→lt n 10 below_10))
  | inr from_10 ↦ elim (Bool-cases (ltb n 100)) [
    | inl below_100 ↦
        subst (λ bytes. IsDecimal bytes n)
          (ap (λ b. (b'0' + n / 10) ∷ b ∷ []) (omega arith) ∙ sym (render_two n from_10 below_100))
          (two-IsDecimal n (ground arith) (ltb→lt n 100 below_100))
    | inr from_100 ↦ elim (Bool-cases (ltb n 1_000)) [
      | inl below_1000 ↦
          subst (λ bytes. IsDecimal bytes n)
            (ap (λ b. (b'0' + n / 100) ∷ (b'0' + tens n) ∷ b ∷ []) (omega arith)
              ∙ sym (render_three n from_10 from_100 below_1000))
            (three-IsDecimal n (n / 100) (tens n) (n - n / 100 * 100 - tens n * 10) (ground arith)
              (omega (arith, ltb→lt n 1_000 below_1000)) (omega arith) (omega arith) (omega arith))
      | inr from_1000 ↦
          subst (λ bytes. IsDecimal bytes n) (sym (render_large n from_10 from_100 from_1000))
            (large-IsDecimal n)
    ]
  ]
]

decimal_value-grows : (bytes : Bytes) (v : ℕ) → v ≤ decimal_value v bytes
decimal_value-grows [] v = omega arith
decimal_value-grows (b ∷ bs) v = omega (arith, decimal_value-grows bs (v * 10 + (b - b'0')))

digits_step :
    (b : ℕ) (bs : Bytes) (v : ℕ)
    → IsDigit b
    → IsU64 (v * 10 + (b - b'0'))
    → digits_loop (b ∷ bs) v ≡ digits_loop bs (v * 10 + (b - b'0'))
unfolding digits_loop
digits_step b bs v digit fits = ground arith

-- The parser's loop computes the value, as long as it fits a `u64`.
digits_loop-decimal_value :
    (bytes : Bytes) (v : ℕ)
    → All IsDigit bytes
    → IsU64 (decimal_value v bytes)
    → digits_loop bytes v ≡ some (decimal_value v bytes)
unfolding digits_loop
digits_loop-decimal_value [] v digits fits = refl
digits_loop-decimal_value (b ∷ bs) v digits fits =
    let w = v * 10 + (b - b'0') in
    digits_step b bs v digits.0 (omega (arith, decimal_value-grows bs w))
    ∙ digits_loop-decimal_value bs w digits.1 fits

from_str_digit : (b : ℕ) (bs : Bytes) → IsDigit b → u64_from_str (b ∷ bs) ≡ digits_loop (b ∷ bs) 0
unfolding u64_from_str
from_str_digit b bs digit = ground arith

-- The parser reads a decimal writing of a `u64`.
pub u64_from_str-IsDecimal :
    (bytes : Bytes) (n : ℕ) → IsDecimal bytes n → IsU64 n → u64_from_str bytes ≡ some n
u64_from_str-IsDecimal [] n d fits = absurd (omega (arith, d.has_width))
u64_from_str-IsDecimal (b ∷ bs) n d fits =
    from_str_digit b bs d.are_digits.0
    ∙ digits_loop-decimal_value (b ∷ bs) 0 d.are_digits (subst IsU64 (sym d.value_is) fits)
    ∙ ap some d.value_is

-- Rust's `str::parse` reads back what `decimal_u64` writes, for each `u64`.
pub u64_from_str-decimal_u64 : (n : ℕ) → IsU64 n → u64_from_str (decimal_u64 n) ≡ some n
u64_from_str-decimal_u64 n fits = u64_from_str-IsDecimal _ n (decimal_u64-IsDecimal n) fits

decimal_value-lt :
    (bytes : Bytes) (v : ℕ) → All IsDigit bytes → decimal_value v bytes < suc v * 10 ^ length bytes
decimal_value-lt [] v digits = omega arith
decimal_value-lt (b ∷ bs) v digits =
    let w = v * 10 + (b - b'0') in
    let p = 10 ^ length bs in
    let below = decimal_value-lt bs w digits.1 in
    let scaled : suc w * p ≤ suc v * 10 * p = mul-le-mul_right p (omega (arith, digits.0)) in
    let power : 10 * p ≡ 10 ^ suc (length bs) = omega arith in
    subst (λ q. decimal_value w bs < suc v * q) power
      (omega (arith, below, scaled, mul_assoc (suc v) 10 p))

-- The digits that a decimal writing has: one more than the number's logarithm.
pub IsDecimal-lt : (bytes : Bytes) (n : ℕ) → IsDecimal bytes n → n < 10 ^ length bytes
IsDecimal-lt bytes n d = omega (arith, decimal_value-lt bytes 0 d.are_digits, d.value_is)
