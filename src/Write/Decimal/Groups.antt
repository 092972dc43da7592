-- ===== src/Write/Decimal/Groups.antt =====
-- Numbers of one to four digits, as `decimal_u64` renders a group of them.
use tar_codec.Base.{
  ℕ, zero, suc, ◌+◌, ◌-◌, ◌*◌, ◌/◌, ◌%◌, ◌^◌, ◌≤◌, ◌<◌, ◌≡◌, ◌⊎◌, inl, inr, refl, ap, ◌∙◌, Bool,
  true, false, ◌&&◌, [], ◌∷◌, ◌++◌, arith, Bytes, All, All-append, length, length-append, eq_bytes,
  eq_bytes_iff, leb, leb→le, Bool-cases,
}
use tar_codec.Write.Decimal.{pair_at, leading, large_tail, quad}

abbrev pub IsDigit : ℕ → Type 0
IsDigit b = (b'0' ≤ b) × (b ≤ b'9')

-- The number that digits stand for, behind a number `v` read before.
abbrev pub decimal_value : ℕ → Bytes → ℕ
decimal_value v [] = v
decimal_value v (b ∷ bs) = decimal_value (v * 10 + (b - b'0')) bs

-- The decimal writing of `n`: `width + 1` digits, the first of them no zero unless `n` is 0.
pub record IsDecimal (bytes : Bytes) (n : ℕ) : Type 0 where
  pub width : ℕ
  pub has_width : length bytes ≡ suc width
  pub are_digits : All IsDigit bytes
  pub value_is : decimal_value 0 bytes ≡ n
  pub no_leading_zero : ((n ≡ 0) × (width ≡ 0)) ⊎ (10 ^ width ≤ n)

decimal_value-append :
    (v : ℕ) (xs ys : Bytes) → decimal_value v (xs ++ ys) ≡ decimal_value (decimal_value v xs) ys
decimal_value-append v [] ys = refl
decimal_value-append v (x ∷ xs) ys = decimal_value-append (v * 10 + (x - b'0')) xs ys

-- A test that every number below a bound passes.
pub passes : (ℕ → Bool) → ℕ → Bool
passes test zero = true
passes test (suc bound) = passes test bound && test bound

passes_each : (test : ℕ → Bool) (bound v : ℕ) → v < bound → passes test bound ≡ true → test v ≡ true
unfolding passes
passes_each test zero v below checked = absurd (omega arith)
passes_each test (suc bound) v below checked = ground (arith, passes_each test bound v)

abbrev pub two : ℕ → Bytes
two v = (b'0' + v / 10) ∷ (b'0' + v % 10) ∷ []

pairs_table : passes (λ v. eq_bytes (pair_at (v * 2)) (two v)) 100 ≡ true
unfolding passes pair_at eq_bytes
pairs_table = refl

-- The table holds the two digits of each number below 100.
pub pair_at_lem : (v : ℕ) → v < 100 → pair_at (v * 2) ≡ two v
pair_at_lem v h = (eq_bytes_iff _ _).0 (passes_each _ 100 v h pairs_table)

pub tail_more :
    (n : ℕ) (written : Bytes)
    → leb 100 n ≡ true
    → large_tail n written ≡ leading (n / 100) (pair_at (n % 100 * 2) ++ written)
unfolding large_tail
tail_more n written h = rw h

pub tail_less :
    (n : ℕ) (written : Bytes) → leb 100 n ≡ false → large_tail n written ≡ leading n written
unfolding large_tail
tail_less n written h = rw h

-- The digits of a number below 10,000, as the loop writes them.
quad_lem : (n : ℕ) → n < 10_000 → quad n ≡ two (n / 100) ++ two (n % 100)
unfolding quad
quad_lem n h = rw (pair_at_lem (n / 100) (omega arith), pair_at_lem (n % 100) (omega arith))

-- A decimal writing, lengthened by the four digits of a quad.
pub IsDecimal-quad :
    (bytes : Bytes) (n q : ℕ)
    → 0 < n
    → q < 10_000
    → IsDecimal bytes n
    → IsDecimal (bytes ++ quad q) (n * 10_000 + q)
IsDecimal-quad bytes n q pos h d = rw (quad_lem q h) (record {
  width = suc (suc (suc (suc d.width)));
  has_width = length-append bytes _ ∙ omega (arith, d.has_width);
  are_digits = All-append IsDigit bytes _ d.are_digits (omega arith);
  value_is = decimal_value-append 0 bytes _ ∙ rw d.value_is (omega arith);
  no_leading_zero = inr (omega (arith, d.no_leading_zero));
})

pub IsDecimal-two :
    (bytes : Bytes) (n v : ℕ)
    → 0 < n
    → v < 100
    → IsDecimal bytes n
    → IsDecimal (bytes ++ two v) (n * 100 + v)
IsDecimal-two bytes n v pos h d = record {
  width = suc (suc d.width);
  has_width = length-append bytes _ ∙ omega (arith, d.has_width);
  are_digits = All-append IsDigit bytes _ d.are_digits (omega arith);
  value_is = decimal_value-append 0 bytes _ ∙ rw d.value_is (omega arith);
  no_leading_zero = inr (omega (arith, d.no_leading_zero));
}

pub one-IsDecimal : (n : ℕ) → n < 10 → IsDecimal ((b'0' + n) ∷ []) n
one-IsDecimal n h = record {
  width = 0;
  has_width = refl;
  are_digits = omega arith;
  value_is = omega arith;
  no_leading_zero = omega arith;
}

pub two-IsDecimal : (n : ℕ) → 10 ≤ n → n < 100 → IsDecimal (two n) n
two-IsDecimal n lo hi = record {
  width = 1;
  has_width = refl;
  are_digits = omega arith;
  value_is = omega arith;
  no_leading_zero = inr (omega arith);
}

leading_more :
    (n : ℕ) (written : Bytes) → leb 10 n ≡ true → leading n written ≡ pair_at (n * 2) ++ written
unfolding leading
leading_more n written h = rw h

leading_less :
    (n : ℕ) (written : Bytes) → leb 10 n ≡ false → leading n written ≡ (b'0' + n) ∷ written
unfolding leading
leading_less n written h = rw h

pub leading-IsDecimal :
    (n : ℕ) (written : Bytes)
    → n < 100
    → (front : Bytes) × (leading n written ≡ front ++ written) × IsDecimal front n
leading-IsDecimal n written h = elim (Bool-cases (leb 10 n)) [
  | inl two_digits ↦ (
    two n,
    leading_more n written two_digits ∙ ap (λ front. front ++ written) (pair_at_lem n h),
    two-IsDecimal n (leb→le 10 n two_digits) h,
  )
  | inr one_digit ↦
      ((b'0' + n) ∷ [], leading_less n written one_digit, one-IsDecimal n (ground arith))
]
