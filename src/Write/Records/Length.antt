-- ===== src/Write/Records/Length.antt =====
-- The length that a record states of itself: `record_len` finds it in two steps.
use tar_codec.Base.{
  ℕ, zero, suc, ◌+◌, ◌/◌, ◌^◌, ◌≤◌, ◌<◌, ◌≡◌, ◌⊎◌, inl, inr, refl, sym, ap, subst, ◌∙◌, Option,
  none, some, ◌∷◌, arith, Bytes, IsU64, length, length-append, ok, ok_or, checked_add, and_then,
  checked, >>=-eq-ok, and_then-eq-some,
}
use tar_codec.Pax.{PaxKeyword}
use tar_codec.Write.{components}
use tar_codec.Write.Decimal.{decimal_u64}
use tar_codec.Write.Decimal.Groups.{IsDecimal}
use tar_codec.Write.Decimal.Digits.{IsDecimal-lt, decimal_u64-IsDecimal}
use tar_codec.Write.Records.{log_loop, ilog10, keyword_length, keyword_bytes, record_len}

-- `k` is the integer part of the decimal logarithm of `n`.
abbrev pub IsLog : ℕ → ℕ → Type 0
IsLog k n = (10 ^ k ≤ n) × (n < 10 ^ suc k)

log_loop_small : (fuel n : ℕ) → n / 10 ≡ 0 → log_loop (suc fuel) n ≡ 0
unfolding log_loop
log_loop_small fuel n e = rw (e, log_loop)

log_loop_big : (fuel n q : ℕ) → n / 10 ≡ suc q → log_loop (suc fuel) n ≡ suc (log_loop fuel (suc q))
unfolding log_loop
log_loop_big fuel n q e = rw (e, log_loop)

log_loop-IsLog : (fuel n : ℕ) → 0 < n → n < 10 ^ fuel → IsLog (log_loop fuel n) n
log_loop-IsLog zero n pos h = absurd (omega arith)
log_loop-IsLog (suc fuel) n pos h = go (n / 10) refl (log_loop-IsLog fuel (n / 10))
  where
    go :
        (q : ℕ)
        → n / 10 ≡ q
        → (0 < q → q < 10 ^ fuel → IsLog (log_loop fuel q) q)
        → IsLog (log_loop (suc fuel) n) n
    go zero e ih = subst (λ k. IsLog k n) (sym (log_loop_small fuel n e)) (omega arith)
    go (suc q) e ih =
        let deeper = ih (omega arith) (omega arith) in
        subst (λ k. IsLog k n) (sym (log_loop_big fuel n q e))
          (omega (arith, deeper.0, deeper.1), omega (arith, deeper.0, deeper.1))

-- `ilog10` is the decimal logarithm, for each positive `u64`.
pub ilog10-IsLog : (n : ℕ) → 0 < n → IsU64 n → IsLog (ilog10 n) n
unfolding ilog10
ilog10-IsLog n pos fits = log_loop-IsLog 20 n pos (omega arith)

lt_pow : (a : ℕ) → a < 10 ^ a
lt_pow zero = omega arith
lt_pow (suc a) = omega (arith, lt_pow a)

pub pow_le : (a b : ℕ) → a ≤ b → 10 ^ a ≤ 10 ^ b
pow_le zero b h = omega (arith, lt_pow b)
pow_le (suc a) zero h = absurd (omega arith)
pow_le (suc a) (suc b) h = omega (arith, pow_le a b (omega arith))

pub le_or_lt : (a b : ℕ) → (a ≤ b) ⊎ (b < a)
le_or_lt a b = omega arith

-- A number has one logarithm.
log_le : (a b n m : ℕ) → 10 ^ a ≤ n → n ≤ m → m < 10 ^ suc b → a ≤ b
log_le a b n m lo h hi = elim (le_or_lt a b) [
  | inl le ↦ le
  | inr lt ↦ absurd (omega (arith, pow_le (suc b) a (omega arith)))
]

pub log_unique : (a b n : ℕ) → IsLog a n → IsLog b n → a ≡ b
log_unique a b n l m =
    omega (arith, log_le a b n n l.0 (omega arith) m.1, log_le b a n n m.0 (omega arith) l.1)

-- A decimal writing has as many bytes as the logarithm says.
pub IsDecimal-IsLog :
    (bytes : Bytes) (n k : ℕ) → IsDecimal bytes n → 0 < n → IsLog k n → length bytes ≡ suc k
IsDecimal-IsLog bytes n k d pos l =
    d.has_width ∙ ap suc (log_unique d.width k n (at_least d.no_leading_zero, below) l)
  where
    at_least : ((n ≡ 0) × (d.width ≡ 0)) ⊎ (10 ^ d.width ≤ n) → 10 ^ d.width ≤ n
    at_least (inl z) = absurd (omega (arith, z.0))
    at_least (inr h) = h

    below : n < 10 ^ suc d.width
    below = subst (λ k. n < 10 ^ k) d.has_width (IsDecimal-lt bytes n d)

-- Two steps reach the fixed point: with the digits of `s` added, the number of digits grows by one
-- at most, and then no more.
fixed_point : (s a b : ℕ) → 0 < s → IsLog a s → IsLog b (suc a + s) → IsLog b (suc b + s)
fixed_point s a b pos l m =
    let up : a ≤ b = log_le a b s (suc a + s) l.0 (omega arith) m.1 in
    let near : b ≤ suc a =
      log_le b (suc a) (suc a + s) (suc a + s) m.0 (omega arith)
        (omega (arith, lt_pow (suc a), l.1)) in
    go (omega (arith, up, near))
  where
    go : (b ≡ a) ⊎ (b ≡ suc a) → IsLog b (suc b + s)
    go (inl same) = subst (λ k. IsLog b (suc k + s)) (sym same) m
    go (inr grown) =
        subst (λ k. IsLog k (suc k + s)) (sym grown)
          (omega (arith, subst (λ k. 10 ^ k ≤ suc a + s) grown m.0), omega (arith, lt_pow a, l.1))

-- The pieces of `record_len`, as a record of what its steps computed.
record Measured (keyword : PaxKeyword) (value : Bytes) (len : ℕ) : Type 0 where
  pub suffix : ℕ
  pub tentative : ℕ
  pub suffix_is : suffix ≡ length (keyword_bytes (components keyword)) + length value + 3
  pub tentative_is : tentative ≡ ilog10 suffix + 1 + suffix
  pub tentative_fits : IsU64 tentative
  pub len_is : len ≡ ilog10 tentative + 1 + suffix
  pub len_fits : IsU64 len

pub checked-eq-some : (v w : ℕ) → checked v ≡ some w → (w ≡ v) × IsU64 v
checked-eq-some v w e = ground arith

checked_twice :
    (a b c n : ℕ) → and_then (checked_add a b) (λ m. checked_add m c) ≡ some n → n ≡ a + b + c
checked_twice a b c n h =
    let (m, first, second) = and_then-eq-some (checked_add a b) (λ m. checked_add m c) h in
    let sum = checked-eq-some (a + b) m first in
    let total = checked-eq-some (m + c) n second in omega (arith, sum.0, total.0)

pub ok_or-eq-ok {ℓ κ} :
    {A : Type ℓ} {E : Type κ} (o : Option A) (e : E) {a : A} → ok_or o e ≡ ok a → o ≡ some a
ok_or-eq-ok none e h = cc
ok_or-eq-ok (some a) e h = cc

keyword_length-keyword_bytes :
    (parts : Bytes × Option Bytes) (n : ℕ)
    → keyword_length parts ≡ some n
    → n ≡ length (keyword_bytes parts)
keyword_length-keyword_bytes (namespace, none) n e = cc
keyword_length-keyword_bytes (namespace, some name) n e = omega (
  arith,
  checked_twice (length namespace) 1 (length name) n e,
  length-append namespace (b'.' ∷ name),
)

record_len-Measured :
    (keyword : PaxKeyword) (value : Bytes) (len : ℕ)
    → record_len keyword value ≡ ok len
    → Measured keyword value len
unfolding record_len
record_len-Measured keyword value len e =
    let (keyword_len, e₁, e₂) = >>=-eq-ok (ok_or (keyword_length (components keyword)) _) _ e in
    let (suffix_len, e₃, e₄) =
      >>=-eq-ok (ok_or (and_then (checked_add keyword_len (length value)) (λ n. checked_add n 3)) _)
        _ e₂ in
    let (tentative_len, e₅, e₆) =
      >>=-eq-ok (ok_or (checked_add (ilog10 suffix_len + 1) suffix_len) _) _ e₄ in
    let parts =
      keyword_length-keyword_bytes (components keyword) keyword_len (ok_or-eq-ok _ _ e₁) in
    let suffix = checked_twice keyword_len (length value) 3 suffix_len (ok_or-eq-ok _ _ e₃) in
    let tentative =
      checked-eq-some (ilog10 suffix_len + 1 + suffix_len) tentative_len (ok_or-eq-ok _ _ e₅) in
    let total = checked-eq-some (ilog10 tentative_len + 1 + suffix_len) len (ok_or-eq-ok _ _ e₆) in
    record {
      suffix = suffix_len;
      tentative = tentative_len;
      suffix_is = omega (arith, suffix, parts);
      tentative_is = tentative.0;
      tentative_fits = subst IsU64 (sym tentative.0) tentative.1;
      len_is = total.0;
      len_fits = subst IsU64 (sym total.0) total.1;
    }

-- The length that `record_len` computes counts itself: it is the length of its own decimal writing
-- and of what follows that in the record, the space, the keyword, the `=`, the value and the newline.
pub record_len-IsLength :
    (keyword : PaxKeyword) (value : Bytes) (len : ℕ)
    → record_len keyword value ≡ ok len
    → (len
        ≡ length (decimal_u64 len)
          + (length (keyword_bytes (components keyword)) + length value + 3))
      × IsU64 len
record_len-IsLength keyword value len e =
    let m = record_len-Measured keyword value len e in
    let small =
      ilog10-IsLog m.suffix (omega (arith, m.suffix_is))
        (omega (arith, m.tentative_is, m.tentative_fits)) in
    let large = ilog10-IsLog m.tentative (omega (arith, m.tentative_is)) m.tentative_fits in
    let same : suc (ilog10 m.suffix) + m.suffix ≡ m.tentative = omega (arith, m.tentative_is) in
    let fixed =
      fixed_point m.suffix (ilog10 m.suffix) (ilog10 m.tentative) (omega (arith, m.suffix_is)) small
        (subst (IsLog (ilog10 m.tentative)) (sym same) large) in
    let is_len : suc (ilog10 m.tentative) + m.suffix ≡ len = omega (arith, m.len_is) in
    let digits =
      IsDecimal-IsLog (decimal_u64 len) len (ilog10 m.tentative) (decimal_u64-IsDecimal len)
        (omega (arith, m.len_is)) (subst (IsLog (ilog10 m.tentative)) is_len fixed) in
    (omega (arith, digits, m.len_is, m.suffix_is), m.len_fits)
