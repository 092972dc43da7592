-- ===== src/Write/Decimal.antt =====
-- crates/tar-framing/src/write.rs: `decimal_u64`, which renders a number from its last digit on into
-- a buffer. The bytes here are the part of the buffer that has been written.
pub mod Groups
pub mod Digits
use mathlib.Core.WellFounded.{Acc}
use mathlib.Core.Logic.{dite}
use native.Mathlib.Decide.{dec_le}
use tar_codec.Base.{
  ℕ, zero, suc, ◌+◌, ◌-◌, ◌*◌, ◌/◌, ◌%◌, ◌≤◌, ◌<◌, Option, none, some, List, [], ◌∷◌, ◌++◌, arith,
  Bytes, get_elem?, leb, ltb, if◌then◌else◌, lt_wf,
}
use tar_codec.Text.{codes}

-- `DECIMAL_PAIRS`
unfoldable pub decimal_pairs : Bytes
decimal_pairs =
    codes
      "00010203040506070809101112131415161718192021222324252627282930313233343536373839404142434445464748495051525354555657585960616263646566676869707172737475767778798081828384858687888990919293949596979899"

-- The two bytes of the table at `offset` and behind it.
unfoldable pub pair_at : ℕ → Bytes
unfolding decimal_pairs
pair_at offset =
    byte (get_elem? decimal_pairs offset) ∷ byte (get_elem? decimal_pairs (offset + 1)) ∷ []
  where
    byte : Option ℕ → ℕ
    byte none = 0
    byte (some b) = b

-- The part of `decimal_u64_large` behind its loop, in front of what the loop has written.
unfoldable pub leading : ℕ → Bytes → Bytes
unfolding pair_at
leading remaining written =
    if leb 10 remaining then pair_at (remaining * 2) ++ written else (b'0' + remaining) ∷ written

unfoldable pub large_tail : ℕ → Bytes → Bytes
unfolding leading
large_tail remaining written =
    if leb 100 remaining
    then leading (remaining / 100) (pair_at (remaining % 100 * 2) ++ written)
    else leading remaining written

pub quad : ℕ → Bytes
quad n = pair_at (n / 100 * 2) ++ pair_at (n % 100 * 2)

pub shrinks : (n : ℕ) → 10_000 ≤ n → n / 10_000 < n
shrinks n h = omega arith

-- The loop, by recursion on what remains.
unfoldable pub large_loop : (remaining : ℕ) → Bytes → Acc ◌<◌ remaining → Bytes
unfolding large_tail quad dec_le
large_loop remaining written (Acc.intro _ smaller) =
    dite (dec_le 10_000 remaining)
      (λ more.
        large_loop (remaining / 10_000) (quad (remaining % 10_000) ++ written)
          (smaller (remaining / 10_000) (shrinks remaining more)))
      (λ _. large_tail remaining written)

unfoldable pub decimal_u64_large : ℕ → Bytes
unfolding large_loop lt_wf
decimal_u64_large n = large_loop n [] (lt_wf.apply n)

unfoldable pub decimal_u64 : ℕ → Bytes
unfolding decimal_u64_large
decimal_u64 n =
    if ltb n 10
    then (b'0' + n) ∷ []
    else if ltb n 100
    then (b'0' + n / 10) ∷ (b'0' + n - n / 10 * 10) ∷ []
    else if ltb n 1_000
    then (let hundreds = n / 100 in
        let remainder = n - hundreds * 100 in
        let tens = remainder / 10 in
        (b'0' + hundreds) ∷ (b'0' + tens) ∷ (b'0' + remainder - tens * 10) ∷ [])
    else decimal_u64_large n
