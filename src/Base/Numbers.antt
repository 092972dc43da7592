-- ===== src/Base/Numbers.antt =====
-- Machine words. A `u64`, and a `usize` of a 64-bit target, is a number below `2 ^ 64`; the checked
-- operations give `none` where the result does not fit.
use Prim.Native.Nat.{ℕ, ◌+◌, ◌-◌, ◌*◌, ◌<◌, ◌^◌}
use mathlib.Core.Option.{Option, none, some}
use tar_codec.Base.Tests.{ltb, leb, if◌then◌else◌}

abbrev pub u64_limit : ℕ
u64_limit = 2 ^ 64

abbrev pub IsU64 : ℕ → Type 0
IsU64 v = v < u64_limit

abbrev pub checked : ℕ → Option ℕ
checked v = if ltb v u64_limit then some v else none

abbrev pub checked_add : ℕ → ℕ → Option ℕ
checked_add a b = checked (a + b)

abbrev pub checked_mul : ℕ → ℕ → Option ℕ
checked_mul a b = checked (a * b)

abbrev pub checked_sub : ℕ → ℕ → Option ℕ
checked_sub a b = if leb b a then some (a - b) else none
