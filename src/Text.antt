-- ===== src/Text.antt =====
-- Text as its UTF-8 bytes: the operations of Rust's `str` that the crates call.
use Prim.Native.Char.{code}
pub use Prim.Native.String.{String}
use tar_codec.Base.{
  ℕ, zero, suc, ◌-◌, Bool, true, false, ◌&&◌, Option, none, some, List, [], ◌∷◌, Bytes, leb, ltb,
  ◌==◌, if◌then◌else◌, checked_add, checked_mul, and_then,
}

-- The bytes of an ASCII literal.
abbrev pub codes : String → Bytes
codes String.[] = []
codes (String.◌∷◌ c s) = code c ∷ codes s

abbrev pub within : ℕ → ℕ → ℕ → Bool
within lo hi b = leb lo b && leb b hi

-- What may follow a first byte: how many continuation bytes, and the range of the next one.
pub record Follow : Type 0 where
  pub count : ℕ
  pub lo : ℕ
  pub hi : ℕ

abbrev pub follow : ℕ → ℕ → ℕ → Follow
follow n a b = record { count = n; lo = a; hi = b }

unfoldable pub utf8_lead : ℕ → Option Follow
utf8_lead b =
    if ltb b 0x80
    then some (follow 0 0x80 0xbf)
    else if within 0xc2 0xdf b
    then some (follow 1 0x80 0xbf)
    else if b == 0xe0
    then some (follow 2 0xa0 0xbf)
    else if b == 0xed
    then some (follow 2 0x80 0x9f)
    else if within 0xe1 0xef b
    then some (follow 2 0x80 0xbf)
    else if b == 0xf0
    then some (follow 3 0x90 0xbf)
    else if within 0xf1 0xf3 b
    then some (follow 3 0x80 0xbf)
    else if b == 0xf4
    then some (follow 3 0x80 0x8f)
    else none

unfoldable pub utf8_from : ℕ → ℕ → ℕ → Bytes → Bool
unfolding utf8_lead
utf8_from zero lo hi [] = true
utf8_from (suc n) lo hi [] = false
utf8_from zero lo hi (b ∷ bs) = elim (utf8_lead b) [
  | none ↦ false
  | some f ↦ utf8_from f.count f.lo f.hi bs
]
utf8_from (suc n) lo hi (b ∷ bs) = within lo hi b && utf8_from n 0x80 0xbf bs

-- `std::str::from_utf8(bytes).is_ok()`
unfoldable pub is_utf8 : Bytes → Bool
unfolding utf8_from
is_utf8 bytes = utf8_from 0 0x80 0xbf bytes

abbrev pub is_empty {ℓ} : {A : Type ℓ} → List A → Bool
is_empty [] = true
is_empty (x ∷ xs) = false

-- `starts_with` and `ends_with` a byte
abbrev pub starts_with : ℕ → Bytes → Bool
starts_with c [] = false
starts_with c (b ∷ bs) = b == c

abbrev pub last {ℓ} : {A : Type ℓ} → List A → Option A
last [] = none
last (x ∷ xs) = elim xs [ [] ↦ some x | y ∷ ys ↦ last xs ]

abbrev pub ends_with : ℕ → Bytes → Bool
ends_with c bs = elim (last bs) [ none ↦ false | some b ↦ b == c ]

-- `split_once`, at the first separator
unfoldable pub split_once : ℕ → Bytes → Option (Bytes × Bytes)
split_once c [] = none
split_once c (b ∷ bs) =
    if b == c then some ([], bs) else and_then (split_once c bs) (λ p. some (b ∷ p.0, p.1))

abbrev pub is_ascii_digit : ℕ → Bool
is_ascii_digit b = within b'0' b'9' b

-- The digits of `u64::from_str`, each by a checked multiplication and addition.
unfoldable pub digits_loop : Bytes → ℕ → Option ℕ
digits_loop [] value = some value
digits_loop (b ∷ bs) value =
    if is_ascii_digit b
    then and_then (checked_mul value 10)
        (λ v. and_then (checked_add v (b - b'0')) (λ w. digits_loop bs w))
    else none

digits_only : Bytes → Option ℕ
digits_only [] = none
digits_only (b ∷ bs) = digits_loop (b ∷ bs) 0

-- `str::parse::<u64>().ok()`: one leading `+` is allowed, and no empty text.
unfoldable pub u64_from_str : Bytes → Option ℕ
unfolding digits_only digits_loop
u64_from_str [] = none
u64_from_str (b ∷ bs) = if b == b'+' then digits_only bs else digits_loop (b ∷ bs) 0

-- `rsplit_once`, at the last separator
unfoldable pub rsplit_once : ℕ → Bytes → Option (Bytes × Bytes)
rsplit_once c [] = none
rsplit_once c (b ∷ bs) = elim (rsplit_once c bs) [
  | some (l, r) ↦ some (b ∷ l, r)
  | none ↦ if b == c then some ([], bs) else none
]

-- A byte put in front of the first part.
abbrev pub grow_first : ℕ → List Bytes → List Bytes
grow_first b [] = (b ∷ []) ∷ []
grow_first b (part ∷ parts) = (b ∷ part) ∷ parts

-- `split` at a byte: one part more than there are separators.
unfoldable pub split : ℕ → Bytes → List Bytes
split c [] = [] ∷ []
split c (b ∷ bs) = let parts = split c bs in if b == c then [] ∷ parts else grow_first b parts

-- `strip_prefix`
unfoldable pub strip_prefix : Bytes → Bytes → Option Bytes
strip_prefix [] bs = some bs
strip_prefix (p ∷ ps) [] = none
strip_prefix (p ∷ ps) (b ∷ bs) = if b == p then strip_prefix ps bs else none
