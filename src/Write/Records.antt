-- ===== src/Write/Records.antt =====
-- crates/tar-framing/src/write.rs: the records of an extended header.
pub mod Length
pub mod Framing
pub mod RoundTrip
use tar_codec.Base.{
  ℕ, zero, suc, ◌+◌, ◌-◌, ◌*◌, ◌/◌, ◌%◌, Bool, true, false, ◌&&◌, ◌||◌, Option, none, some, List,
  [], ◌∷◌, ◌++◌, Bytes, length, contains, checked_add, Result, ok, err, ◌>>=◌, ◌>>◌, fail_if, ok_or,
  and_then,
}
use tar_codec.Text.{is_empty}
use tar_codec.Pax.{PaxKeyword}
use tar_codec.Write.{FramingWriteError, Written, components}
use tar_codec.Write.Decimal.{decimal_u64}

-- `ilog10`, in `fuel` divisions at most
unfoldable pub log_loop : ℕ → ℕ → ℕ
log_loop zero n = 0
log_loop (suc fuel) n = elim (n / 10) [ zero ↦ 0 | suc q ↦ suc (log_loop fuel (suc q)) ]

-- A `u64` has twenty digits at most.
unfoldable pub ilog10 : ℕ → ℕ
unfolding log_loop
ilog10 n = log_loop 20 n

abbrev pub keyword_length : Bytes × Option Bytes → Option ℕ
keyword_length (namespace, none) = some (length namespace)
keyword_length (namespace, some name) =
    and_then (checked_add (length namespace) 1) (λ len. checked_add len (length name))

unfoldable pub record_len : PaxKeyword → Bytes → Written ℕ
unfolding components ilog10
record_len keyword value = do
  keyword_len ←
      ok_or (keyword_length (components keyword))
        (FramingWriteError.arithmetic_overflow "pax record keyword length")
  suffix_len ←
      ok_or (and_then (checked_add keyword_len (length value)) (λ len. checked_add len 3))
        (FramingWriteError.arithmetic_overflow "pax record length")
  tentative_len ←
      ok_or (checked_add (ilog10 suffix_len + 1) suffix_len)
        (FramingWriteError.arithmetic_overflow "pax record length")
  ok_or (checked_add (ilog10 tentative_len + 1) suffix_len)
      (FramingWriteError.arithmetic_overflow "pax record length")

-- `append_decimal_usize`
unfoldable pub append_decimal_usize : Bytes → ℕ → Bytes
unfolding decimal_u64
append_decimal_usize output value = output ++ decimal_u64 value

-- The keyword's bytes, as they are appended.
abbrev pub keyword_bytes : Bytes × Option Bytes → Bytes
keyword_bytes (namespace, none) = namespace
keyword_bytes (namespace, some name) = namespace ++ b'.' ∷ name

unfoldable pub append_record_with_len : Bytes → PaxKeyword → Bytes → ℕ → Bytes
unfolding components append_decimal_usize
append_record_with_len payload keyword value len =
    append_decimal_usize payload len
    ++ (b' ' ∷ (keyword_bytes (components keyword) ++ (b'=' ∷ (value ++ b'\n' ∷ []))))

abbrev pub invalid_keyword : Bytes × Option Bytes → Bool
invalid_keyword (namespace, none) = is_empty namespace || contains b'=' namespace
invalid_keyword (namespace, some name) =
    is_empty namespace || contains b'=' namespace || (is_empty name || contains b'=' name)

unfoldable pub append_pax_record : Bytes → PaxKeyword → Bytes → Written Bytes
unfolding components record_len append_record_with_len
append_pax_record output keyword value = do
  fail_if (invalid_keyword (components keyword)) FramingWriteError.invalid_pax_record_keyword
  len ← record_len keyword value
  total ←
      ok_or (checked_add (length output) len)
        (FramingWriteError.arithmetic_overflow "pax record output length")
  ok (append_record_with_len output keyword value len)
