-- ===== src/Stream/Invariant.antt =====
-- The invariant of a `TarStream` between two blocks.
use tar_codec.Base.{
  ℕ, ◌+◌, ◌≤◌, ◌<◌, true, Option, none, some, ◌≡◌, ◌⊎◌, inl, refl, arith, Bytes, length, take,
  length-append, length-take, ok,
}
use tar_codec.Header.{ArchiveFormat, block_size}
use tar_codec.Pax.{PaxKind, PaxRecords}
use tar_codec.Stream.{GnuKind, PendingGnu, State, TarStream, StreamPolicy, new_stream}
use tar_codec.Stream.Headers.{ParsedHeader}
use tar_codec.Stream.Machine.{
  already_seen, block_len, parse_format_checked_header, process_pax_header, process_ustar_header,
  process_gnu_header, process_boundary_header, read_pax, read_ustar_header, read_gnu_header,
  process_in, process_block,
}

-- What holds in each state: a payload that is being read has bytes left, within the limit of the
-- policy; pax states occur in a pax archive alone, GNU states in a GNU archive alone.
abbrev pub StateFits : TarStream → State → Type 0
StateFits s (State.reading_pax kind h remaining payload) =
    (s.format ≡ some ArchiveFormat.pax)
    × (0 < remaining)
    × (length payload + remaining ≤ s.policy.max_pax_extension_size)
StateFits s (State.awaiting_ustar_header records) = s.format ≡ some ArchiveFormat.pax
StateFits s (State.reading_gnu kind remaining pending) =
    (s.format ≡ some ArchiveFormat.gnu)
    × (0 < remaining)
    × (remaining ≤ s.policy.max_gnu_extension_size)
    × (already_seen kind pending ≡ true)
StateFits s (State.awaiting_gnu_member pending) =
    (s.format ≡ some ArchiveFormat.gnu) × ((pending.long_name ≡ true) ⊎ (pending.long_link ≡ true))
StateFits s (State.reading_member remaining) =
    (0 < remaining) × ((s.format ≡ some ArchiveFormat.pax) ⊎ (s.format ≡ some ArchiveFormat.gnu))
StateFits s _ = Unit {0}

-- Global records occur in a pax archive alone, and their total size stays within its limit.
pub record IsSound (s : TarStream) : Type 0 where
  pub globals : (s.global_pax_records ≡ none) ⊎ (s.format ≡ some ArchiveFormat.pax)
  pub total : s.global_pax_extensions_size ≤ s.policy.max_global_pax_extensions_size

pub record IsValid (s : TarStream) : Type 0 where
  pub sound : IsSound s
  pub fits : StateFits s s.state

pax_header-IsValid :
    (p : ℕ) (block : Bytes) (n : ℕ) (kind : PaxKind) (s : TarStream)
    → s.format ≡ some ArchiveFormat.pax
    → IsValid s
    → IsValid (process_pax_header p block n kind s).0
unfolding process_pax_header
pax_header-IsValid p block n PaxKind.local s f v = ground arith
pax_header-IsValid p block n PaxKind.global s f v = ground arith

ustar_header-IsValid :
    (p : ℕ) (block : Bytes) (parsed : ParsedHeader) (locals : Option PaxRecords) (s : TarStream)
    → s.format ≡ some ArchiveFormat.pax
    → IsValid s
    → IsValid (process_ustar_header p block parsed locals s).0
unfolding process_ustar_header
ustar_header-IsValid p block parsed locals s f v = ground arith

gnu_header-IsValid :
    (p : ℕ) (block : Bytes) (parsed : ParsedHeader) (pending : PendingGnu) (s : TarStream)
    → s.format ≡ some ArchiveFormat.gnu
    → IsValid s
    → IsValid (process_gnu_header p block parsed pending s).0
unfolding process_gnu_header already_seen
gnu_header-IsValid p block parsed pending s f v = ground arith

-- After a header that passes, the stream's family is the header's.
checked_header-IsValid :
    (p : ℕ) (block : Bytes) (s : TarStream)
    → IsValid s
    → IsValid (parse_format_checked_header p block s).0
unfolding parse_format_checked_header
checked_header-IsValid p block s v = ground arith

pub checked_header_format :
    (p : ℕ) (block : Bytes) (s : TarStream) (parsed : ParsedHeader)
    → (parse_format_checked_header p block s).1 ≡ ok parsed
    → (parse_format_checked_header p block s).0.format ≡ some parsed.format
unfolding parse_format_checked_header
checked_header_format p block s parsed e = ground arith

boundary_header-IsValid :
    (p : ℕ) (block : Bytes) (s : TarStream)
    → IsValid s
    → IsValid (process_boundary_header p block s).0
unfolding process_boundary_header already_seen
boundary_header-IsValid p block s v = ground arith

read_gnu_header-IsValid :
    (pending : PendingGnu) (p : ℕ) (block : Bytes) (s : TarStream)
    → s.format ≡ some ArchiveFormat.gnu
    → IsValid s
    → IsValid (read_gnu_header pending p block s).0
unfolding read_gnu_header already_seen
read_gnu_header-IsValid pending p block s f v = ground arith

read_ustar_header-IsValid :
    (records : PaxRecords) (p : ℕ) (block : Bytes) (s : TarStream)
    → s.format ≡ some ArchiveFormat.pax
    → IsValid s
    → IsValid (read_ustar_header records p block s).0
unfolding read_ustar_header
read_ustar_header-IsValid records p block s f v = ground arith

read_pax-IsValid :
    (kind : PaxKind) (h remaining : ℕ) (payload : Bytes) (p : ℕ) (block : Bytes) (s : TarStream)
    → length block ≡ block_size
    → StateFits s (State.reading_pax kind h remaining payload)
    → IsValid s
    → IsValid (read_pax kind h remaining payload p block s).0
unfolding read_pax
read_pax-IsValid PaxKind.local h remaining payload p block s whole f v = ground (
  arith,
  length-append payload (take (block_len remaining) block),
  length-take (block_len remaining) block,
)
read_pax-IsValid PaxKind.global h remaining payload p block s whole f v = ground (
  arith,
  length-append payload (take (block_len remaining) block),
  length-take (block_len remaining) block,
)

process_in-IsValid :
    (q : State) (p : ℕ) (block : Bytes) (s : TarStream)
    → length block ≡ block_size
    → s.state ≡ State.failed
    → IsSound s
    → StateFits s q
    → IsValid (process_in q p block s).0
unfolding process_in
process_in-IsValid State.awaiting_header p block s whole e v f =
    ground (arith, boundary_header-IsValid p block s (record { sound = v; fits = rw e tt }))
process_in-IsValid (State.reading_pax kind h remaining payload) p block s whole e v f =
    read_pax-IsValid kind h remaining payload p block s whole f
      (record { sound = v; fits = rw e tt })
process_in-IsValid (State.awaiting_ustar_header records) p block s whole e v f =
    read_ustar_header-IsValid records p block s f (record { sound = v; fits = rw e tt })
process_in-IsValid (State.awaiting_gnu_member pending) p block s whole e v f =
    read_gnu_header-IsValid pending p block s f.0 (record { sound = v; fits = rw e tt })
process_in-IsValid (State.reading_gnu GnuKind.long_name remaining pending) p block s whole e v f =
    unfold already_seen in ground arith
process_in-IsValid (State.reading_gnu GnuKind.long_link remaining pending) p block s whole e v f =
    unfold already_seen in ground arith
process_in-IsValid _ p block s whole e v f = ground arith

-- The condition of a state says nothing of the stream's own state.
pub StateFits-failed :
    (s : TarStream) (q : State) → StateFits s q → StateFits (record s { state = State.failed }) q
StateFits-failed s (State.reading_pax kind h remaining payload) f = f
StateFits-failed s (State.awaiting_ustar_header records) f = f
StateFits-failed s (State.reading_gnu kind remaining pending) f = f
StateFits-failed s (State.awaiting_gnu_member pending) f = f
StateFits-failed s (State.reading_member remaining) f = f
StateFits-failed s _ f = tt

-- `process_block` keeps the invariant, on a block of 512 bytes, whether it succeeds or fails.
pub process_block-IsValid :
    (p : ℕ) (block : Bytes) (s : TarStream)
    → length block ≡ block_size
    → IsValid s
    → IsValid (process_block p block s).0
unfolding process_block
process_block-IsValid p block s whole v =
    process_in-IsValid s.state p block (record s { state = State.failed }) whole refl
      (record { globals = v.sound.globals; total = v.sound.total })
      (StateFits-failed s s.state v.fits)

pub new_stream-IsValid : (policy : StreamPolicy) → IsValid (new_stream policy)
new_stream-IsValid policy = record {
  sound = record { globals = inl refl; total = omega arith };
  fits = tt;
}
