-- ===== src/Stream/Format.antt =====
-- What each block leaves alone: the selected archive family, the policy, and after an error the
-- failed state.
use tar_codec.Base.{ℕ, Option, none, some, ◌≡◌, arith, Bytes, err}
use tar_codec.Header.{ArchiveFormat}
use tar_codec.Pax.{PaxKind, PaxRecords}
use tar_codec.Stream.{FrameError, Framed, PendingGnu, State, TarStream}
use tar_codec.Stream.Headers.{ParsedHeader}
use tar_codec.Stream.Machine.{
  parse_format_checked_header, process_pax_header, process_ustar_header, process_gnu_header,
  process_boundary_header, read_pax, read_ustar_header, read_gnu_header, process_in, process_block,
}

-- A selected family stays.
abbrev pub KeepsFormat : Option ArchiveFormat → Option ArchiveFormat → Type 0
KeepsFormat none after = Unit {0}
KeepsFormat (some f) after = after ≡ some f

-- What a handler keeps, whatever it returns; after an error the state too, which `process_block`
-- has set to failed.
pub record Keeps {A : Type 0} (s : TarStream) (t : TarStream) (r : Framed A) : Type 0 where
  pub format : KeepsFormat s.format t.format
  pub policy : t.policy ≡ s.policy
  pub on_error : (e : FrameError) → r ≡ err e → t.state ≡ s.state

pax_header-Keeps :
    (p : ℕ) (block : Bytes) (n : ℕ) (kind : PaxKind) (s : TarStream)
    → Keeps s (process_pax_header p block n kind s).0 (process_pax_header p block n kind s).1
unfolding process_pax_header
pax_header-Keeps p block n PaxKind.local s = ground arith
pax_header-Keeps p block n PaxKind.global s = ground arith

gnu_header-Keeps :
    (p : ℕ) (block : Bytes) (parsed : ParsedHeader) (pending : PendingGnu) (s : TarStream)
    → Keeps s
        (process_gnu_header p block parsed pending s).0
        (process_gnu_header p block parsed pending s).1
unfolding process_gnu_header
gnu_header-Keeps p block parsed pending s = ground arith

ustar_header-Keeps :
    (p : ℕ) (block : Bytes) (parsed : ParsedHeader) (locals : Option PaxRecords) (s : TarStream)
    → Keeps s
        (process_ustar_header p block parsed locals s).0
        (process_ustar_header p block parsed locals s).1
unfolding process_ustar_header
ustar_header-Keeps p block parsed locals s = ground arith

checked_header-Keeps :
    (p : ℕ) (block : Bytes) (s : TarStream)
    → Keeps s (parse_format_checked_header p block s).0 (parse_format_checked_header p block s).1
unfolding parse_format_checked_header
checked_header-Keeps p block s = ground arith

read_pax-Keeps :
    (kind : PaxKind) (h remaining : ℕ) (payload : Bytes) (p : ℕ) (block : Bytes) (s : TarStream)
    → Keeps s
        (read_pax kind h remaining payload p block s).0
        (read_pax kind h remaining payload p block s).1
unfolding read_pax
read_pax-Keeps PaxKind.local h remaining payload p block s = ground arith
read_pax-Keeps PaxKind.global h remaining payload p block s = ground arith

read_ustar_header-Keeps :
    (records : PaxRecords) (p : ℕ) (block : Bytes) (s : TarStream)
    → Keeps s (read_ustar_header records p block s).0 (read_ustar_header records p block s).1
unfolding read_ustar_header
read_ustar_header-Keeps records p block s = ground arith

read_gnu_header-Keeps :
    (pending : PendingGnu) (p : ℕ) (block : Bytes) (s : TarStream)
    → Keeps s (read_gnu_header pending p block s).0 (read_gnu_header pending p block s).1
unfolding read_gnu_header
read_gnu_header-Keeps pending p block s = ground arith

boundary_header-Keeps :
    (p : ℕ) (block : Bytes) (s : TarStream)
    → Keeps s (process_boundary_header p block s).0 (process_boundary_header p block s).1
unfolding process_boundary_header
boundary_header-Keeps p block s = ground arith

process_in-Keeps :
    (q : State) (p : ℕ) (block : Bytes) (s : TarStream)
    → Keeps s (process_in q p block s).0 (process_in q p block s).1
unfolding process_in
process_in-Keeps State.awaiting_header p block s = ground (arith, boundary_header-Keeps p block s)
process_in-Keeps (State.reading_pax kind h remaining payload) p block s =
    read_pax-Keeps kind h remaining payload p block s
process_in-Keeps (State.awaiting_ustar_header records) p block s =
    read_ustar_header-Keeps records p block s
process_in-Keeps (State.awaiting_gnu_member pending) p block s =
    read_gnu_header-Keeps pending p block s
process_in-Keeps _ p block s = ground arith

-- `process_block` never changes a family that an earlier header has selected, nor the policy.
pub process_block_keeps :
    (p : ℕ) (block : Bytes) (s : TarStream)
    → KeepsFormat s.format (process_block p block s).0.format
      × ((process_block p block s).0.policy ≡ s.policy)
unfolding process_block
process_block_keeps p block s =
    let k = process_in-Keeps s.state p block (record s { state = State.failed }) in
    (k.format, k.policy)

-- When `process_block` returns an error, the stream has failed, whatever it was doing.
pub process_block_fails :
    (p : ℕ) (block : Bytes) (s : TarStream) (e : FrameError)
    → (process_block p block s).1 ≡ err e
    → (process_block p block s).0.state ≡ State.failed
unfolding process_block
process_block_fails p block s e h =
    (process_in-Keeps s.state p block (record s { state = State.failed })).on_error e h
