-- ===== src/Stream/Diagram.antt =====
-- The state diagram in the documentation of crates/tar-framing/src/stream.rs, as a relation, and
-- that each block makes one of its moves. The diagram's choices PosixHeader and GnuHeader are
-- passed through within a block, so an arrow into one and an arrow out of it are one move here.
use tar_codec.Base.{
  ℕ, Option, none, some, ◌≡◌, ◌⊎◌, inl, inr, refl, arith, Bytes, ◌==◌, ◌-◌, Bool-cases, length,
}
use tar_codec.Header.{ArchiveFormat, block_size}
use tar_codec.Pax.{PaxKind, PaxRecords}
use tar_codec.Stream.{GnuKind, PendingGnu, State, TarStream, StreamPolicy, new_stream}
use tar_codec.Stream.Headers.{is_zero_block}
use tar_codec.Stream.Invariant.{
  IsValid, StateFits, StateFits-failed, new_stream-IsValid, process_block-IsValid,
}
use tar_codec.Stream.Machine.{
  process_block, process_in, read_pax, read_ustar_header, read_gnu_header, process_boundary_header,
  block_len,
}

pub data Node : Type 0 where
  unclassified posix_boundary gnu_boundary : Node
  reading_pax : PaxKind → Node
  awaiting_ustar_header posix_member_data : Node
  reading_gnu awaiting_gnu_member gnu_member_data : Node
  awaiting_second_zero complete failed : Node

-- Where a stream stands in the diagram.
abbrev pub by_format {ℓ} : {A : Type ℓ} → Option ArchiveFormat → A → A → A → A
by_format none unselected posix gnu = unselected
by_format (some ArchiveFormat.pax) unselected posix gnu = posix
by_format (some ArchiveFormat.gnu) unselected posix gnu = gnu

abbrev pub node_in : Option ArchiveFormat → State → Node
node_in format State.awaiting_header =
    by_format format Node.unclassified Node.posix_boundary Node.gnu_boundary
node_in format (State.reading_pax kind h remaining payload) = Node.reading_pax kind
node_in format (State.awaiting_ustar_header records) = Node.awaiting_ustar_header
node_in format (State.reading_gnu kind remaining pending) = Node.reading_gnu
node_in format (State.awaiting_gnu_member pending) = Node.awaiting_gnu_member
node_in format (State.reading_member remaining) =
    by_format format Node.failed Node.posix_member_data Node.gnu_member_data
node_in format State.awaiting_second_zero = Node.awaiting_second_zero
node_in format State.complete = Node.complete
node_in format State.failed = Node.failed

abbrev pub node : TarStream → Node
node s = node_in s.format s.state

-- The arrows that leave PosixHeader and GnuHeader.
pub data FromPosixHeader : Node → Type 0 where
  to_pax : (kind : PaxKind) → FromPosixHeader (Node.reading_pax kind)
  to_member : FromPosixHeader Node.posix_member_data
  to_boundary : FromPosixHeader Node.posix_boundary

pub data FromGnuHeader : Node → Type 0 where
  to_metadata : FromGnuHeader Node.reading_gnu
  to_empty_metadata : FromGnuHeader Node.awaiting_gnu_member
  to_member : FromGnuHeader Node.gnu_member_data
  to_boundary : FromGnuHeader Node.gnu_boundary

-- The moves of the diagram. `stays` is a payload block that is not the last; the arrows into
-- Failed are those that the diagram's note leaves out.
pub data Move : Node → Node → Type 0 where
  first_zero : Move Node.unclassified Node.awaiting_second_zero
  posix_first_zero : Move Node.posix_boundary Node.awaiting_second_zero
  gnu_first_zero : Move Node.gnu_boundary Node.awaiting_second_zero
  select_posix : {b : Node} → FromPosixHeader b → Move Node.unclassified b
  select_gnu : {b : Node} → FromGnuHeader b → Move Node.unclassified b
  posix_header : {b : Node} → FromPosixHeader b → Move Node.posix_boundary b
  gnu_header : {b : Node} → FromGnuHeader b → Move Node.gnu_boundary b
  local_complete : Move (Node.reading_pax PaxKind.local) Node.awaiting_ustar_header
  global_complete : Move (Node.reading_pax PaxKind.global) Node.posix_boundary
  pax_stays : (kind : PaxKind) → Move (Node.reading_pax kind) (Node.reading_pax kind)
  ustar_member : Move Node.awaiting_ustar_header Node.posix_member_data
  ustar_empty_member : Move Node.awaiting_ustar_header Node.posix_boundary
  metadata_complete : Move Node.reading_gnu Node.awaiting_gnu_member
  metadata_stays : Move Node.reading_gnu Node.reading_gnu
  another_header : {b : Node} → FromGnuHeader b → Move Node.awaiting_gnu_member b
  posix_payload_complete : Move Node.posix_member_data Node.posix_boundary
  posix_payload_stays : Move Node.posix_member_data Node.posix_member_data
  gnu_payload_complete : Move Node.gnu_member_data Node.gnu_boundary
  gnu_payload_stays : Move Node.gnu_member_data Node.gnu_member_data
  second_zero : Move Node.awaiting_second_zero Node.complete
  stays_complete : Move Node.complete Node.complete
  fails : (a : Node) → Move a Node.failed

abbrev PosixTarget : Node → Type 0
PosixTarget b =
    (b ≡ Node.reading_pax PaxKind.local)
    ⊎ (b ≡ Node.reading_pax PaxKind.global)
    ⊎ (b ≡ Node.posix_member_data)
    ⊎ (b ≡ Node.posix_boundary)
    ⊎ (b ≡ Node.failed)

abbrev GnuTarget : Node → Type 0
GnuTarget b =
    (b ≡ Node.reading_gnu)
    ⊎ (b ≡ Node.awaiting_gnu_member)
    ⊎ (b ≡ Node.gnu_member_data)
    ⊎ (b ≡ Node.gnu_boundary)
    ⊎ (b ≡ Node.failed)

boundary_target :
    (p : ℕ) (block : Bytes) (s : TarStream) (f : Option ArchiveFormat)
    → s.state ≡ State.failed
    → s.format ≡ f
    → by_format f
        (PosixTarget (node (process_boundary_header p block s).0)
          ⊎ GnuTarget (node (process_boundary_header p block s).0))
        (PosixTarget (node (process_boundary_header p block s).0))
        (GnuTarget (node (process_boundary_header p block s).0))
unfolding process_boundary_header
boundary_target p block s none e e' = ground arith
boundary_target p block s (some ArchiveFormat.pax) e e' = ground arith
boundary_target p block s (some ArchiveFormat.gnu) e e' = ground arith

posix-Move : (a b : Node) → ((c : Node) → FromPosixHeader c → Move a c) → PosixTarget b → Move a b
posix-Move a b m (inl e) = rw e (m _ (FromPosixHeader.to_pax PaxKind.local))
posix-Move a b m (inr (inl e)) = rw e (m _ (FromPosixHeader.to_pax PaxKind.global))
posix-Move a b m (inr (inr (inl e))) = rw e (m _ FromPosixHeader.to_member)
posix-Move a b m (inr (inr (inr (inl e)))) = rw e (m _ FromPosixHeader.to_boundary)
posix-Move a b m (inr (inr (inr (inr e)))) = rw e (fails a)

gnu-Move : (a b : Node) → ((c : Node) → FromGnuHeader c → Move a c) → GnuTarget b → Move a b
gnu-Move a b m (inl e) = rw e (m _ to_metadata)
gnu-Move a b m (inr (inl e)) = rw e (m _ to_empty_metadata)
gnu-Move a b m (inr (inr (inl e))) = rw e (m _ FromGnuHeader.to_member)
gnu-Move a b m (inr (inr (inr (inl e)))) = rw e (m _ FromGnuHeader.to_boundary)
gnu-Move a b m (inr (inr (inr (inr e)))) = rw e (fails a)

ustar_target :
    (records : PaxRecords) (p : ℕ) (block : Bytes) (s : TarStream)
    → s.state ≡ State.failed
    → s.format ≡ some ArchiveFormat.pax
    → (node (read_ustar_header records p block s).0 ≡ Node.posix_member_data)
      ⊎ (node (read_ustar_header records p block s).0 ≡ Node.posix_boundary)
      ⊎ (node (read_ustar_header records p block s).0 ≡ Node.failed)
unfolding read_ustar_header
ustar_target records p block s e e' = ground arith

gnu_target :
    (pending : PendingGnu) (p : ℕ) (block : Bytes) (s : TarStream)
    → s.state ≡ State.failed
    → s.format ≡ some ArchiveFormat.gnu
    → GnuTarget (node (read_gnu_header pending p block s).0)
unfolding read_gnu_header
gnu_target pending p block s e e' = ground arith

pax_target :
    (kind : PaxKind) (h remaining : ℕ) (payload : Bytes) (p : ℕ) (block : Bytes) (s : TarStream)
    → s.state ≡ State.failed
    → s.format ≡ some ArchiveFormat.pax
    → (node (read_pax kind h remaining payload p block s).0 ≡ Node.reading_pax kind)
      ⊎ (node (read_pax kind h remaining payload p block s).0 ≡ elim kind [
        | PaxKind.local ↦ Node.awaiting_ustar_header
        | PaxKind.global ↦ Node.posix_boundary
      ])
      ⊎ (node (read_pax kind h remaining payload p block s).0 ≡ Node.failed)
unfolding read_pax
pax_target PaxKind.local h remaining payload p block s e e' = ground arith
pax_target PaxKind.global h remaining payload p block s e e' = ground arith

boundary-Move :
    (p : ℕ) (block : Bytes) (s : TarStream) (f : Option ArchiveFormat)
    → s.state ≡ State.failed
    → s.format ≡ f
    → Move (node_in f State.awaiting_header) (node (process_boundary_header p block s).0)
boundary-Move p block s none e e' = elim (boundary_target p block s none e e') [
  | inl t ↦ posix-Move _ _ (λ c m. select_posix m) t
  | inr t ↦ gnu-Move _ _ (λ c m. select_gnu m) t
]
boundary-Move p block s (some ArchiveFormat.pax) e e' =
    posix-Move _ _ (λ c m. posix_header m) (boundary_target p block s _ e e')
boundary-Move p block s (some ArchiveFormat.gnu) e e' =
    gnu-Move _ _ (λ c m. gnu_header m) (boundary_target p block s _ e e')

zero-Move :
    (f : Option ArchiveFormat) → Move (node_in f State.awaiting_header) Node.awaiting_second_zero
zero-Move none = first_zero
zero-Move (some ArchiveFormat.pax) = posix_first_zero
zero-Move (some ArchiveFormat.gnu) = gnu_first_zero

header_target :
    (p : ℕ) (block : Bytes) (s : TarStream)
    → ((process_in State.awaiting_header p block s).0.state ≡ State.awaiting_second_zero)
      ⊎ ((process_in State.awaiting_header p block s).0 ≡ (process_boundary_header p block s).0)
unfolding process_in
header_target p block s = ground arith

header-Move :
    (p : ℕ) (block : Bytes) (s : TarStream)
    → s.state ≡ State.failed
    → Move
        (node_in s.format State.awaiting_header)
        (node (process_in State.awaiting_header p block s).0)
header-Move p block s e = elim (header_target p block s) [
  | inl z ↦ rw z (zero-Move s.format)
  | inr h ↦ rw h (boundary-Move p block s s.format e refl)
]

pax-Move :
    (kind : PaxKind) (b : Node)
    → (b ≡ Node.reading_pax kind)
      ⊎ (b ≡ elim kind [
        | PaxKind.local ↦ Node.awaiting_ustar_header
        | PaxKind.global ↦ Node.posix_boundary
      ])
      ⊎ (b ≡ Node.failed)
    → Move (Node.reading_pax kind) b
pax-Move kind b (inl e) = rw e (pax_stays kind)
pax-Move PaxKind.local b (inr (inl e)) = rw e local_complete
pax-Move PaxKind.global b (inr (inl e)) = rw e global_complete
pax-Move kind b (inr (inr e)) = rw e (fails _)

gnu_payload-Move :
    (kind : GnuKind) (remaining : ℕ) (pending : PendingGnu) (p : ℕ) (block : Bytes) (s : TarStream)
    → Move Node.reading_gnu
        (node (process_in (State.reading_gnu kind remaining pending) p block s).0)
unfolding process_in
gnu_payload-Move kind remaining pending p block s =
    elim (Bool-cases (remaining - block_len remaining == 0)) [
      | inl done ↦ rw done metadata_complete
      | inr more ↦ rw more metadata_stays
    ]

member-Move :
    (remaining : ℕ) (p : ℕ) (block : Bytes) (s : TarStream)
    → (s.format ≡ some ArchiveFormat.pax) ⊎ (s.format ≡ some ArchiveFormat.gnu)
    → Move
        (node_in s.format (State.reading_member remaining))
        (node (process_in (State.reading_member remaining) p block s).0)
unfolding process_in
member-Move remaining p block s f = elim (Bool-cases (remaining - block_len remaining == 0)) [
  | inl done ↦
      rw done (elim f [ inl e ↦ rw e posix_payload_complete | inr e ↦ rw e gnu_payload_complete ])
  | inr more ↦
      rw more (elim f [ inl e ↦ rw e posix_payload_stays | inr e ↦ rw e gnu_payload_stays ])
]

end-Move :
    (p : ℕ) (block : Bytes) (s : TarStream)
    → s.state ≡ State.failed
    → Move Node.awaiting_second_zero (node (process_in State.awaiting_second_zero p block s).0)
unfolding process_in
end-Move p block s e = elim (Bool-cases (is_zero_block block)) [
  | inl zero_block ↦ rw zero_block second_zero
  | inr other ↦ rw other (rw e (fails _))
]

step-Move :
    (q : State) (p : ℕ) (block : Bytes) (s : TarStream)
    → s.state ≡ State.failed
    → StateFits s q
    → Move (node_in s.format q) (node (process_in q p block s).0)
step-Move State.awaiting_header p block s e f = header-Move p block s e
step-Move (State.reading_pax kind h remaining payload) p block s e f =
    unfold process_in in pax-Move kind _ (pax_target kind h remaining payload p block s e f.0)
step-Move (State.awaiting_ustar_header records) p block s e f =
    unfold process_in in
    elim (ustar_target records p block s e f) [
      | inl t ↦ rw t ustar_member
      | inr (inl t) ↦ rw t ustar_empty_member
      | inr (inr t) ↦ rw t (fails _)
    ]
step-Move (State.reading_gnu kind remaining pending) p block s e f =
    gnu_payload-Move kind remaining pending p block s
step-Move (State.awaiting_gnu_member pending) p block s e f =
    unfold process_in in gnu-Move _ _ (λ c m. another_header m) (gnu_target pending p block s e f.0)
step-Move (State.reading_member remaining) p block s e f = member-Move remaining p block s f.1
step-Move State.awaiting_second_zero p block s e f = end-Move p block s e
step-Move State.complete p block s e f = unfold process_in in stays_complete
step-Move State.failed p block s e f = unfold process_in in rw e (fails _)

-- On a stream that keeps the invariant, each block makes a move of the documented diagram.
process_block-Move :
    (p : ℕ) (block : Bytes) (s : TarStream)
    → IsValid s
    → Move (node s) (node (process_block p block s).0)
unfolding process_block
process_block-Move p block s v =
    step-Move s.state p block (record s { state = State.failed }) refl
      (StateFits-failed s s.state v.fits)

-- Reached from a new stream by blocks of 512 bytes, at any positions.
pub data Reached (policy : StreamPolicy) : TarStream → Type 0 where
  start : Reached policy (new_stream policy)
  next :
      {s : TarStream} (p : ℕ) (block : Bytes)
      → length block ≡ block_size
      → Reached policy s
      → Reached policy (process_block p block s).0

Reached-IsValid : {policy : StreamPolicy} {s : TarStream} → Reached policy s → IsValid s
Reached-IsValid {policy} start = new_stream-IsValid policy
Reached-IsValid (next {s} p block whole r) =
    process_block-IsValid p block s whole (Reached-IsValid r)

-- Whatever blocks a new stream was given, of 512 bytes each, the next block makes a move of the
-- documented diagram, or the stream fails.
pub Reached-Move :
    {policy : StreamPolicy} {s : TarStream} (p : ℕ) (block : Bytes)
    → Reached policy s
    → Move (node s) (node (process_block p block s).0)
Reached-Move p block r = process_block-Move p block _ (Reached-IsValid r)
