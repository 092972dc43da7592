-- ===== src/Logical/Lockstep/Headers.antt =====
-- Headers keep the stream of crates/tar-framing/src/stream.rs and the assembly of logical.rs in step.
use tar_codec.Base.{
  ℕ, ◌≡◌, sym, ap, ◌∙◌, false, Option, none, some, arith, Bytes, ◌==◌, ltb, ◌||◌, Bool-cases, inl,
  inr,
}
use tar_codec.Header.{ArchiveFormat}
use tar_codec.Pax.{PaxKind, PaxRecords}
use tar_codec.Stream.{
  GnuKind, FrameErrorInner, FrameError, at, Frame, PendingGnu, no_pending, TarStream,
}
use tar_codec.Stream.Headers.{ParsedHeader, is_zero_block}
use tar_codec.Stream.Machine
use tar_codec.Stream.Machine.{
  Handler, process_pax_header, process_ustar_header, process_gnu_header, already_seen, check_format,
  same_format, after, boundary_in, parse_payload, inherited_charset, complete_pax, data_frame,
  block_len, process_pax_boundary_header, begin_gnu_extension, process_gnu_extension,
  process_gnu_member, gnu_header_in, extension_kind, process_boundary_header, read_pax,
  read_ustar_header, read_gnu_header, process_in, process_block, parse_format_checked_header,
}
use tar_codec.Logical.{PendingExtensions, Assembly, process_frame}
use tar_codec.Logical.Lockstep.{Fresh, Seen, is_some, FollowsFrame, FollowsBlock}
use tar_codec.Logical.Lockstep.Steps.{fail_if-Follows, checked_header-Follows, frame-FollowsBlock}

pax_header-Follows :
    (p : ℕ) (block : Bytes) (n : ℕ) (kind : PaxKind) (a : Assembly) (s : TarStream)
    → a.global_pax_records ≡ s.global_pax_records
    → Fresh a.pending_extensions
    → FollowsFrame a (process_pax_header p block n kind s)
unfolding process_pax_header process_frame
pax_header-Follows p block n PaxKind.local a s g f = ground arith
pax_header-Follows p block n PaxKind.global a s g f = ground arith

ustar_header-Follows :
    (p : ℕ) (block : Bytes) (parsed : ParsedHeader) (locals : Option PaxRecords) (a : Assembly)
    (s : TarStream)
    → a.global_pax_records ≡ s.global_pax_records
    → a.extension_payload ≡ none
    → FollowsFrame a (process_ustar_header p block parsed locals s)
unfolding process_ustar_header process_frame
ustar_header-Follows p block parsed locals a s g f = ground arith

begin_gnu_extension-Follows :
    (p : ℕ) (block : Bytes) (parsed : ParsedHeader) (pending : PendingGnu) (kind : GnuKind)
    (a : Assembly) (s : TarStream)
    → a.global_pax_records ≡ s.global_pax_records
    → a.extension_payload ≡ none
    → Seen pending a.pending_extensions
    → already_seen kind pending ≡ false
    → FollowsFrame a (begin_gnu_extension p block parsed pending kind s)
unfolding begin_gnu_extension already_seen process_frame
begin_gnu_extension-Follows p block parsed pending GnuKind.long_name a s g x h fresh =
    elim (Bool-cases (parsed.size == 0)) [
      | inl none_left ↦ rw none_left (ground arith)
      | inr some_left ↦ rw some_left (ground arith)
    ]
begin_gnu_extension-Follows p block parsed pending GnuKind.long_link a s g x h fresh =
    elim (Bool-cases (parsed.size == 0)) [
      | inl none_left ↦ rw none_left (ground arith)
      | inr some_left ↦ rw some_left (ground arith)
    ]

gnu_extension-Follows :
    (p : ℕ) (block : Bytes) (parsed : ParsedHeader) (pending : PendingGnu) (kind : GnuKind)
    (a : Assembly) (s : TarStream)
    → a.global_pax_records ≡ s.global_pax_records
    → a.extension_payload ≡ none
    → Seen pending a.pending_extensions
    → FollowsFrame a (process_gnu_extension p block parsed pending kind s)
unfolding process_gnu_extension
gnu_extension-Follows p block parsed pending kind a s g x h =
    let too_large = λ (t : TarStream). at p (
      FrameErrorInner.extension_too_large ArchiveFormat.gnu parsed.size
        t.policy.max_gnu_extension_size) in
    let begin = begin_gnu_extension p block parsed pending kind in
    fail_if-Follows (FollowsFrame a) (already_seen kind pending)
      (at p (
        FrameErrorInner.unexpected_order
          "ordinary GNU member header or the other GNU metadata extension"
          "duplicate GNU metadata extension"))
      (Machine.◌>>◌
        (λ t. Machine.fail_if (ltb t.policy.max_gnu_extension_size parsed.size) (too_large t) t)
        begin)
      s (λ _ _. tt)
      λ fresh.
        fail_if-Follows (FollowsFrame a) (ltb s.policy.max_gnu_extension_size parsed.size)
          (too_large s) begin s (λ _ _. tt)
          λ small. begin_gnu_extension-Follows p block parsed pending kind a s g x h fresh

gnu_member-Follows :
    (p : ℕ) (block : Bytes) (parsed : ParsedHeader) (pending : PendingGnu) (a : Assembly)
    (s : TarStream)
    → a.global_pax_records ≡ s.global_pax_records
    → a.extension_payload ≡ none
    → FollowsFrame a (process_gnu_member p block parsed pending s)
unfolding process_gnu_member process_frame
gnu_member-Follows p block parsed pending a s g x = ground arith

gnu_header_in-Follows :
    (p : ℕ) (block : Bytes) (parsed : ParsedHeader) (pending : PendingGnu) (kind : Option GnuKind)
    (a : Assembly) (s : TarStream)
    → a.global_pax_records ≡ s.global_pax_records
    → a.extension_payload ≡ none
    → Seen pending a.pending_extensions
    → FollowsFrame a (gnu_header_in p block parsed pending kind s)
unfolding gnu_header_in
gnu_header_in-Follows p block parsed pending none a s g x h =
    gnu_member-Follows p block parsed pending a s g x
gnu_header_in-Follows p block parsed pending (some kind) a s g x h =
    gnu_extension-Follows p block parsed pending kind a s g x h

gnu_header-Follows :
    (p : ℕ) (block : Bytes) (parsed : ParsedHeader) (pending : PendingGnu) (a : Assembly)
    (s : TarStream)
    → a.global_pax_records ≡ s.global_pax_records
    → a.extension_payload ≡ none
    → Seen pending a.pending_extensions
    → FollowsFrame a (process_gnu_header p block parsed pending s)
unfolding process_gnu_header
gnu_header-Follows p block parsed pending a s g x h =
    gnu_header_in-Follows p block parsed pending (extension_kind parsed.typeflag) a s g x h

Fresh-Seen : (p : PendingExtensions) → Fresh p → Seen no_pending p
Fresh-Seen p (x, y, z) = (x, ap is_some y, ap is_some z)

boundary-Follows :
    (f : ArchiveFormat) (p : ℕ) (block : Bytes) (parsed : ParsedHeader) (a : Assembly)
    (s : TarStream)
    → a.global_pax_records ≡ s.global_pax_records
    → a.extension_payload ≡ none
    → Fresh a.pending_extensions
    → FollowsFrame a (boundary_in f p block parsed s)
unfolding boundary_in process_pax_boundary_header
boundary-Follows ArchiveFormat.gnu p block parsed a s g x h =
    gnu_header-Follows p block parsed no_pending a s g x (Fresh-Seen a.pending_extensions h)
boundary-Follows ArchiveFormat.pax p block parsed a s g x h =
    let local = pax_header-Follows p block parsed.size PaxKind.local a s g h in
    let global = pax_header-Follows p block parsed.size PaxKind.global a s g h in
    let member = ustar_header-Follows p block parsed none a s g x in
    elim (Bool-cases (parsed.typeflag == b'x')) [
      | inl is_x ↦ rw is_x local
      | inr not_x ↦ elim (Bool-cases (parsed.typeflag == b'g')) [
        | inl is_g ↦ rw (not_x, is_g) global
        | inr not_g ↦ rw (not_x, not_g) member
      ]
    ]

pub boundary_header-Follows :
    (p : ℕ) (block : Bytes) (a : Assembly) (s : TarStream)
    → a.global_pax_records ≡ s.global_pax_records
    → a.extension_payload ≡ none
    → Fresh a.pending_extensions
    → FollowsFrame a (process_boundary_header p block s)
unfolding process_boundary_header
boundary_header-Follows p block a s g x h =
    checked_header-Follows (FollowsFrame a) p block
      (λ parsed. boundary_in parsed.format p block parsed) s (λ _ _. tt)
      λ parsed t same. boundary-Follows parsed.format p block parsed a t (g ∙ sym same) x h

pub ustar_after_pax-FollowsBlock :
    (records : PaxRecords) (p : ℕ) (block : Bytes) (a : Assembly) (s : TarStream)
    → a.global_pax_records ≡ s.global_pax_records
    → a.extension_payload ≡ none
    → FollowsBlock a (read_ustar_header records p block s)
unfolding read_ustar_header
ustar_after_pax-FollowsBlock records p block a s g x =
    fail_if-Follows (FollowsBlock a) (is_zero_block block)
      (at p (
        FrameErrorInner.unexpected_order "ordinary ustar member header after a local pax header"
          "end-of-archive marker"))
      (Machine.◌>>=◌ (parse_format_checked_header p block) (member_after p block)) s (λ _ _. tt)
      λ some_bits.
        checked_header-Follows (FollowsBlock a) p block (member_after p block) s (λ _ _. tt)
          λ parsed t same.
            fail_if-Follows (FollowsBlock a) (parsed.typeflag == b'x' || parsed.typeflag == b'g')
              (again p)
              (Machine.◌>>=◌ (process_ustar_header p block parsed (some records))
                (λ frame. Machine.pure (some frame)))
              t (λ _ _. tt)
              λ ordinary.
                frame-FollowsBlock a (process_ustar_header p block parsed (some records)) t
                  (ustar_header-Follows p block parsed (some records) a t (g ∙ sym same) x)
  where
    again : ℕ → FrameError
    again p = at p (
        FrameErrorInner.unexpected_order "ordinary ustar member header after a local pax header"
          "another pax extended header")

    member_after : ℕ → Bytes → ParsedHeader → Handler (Option Frame)
    member_after p block parsed =
        Machine.◌>>◌
          (Machine.fail_if (parsed.typeflag == b'x' || parsed.typeflag == b'g') (again p))
          (Machine.◌>>=◌ (process_ustar_header p block parsed (some records))
            (λ frame. Machine.pure (some frame)))

pub member_after_gnu-FollowsBlock :
    (pending : PendingGnu) (p : ℕ) (block : Bytes) (a : Assembly) (s : TarStream)
    → a.global_pax_records ≡ s.global_pax_records
    → a.extension_payload ≡ none
    → Seen pending a.pending_extensions
    → FollowsBlock a (read_gnu_header pending p block s)
unfolding read_gnu_header
member_after_gnu-FollowsBlock pending p block a s g x h =
    let member = λ (parsed : ParsedHeader).
      Machine.◌>>=◌ (process_gnu_header p block parsed pending)
        (λ frame. Machine.pure (some frame)) in
    fail_if-Follows (FollowsBlock a) (is_zero_block block)
      (at p (
        FrameErrorInner.unexpected_order "ordinary GNU member header after a GNU metadata extension"
          "end-of-archive marker"))
      (Machine.◌>>=◌ (parse_format_checked_header p block) member) s (λ _ _. tt)
      λ some_bits.
        checked_header-Follows (FollowsBlock a) p block member s (λ _ _. tt)
          λ parsed t same.
            frame-FollowsBlock a (process_gnu_header p block parsed pending) t
              (gnu_header-Follows p block parsed pending a t (g ∙ sym same) x h)
