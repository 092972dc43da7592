-- ===== src/Logical/Lockstep/Steps.antt =====
-- The binds of the handlers of crates/tar-framing/src/stream.rs, peeled off one by one.
use tar_codec.Base.{
  ℕ, ◌≡◌, refl, Bool, true, false, Option, none, some, Bytes, ok, err, Bool-cases, inl, inr,
}
use tar_codec.Header.{ArchiveFormat}
use tar_codec.Stream.{FrameErrorInner, FrameError, at, Framed, Frame, TarStream}
use tar_codec.Stream.Headers.{ParsedHeader, parse_header}
use tar_codec.Stream.Machine
use tar_codec.Stream.Machine.{
  Handler, process_pax_header, process_ustar_header, process_gnu_header, already_seen, check_format,
  same_format, after, boundary_in, parse_payload, inherited_charset, complete_pax, data_frame,
  block_len, process_pax_boundary_header, begin_gnu_extension, process_gnu_extension,
  process_gnu_member, gnu_header_in, extension_kind, process_boundary_header, read_pax,
  read_ustar_header, read_gnu_header, process_in, process_block, parse_format_checked_header,
}
use tar_codec.Logical.{Assembly}
use tar_codec.Logical.Lockstep.{FollowsFrame, FollowsBlock}

-- A check that fails ends a handler with an error; one that passes changes nothing.
pub fail_if-Follows :
    {A : Type 0} (P : TarStream × Framed A → Type 0) (test : Bool) (e : FrameError) (k : Handler A)
    (s : TarStream)
    → ((t : TarStream) (d : FrameError) → P (t, err d))
    → (test ≡ false → P (k s))
    → P (Machine.◌>>◌ (Machine.fail_if test e) k s)
fail_if-Follows P true e k s failed h = failed s e
fail_if-Follows P false e k s failed h = h refl

checked_format-Follows :
    {A : Type 0} (P : TarStream × Framed A → Type 0) (p : ℕ) (parsed : ParsedHeader)
    (f : Option ArchiveFormat) (k : ParsedHeader → Handler A) (s : TarStream)
    → ((t : TarStream) (d : FrameError) → P (t, err d))
    → ((t : TarStream) → t.global_pax_records ≡ s.global_pax_records → P (k parsed t))
    → P (after k (check_format p parsed f s).0 (check_format p parsed f s).1)
unfolding check_format
checked_format-Follows P p parsed none k s failed h =
    h (record s { format = some parsed.format }) refl
checked_format-Follows P p parsed (some f) k s failed h =
    elim (Bool-cases (same_format parsed.format f)) [
      | inl same ↦ rw same (h s refl)
      | inr other ↦ rw other (failed s (at p (FrameErrorInner.format_mismatch f parsed.format)))
    ]

parsed_header-Follows :
    {A : Type 0} (P : TarStream × Framed A → Type 0) (p : ℕ) (r : Framed ParsedHeader)
    (k : ParsedHeader → Handler A) (s : TarStream)
    → ((t : TarStream) (d : FrameError) → P (t, err d))
    → ((parsed : ParsedHeader) (t : TarStream)
        → t.global_pax_records ≡ s.global_pax_records
        → P (k parsed t))
    → P (
        Machine.◌>>=◌
          (Machine.◌>>=◌ (Machine.lift r) λ parsed t. check_format p parsed t.format t)
          k
          s)
parsed_header-Follows P p (ok parsed) k s failed h =
    checked_format-Follows P p parsed s.format k s failed (h parsed)
parsed_header-Follows P p (err e) k s failed h = failed s e

-- A header that is parsed changes the format of the stream at most.
pub checked_header-Follows :
    {A : Type 0} (P : TarStream × Framed A → Type 0) (p : ℕ) (block : Bytes)
    (k : ParsedHeader → Handler A) (s : TarStream)
    → ((t : TarStream) (d : FrameError) → P (t, err d))
    → ((parsed : ParsedHeader) (t : TarStream)
        → t.global_pax_records ≡ s.global_pax_records
        → P (k parsed t))
    → P (Machine.◌>>=◌ (parse_format_checked_header p block) k s)
unfolding parse_format_checked_header
checked_header-Follows P p block k s failed h =
    parsed_header-Follows P p (parse_header p block) k s failed h

frame_in-FollowsBlock :
    (a : Assembly) (s : TarStream) (r : Framed Frame)
    → FollowsFrame a (s, r)
    → FollowsBlock a (after (λ frame. Machine.pure (some frame)) s r)
frame_in-FollowsBlock a s (ok frame) h = h
frame_in-FollowsBlock a s (err e) h = tt

pub frame-FollowsBlock :
    (a : Assembly) (m : Handler Frame) (s : TarStream)
    → FollowsFrame a (m s)
    → FollowsBlock a (Machine.◌>>=◌ m (λ frame. Machine.pure (some frame)) s)
frame-FollowsBlock a m s h = frame_in-FollowsBlock a (m s).0 (m s).1 h
