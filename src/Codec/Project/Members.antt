-- ===== src/Codec/Project/Members.antt =====
-- The members of crates/tar-codec/src/decode.rs, and the end of their iteration.
use tar_codec.Base.{
  ℕ, Bool, true, false, Option, none, some, Bytes, contains, Result, ok, err, map_err, ◌>>=◌,
  >>=-eq-ok, ok_injective, ◌≡◌, arith, refl, sym, ap, ◌∙◌, Bool-cases, inl, inr, subst,
}
use tar_codec.Text.{is_empty, is_utf8}
use tar_codec.Stream.{UstarKind, Framed}
use tar_codec.Logical.{MemberFrame, effective_path}
use tar_codec.Logical.Names.{effective_path-eq-ok}
use tar_codec.Archive.{MemberMetadata, Member, metadata}
use tar_codec.Codec.{DecodeError, Decoded}
use tar_codec.Codec.Project.{
  utf8_text, link_target, member_of, is_executable, project_member, MemberReader, TarArchive,
  accept_frame, next_in, next_member,
}

metadata-member_of :
    (kind : UstarKind) (m : MemberMetadata) (target : Bytes) (size : ℕ) (executable : Bool)
    → metadata (member_of kind m target size executable) ≡ m
unfolding metadata member_of
metadata-member_of kind m target size executable =
    elim kind as (λ k. metadata (member_of k m target size executable) ≡ m) [
      | UstarKind.regular ↦ refl
      | UstarKind.hard_link ↦ refl
      | UstarKind.symbolic_link ↦ refl
      | UstarKind.character_device ↦ refl
      | UstarKind.block_device ↦ refl
      | UstarKind.directory ↦ refl
      | UstarKind.fifo ↦ refl
      | UstarKind.contiguous ↦ refl
    ]

map_err-eq-ok :
    {A E F : Type 0} (f : E → F) (r : Result A E) (a : A) → map_err f r ≡ ok a → r ≡ ok a
map_err-eq-ok f (ok x) a e = ap ok (ok_injective x a e)
map_err-eq-ok f (err x) a e = cc

utf8_text-eq-ok :
    (frame : MemberFrame) (bytes text : Bytes)
    → utf8_text frame.header.position "path" bytes ≡ ok text
    → (bytes ≡ text) × (is_utf8 bytes ≡ true)
unfolding utf8_text
utf8_text-eq-ok frame bytes text e = elim (Bool-cases (is_utf8 bytes)) [
  | inl valid ↦ (ok_injective bytes text (sym (rw valid refl) ∙ e), valid)
  | inr broken ↦ absurd (
      err-ne-ok (DecodeError.invalid_utf8 frame.header.position "path") text
        (sym (rw broken refl) ∙ e))
]
  where
    err-ne-ok : (e : DecodeError) (a : Bytes) → ◌≡◌ {A = Decoded Bytes} (err e) (ok a) → ⊥
    err-ne-ok e a h = cc

-- The path of a projected member is the effective path of its frame: it is UTF-8, not empty and
-- without NUL; its position is the header's.
pub project_member-eq-ok :
    (frame : MemberFrame) (member : Member)
    → project_member frame ≡ ok member
    → (effective_path frame ≡ ok (metadata member).path)
      × (is_utf8 (metadata member).path ≡ true)
      × (is_empty (metadata member).path ≡ false)
      × (contains 0 (metadata member).path ≡ false)
      × ((metadata member).position ≡ frame.header.position)
unfolding project_member
project_member-eq-ok frame member e =
    let built = λ (text target : Bytes).
      member_of frame.header.kind (record { path = text; position = frame.header.position }) target
        frame.header.effective_size (is_executable frame.header.mode) in
    let (path, found, rest) =
      >>=-eq-ok (map_err DecodeError.framing (effective_path frame))
        (λ path. utf8_text frame.header.position "path" path >>= λ text.
          link_target frame >>= λ target. ok (built text target))
        e in
    let (text, valid, rest') =
      >>=-eq-ok (utf8_text frame.header.position "path" path)
        (λ text. link_target frame >>= λ target. ok (built text target)) rest in
    let (target, linked, last) =
      >>=-eq-ok (link_target frame) (λ target. ok (built text target)) rest' in
    let (same, utf8) = utf8_text-eq-ok frame path text valid in
    let whole = map_err-eq-ok DecodeError.framing (effective_path frame) path found in
    let (_, full, clean) = effective_path-eq-ok frame path whole in
    let m =
      sym (
        metadata-member_of frame.header.kind
          (record { path = text; position = frame.header.position }) target
          frame.header.effective_size (is_executable frame.header.mode))
      ∙ ap metadata (ok_injective (built text target) member last) in
    subst
      (λ (d : MemberMetadata).
        (effective_path frame ≡ ok d.path)
        × (is_utf8 d.path ≡ true)
        × (is_empty d.path ≡ false)
        × (contains 0 d.path ≡ false)
        × (d.position ≡ frame.header.position))
      m
      (
        whole ∙ ap ok same,
        sym (ap is_utf8 same) ∙ utf8,
        sym (ap is_empty same) ∙ full,
        sym (ap (contains 0) same) ∙ clean,
        refl,
      )

-- A call that returned no member.
abbrev pub is_over : Decoded (Option Member) → Bool
is_over (ok (some member)) = false
is_over (ok none) = true
is_over (err e) = true

module _ (members : MemberReader) where
  over-fused :
      (a : TarArchive members) (r : Framed (Option MemberFrame))
      → is_over (next_in members a r).1 ≡ true
      → (next_in members a r).0.fused ≡ true
  unfolding next_in accept_frame
  over-fused a r h = ground arith

  fused-next : (a : TarArchive members) → a.fused ≡ true → next_member members a ≡ (a, ok none)
  unfolding next_member
  fused-next a h = rw h refl

  over-next :
      (a : TarArchive members)
      → is_over (next_member members a).1 ≡ true
      → (next_member members a).0.fused ≡ true
  unfolding next_member
  over-next a h = elim (Bool-cases a.fused) [
    | inl over ↦ rw over refl
    | inr running ↦
        rw (running, next_member)
          (over-fused (record a { reader = (members.next_frame a.reader).0; fused = false })
            (members.next_frame a.reader).1 (sym (rw running refl) ∙ h))
  ]

  -- Behind the end or an error the archive is over: the next call returns no member, and neither
  -- it nor the reader changes.
  pub next_member-fused :
      (a : TarArchive members)
      → is_over (next_member members a).1 ≡ true
      → next_member members (next_member members a).0 ≡ ((next_member members a).0, ok none)
  next_member-fused a h = fused-next (next_member members a).0 (over-next a h)
