-- ===== src/Codec/Project.antt =====
-- crates/tar-codec/src/decode.rs: `TarArchive`, over a reader of member frames, and its members.
pub mod Members
use Prim.Native.Nat.{bit_and}
use tar_codec.Base.{
  ℕ, Bool, true, false, not, ◌||◌, Option, none, some, List, [], ◌∷◌, Bytes, ◌==◌, if◌then◌else◌,
  Result, ok, err, map_err, ◌>>=◌, fail_if,
}
use tar_codec.Text.{String, is_utf8}
use tar_codec.Stream.{UstarKind, Framed, StreamPolicy}
use tar_codec.Logical.{MemberFrame, effective_path, effective_link_path}
use tar_codec.Archive.{MemberMetadata, SpecialKind, Member}
use tar_codec.Codec.{DecodePolicy, DecodeError, Decoded}
use tar_codec.Codec.Policy.{check_member}

-- The policy that `with_policy` gives to the stream.
unfoldable pub stream_policy_of : DecodePolicy → StreamPolicy
stream_policy_of policy = record {
  max_pax_extension_size = policy.pax_policy.max_extension_size;
  max_global_pax_extensions_size = policy.pax_policy.max_global_extensions_size;
  allow_all_nul_numeric_fields = policy.allow_all_nul_numeric_fields;
  max_gnu_extension_size = policy.max_gnu_extension_size;
}

-- `mode.unwrap_or_default() & 0o111 != 0`
unfoldable pub is_executable : Option ℕ → Bool
is_executable none = false
is_executable (some mode) = not (bit_and mode 0x49 == 0)

unfoldable pub utf8_text : ℕ → String → Bytes → Decoded Bytes
utf8_text position name bytes =
    if is_utf8 bytes then ok bytes else err (DecodeError.invalid_utf8 position name)

abbrev pub is_link_kind : UstarKind → Bool
is_link_kind UstarKind.hard_link = true
is_link_kind UstarKind.symbolic_link = true
is_link_kind _ = false

unfoldable pub link_target : MemberFrame → Decoded Bytes
unfolding utf8_text
link_target frame =
    if is_link_kind frame.header.kind
    then (map_err DecodeError.framing (effective_link_path frame) >>= λ target.
        utf8_text frame.header.position "linkpath" target)
    else ok []

-- The `match kind` at the end of `project_member`.
unfoldable pub member_of : UstarKind → MemberMetadata → Bytes → ℕ → Bool → Member
member_of UstarKind.regular m target size executable = Member.file m size executable
member_of UstarKind.contiguous m target size executable = Member.file m size executable
member_of UstarKind.directory m target size executable = Member.directory m
member_of UstarKind.symbolic_link m target size executable = Member.symbolic_link m target
member_of UstarKind.hard_link m target size executable = Member.hard_link m target size
member_of UstarKind.character_device m target size executable =
    Member.special m SpecialKind.character_device
member_of UstarKind.block_device m target size executable =
    Member.special m SpecialKind.block_device
member_of UstarKind.fifo m target size executable = Member.special m SpecialKind.fifo

unfoldable pub project_member : MemberFrame → Decoded Member
unfolding utf8_text link_target member_of is_executable
project_member frame = do
  let h = frame.header
  path ← map_err DecodeError.framing (effective_path frame)
  text ← utf8_text h.position "path" path
  target ← link_target frame
  ok (
      member_of h.kind (record { path = text; position = h.position }) target h.effective_size
        (is_executable h.mode))

-- `TarReader`, by its `next_frame`.
pub record MemberReader : Type 1 where
  pub Reader : Type 0
  pub next_frame : Reader → Reader × Framed (Option MemberFrame)

module _ (members : MemberReader) where
  open members use {Reader, next_frame}

  pub record TarArchive : Type 0 where
    pub reader : Reader
    pub policy : DecodePolicy
    pub fused : Bool

  -- A frame that the reader returned.
  unfoldable pub accept_frame : TarArchive → MemberFrame → TarArchive × Decoded (Option Member)
  unfolding check_member project_member
  accept_frame a frame = elim (check_member a.policy frame) [
    | err e ↦ (record a { fused = true }, err e)
    | ok u ↦ elim (project_member frame) [
      | ok member ↦ (a, ok (some member))
      | err e ↦ (record a { fused = true }, err e)
    ]
  ]

  unfoldable pub next_in :
      TarArchive → Framed (Option MemberFrame) → TarArchive × Decoded (Option Member)
  unfolding accept_frame
  next_in a (ok (some frame)) = accept_frame a frame
  next_in a (ok none) = (record a { fused = true }, ok none)
  next_in a (err e) = (record a { fused = true }, err (DecodeError.framing e))

  unfoldable pub next_member : TarArchive → TarArchive × Decoded (Option Member)
  unfolding next_in
  next_member a =
      if a.fused
      then (a, ok none)
      else next_in (record a { reader = (next_frame a.reader).0 }) (next_frame a.reader).1
