-- ===== src/Archive.antt =====
-- crates/archive-trait/src/lib.rs: members and errors of a format-neutral archive. A `PathBuf` in an
-- error is the list of its components; the error type of the format is a parameter.
mod Examples
pub mod Names
pub mod Path
pub mod Decode
pub mod Tree
pub mod Links
use tar_codec.Base.{ℕ, Bool, List, Bytes}
use tar_codec.Text.{String}

pub record MemberMetadata : Type 0 where
  pub path : Bytes
  pub position : ℕ

pub data SpecialKind : Type 0 where
  character_device : SpecialKind
  block_device : SpecialKind
  fifo : SpecialKind

-- `Member`, without the payload that it lends.
pub data Member : Type 0 where
  file : MemberMetadata → ℕ → Bool → Member
  directory : MemberMetadata → Member
  symbolic_link : MemberMetadata → Bytes → Member
  hard_link : MemberMetadata → Bytes → ℕ → Member
  special : MemberMetadata → SpecialKind → Member

unfoldable pub metadata : Member → MemberMetadata
metadata (Member.file m size executable) = m
metadata (Member.directory m) = m
metadata (Member.symbolic_link m target) = m
metadata (Member.hard_link m target size) = m
metadata (Member.special m kind) = m

pub data ExtractPolicyViolation : Type 0 where
  name_rejected : String → Bytes → ExtractPolicyViolation
  symbolic_link : ExtractPolicyViolation
  native_symlink_creation_unsupported : ExtractPolicyViolation
  hard_link : ExtractPolicyViolation

abbrev pub PathBuf : Type 0
PathBuf = List Bytes

-- `ExtractError`; an `io::Error` is a code.
pub data ExtractError (E : Type 0) : Type 0 where
  archive : E → ExtractError E
  filesystem : String → PathBuf → ℕ → ExtractError E
  blocking_task : ExtractError E
  unsafe_path : ℕ → String → Bytes → String → ExtractError E
  path_collision : PathBuf → ExtractError E
  unsupported_member : ℕ → PathBuf → SpecialKind → ExtractError E
  invalid_link : ℕ → PathBuf → Bytes → String → ExtractError E
  policy_violation : ℕ → ExtractPolicyViolation → ExtractError E
