-- ===== src/Archive/Decode.antt =====
-- crates/archive-trait/src/extract.rs: policies and their checks; crates/archive-trait/src/extract/path.rs:
-- members and link targets decoded. `std::path::Path::components` is a parameter.
pub mod Walk
pub mod Parts
pub mod Symlinks
pub mod Contained
pub mod Within
pub mod Targets
use tar_codec.Base.{
  ℕ, Bool, true, false, not, ◌&&◌, ◌||◌, Option, none, some, List, [], ◌∷◌, Bytes, contains,
  eq_bytes, if◌then◌else◌, Result, ok, err, ◌>>=◌, ◌>>◌, fail_if,
}
use tar_codec.Text.{String, codes, is_empty, starts_with, ends_with, split, rsplit_once}
use tar_codec.Archive.{MemberMetadata, Member, metadata, ExtractPolicyViolation, ExtractError}
use tar_codec.Archive.Names.{NameValidator, NameValidation, from_validator, accepts}
use tar_codec.Archive.Path.{NormalizedPath, components, parent, push, pop, last_part}

pub data SymlinkPolicy : Type 0 where
  preserve : SymlinkPolicy
  skip : SymlinkPolicy
  reject : SymlinkPolicy

pub record LinkPolicy : Type 0 where
  pub symlink_policy : SymlinkPolicy
  pub allow_hard_links : Bool
  pub allow_ambient_targets : Bool
  pub allow_missing_targets : Bool

pub record ExtractPolicy : Type 0 where
  pub link_policy : LinkPolicy
  pub allow_overwrites : Bool
  pub name_validation : NameValidation

abbrev pub default_link_policy : LinkPolicy
default_link_policy = record {
  symlink_policy = SymlinkPolicy.preserve;
  allow_hard_links = false;
  allow_ambient_targets = false;
  allow_missing_targets = true;
}

abbrev pub default_extract_policy : ExtractPolicy
default_extract_policy = record {
  link_policy = default_link_policy;
  allow_overwrites = true;
  name_validation = NameValidation.default;
}

-- `ExtractPolicy::name_validator`
abbrev pub name_validator : Option NameValidator → ExtractPolicy → ExtractPolicy
name_validator validator policy = record policy { name_validation = from_validator validator }

unfoldable pub check_name :
    {E : Type 0} → ExtractPolicy → ℕ → String → Bytes → Result (Unit {0}) (ExtractError E)
check_name policy position context value =
    fail_if (not (accepts policy.name_validation value))
      (ExtractError.policy_violation position (ExtractPolicyViolation.name_rejected context value))

-- `check_member_policy`, where the platform has symbolic links.
unfoldable pub check_member_policy :
    {E : Type 0} → Member → ExtractPolicy → Result (Unit {0}) (ExtractError E)
check_member_policy (Member.symbolic_link m target) policy =
    elim policy.link_policy.symlink_policy [
      | SymlinkPolicy.reject ↦
          err (ExtractError.policy_violation m.position ExtractPolicyViolation.symbolic_link)
      | SymlinkPolicy.preserve ↦ ok tt
      | SymlinkPolicy.skip ↦ ok tt
    ]
check_member_policy (Member.hard_link m target size) policy =
    fail_if (not policy.link_policy.allow_hard_links)
      (ExtractError.policy_violation m.position ExtractPolicyViolation.hard_link)
check_member_policy member policy = ok tt

pub record ExtractMember : Type 0 where
  pub position : ℕ
  pub path : NormalizedPath
  pub link_target : Bytes

pub record ValidatedSymlinkTarget : Type 0 where
  pub resolved_target : NormalizedPath
  pub requires_directory : Bool

-- How the loops over the parts of a text take a part: `"" | "."`, `".."`, or a name.
pub data Part : Type 0 where
  here : Part
  up : Part
  name : Bytes → Part

unfoldable pub part_of : Bytes → Part
unfolding eq_bytes
part_of component =
    if is_empty component || eq_bytes component (codes ".")
    then Part.here
    else if eq_bytes component (codes "..")
    then Part.up
    else Part.name component

-- The loop of `normalize_member_path`.
unfoldable pub normalize_parts :
    {E : Type 0} → ℕ → Bytes → List Bytes → NormalizedPath → Result NormalizedPath (ExtractError E)
unfolding part_of
normalize_parts position value [] path = ok path
normalize_parts position value (component ∷ rest) path = elim (part_of component) [
  | Part.here ↦ normalize_parts position value rest path
  | Part.up ↦ err (
      ExtractError.unsafe_path position "member path" value "contains a parent-directory component")
  | Part.name c ↦ normalize_parts position value rest (push path c)
]

-- The loop of `resolve_link_target`.
unfoldable pub resolve_parts :
    {E : Type 0}
    → ℕ
    → String
    → Bytes
    → List Bytes
    → NormalizedPath
    → Result NormalizedPath (ExtractError E)
unfolding part_of
resolve_parts position context value [] path = ok path
resolve_parts position context value (component ∷ rest) path = elim (part_of component) [
  | Part.here ↦ resolve_parts position context value rest path
  | Part.up ↦
      let (popped, more) = pop path in
      elim more [
        | true ↦ resolve_parts position context value rest popped
        | false ↦
            err (ExtractError.unsafe_path position context value "escapes the destination root")
      ]
  | Part.name c ↦ resolve_parts position context value rest (push path c)
]

-- The loop of `validate_symlink_target`; `seen` is `normal_component_seen`.
unfoldable pub symlink_parts :
    {E : Type 0}
    → ℕ
    → Bytes
    → List Bytes
    → Bool
    → NormalizedPath
    → Result NormalizedPath (ExtractError E)
unfolding part_of
symlink_parts position value [] seen resolved = ok resolved
symlink_parts position value (component ∷ rest) seen resolved = elim (part_of component) [
  | Part.here ↦ symlink_parts position value rest seen resolved
  | Part.up ↦ elim seen [
    | true ↦ err (
        ExtractError.unsafe_path position "symbolic-link target" value
          "contains ambiguous parent-directory traversal")
    | false ↦
        let (popped, more) = pop resolved in
        elim more [
          | true ↦ symlink_parts position value rest false popped
          | false ↦ err (
              ExtractError.unsafe_path position "symbolic-link target" value
                "escapes the destination root")
        ]
  ]
  | Part.name c ↦ symlink_parts position value rest true (push resolved c)
]

-- `std::path::Component`
pub data Component : Type 0 where
  path_prefix : Component
  root_dir : Component
  cur_dir : Component
  parent_dir : Component
  normal : Bytes → Component

abbrev pub is_dot_or_dots : Bytes → Bool
is_dot_or_dots component = eq_bytes component (codes ".") || eq_bytes component (codes "..")

abbrev pub is_directory : Member → Bool
is_directory (Member.directory m) = true
is_directory _ = false

abbrev pub is_link : Member → Bool
is_link (Member.symbolic_link m target) = true
is_link (Member.hard_link m target size) = true
is_link _ = false

-- A path that only a directory may have.
abbrev pub directory_suffix : Bytes → Bool
directory_suffix path = ends_with b'/' path || elim (rsplit_once b'/' path) [
  | none ↦ false
  | some (l, component) ↦ is_dot_or_dots component
]

-- The `match member` that takes the target out.
unfoldable pub link_target_of :
    {E : Type 0} → Member → ExtractPolicy → Result Bytes (ExtractError E)
unfolding check_name
link_target_of (Member.symbolic_link m target) policy = do
  _ ← check_name policy m.position "symbolic-link target" target
  ok target
link_target_of (Member.hard_link m target size) policy = do
  _ ← check_name policy m.position "hard-link target" target
  ok target
link_target_of member policy = ok []

module _ (path_components : Bytes → List Component) where
  check_components :
      {E : Type 0} → ℕ → String → Bytes → List Component → Result (Unit {0}) (ExtractError E)
  check_components position context value [] = ok tt
  check_components position context value (Component.path_prefix ∷ rest) =
      err (ExtractError.unsafe_path position context value "contains a platform path prefix")
  check_components position context value (Component.root_dir ∷ rest) =
      err (ExtractError.unsafe_path position context value "is absolute")
  check_components position context value (c ∷ rest) = check_components position context value rest

  pub starts_anew : List Component → Bool
  starts_anew (Component.path_prefix ∷ rest) = true
  starts_anew (Component.root_dir ∷ rest) = true
  starts_anew _ = false

  check_parts : {E : Type 0} → ℕ → String → Bytes → List Bytes → Result (Unit {0}) (ExtractError E)
  unfolding starts_anew
  check_parts position context value [] = ok tt
  check_parts position context value (component ∷ rest) = do
    _ ←
        fail_if (starts_anew (path_components component))
          (ExtractError.unsafe_path position context value "contains a platform path prefix")
    check_parts position context value rest

  unfoldable pub validate_extraction_path :
      {E : Type 0} → ℕ → String → Bytes → Result (Unit {0}) (ExtractError E)
  unfolding check_components check_parts
  validate_extraction_path position context value = do
    _ ←
        fail_if (contains b'\\' value)
          (ExtractError.unsafe_path position context value "contains a backslash separator")
    _ ←
        fail_if (starts_with b'/' value)
          (ExtractError.unsafe_path position context value "is absolute")
    _ ← check_components position context value (path_components value)
    check_parts position context value (split b'/' value)

  unfoldable pub normalize_member_path :
      {E : Type 0} → ℕ → Bytes → Result NormalizedPath (ExtractError E)
  unfolding validate_extraction_path normalize_parts
  normalize_member_path position value = do
    _ ← validate_extraction_path position "member path" value
    normalize_parts position value (split b'/' value) []

  unfoldable pub resolve_link_target :
      {E : Type 0} → ℕ → String → Bytes → NormalizedPath → Result NormalizedPath (ExtractError E)
  unfolding validate_extraction_path resolve_parts
  resolve_link_target position context value base = do
    _ ← validate_extraction_path position context value
    resolve_parts position context value (split b'/' value) base

  unfoldable pub validate_symlink_target :
      {E : Type 0} → ℕ → NormalizedPath → Bytes → Result ValidatedSymlinkTarget (ExtractError E)
  unfolding validate_extraction_path symlink_parts
  validate_symlink_target position path value = do
    _ ← validate_extraction_path position "symbolic-link target" value
    resolved ← symlink_parts position value (split b'/' value) false (parent path)
    ok (record {
      resolved_target = resolved;
      requires_directory = ends_with b'/' value || is_dot_or_dots (last_part b'/' value);
    })

  unfoldable pub decode_member :
      {E : Type 0} → Member → ExtractPolicy → Result ExtractMember (ExtractError E)
  unfolding check_name normalize_member_path link_target_of
  decode_member member policy = do
    let m = metadata member
    _ ← check_name policy m.position "member path" m.path
    _ ← fail_if (not (is_directory member) && directory_suffix m.path) (
        ExtractError.unsafe_path m.position "member path" m.path
          "only a directory may have a directory-required path suffix")
    path ← normalize_member_path m.position m.path
    _ ← fail_if (is_empty path && not (is_directory member)) (
        ExtractError.unsafe_path m.position "member path" m.path
          "only a directory may resolve to the extraction root")
    link_target ← link_target_of member policy
    _ ←
        fail_if (is_empty link_target && is_link member) (
          ExtractError.invalid_link m.position (components path) link_target "link target is empty")
    ok (record { position = m.position; path = path; link_target = link_target })
