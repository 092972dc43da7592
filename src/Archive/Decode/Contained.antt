-- ===== src/Archive/Decode/Contained.antt =====
-- crates/archive-trait/src/extract/path.rs: what a decoded member path is.
use mathlib.Core.List.{reverse_aux, reverse}
use tar_codec.Base.{
  ℕ, Bool, true, false, not, ◌&&◌, List, [], ◌∷◌, Bytes, contains, Result, ok, err, fail_if, ◌>>=◌,
  >>=-eq-ok, ok_injective, ◌≡◌, ◌≢◌, ◌⊎◌, refl, sym, ◌∙◌, All, inl, inr, subst, arith,
}
use tar_codec.Text.{String, codes, is_empty, split, starts_with}
use tar_codec.Archive.{ExtractError, Member, metadata}
use tar_codec.Archive.Names.{accepts}
use tar_codec.Archive.Path.{NormalizedPath, components}
use tar_codec.Archive.Path.Split.{split-contains}
use tar_codec.Archive.Path.Stack.{Stack, render}
use tar_codec.Archive.Decode.{
  check_name, directory_suffix, link_target_of, is_directory, is_link, Component, ExtractPolicy,
  ExtractMember, normalize_parts, normalize_member_path, validate_extraction_path, decode_member,
}
use tar_codec.Archive.Decode.Walk.{Plain}
use tar_codec.Archive.Decode.Parts.{IsName, kept, part_of-TakenAs}
use tar_codec.Archive.Decode.Symlinks.{err-ne-ok}

-- No part goes up, and the parts kept are names.
abbrev pub Below : List Bytes → Type 0
Below parts = All (λ (part : Bytes). part ≢ codes "..") parts × All IsName (kept parts)

-- The loop of `normalize_member_path` takes the names, and refuses a part that goes up.
normalize_parts-eq-ok :
    {E : Type 0} (position : ℕ) (value : Bytes) (parts : List Bytes) (stack : Stack)
    (path : NormalizedPath)
    → All Plain parts
    → normalize_parts {E = E} position value parts (render stack) ≡ ok path
    → Below parts × (path ≡ render (reverse_aux (kept parts) stack))
unfolding normalize_parts
normalize_parts-eq-ok position value [] stack path plain e =
    ((tt, tt), sym (ok_injective (render stack) path e))
normalize_parts-eq-ok {E} position value (part ∷ parts) stack path plain e =
    elim (part_of-TakenAs part) [
      | inl (nothing, not_up, here) ↦
          let (below, whole) =
            normalize_parts-eq-ok position value parts stack path plain.1
              (sym (rw (here, normalize_parts) refl) ∙ e) in
          rw (nothing, kept) (((not_up, below.0), below.1), whole)
      | inr (inl (dots, up)) ↦ absurd (
          err-ne-ok
            (ExtractError.unsafe_path position "member path" value
              "contains a parent-directory component")
            path (sym (rw (up, normalize_parts) refl) ∙ e))
      | inr (inr (something, some_bytes, not_dot, not_up, is_name)) ↦
          let (below, whole) =
            normalize_parts-eq-ok position value parts (part ∷ stack) path plain.1
              (sym (rw (is_name, normalize_parts) refl) ∙ e) in
          rw (something, kept)
            (((not_up, below.0), (((some_bytes, plain.0), not_dot, not_up), below.1)), whole)
    ]

fail_if-eq-ok : {F : Type 0} (test : Bool) (e : F) → fail_if test e ≡ ok tt → test ≡ false
fail_if-eq-ok true e h = cc
fail_if-eq-ok false e h = refl

-- What a text is that `validate_extraction_path` lets pass: without a backslash, and relative.
validate_extraction_path-eq-ok :
    {E : Type 0} (path_components : Bytes → List Component) (position : ℕ) (context : String)
    (value : Bytes)
    → validate_extraction_path path_components {E = E} position context value ≡ ok tt
    → (contains b'\\' value ≡ false) × (starts_with b'/' value ≡ false)
unfolding validate_extraction_path
validate_extraction_path-eq-ok path_components position context value e = ground arith

-- What `normalize_member_path` takes, and what it makes of it.
normalize_member_path-eq-ok :
    {E : Type 0} (path_components : Bytes → List Component) (position : ℕ) (value : Bytes)
    (path : NormalizedPath)
    → normalize_member_path path_components {E = E} position value ≡ ok path
    → (contains b'\\' value ≡ false)
      × (starts_with b'/' value ≡ false)
      × Below (split b'/' value)
      × (path ≡ render (reverse (kept (split b'/' value))))
unfolding normalize_member_path
normalize_member_path-eq-ok path_components position value path e =
    let (u, valid, rest) =
      >>=-eq-ok (validate_extraction_path path_components position "member path" value)
        (λ _. normalize_parts position value (split b'/' value) []) e in
    let (no_backslash, relative) =
      validate_extraction_path-eq-ok path_components position "member path" value valid in
    let (below, whole) =
      normalize_parts-eq-ok position value (split b'/' value) [] path (split-contains b'/' value)
        rest in
    (no_backslash, relative, below, whole)

check_name-eq-ok :
    {E : Type 0} (policy : ExtractPolicy) (position : ℕ) (context : String) (value : Bytes)
    → check_name {E = E} policy position context value ≡ ok tt
    → accepts policy.name_validation value ≡ true
unfolding check_name
check_name-eq-ok policy position context value e = ground arith

-- The target of a member, empty where it is no link.
abbrev pub target_of : Member → Bytes
target_of (Member.symbolic_link m target) = target
target_of (Member.hard_link m target size) = target
target_of _ = []

link_target_of-eq-ok :
    {E : Type 0} (member : Member) (policy : ExtractPolicy) (target : Bytes)
    → link_target_of {E = E} member policy ≡ ok target
    → (target ≡ target_of member)
      × ((is_link member ≡ false) ⊎ (accepts policy.name_validation target ≡ true))
unfolding link_target_of check_name
link_target_of-eq-ok (Member.symbolic_link m target) policy t e = ground arith
link_target_of-eq-ok (Member.hard_link m target size) policy t e = ground arith
link_target_of-eq-ok _ policy t e = ground arith

-- What a chain of checks with a path and a target has passed when it is through.
passed :
    {P T R F : Type 0} (a b : Result (Unit {0}) F) (p : Result P F) (c : P → Result (Unit {0}) F)
    (t : Result T F) (d : P → T → Result (Unit {0}) F) (r : P → T → R) (out : R)
    → (a >>= λ _. b >>= λ _.
        (p >>= λ path. c path >>= λ _. (t >>= λ target. d path target >>= λ _. ok (r path target))))
      ≡ ok out
    → (path : P) × (target : T) × (a ≡ ok tt)
      × (p ≡ ok path)
      × (c path ≡ ok tt)
      × (t ≡ ok target)
      × (d path target ≡ ok tt)
      × (r path target ≡ out)
passed (err f) b p c t d r out e = cc
passed (ok _) (err f) p c t d r out e = cc
passed (ok _) (ok _) (err f) c t d r out e = cc
passed (ok _) (ok _) (ok path) c t d r out e =
    let (u, rooted, rest) =
      >>=-eq-ok (c path) (λ _. t >>= λ target. d path target >>= λ _. ok (r path target)) e in
    let (target, found, end) =
      >>=-eq-ok t (λ target. d path target >>= λ _. ok (r path target)) rest in
    let (v, linked, last) = >>=-eq-ok (d path target) (λ _. ok (r path target)) end in
    (path, target, refl, refl, rooted, found, linked, ok_injective (r path target) out last)

-- A member that may be extracted under a policy, and what is extracted for it.
pub record IsDecoded (member : Member) (policy : ExtractPolicy) (decoded : ExtractMember)
    : Type 0 where
  pub same_position : decoded.position ≡ (metadata member).position
  pub path_accepted : accepts policy.name_validation (metadata member).path ≡ true
  pub no_backslash : contains b'\\' (metadata member).path ≡ false
  pub relative : starts_with b'/' (metadata member).path ≡ false
  pub below : Below (split b'/' (metadata member).path)
  pub path_kept : decoded.path ≡ render (reverse (kept (split b'/' (metadata member).path)))
  pub root_is_directory : (is_empty decoded.path && not (is_directory member)) ≡ false
  pub same_target : decoded.link_target ≡ target_of member
  pub target_given : (is_empty decoded.link_target && is_link member) ≡ false
  pub target_accepted :
      (is_link member ≡ false) ⊎ (accepts policy.name_validation decoded.link_target ≡ true)

-- A member that `decode_member` accepts has a relative path that the policy accepts, without a
-- backslash and without a part `..`; the path that is extracted is the parts that are neither empty
-- nor `.`, in their order, each of them a name. Only a directory is the root itself. A link has its
-- own target, which is not empty and which the policy accepts; other members have none.
pub decode_member-Contained :
    {E : Type 0} (path_components : Bytes → List Component) (member : Member)
    (policy : ExtractPolicy) (decoded : ExtractMember)
    → decode_member path_components {E = E} member policy ≡ ok decoded
    → IsDecoded member policy decoded
unfolding decode_member
decode_member-Contained {E} path_components member policy decoded e =
    let m = metadata member in
    let rooted = λ (path : NormalizedPath). is_empty path && not (is_directory member) in
    let linked = λ (target : Bytes). is_empty target && is_link member in
    let outside : ExtractError E =
      ExtractError.unsafe_path m.position "member path" m.path
        "only a directory may resolve to the extraction root" in
    let too_long : ExtractError E =
      ExtractError.unsafe_path m.position "member path" m.path
        "only a directory may have a directory-required path suffix" in
    let untargeted : NormalizedPath → Bytes → ExtractError E = λ path target.
      ExtractError.invalid_link m.position (components path) target "link target is empty" in
    let (path, target, named, found, at_root, given, has_target, whole) =
      passed (check_name policy m.position "member path" m.path)
        (fail_if (not (is_directory member) && directory_suffix m.path) too_long)
        (normalize_member_path path_components m.position m.path)
        (λ path. fail_if (rooted path) outside) (link_target_of member policy)
        (λ path target. fail_if (linked target) (untargeted path target))
        (λ path target. record { position = m.position; path = path; link_target = target }) decoded
        e in
    let (no_backslash, relative, below, kept_path) =
      normalize_member_path-eq-ok path_components m.position m.path path found in
    let (same, accepted) = link_target_of-eq-ok member policy target given in
    subst (IsDecoded member policy) whole record {
      same_position = refl;
      path_accepted = check_name-eq-ok policy m.position "member path" m.path named;
      no_backslash = no_backslash;
      relative = relative;
      below = below;
      path_kept = kept_path;
      root_is_directory = fail_if-eq-ok (rooted path) outside at_root;
      same_target = same;
      target_given = fail_if-eq-ok (linked target) (untargeted path target) has_target;
      target_accepted = accepted;
    }
