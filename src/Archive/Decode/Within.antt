-- ===== src/Archive/Decode/Within.antt =====
-- What crates/archive-trait/src/extract/path.rs decodes stays below the root: member paths, and the
-- targets of symbolic links, which the extraction resolves later.
use tar_codec.Base.{
  ◌||◌, ℕ, Bool, true, false, List, [], ◌∷◌, Bytes, Result, ok, ◌>>=◌, >>=-eq-ok, ok_injective, ◌≡◌,
  refl, sym, ap, subst, ◌∙◌, All, inl, inr,
}
use tar_codec.Text.{split, ends_with, rsplit_once}
use tar_codec.Archive.{ExtractError, Member}
use tar_codec.Archive.Path.{NormalizedPath, parent, last_part}
use tar_codec.Archive.Path.Split.{split-contains}
use tar_codec.Archive.Path.Stack.{Stack, render, parent-push, pop-push}
use tar_codec.Archive.Decode.{
  Part, part_of, Component, ExtractPolicy, ExtractMember, ValidatedSymlinkTarget, is_dot_or_dots,
  symlink_parts, validate_extraction_path, validate_symlink_target,
}
use tar_codec.Archive.Decode.Walk.{Plain, pop-empty}
use tar_codec.Archive.Decode.Parts.{IsName, IsWithin, part_of-TakenAs, All-reverse_aux}
use tar_codec.Archive.Decode.Contained.{IsDecoded}
use tar_codec.Archive.Decode.Symlinks.{err-ne-ok, ambiguous, escapes}

-- The path of a member that is extracted is below the root.
decoded_path-IsWithin :
    (member : Member) (policy : ExtractPolicy) (decoded : ExtractMember)
    → IsDecoded member policy decoded
    → IsWithin decoded.path
decoded_path-IsWithin member policy decoded d =
    (_, All-reverse_aux IsName _ [] d.below.1 tt, d.path_kept)

-- A part that goes up leaves a stack of names, where the loop goes on.
up_arm :
    {E : Type 0} (position : ℕ) (value part : Bytes) (parts : List Bytes) (seen : Bool)
    (stack : Stack) (path : NormalizedPath)
    → All IsName stack
    → part_of part ≡ Part.up
    → symlink_parts {E = E} position value (part ∷ parts) seen (render stack) ≡ ok path
    → (rest : Stack) × All IsName rest
      × (symlink_parts {E = E} position value parts false (render rest) ≡ ok path)
unfolding symlink_parts
up_arm position value part parts true stack path names up e =
    absurd (err-ne-ok (ambiguous position value) path (sym (rw (up, symlink_parts) refl) ∙ e))
up_arm position value part parts false [] path names up e =
    absurd
      (err-ne-ok (escapes position value) path (sym (rw (up, symlink_parts, pop-empty) refl) ∙ e))
up_arm {E} position value part parts false (c ∷ cs) path names up e = (
  cs,
  names.1,
  sym (
        rw (up, symlink_parts, pop-push (render cs) c names.0.0)
          (ap (λ (t : NormalizedPath × Bool). symlink_parts {E = E} position value parts false t.0)
            (pop-push (render cs) c names.0.0)))
      ∙ e,
)

-- The loop over a link's target takes names, and parents that it has.
symlink_parts-IsWithin :
    {E : Type 0} (position : ℕ) (value : Bytes) (parts : List Bytes) (seen : Bool) (stack : Stack)
    (path : NormalizedPath)
    → All Plain parts
    → All IsName stack
    → symlink_parts {E = E} position value parts seen (render stack) ≡ ok path
    → IsWithin path
unfolding symlink_parts
symlink_parts-IsWithin position value [] seen stack path plain names e =
    (stack, names, sym (ok_injective (render stack) path e))
symlink_parts-IsWithin {E} position value (part ∷ parts) seen stack path plain names e =
    elim (part_of-TakenAs part) [
      | inl (nothing, not_up, here) ↦
          symlink_parts-IsWithin position value parts seen stack path plain.1 names
            (sym (rw (here, symlink_parts) refl) ∙ e)
      | inr (inl (dots, up)) ↦
          let (rest, kept_names, e') =
            up_arm position value part parts seen stack path names up e in
          symlink_parts-IsWithin position value parts false rest path plain.1 kept_names e'
      | inr (inr (something, some_bytes, not_dot, not_up, is_name)) ↦
          symlink_parts-IsWithin position value parts true (part ∷ stack) path plain.1
            (((some_bytes, plain.0), not_dot, not_up), names)
            (sym (rw (is_name, symlink_parts) refl) ∙ e)
    ]

-- A link's path within the root has its parent there.
parent-IsWithin : (path : NormalizedPath) → IsWithin path → IsWithin (parent path)
unfolding parent rsplit_once
parent-IsWithin path ([], names, e) = ([], tt, ap parent e ∙ refl)
parent-IsWithin path (c ∷ cs, names, e) =
    (cs, names.1, ap parent e ∙ parent-push (render cs) c names.0.0)

-- The target that a symbolic link below the root is resolved to is below the root.
validate_symlink_target-IsWithin :
    {E : Type 0} (path_components : Bytes → List Component) (position : ℕ) (path : NormalizedPath)
    (value : Bytes) (target : ValidatedSymlinkTarget)
    → IsWithin path
    → validate_symlink_target path_components {E = E} position path value ≡ ok target
    → IsWithin target.resolved_target
unfolding validate_symlink_target
validate_symlink_target-IsWithin {E} path_components position path value target within e =
    let (cs, names, whole) = parent-IsWithin path within in
    let answer : NormalizedPath → Result ValidatedSymlinkTarget (ExtractError E) = λ resolved.
      ok (record {
        resolved_target = resolved;
        requires_directory = ends_with b'/' value || is_dot_or_dots (last_part b'/' value);
      }) in
    let loop = symlink_parts {E = E} position value (split b'/' value) false (parent path) in
    let (u, valid, rest) =
      >>=-eq-ok (validate_extraction_path path_components position "symbolic-link target" value)
        (λ _. loop >>= answer) e in
    let (resolved, found, last) = >>=-eq-ok loop answer rest in
    subst (λ (t : ValidatedSymlinkTarget). IsWithin t.resolved_target)
      (ok_injective
        (record {
          resolved_target = resolved;
          requires_directory = ends_with b'/' value || is_dot_or_dots (last_part b'/' value);
        })
        target last)
      (symlink_parts-IsWithin {E = E} position value (split b'/' value) false cs resolved
        (split-contains b'/' value) names
        (ap (symlink_parts {E = E} position value (split b'/' value) false) (sym whole) ∙ found))
