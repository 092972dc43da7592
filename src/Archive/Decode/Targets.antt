-- ===== src/Archive/Decode/Targets.antt =====
-- `resolve_link_target` and `validate_symlink_target` of crates/archive-trait/src/extract/path.rs.
use mathlib.Core.List.{reverse_aux}
use mathlib.Core.Option.{map}
use tar_codec.Base.{
  ℕ, drop, length, ◌≤◌, true, false, ◌||◌, List, ◌∷◌, Bytes, Result, ok, ok_or, ◌>>=◌, >>=-eq-ok,
  ok_injective, ◌≡◌, ◌↔◌, sym, ap, ◌∙◌, All,
}
use tar_codec.Text.{String, split, ends_with}
use tar_codec.Archive.{ExtractError}
use tar_codec.Archive.Path.{last_part, NormalizedPath}
use tar_codec.Archive.Path.Split.{split-contains}
use tar_codec.Archive.Path.Stack.{Stack, Proper, render, parent-push}
use tar_codec.Archive.Decode.{
  is_dot_or_dots, Component, ValidatedSymlinkTarget, symlink_parts, resolve_link_target,
  validate_symlink_target, validate_extraction_path,
}
use tar_codec.Archive.Decode.Walk.{walk, resolve_parts-walk, names, ups, straight}
use tar_codec.Archive.Decode.Symlinks.{symlink_parts-eq-ok, straight-symlink_parts}

-- `resolve_link_target` refuses a text that `validate_extraction_path` refuses, and one whose walk from
-- the base leaves the root; else it returns where the walk ends.
pub resolve_link_target-walk :
    {E : Type 0} (path_components : Bytes → List Component) (position : ℕ) (context : String)
    (value : Bytes) (base : Stack)
    → All Proper base
    → resolve_link_target path_components {E = E} position context value (render base) ≡ (
        validate_extraction_path path_components position context value >>= λ _.
        ok_or
          (map render (walk (split b'/' value) base))
          (ExtractError.unsafe_path position context value "escapes the destination root"))
unfolding resolve_link_target
resolve_link_target-walk {E} path_components position context value base proper =
    ap (λ r. validate_extraction_path path_components {E = E} position context value >>= λ _. r)
      (resolve_parts-walk {E = E} position context value (split b'/' value) base
        (split-contains b'/' value) proper)

-- What `validate_symlink_target` returns for a link in given directories.
abbrev pub resolved_target_of : Stack → Bytes → ValidatedSymlinkTarget
resolved_target_of directories value = record {
  resolved_target =
      render (reverse_aux (names (split b'/' value)) (drop (ups (split b'/' value)) directories));
  requires_directory = ends_with b'/' value || is_dot_or_dots (last_part b'/' value);
}

-- A symbolic link's target is accepted exactly when its text is, when it goes up first and down then,
-- and when it goes up no further than the root; it resolves to the names below the directory that is
-- so many levels up.
pub validate_symlink_target_iff :
    {E : Type 0} (path_components : Bytes → List Component) (position : ℕ) (value leaf : Bytes)
    (directories : Stack) (target : ValidatedSymlinkTarget)
    → All Proper (leaf ∷ directories)
    → (validate_symlink_target path_components {E = E} position (render (leaf ∷ directories)) value
        ≡ ok target)
      ↔ ((validate_extraction_path path_components {E = E} position "symbolic-link target" value
            ≡ ok tt)
          × (straight (split b'/' value) ≡ true)
          × (ups (split b'/' value) ≤ length directories)
          × (target ≡ resolved_target_of directories value))
unfolding validate_symlink_target
validate_symlink_target_iff {E} path_components position value leaf directories target proper =
    rw (parent-push (render directories) leaf proper.0) (forth, back)
  where
    check : Result (Unit {0}) (ExtractError E)
    check = validate_extraction_path path_components position "symbolic-link target" value

    answer : NormalizedPath → Result ValidatedSymlinkTarget (ExtractError E)
    answer resolved = ok (record {
      resolved_target = resolved;
      requires_directory = ends_with b'/' value || is_dot_or_dots (last_part b'/' value);
    })

    loop : Result NormalizedPath (ExtractError E)
    loop = symlink_parts position value (split b'/' value) false (render directories)

    forth :
        (check >>= λ _. (loop >>= answer)) ≡ ok target
        → (check ≡ ok tt)
          × (straight (split b'/' value) ≡ true)
          × (ups (split b'/' value) ≤ length directories)
          × (target ≡ resolved_target_of directories value)
    forth e =
        let (u, valid, rest) = >>=-eq-ok check (λ _. loop >>= answer) e in
        let (resolved, found, last) = >>=-eq-ok loop answer rest in
        let (ahead, deep, whole) =
          symlink_parts-eq-ok position value (split b'/' value) directories resolved proper.1
            found in
        (
          valid,
          ahead,
          deep,
          sym (
                ok_injective
                  (record {
                    resolved_target = resolved;
                    requires_directory =
                        ends_with b'/' value || is_dot_or_dots (last_part b'/' value);
                  })
                  target last)
              ∙ ap
                  (λ (r : NormalizedPath). record {
                    resolved_target = r;
                    requires_directory =
                        ends_with b'/' value || is_dot_or_dots (last_part b'/' value);
                  })
                  whole,
        )

    back :
        (check ≡ ok tt)
          × (straight (split b'/' value) ≡ true)
          × (ups (split b'/' value) ≤ length directories)
          × (target ≡ resolved_target_of directories value)
        → (check >>= λ _. (loop >>= answer)) ≡ ok target
    back (valid, ahead, deep, e) =
        rw
          (
            valid,
            straight-symlink_parts {E = E} position value (split b'/' value) directories proper.1
                ahead deep,
          )
          (ap ok (sym e))
