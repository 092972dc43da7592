-- ===== src/Archive/Examples.antt =====
-- Concrete paths, trees and links.
use mathlib.Core.List.{reverse}
use tar_codec.Base.{
  contains, ◌≢◌, ℕ, suc, ◌≤◌, true, false, none, some, List, [], ◌∷◌, Bytes, eq_bytes,
  if◌then◌else◌, ok, ok_or, ◌>>=◌, ◌≡◌, refl, arith,
}
use mathlib.Core.Option.{map}
use tar_codec.Text.{codes, is_empty, starts_with, split, rsplit_once}
use tar_codec.Archive.{Member, metadata, ExtractError}
use tar_codec.Archive.Names.{accepts}
use tar_codec.Archive.Path.{
  components, parent_components, parent, push, pop, extend, file_name, path_starts_with,
}
use tar_codec.Archive.Path.Stack.{Stack, render, path-Refines}
use tar_codec.Archive.Path.Prefixes.{starts_with-render}
use tar_codec.Archive.Decode.{
  Part, part_of, Component, default_extract_policy, ExtractMember, validate_extraction_path,
  resolve_link_target, validate_symlink_target, decode_member,
}
use tar_codec.Archive.Decode.Walk.{walk}
use tar_codec.Archive.Decode.Parts.{IsName}
use tar_codec.Archive.Decode.Contained.{IsDecoded, decode_member-Contained}
use tar_codec.Archive.Decode.Targets.{
  resolved_target_of, resolve_link_target-walk, validate_symlink_target_iff,
}
use tar_codec.Archive.Tree.{
  ComponentNode, root_node, new_tree, set_node_state, clear_state, ensure_child,
  has_active_children, state_of,
}
use tar_codec.Archive.Tree.Counts.{IsCounted}
use tar_codec.Archive.Tree.Invariant.{set_node_state-IsCounted}
use tar_codec.Archive.Tree.Growth.{new_tree-IsCounted, ensure_child-IsCounted, operations-IsCounted}
use tar_codec.Archive.Tree.Children.{clear_state-deactivates, has_active_children_iff}
use tar_codec.Archive.Links.{
  EntryTree, ExtractedEntry, PendingSymlink, ResolvedTarget, new_entries, find_from,
  resolve_terminal, max_symlink_resolution_work_bytes,
}
use tar_codec.Archive.Links.Work.{resolve_terminal-Bounded}
use tar_codec.Archive.Links.Targets.{IsUnowned, resolve_terminal-unowned}

-- The components of a path on Unix, which has no prefixes.
abbrev parts_of : List Bytes → List Component
parts_of [] = []
parts_of (part ∷ parts) =
    let rest = parts_of parts in
    elim (part_of part) [
      | Part.here ↦ rest
      | Part.up ↦ Component.parent_dir ∷ rest
      | Part.name c ↦ Component.normal c ∷ rest
    ]

abbrev unix_components : Bytes → List Component
unix_components path =
    if starts_with b'/' path
    then Component.root_dir ∷ parts_of (split b'/' path)
    else parts_of (split b'/' path)

abbrev link_path : Stack
link_path = codes "l" ∷ codes "d" ∷ []

path-Refines_example :
    (components (render link_path) ≡ reverse link_path)
    × (parent_components (render link_path) ≡ reverse (codes "d" ∷ []))
    × (parent (render link_path) ≡ render (codes "d" ∷ []))
    × (pop (render link_path) ≡ (render (codes "d" ∷ []), true))
    × (file_name (render link_path) ≡ some (codes "l"))
path-Refines_example = path-Refines (codes "l") (codes "d" ∷ []) ((refl, refl), ((refl, refl), tt))

starts_with-render_example : path_starts_with (render link_path) (render (codes "d" ∷ [])) ≡ true
starts_with-render_example =
    (starts_with-render link_path (codes "d" ∷ []) ((refl, refl), ((refl, refl), tt))
        ((refl, refl), tt)).1
      (codes "l" ∷ [], refl)

resolve_link_target-walk_example :
    resolve_link_target unix_components {E = ℕ} 0 "hard-link target"
      (codes "../x")
      (render (codes "d" ∷ []))
    ≡ (validate_extraction_path unix_components 0 "hard-link target" (codes "../x") >>= λ _.
        ok_or (map render (walk (split b'/' (codes "../x")) (codes "d" ∷ []))) (
          ExtractError.unsafe_path 0 "hard-link target"
            (codes "../x")
            "escapes the destination root"))
resolve_link_target-walk_example =
    resolve_link_target-walk unix_components 0 "hard-link target" (codes "../x") (codes "d" ∷ [])
      ((refl, refl), tt)

validate_symlink_target_iff_example :
    validate_symlink_target unix_components {E = ℕ} 0 (render link_path) (codes "../x/")
    ≡ ok (resolved_target_of (codes "d" ∷ []) (codes "../x/"))
unfolding validate_extraction_path part_of split
validate_symlink_target_iff_example =
    (validate_symlink_target_iff unix_components 0 (codes "../x/") (codes "l") (codes "d" ∷ [])
        (resolved_target_of (codes "d" ∷ []) (codes "../x/")) ((refl, refl), ((refl, refl), tt))).1
      (refl, refl, omega arith, refl)

abbrev member_file : Member
member_file = Member.file (record { path = codes "./a/b"; position = 0 }) 3 false

abbrev decoded_file : ExtractMember
decoded_file = record { position = 0; path = codes "a/b"; link_target = [] }

file_decoded :
    decode_member unix_components {E = ℕ} member_file default_extract_policy ≡ ok decoded_file
unfolding decode_member validate_extraction_path part_of split accepts metadata rsplit_once push
file_decoded = refl

decode_member-Contained_example : IsDecoded member_file default_extract_policy decoded_file
decode_member-Contained_example =
    decode_member-Contained unix_components member_file default_extract_policy decoded_file
      file_decoded

-- Below the root, a directory `x` and a link `l` to it.
abbrev with_x : EntryTree
with_x =
    set_node_state 1 ExtractedEntry.ambient_directory
      (ensure_child eq_bytes 0 (codes "x") new_entries).0

abbrev with_link : EntryTree
with_link =
    set_node_state 2 (ExtractedEntry.symlink 0) (ensure_child eq_bytes 0 (codes "l") with_x).0

abbrev link : PendingSymlink
link = record {
  entry = 2;
  parent = root_node;
  path = codes "l";
  position = 0;
  target = codes "x";
  resolved_target = codes "x";
  requires_directory = false;
}

operations-IsCounted_example :
    IsCounted (set_node_state 0 ExtractedEntry.file new_entries)
    × IsCounted (clear_state 0 new_entries)
    × IsCounted (ensure_child eq_bytes 0 (codes "x") new_entries).0
unfolding new_tree
operations-IsCounted_example =
    operations-IsCounted eq_bytes 0 ExtractedEntry.file (codes "x") new_entries
      (new_tree-IsCounted (some ExtractedEntry.ambient_directory)) (omega arith)

with_x-IsCounted : IsCounted with_x
unfolding new_tree
with_x-IsCounted =
    set_node_state-IsCounted 1 ExtractedEntry.ambient_directory
      (ensure_child eq_bytes 0 (codes "x") new_entries).0
      (ensure_child-IsCounted eq_bytes 0 (codes "x") new_entries
        (new_tree-IsCounted (some ExtractedEntry.ambient_directory)) (omega arith))

abbrev root_entry : ComponentNode Bytes ExtractedEntry
root_entry = record {
  parent = none;
  state = some ExtractedEntry.ambient_directory;
  children = (codes "x", 1) ∷ [];
  active_children = 1;
}

abbrev x_entry : ComponentNode Bytes ExtractedEntry
x_entry = record {
  parent = some 0;
  state = some ExtractedEntry.ambient_directory;
  children = [];
  active_children = 0;
}

clear_state-deactivates_example : suc 0 ≡ root_entry.active_children
unfolding new_tree set_node_state ensure_child clear_state
clear_state-deactivates_example =
    clear_state-deactivates 0 1 ExtractedEntry.ambient_directory with_x root_entry x_entry
      (record root_entry { active_children = 0 }) with_x-IsCounted refl refl refl refl refl

has_active_children_iff_example : has_active_children with_x 0 ≡ true
unfolding new_tree set_node_state ensure_child
has_active_children_iff_example =
    (has_active_children_iff 0 with_x root_entry with_x-IsCounted refl).1 (1, x_entry, refl, refl)

resolve_terminal-Bounded_example :
    (0 ≤ (resolve_terminal with_link (link ∷ []) (codes "l/y") 0).0)
    × ((resolve_terminal with_link (link ∷ []) (codes "l/y") 0).0
        ≤ max_symlink_resolution_work_bytes)
resolve_terminal-Bounded_example =
    resolve_terminal-Bounded with_link (link ∷ []) (codes "l/y") 0 (omega arith)

named :
    (c : Bytes)
    → is_empty c ≡ false
    → contains b'/' c ≡ false
    → (c ≢ codes ".")
    → (c ≢ codes "..")
    → IsName c
named c some_bytes plain not_dot not_dots = ((some_bytes, plain), not_dot, not_dots)

through_link :
    (resolve_terminal with_link (link ∷ []) (codes "l/y") 0).1
    ≡ ok (ResolvedTarget.unowned (codes "x/y"))
unfolding resolve_terminal new_tree set_node_state ensure_child components state_of find_from
    eq_bytes extend
through_link = refl

resolve_terminal-unowned_example : IsUnowned with_link (link ∷ []) (codes "x/y")
unfolding push
resolve_terminal-unowned_example =
    resolve_terminal-unowned with_link (link ∷ []) (codes "l/y") (codes "x/y") 0
      ((codes "x" ∷ [], (named (codes "x") refl refl (λ e. cc) (λ e. cc), tt), refl), tt)
      (
        codes "y" ∷ codes "l" ∷ [],
        (
          named (codes "y") refl refl (λ e. cc) (λ e. cc),
          (named (codes "l") refl refl (λ e. cc) (λ e. cc), tt),
        ),
        refl,
      )
      through_link
