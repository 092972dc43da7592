-- ===== src/Archive/Links.antt =====
-- crates/archive-trait/src/extract/root.rs: the entries of one extraction, and the resolution of a
-- symbolic link's target through the links of the archive. The loop of `resolve_terminal` is bounded.
pub mod Work
pub mod Walks
pub mod Targets
use tar_codec.Base.{
  ℕ, zero, suc, ◌+◌, ◌*◌, Bool, true, false, ◌||◌, Option, none, some, List, [], ◌∷◌, Bytes, length,
  get_elem?, eq_bytes, leb, if◌then◌else◌, checked_add, checked_mul, and_then, Result, ok, err,
}
use tar_codec.Text.{String, is_empty}
use tar_codec.Archive.Path.{NormalizedPath, components, parent_components, extend}
use tar_codec.Archive.Tree.{NodeId, ComponentTree, root_node, new_tree, state_of, child}

pub data ExtractedEntry : Type 0 where
  file : ExtractedEntry
  created_directory : ExtractedEntry
  ambient_directory : ExtractedEntry
  symlink : ℕ → ExtractedEntry

unfoldable pub is_directory_entry : ExtractedEntry → Bool
is_directory_entry ExtractedEntry.created_directory = true
is_directory_entry ExtractedEntry.ambient_directory = true
is_directory_entry _ = false

pub record PendingSymlink : Type 0 where
  pub entry : NodeId
  pub parent : NodeId
  pub path : NormalizedPath
  pub position : ℕ
  pub target : Bytes
  pub resolved_target : NormalizedPath
  pub requires_directory : Bool

abbrev pub EntryTree : Type 0
EntryTree = ComponentTree Bytes ExtractedEntry

abbrev pub new_entries : EntryTree
new_entries = new_tree (some ExtractedEntry.ambient_directory)

abbrev pub entry_child : EntryTree → NodeId → Bytes → Option NodeId
entry_child entries parent component = child eq_bytes entries parent component

-- The loop of `find`.
unfoldable pub find_from : EntryTree → NodeId → List Bytes → Option NodeId
find_from entries entry [] = some entry
find_from entries entry (component ∷ rest) =
    and_then (entry_child entries entry component) (λ next. find_from entries next rest)

unfoldable pub find : EntryTree → NormalizedPath → Option NodeId
unfolding find_from
find entries path = find_from entries root_node (components path)

abbrev is_directory_state : Option ExtractedEntry → Bool
is_directory_state none = false
is_directory_state (some e) = is_directory_entry e

directory_from : EntryTree → NodeId → List Bytes → Option NodeId
directory_from entries entry [] = some entry
directory_from entries entry (component ∷ rest) =
    and_then (entry_child entries entry component) (λ next.
      let found = directory_from entries next rest in
      if is_directory_state (state_of entries next) then found else none)

unfoldable pub find_parent_directory : EntryTree → NormalizedPath → Option NodeId
unfolding directory_from
find_parent_directory entries path = directory_from entries root_node (parent_components path)

unfoldable pub state_for_path : EntryTree → NormalizedPath → Option ExtractedEntry
unfolding find
state_for_path entries path = and_then (find entries path) (λ entry. state_of entries entry)

pub data TerminalKind : Type 0 where
  directory : TerminalKind
  non_directory : TerminalKind
  dangling : TerminalKind

pub data ResolvedTarget : Type 0 where
  known : TerminalKind → ResolvedTarget
  unowned : NormalizedPath → ResolvedTarget

abbrev pub max_symlink_expansions : ℕ
max_symlink_expansions = 256

abbrev pub max_symlink_resolution_work_bytes : ℕ
max_symlink_resolution_work_bytes = 8388608

-- The loop over the components, on what it has added up.
unfoldable pub prefix_work : List Bytes → ℕ → ℕ → Option ℕ
prefix_work [] prefix_bytes work_bytes = some work_bytes
prefix_work (component ∷ rest) prefix_bytes work_bytes =
    and_then (checked_add prefix_bytes (length component)) (λ a.
      and_then (checked_add a 1)
        (λ b. and_then (checked_add work_bytes b) (λ w. prefix_work rest b w)))

abbrev pub within_limit : ℕ → Option ℕ
within_limit bytes = if leb bytes max_symlink_resolution_work_bytes then some bytes else none

-- `check_symlink_resolution_limit`: the work after it, or none where the limit is exceeded.
unfoldable pub check_limit : ℕ → NormalizedPath → Option ℕ
unfolding prefix_work
check_limit resolution_work_bytes path = and_then (checked_mul (length path) 2) (λ work.
    and_then (prefix_work (components path) 0 work)
      (λ w. and_then (checked_add resolution_work_bytes w) within_limit))

-- Where the loop over the components of a path stops.
pub data Walked : Type 0 where
  rewritten : NormalizedPath → Walked
  beyond_file : Walked
  finished : Option NodeId → Walked

unfoldable pub link_at : List PendingSymlink → Option ExtractedEntry → Option PendingSymlink
link_at symlinks (some (ExtractedEntry.symlink index)) = get_elem? symlinks index
link_at symlinks _ = none

abbrev pub is_file_state : Option ExtractedEntry → Bool
is_file_state (some ExtractedEntry.file) = true
is_file_state _ = false

unfoldable pub walk_entries : EntryTree → List PendingSymlink → Option NodeId → List Bytes → Walked
unfolding link_at
walk_entries entries symlinks entry [] = Walked.finished entry
walk_entries entries symlinks entry (component ∷ rest) =
    elim (and_then entry (λ parent. entry_child entries parent component)) [
      | none ↦ walk_entries entries symlinks none rest
      | some next ↦ elim (link_at symlinks (state_of entries next)) [
        | some link ↦ Walked.rewritten (extend link.resolved_target rest)
        | none ↦
            let further = walk_entries entries symlinks (some next) rest in
            if is_file_state (state_of entries next)
            then (elim rest [ [] ↦ further | c ∷ cs ↦ Walked.beyond_file ])
            else further
      ]
    ]

abbrev pub visited_in : NormalizedPath → List NormalizedPath → Bool
visited_in path [] = false
visited_in path (p ∷ visited) = eq_bytes p path || visited_in path visited

abbrev pub Resolution : Type 0
Resolution = ℕ × Result ResolvedTarget String

-- The `match` at the end of the loop's body; `again` is the `continue`.
unfoldable pub classify :
    EntryTree → NormalizedPath → ℕ → Resolution → Option ExtractedEntry → Resolution
classify entries path work again (some ExtractedEntry.created_directory) =
    (work, ok (ResolvedTarget.known TerminalKind.directory))
classify entries path work again (some ExtractedEntry.file) =
    (work, ok (ResolvedTarget.known TerminalKind.non_directory))
classify entries path work again (some (ExtractedEntry.symlink index)) = again
classify entries path work again (some ExtractedEntry.ambient_directory) =
    (work, ok (ResolvedTarget.unowned path))
classify entries path work again none = (work, ok (ResolvedTarget.unowned path))

-- The loop's body behind the walk; `again` is the next round, with the path for it.
unfoldable pub after_walk :
    EntryTree → NormalizedPath → ℕ → (NormalizedPath → Resolution) → Walked → Resolution
unfolding classify
after_walk entries path work again (Walked.rewritten target) = again target
after_walk entries path work again Walked.beyond_file =
    (work, ok (ResolvedTarget.known TerminalKind.dangling))
after_walk entries path work again (Walked.finished entry) =
    if is_empty path
    then (work, ok (ResolvedTarget.known TerminalKind.directory))
    else classify entries path work (again path) (and_then entry (λ e. state_of entries e))

unfoldable pub resolve_round :
    EntryTree
    → List PendingSymlink
    → NormalizedPath
    → ℕ
    → (NormalizedPath → Resolution)
    → Resolution
unfolding walk_entries after_walk
resolve_round entries symlinks path work again =
    after_walk entries path work again
      (walk_entries entries symlinks (some root_node) (components path))

unfoldable pub resolve_rounds :
    EntryTree → List PendingSymlink → ℕ → NormalizedPath → ℕ → List NormalizedPath → Resolution
unfolding check_limit resolve_round
resolve_rounds entries symlinks zero path work visited =
    (work, err "symbolic-link target expansion limit exceeded")
resolve_rounds entries symlinks (suc rounds) path work visited = elim (check_limit work path) [
  | none ↦ (work, err "symbolic-link target resolution work limit exceeded")
  | some work' ↦
      if visited_in path visited
      then (work', err "symbolic-link target cycle")
      else resolve_round entries symlinks path work'
          (λ next. resolve_rounds entries symlinks rounds next work' (path ∷ visited))
]

unfoldable pub resolve_terminal : EntryTree → List PendingSymlink → NormalizedPath → ℕ → Resolution
unfolding resolve_rounds
resolve_terminal entries symlinks path work =
    resolve_rounds entries symlinks (suc max_symlink_expansions) path work []
