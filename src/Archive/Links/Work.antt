-- ===== src/Archive/Links/Work.antt =====
-- The work that `resolve_terminal` of crates/archive-trait/src/extract/root.rs counts.
use tar_codec.Base.{
  ℕ, zero, suc, ◌≤◌, Option, some, List, [], ◌∷◌, length, checked_add, checked_mul, and_then,
  and_then-eq-some, ◌≡◌, arith, Bool-cases, Option-cases, inl, inr,
}
use tar_codec.Text.{is_empty}
use tar_codec.Archive.Path.{NormalizedPath, components}
use tar_codec.Archive.Tree.{root_node, state_of}
use tar_codec.Archive.Links.{
  EntryTree, ExtractedEntry, PendingSymlink, max_symlink_resolution_work_bytes, within_limit,
  prefix_work, check_limit, Walked, walk_entries, visited_in, Resolution, classify, after_walk,
  resolve_round, resolve_rounds, resolve_terminal, max_symlink_expansions,
}

-- The work counted so far does not shrink, and stays within the limit.
abbrev Bounded : ℕ → Resolution → Type 0
Bounded work r = (work ≤ r.0) × (r.0 ≤ max_symlink_resolution_work_bytes)

added-Bounded :
    (work w w' : ℕ)
    → and_then (checked_add work w) within_limit ≡ some w'
    → (work ≤ w') × (w' ≤ max_symlink_resolution_work_bytes)
added-Bounded work w w' e = ground arith

check_limit-Bounded :
    (work w : ℕ) (path : NormalizedPath)
    → check_limit work path ≡ some w
    → (work ≤ w) × (w ≤ max_symlink_resolution_work_bytes)
unfolding check_limit
check_limit-Bounded work w path e =
    let (twice, _, rest) =
      and_then-eq-some (checked_mul (length path) 2)
        (λ n.
          and_then (prefix_work (components path) 0 n)
            (λ m. and_then (checked_add work m) within_limit))
        e in
    let (more, _, last) =
      and_then-eq-some (prefix_work (components path) 0 twice)
        (λ m. and_then (checked_add work m) within_limit) rest in
    added-Bounded work more w last

classify-Bounded :
    (start : ℕ) (entries : EntryTree) (path : NormalizedPath) (work : ℕ) (again : Resolution)
    (state : Option ExtractedEntry)
    → start ≤ work
    → work ≤ max_symlink_resolution_work_bytes
    → Bounded start again
    → Bounded start (classify entries path work again state)
unfolding classify
classify-Bounded start entries path work again state low high next = ground arith

walked-Bounded :
    (start : ℕ) (entries : EntryTree) (path : NormalizedPath) (work : ℕ)
    (again : NormalizedPath → Resolution) (w : Walked)
    → start ≤ work
    → work ≤ max_symlink_resolution_work_bytes
    → ((next : NormalizedPath) → Bounded start (again next))
    → Bounded start (after_walk entries path work again w)
unfolding after_walk
walked-Bounded start entries path work again (Walked.rewritten target) low high next = next target
walked-Bounded start entries path work again Walked.beyond_file low high next = (low, high)
walked-Bounded start entries path work again (Walked.finished entry) low high next =
    elim (Bool-cases (is_empty path)) [
      | inl root ↦ rw root (low, high)
      | inr below ↦ rw below (
          classify-Bounded start entries path work (again path)
            (and_then entry (λ e. state_of entries e)) low high (next path))
    ]

rounds-Bounded :
    (entries : EntryTree) (symlinks : List PendingSymlink) (rounds start work : ℕ)
    (path : NormalizedPath) (visited : List NormalizedPath)
    → start ≤ work
    → work ≤ max_symlink_resolution_work_bytes
    → Bounded start (resolve_rounds entries symlinks rounds path work visited)
unfolding resolve_rounds resolve_round
rounds-Bounded entries symlinks zero start work path visited low high = (low, high)
rounds-Bounded entries symlinks (suc rounds) start work path visited low high =
    elim (Option-cases (check_limit work path)) [
      | inl over ↦ rw (over, resolve_rounds) (low, high)
      | inr (w, fits) ↦
          let (grown, bounded) = check_limit-Bounded work w path fits in
          let low' : start ≤ w = omega (arith, low, grown) in
          elim (Bool-cases (visited_in path visited)) [
            | inl again ↦ rw (fits, again, resolve_rounds) (low', bounded)
            | inr fresh ↦
                rw (fits, fresh, resolve_rounds)
                  (walked-Bounded start entries path w
                    (λ next. resolve_rounds entries symlinks rounds next w (path ∷ visited))
                    (walk_entries entries symlinks (some root_node) (components path)) low' bounded
                    λ next.
                      rounds-Bounded entries symlinks rounds start w next (path ∷ visited) low'
                        bounded)
          ]
    ]

-- However the links refer to each other, `resolve_terminal` ends, and the work that it and the calls
-- before it have counted stays within the limit.
pub resolve_terminal-Bounded :
    (entries : EntryTree) (symlinks : List PendingSymlink) (path : NormalizedPath) (work : ℕ)
    → work ≤ max_symlink_resolution_work_bytes
    → (work ≤ (resolve_terminal entries symlinks path work).0)
      × ((resolve_terminal entries symlinks path work).0 ≤ max_symlink_resolution_work_bytes)
unfolding resolve_terminal
resolve_terminal-Bounded entries symlinks path work high =
    rounds-Bounded entries symlinks (suc max_symlink_expansions) work work path [] (omega arith)
      high
