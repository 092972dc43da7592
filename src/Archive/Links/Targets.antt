-- ===== src/Archive/Links/Targets.antt =====
-- The targets that `resolve_terminal` of crates/archive-trait/src/extract/root.rs returns.
use mathlib.Core.List.{reverse_aux}
use tar_codec.Base.{
  ℕ, zero, suc, Option, none, some, some-injective, List, [], ◌∷◌, Bytes, get_elem?, All, and_then,
  Result, ok, err, ◌≡◌, refl, sym, ap, ◌∙◌, Bool-cases, Option-cases, ◌⊎◌, inl, inr, subst,
}
use tar_codec.Text.{String, is_empty}
use tar_codec.Archive.Path.{NormalizedPath, components, extend}
use tar_codec.Archive.Path.Stack.{components-render, extend-render}
use tar_codec.Archive.Decode.Parts.{IsName, IsWithin, All-Proper, All-reverse_aux}
use tar_codec.Archive.Tree.{NodeId, root_node, state_of}
use tar_codec.Archive.Links.{
  EntryTree, ExtractedEntry, PendingSymlink, TerminalKind, ResolvedTarget, entry_child, find_from,
  check_limit, link_at, is_file_state, Walked, walk_entries, visited_in, Resolution, classify,
  after_walk, resolve_round, resolve_rounds, resolve_terminal, max_symlink_expansions,
}
use tar_codec.Archive.Links.Walks.{
  prefixes, link_from, finished-ne-rewritten, walk_entries-find, walk_entries-free,
}

-- The archive did not make what is there: there is no entry with a state, or a directory that the
-- extraction found.
abbrev pub NotOwned : Option ExtractedEntry → Type 0
NotOwned state = (state ≡ none) ⊎ (state ≡ some ExtractedEntry.ambient_directory)

-- A target that the extraction does not own: below the root, through no link of the archive, and
-- nothing that the archive made.
pub record IsUnowned (entries : EntryTree) (symlinks : List PendingSymlink) (path : NormalizedPath)
    : Type 0 where
  pub within : IsWithin path
  pub no_link :
      All
        (λ (cs : List Bytes). link_from entries symlinks root_node cs ≡ none)
        (prefixes (components path))
  pub not_owned :
      NotOwned (and_then (find_from entries root_node (components path)) (λ e. state_of entries e))

All-get_elem? :
    {A : Type 0} (P : A → Type 0) (xs : List A) (i : ℕ) (x : A)
    → All P xs
    → get_elem? xs i ≡ some x
    → P x
All-get_elem? P [] i x h e = cc
All-get_elem? P (y ∷ xs) zero x h e = subst P (some-injective y x e) h.0
All-get_elem? P (y ∷ xs) (suc i) x h e = All-get_elem? P xs i x h.1 e

link_at-IsWithin :
    (symlinks : List PendingSymlink) (state : Option ExtractedEntry) (link : PendingSymlink)
    → All (λ (l : PendingSymlink). IsWithin l.resolved_target) symlinks
    → link_at symlinks state ≡ some link
    → IsWithin link.resolved_target
unfolding link_at
link_at-IsWithin symlinks (some (ExtractedEntry.symlink index)) link links e =
    All-get_elem? (λ (l : PendingSymlink). IsWithin l.resolved_target) symlinks index link links e
link_at-IsWithin symlinks (some ExtractedEntry.file) link links e = cc
link_at-IsWithin symlinks (some ExtractedEntry.created_directory) link links e = cc
link_at-IsWithin symlinks (some ExtractedEntry.ambient_directory) link links e = cc
link_at-IsWithin symlinks none link links e = cc

extend-IsWithin :
    (path : NormalizedPath) (parts : List Bytes)
    → IsWithin path
    → All IsName parts
    → IsWithin (extend path parts)
extend-IsWithin path parts (cs, proper, e) names = (
  reverse_aux parts cs,
  All-reverse_aux IsName parts cs names proper,
  ap (λ p. extend p parts) e ∙ extend-render cs parts,
)

file_arm :
    (parts : List Bytes) (further : Walked) (next : NormalizedPath)
    → (parts ≡ [] → further ≡ Walked.rewritten next → ⊥)
    → elim parts [ [] ↦ further | c ∷ cs ↦ Walked.beyond_file ] ≡ Walked.rewritten next
    → ⊥
file_arm [] further next h e = h refl e
file_arm (c ∷ cs) further next h e = cc

rewritten_injective : (p q : NormalizedPath) → Walked.rewritten p ≡ Walked.rewritten q → p ≡ q
rewritten_injective p q e = cc

-- Where a walk meets a link, the path behind it is below the root when the link's target is.
walk_entries-IsWithin :
    (entries : EntryTree) (symlinks : List PendingSymlink) (entry : Option NodeId)
    (parts : List Bytes) (next : NormalizedPath)
    → All (λ (l : PendingSymlink). IsWithin l.resolved_target) symlinks
    → All IsName parts
    → walk_entries entries symlinks entry parts ≡ Walked.rewritten next
    → IsWithin next
unfolding walk_entries
walk_entries-IsWithin entries symlinks entry [] next links proper e = cc
walk_entries-IsWithin entries symlinks entry (part ∷ parts) next links proper e =
    elim (Option-cases (and_then entry (λ parent. entry_child entries parent part))) [
      | inl missing ↦
          walk_entries-IsWithin entries symlinks none parts next links proper.1
            (sym (rw (missing, walk_entries) refl) ∙ e)
      | inr (i, there) ↦ elim (Option-cases (link_at symlinks (state_of entries i))) [
        | inr (link, is_link) ↦
            subst IsWithin
              (rewritten_injective (extend link.resolved_target parts) next
                (sym (rw (there, is_link, walk_entries) refl) ∙ e))
              (extend-IsWithin link.resolved_target parts
                (link_at-IsWithin symlinks (state_of entries i) link links is_link) proper.1)
        | inl free ↦ elim (Bool-cases (is_file_state (state_of entries i))) [
          | inl is_file ↦ absurd (
              file_arm parts (walk_entries entries symlinks (some i) parts) next
                (λ none_left h. finished-ne-rewritten next (some i) (sym h ∙ rw none_left refl))
                (sym (rw (there, free, is_file, walk_entries) refl) ∙ e))
          | inr other ↦
              walk_entries-IsWithin entries symlinks (some i) parts next links proper.1
                (sym (rw (there, free, other, walk_entries) refl) ∙ e)
        ]
      ]
    ]

unowned_injective :
    (p q : NormalizedPath)
    → ◌≡◌ {A = Result ResolvedTarget String}
        (ok (ResolvedTarget.unowned p))
        (ok (ResolvedTarget.unowned q))
    → p ≡ q
unowned_injective p q e = cc

known-ne-unowned :
    (k : TerminalKind) (p : NormalizedPath)
    → ◌≡◌ {A = Result ResolvedTarget String}
        (ok (ResolvedTarget.known k))
        (ok (ResolvedTarget.unowned p))
    → ⊥
known-ne-unowned k p e = cc

err-ne-ok :
    (e : String) (t : ResolvedTarget) → ◌≡◌ {A = Result ResolvedTarget String} (err e) (ok t) → ⊥
err-ne-ok e t h = cc

classify-eq-unowned :
    (entries : EntryTree) (path p : NormalizedPath) (work : ℕ) (again : Resolution)
    (state : Option ExtractedEntry)
    → (classify entries path work again state).1 ≡ ok (ResolvedTarget.unowned p)
    → ((path ≡ p) × NotOwned state) ⊎ (again.1 ≡ ok (ResolvedTarget.unowned p))
unfolding classify
classify-eq-unowned entries path p work again (some ExtractedEntry.file) e = cc
classify-eq-unowned entries path p work again (some ExtractedEntry.created_directory) e = cc
classify-eq-unowned entries path p work again (some ExtractedEntry.ambient_directory) e =
    inl (unowned_injective path p e, inr refl)
classify-eq-unowned entries path p work again (some (ExtractedEntry.symlink index)) e = inr e
classify-eq-unowned entries path p work again none e = inl (unowned_injective path p e, inl refl)

walked-IsUnowned :
    (entries : EntryTree) (symlinks : List PendingSymlink) (path p : NormalizedPath) (work : ℕ)
    (again : NormalizedPath → Resolution) (w : Walked)
    → All (λ (l : PendingSymlink). IsWithin l.resolved_target) symlinks
    → IsWithin path
    → walk_entries entries symlinks (some root_node) (components path) ≡ w
    → ((next : NormalizedPath)
        → IsWithin next
        → (again next).1 ≡ ok (ResolvedTarget.unowned p)
        → IsUnowned entries symlinks p)
    → (after_walk entries path work again w).1 ≡ ok (ResolvedTarget.unowned p)
    → IsUnowned entries symlinks p
unfolding after_walk
walked-IsUnowned entries symlinks path p work again (Walked.rewritten target) links
      (cs, proper, whole) walked next e =
    next target
      (walk_entries-IsWithin entries symlinks (some root_node) (components path) target links
        (subst (All IsName)
          (sym (ap components whole ∙ components-render cs (All-Proper cs proper)))
          (All-reverse_aux IsName cs [] proper tt))
        walked)
      e
walked-IsUnowned entries symlinks path p work again Walked.beyond_file links within walked next e =
    cc
walked-IsUnowned entries symlinks path p work again (Walked.finished end) links within walked next
      e =
    elim (Bool-cases (is_empty path)) [
      | inl root ↦ absurd (known-ne-unowned TerminalKind.directory p (sym (rw root refl) ∙ e))
      | inr below ↦
          elim (classify-eq-unowned entries path p work (again path)
            (and_then end (λ e. state_of entries e)) (sym (rw below refl) ∙ e)) [
              | inl (here, unowned) ↦ subst (IsUnowned entries symlinks) here record {
                within = within;
                no_link = walk_entries-free entries symlinks root_node (components path) end walked;
                not_owned =
                    subst (λ o. NotOwned (and_then o (λ e. state_of entries e)))
                      (sym
                        (walk_entries-find entries symlinks root_node (components path) end walked))
                      unowned;
              }
              | inr later ↦ next path within later
            ]
    ]

rounds-IsUnowned :
    (entries : EntryTree) (symlinks : List PendingSymlink) (rounds work : ℕ)
    (path p : NormalizedPath) (visited : List NormalizedPath)
    → All (λ (l : PendingSymlink). IsWithin l.resolved_target) symlinks
    → IsWithin path
    → (resolve_rounds entries symlinks rounds path work visited).1 ≡ ok (ResolvedTarget.unowned p)
    → IsUnowned entries symlinks p
unfolding resolve_rounds resolve_round
rounds-IsUnowned entries symlinks zero work path p visited links within e = cc
rounds-IsUnowned entries symlinks (suc rounds) work path p visited links within e =
    elim (Option-cases (check_limit work path)) [
      | inl over ↦ absurd (
          err-ne-ok "symbolic-link target resolution work limit exceeded" (ResolvedTarget.unowned p)
            (sym (rw (over, resolve_rounds) refl) ∙ e))
      | inr (w, fits) ↦ elim (Bool-cases (visited_in path visited)) [
        | inl again ↦ absurd (
            err-ne-ok "symbolic-link target cycle" (ResolvedTarget.unowned p)
              (sym (rw (fits, again, resolve_rounds) refl) ∙ e))
        | inr fresh ↦
            walked-IsUnowned entries symlinks path p w
              (λ next. resolve_rounds entries symlinks rounds next w (path ∷ visited))
              (walk_entries entries symlinks (some root_node) (components path)) links within refl
              (λ next inside.
                rounds-IsUnowned entries symlinks rounds w next p (path ∷ visited) links inside)
              (sym (rw (fits, fresh, resolve_rounds) refl) ∙ e)
      ]
    ]

-- Where every link of the archive has a target below the root, each target that `resolve_terminal`
-- leaves to the file system is a path of names below the root; neither it nor a directory on the way
-- to it is a link of the archive; and the archive has made nothing there.
pub resolve_terminal-unowned :
    (entries : EntryTree) (symlinks : List PendingSymlink) (path p : NormalizedPath) (work : ℕ)
    → All (λ (l : PendingSymlink). IsWithin l.resolved_target) symlinks
    → IsWithin path
    → (resolve_terminal entries symlinks path work).1 ≡ ok (ResolvedTarget.unowned p)
    → IsUnowned entries symlinks p
unfolding resolve_terminal
resolve_terminal-unowned entries symlinks path p work links within e =
    rounds-IsUnowned entries symlinks (suc max_symlink_expansions) work path p [] links within e
