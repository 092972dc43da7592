-- ===== src/Archive/Links/Walks.antt =====
-- How far `resolve_terminal` of crates/archive-trait/src/extract/root.rs walks along the entries.
use mathlib.Core.List.{map}
use tar_codec.Base.{
  Bool, true, false, if◌then◌else◌, Option, none, some, List, [], ◌∷◌, Bytes, All, and_then, ◌≡◌,
  refl, sym, ◌∙◌, Option-cases, inl, inr,
}
use tar_codec.Archive.Path.{NormalizedPath, extend}
use tar_codec.Archive.Tree.{NodeId, state_of}
use tar_codec.Archive.Links.{
  EntryTree, PendingSymlink, entry_child, find_from, link_at, is_file_state, Walked, walk_entries,
}

-- The path to each directory on the way, and the whole path.
abbrev pub prefixes : List Bytes → List (List Bytes)
prefixes [] = []
prefixes (c ∷ cs) = (c ∷ []) ∷ map (◌∷◌ c) (prefixes cs)

-- The link that the archive has at a path from an entry, if it has one.
abbrev pub link_from : EntryTree → List PendingSymlink → NodeId → List Bytes → Option PendingSymlink
link_from entries symlinks entry cs =
    and_then (find_from entries entry cs) (λ e. link_at symlinks (state_of entries e))

pub finished-ne-rewritten :
    (p : NormalizedPath) (o : Option NodeId) → Walked.rewritten p ≡ Walked.finished o → ⊥
finished-ne-rewritten p o e = cc

pub finished-ne-beyond : (o : Option NodeId) → Walked.beyond_file ≡ Walked.finished o → ⊥
finished-ne-beyond o e = cc

All-map :
    {A : Type 0} {B : Type 0} (P : B → Type 0) (f : A → B) (xs : List A)
    → All (λ (x : A). P (f x)) xs
    → All P (map f xs)
All-map P f [] h = tt
All-map P f (x ∷ xs) h = (h.0, All-map P f xs h.1)

All-any : {A : Type 0} (P : A → Type 0) → ((x : A) → P x) → (xs : List A) → All P xs
All-any P h [] = tt
All-any P h (x ∷ xs) = (h x, All-any P h xs)

All-imp :
    {A : Type 0} (P Q : A → Type 0) → ((x : A) → P x → Q x) → (xs : List A) → All P xs → All Q xs
All-imp P Q h [] p = tt
All-imp P Q h (x ∷ xs) p = (h x p.0, All-imp P Q h xs p.1)

finished_injective : (a b : Option NodeId) → Walked.finished a ≡ Walked.finished b → a ≡ b
finished_injective a b e = cc

-- Behind a component that is missing, a walk meets nothing.
walk_entries-missing :
    (entries : EntryTree) (symlinks : List PendingSymlink) (parts : List Bytes)
    → walk_entries entries symlinks none parts ≡ Walked.finished none
unfolding walk_entries
walk_entries-missing entries symlinks [] = refl
walk_entries-missing entries symlinks (part ∷ parts) = walk_entries-missing entries symlinks parts

-- A walk that goes through is not stopped by a file.
beyond :
    (is_file : Bool) (parts : List Bytes) (further : Walked) (end : Option NodeId)
    → (if is_file then (elim parts [ [] ↦ further | c ∷ cs ↦ Walked.beyond_file ]) else further)
      ≡ Walked.finished end
    → further ≡ Walked.finished end
beyond true [] further end e = e
beyond true (c ∷ cs) further end e = cc
beyond false parts further end e = e

-- A walk that goes through ends where `find` does.
pub walk_entries-find :
    (entries : EntryTree) (symlinks : List PendingSymlink) (entry : NodeId) (parts : List Bytes)
    (end : Option NodeId)
    → walk_entries entries symlinks (some entry) parts ≡ Walked.finished end
    → find_from entries entry parts ≡ end
unfolding walk_entries find_from
walk_entries-find entries symlinks entry [] end walked = finished_injective (some entry) end walked
walk_entries-find entries symlinks entry (part ∷ parts) end walked =
    elim (Option-cases (entry_child entries entry part)) [
      | inl missing ↦ rw missing (
          finished_injective none end (
            sym (rw (missing, walk_entries) (walk_entries-missing entries symlinks parts))
            ∙ walked))
      | inr (next, there) ↦ elim (Option-cases (link_at symlinks (state_of entries next))) [
        | inr (link, is_link) ↦ absurd (
            finished-ne-rewritten (extend link.resolved_target parts) end
              (sym (rw (there, is_link, walk_entries) refl) ∙ walked))
        | inl free ↦ rw there (
            walk_entries-find entries symlinks next parts end (
              beyond (is_file_state (state_of entries next)) parts
                (walk_entries entries symlinks (some next) parts) end
                (sym (rw (there, free, walk_entries) refl) ∙ walked)))
      ]
    ]

link_from-missing :
    (entries : EntryTree) (symlinks : List PendingSymlink) (entry : NodeId) (part : Bytes)
    (parts : List Bytes)
    → entry_child entries entry part ≡ none
    → link_from entries symlinks entry (part ∷ parts) ≡ none
unfolding find_from
link_from-missing entries symlinks entry part parts missing = rw missing refl

link_from-next :
    (entries : EntryTree) (symlinks : List PendingSymlink) (entry next : NodeId) (part : Bytes)
    (parts : List Bytes)
    → entry_child entries entry part ≡ some next
    → link_from entries symlinks entry (part ∷ parts) ≡ link_from entries symlinks next parts
unfolding find_from
link_from-next entries symlinks entry next part parts there = rw there refl

-- And meets no link on the way.
pub walk_entries-free :
    (entries : EntryTree) (symlinks : List PendingSymlink) (entry : NodeId) (parts : List Bytes)
    (end : Option NodeId)
    → walk_entries entries symlinks (some entry) parts ≡ Walked.finished end
    → All (λ (cs : List Bytes). link_from entries symlinks entry cs ≡ none) (prefixes parts)
unfolding walk_entries find_from
walk_entries-free entries symlinks entry [] end walked = tt
walk_entries-free entries symlinks entry (part ∷ parts) end walked =
    let FreeFrom = λ (e : NodeId) (cs : List Bytes). link_from entries symlinks e cs ≡ none in
    elim (Option-cases (entry_child entries entry part)) [
      | inl missing ↦
          let gone =
            λ (cs : List Bytes). link_from-missing entries symlinks entry part cs missing in
          (
            gone [],
            All-map (FreeFrom entry) (◌∷◌ part) (prefixes parts)
                (All-any (λ cs. FreeFrom entry (part ∷ cs)) gone (prefixes parts)),
          )
      | inr (next, there) ↦ elim (Option-cases (link_at symlinks (state_of entries next))) [
        | inr (link, is_link) ↦ absurd (
            finished-ne-rewritten (extend link.resolved_target parts) end
              (sym (rw (there, is_link, walk_entries) refl) ∙ walked))
        | inl free ↦
            let same =
              λ (cs : List Bytes). link_from-next entries symlinks entry next part cs there in
            (
              same [] ∙ free,
              All-map (FreeFrom entry) (◌∷◌ part) (prefixes parts) (
                  All-imp (FreeFrom next) (λ cs. FreeFrom entry (part ∷ cs))
                    (λ cs none_there. same cs ∙ none_there) (prefixes parts)
                    (walk_entries-free entries symlinks next parts end (
                      beyond (is_file_state (state_of entries next)) parts
                        (walk_entries entries symlinks (some next) parts) end
                        (sym (rw (there, free, walk_entries) refl) ∙ walked)))),
            )
      ]
    ]
