-- ===== src/Archive/Tree/Growth.antt =====
-- The invariant of a tree of crates/archive-trait/src/component_tree.rs as it grows, and its lookups.
use mathlib.Core.Option.{none-ne-some}
use tar_codec.Base.{
  ℕ, zero, suc, ◌<◌, Bool, true, false, not, ◌&&◌, Option, none, some, some-injective, List, [],
  ◌∷◌, ◌++◌, length, get_elem?, ◌==◌, and_then, ◌≡◌, refl, sym, ap, ◌∙◌, arith, Option-cases, inl,
  inr, ◌⊎◌, length-append,
}
use tar_codec.Archive.Tree.{
  NodeId, ComponentNode, ComponentTree, is_none, update, new_tree, set_node_state, clear_state,
  child_node, find_child, child, ensure_child,
}
use tar_codec.Archive.Tree.Invariant.{set_node_state-IsCounted, clear_state-IsCounted}
use tar_codec.Archive.Tree.Counts.{
  is_active, bit, count, counter, parent_in, IsCounted, count-update_same, counter-update_same,
  parent_in-update, suc==suc, length-update,
}

and_false : (b : Bool) → (b && false) ≡ false
and_false true = refl
and_false false = refl

other : (p i : ℕ) → p < i → (p == i) ≡ false
other p i small = ground arith

new_counted :
    {S : Type 0} (C : Type 0) (state : Option S) (i k : ℕ)
    → counter (new_tree {C = C} state) i ≡ some k
    → k ≡ count i (new_tree {C = C} state)
unfolding new_tree
new_counted C none zero k e = ground arith
new_counted C (some s) zero k e = ground arith
new_counted C state (suc i) k e = absurd (none-ne-some k e)

new_parents :
    {S : Type 0} (C : Type 0) (state : Option S) (i p : ℕ)
    → parent_in (new_tree {C = C} state) i ≡ some p
    → p < length (new_tree {C = C} state)
unfolding new_tree
new_parents C state zero p e = absurd (none-ne-some p e)
new_parents C state (suc i) p e = absurd (none-ne-some p e)

module _ {C S : Type 0} where
  pub new_tree-IsCounted : (state : Option S) → IsCounted (new_tree {C = C} state)
  new_tree-IsCounted state = record { counted = new_counted C state; parents = new_parents C state }

  -- Where no node has the given parent, none is counted for it.
  count-none :
      (i : NodeId) (tree : ComponentTree C S)
      → ((j p : ℕ) → parent_in tree j ≡ some p → p < i)
      → count i tree ≡ 0
  count-none i [] h = refl
  count-none i (n ∷ tree) h = elim (Option-cases n.parent) [
    | inl top ↦ omega (arith, ap bit (idle_top n top), count-none i tree (λ j. h (suc j)))
    | inr (p, below) ↦
        omega (
          arith,
          ap bit (idle_other n p below (h zero p below)),
          count-none i tree (λ j. h (suc j)),
        )
  ]
    where
      idle_top : (n : ComponentNode C S) → n.parent ≡ none → is_active i n ≡ false
      idle_top n top = rw top (and_false (not (is_none n.state)))

      idle_other :
          (n : ComponentNode C S) (p : NodeId) → n.parent ≡ some p → p < i → is_active i n ≡ false
      idle_other n p below small = rw (below, other p i small) (and_false (not (is_none n.state)))

  count-append :
      (i : NodeId) (tree : ComponentTree C S) (n : ComponentNode C S)
      → n.state ≡ none
      → count i (tree ++ n ∷ []) ≡ count i tree
  count-append i [] n idle = rw idle refl
  count-append i (m ∷ tree) n idle = omega (arith, count-append i tree n idle)

  counter-append :
      (i k : ℕ) (tree : ComponentTree C S) (n : ComponentNode C S)
      → counter (tree ++ n ∷ []) i ≡ some k
      → (counter tree i ≡ some k) ⊎ ((i ≡ length tree) × (n.active_children ≡ k))
  counter-append zero k [] n e = inr (refl, some-injective n.active_children k e)
  counter-append (suc i) k [] n e = absurd (none-ne-some k e)
  counter-append zero k (m ∷ tree) n e = inl e
  counter-append (suc i) k (m ∷ tree) n e = elim (counter-append i k tree n e) [
    | inl old ↦ inl old
    | inr (at_end, fresh) ↦ inr (ap suc at_end, fresh)
  ]

  parent_in-append :
      (i p : ℕ) (tree : ComponentTree C S) (n : ComponentNode C S)
      → parent_in (tree ++ n ∷ []) i ≡ some p
      → (parent_in tree i ≡ some p) ⊎ (n.parent ≡ some p)
  parent_in-append zero p [] n e = inr e
  parent_in-append (suc i) p [] n e = absurd (none-ne-some p e)
  parent_in-append zero p (m ∷ tree) n e = inl e
  parent_in-append (suc i) p (m ∷ tree) n e = parent_in-append i p tree n e

  append-IsCounted :
      (parent : NodeId) (tree : ComponentTree C S)
      → IsCounted tree
      → parent < length tree
      → IsCounted (tree ++ child_node parent ∷ [])
  append-IsCounted parent tree v small = record {
    counted = λ i k e. elim (counter-append i k tree (child_node parent) e) [
      | inl old ↦ v.counted i k old ∙ sym (count-append i tree (child_node parent) refl)
      | inr (at_end, fresh) ↦
          sym fresh
          ∙ sym (count-none i tree (λ j p h. omega (arith, at_end, v.parents j p h)))
          ∙ sym (count-append i tree (child_node parent) refl)
    ];
    parents = λ i p e. elim (parent_in-append i p tree (child_node parent) e) [
      | inl old ↦ omega (arith, v.parents i p old, length-append tree (child_node parent ∷ []))
      | inr is_parent ↦
          omega
            (arith, some-injective parent p is_parent, length-append tree (child_node parent ∷ []))
    ];
  }

  link-IsCounted :
      (parent : NodeId) (f : List (C × NodeId) → List (C × NodeId)) (tree : ComponentTree C S)
      → IsCounted tree
      → IsCounted (update parent (λ n. record n { children = f n.children }) tree)
  link-IsCounted parent f tree v = record {
    counted = λ i k e.
        v.counted i k (
          sym (
            counter-update_same i parent (λ n. record n { children = f n.children }) tree
              (λ _. refl))
          ∙ e)
        ∙ sym (
            count-update_same i parent (λ n. record n { children = f n.children }) tree
              (λ _. refl));
    parents = λ i q e. omega (
      arith,
      v.parents i q (
          sym
            (parent_in-update i parent (λ n. record n { children = f n.children }) tree (λ _. refl))
          ∙ e),
      length-update parent (λ n. record n { children = f n.children }) tree,
    );
  }

  pub ensure_child-IsCounted :
      (same : C → C → Bool) (parent : NodeId) (component : C) (tree : ComponentTree C S)
      → IsCounted tree
      → parent < length tree
      → IsCounted (ensure_child same parent component tree).0
  unfolding ensure_child
  ensure_child-IsCounted same parent component tree v small =
      elim (Option-cases (child same tree parent component)) [
        | inl missing ↦
            rw (missing, ensure_child)
              (link-IsCounted parent (λ children. (component, length tree) ∷ children)
                (tree ++ child_node parent ∷ []) (append-IsCounted parent tree v small))
        | inr (i, found) ↦ rw (found, ensure_child) v
      ]

  get-update :
      (i : NodeId) (f : ComponentNode C S → ComponentNode C S) (tree : ComponentTree C S)
      (n : ComponentNode C S)
      → get_elem? tree i ≡ some n
      → get_elem? (update i f tree) i ≡ some (f n)
  get-update i f [] n h = cc
  get-update zero f (m ∷ tree) n h = ap (λ o. some (f o)) (some-injective m n h)
  get-update (suc i) f (m ∷ tree) n h = get-update i f tree n h

  get-update_ne :
      (i j : NodeId) (f : ComponentNode C S → ComponentNode C S) (tree : ComponentTree C S)
      → (i == j) ≡ false
      → get_elem? (update i f tree) j ≡ get_elem? tree j
  get-update_ne i j f [] h = refl
  get-update_ne zero zero f (m ∷ tree) h = cc
  get-update_ne zero (suc j) f (m ∷ tree) h = refl
  get-update_ne (suc i) zero f (m ∷ tree) h = refl
  get-update_ne (suc i) (suc j) f (m ∷ tree) h = get-update_ne i j f tree (sym (suc==suc i j) ∙ h)

  get-append :
      (i : NodeId) (tree new : ComponentTree C S)
      → i < length tree
      → (n : ComponentNode C S) × (get_elem? tree i ≡ some n) × (get_elem? (tree ++ new) i ≡ some n)
  get-append i [] new h = absurd (omega (arith, h))
  get-append zero (m ∷ tree) new h = (m, refl, refl)
  get-append (suc i) (m ∷ tree) new h = get-append i tree new (omega (arith, h))

  -- A child that was ensured is found under its parent.
  pub child-ensure_child :
      (same : C → C → Bool) (parent : NodeId) (component : C) (tree : ComponentTree C S)
      → same component component ≡ true
      → parent < length tree
      → child same (ensure_child same parent component tree).0 parent component
        ≡ some (ensure_child same parent component tree).1
  unfolding ensure_child child find_child
  child-ensure_child same parent component tree self small =
      elim (Option-cases (child same tree parent component)) [
        | inl missing ↦
            rw (missing, ensure_child)
              (added (get-append parent tree (child_node parent ∷ []) small))
        | inr (i, found) ↦ rw (found, ensure_child) found
      ]
    where
      f : ComponentNode C S → ComponentNode C S
      f n = record n { children = (component, length tree) ∷ n.children }

      added :
          (n : ComponentNode C S) × (get_elem? tree parent ≡ some n)
            × (get_elem? (tree ++ child_node parent ∷ []) parent ≡ some n)
          → child same (update parent f (tree ++ child_node parent ∷ [])) parent component
            ≡ some (length tree)
      added (n, old, h) = rw (get-update parent f (tree ++ child_node parent ∷ []) n h, self) refl

  -- The children of the other nodes stay.
  pub child-ensure_child_ne :
      (same : C → C → Bool) (parent other_parent : NodeId) (component name : C)
      (tree : ComponentTree C S)
      → (parent == other_parent) ≡ false
      → other_parent < length tree
      → child same (ensure_child same parent component tree).0 other_parent name
        ≡ child same tree other_parent name
  unfolding ensure_child child
  child-ensure_child_ne same parent other_parent component name tree apart small =
      elim (Option-cases (child same tree parent component)) [
        | inl missing ↦
            let (n, old, h) = get-append other_parent tree (child_node parent ∷ []) small in
            rw (missing, ensure_child)
              (ap (λ o. and_then o (λ n. find_child same name n.children))
                (get-update_ne parent other_parent
                    (λ m. record m { children = (component, length tree) ∷ m.children })
                    (tree ++ child_node parent ∷ []) apart
                  ∙ h
                  ∙ sym old))
        | inr (i, found) ↦ rw (found, ensure_child) refl
      ]

  -- The operations of a tree keep its counts, and each parent a node.
  pub operations-IsCounted :
      (same : C → C → Bool) (i : NodeId) (s : S) (component : C) (tree : ComponentTree C S)
      → IsCounted tree
      → i < length tree
      → IsCounted (set_node_state i s tree)
        × IsCounted (clear_state i tree)
        × IsCounted (ensure_child same i component tree).0
  operations-IsCounted same i s component tree v small = (
    set_node_state-IsCounted i s tree v,
    clear_state-IsCounted i tree v,
    ensure_child-IsCounted same i component tree v small,
  )
