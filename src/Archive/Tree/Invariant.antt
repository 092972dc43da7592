-- ===== src/Archive/Tree/Invariant.antt =====
-- The invariant of a tree of crates/archive-trait/src/component_tree.rs under changes of state.
use tar_codec.Base.{
  ◌-◌, Option, none, some, get_elem?, ◌==◌, if◌then◌else◌, ◌≡◌, refl, sym, ap, ◌∙◌, arith,
  Option-cases, inl, inr,
}
use tar_codec.Archive.Tree.{
  NodeId, ComponentNode, ComponentTree, is_none, update, update_parent, activate, deactivate,
  set_node_state, clear_state,
}
use tar_codec.Archive.Tree.Counts.{
  is_active, bit, count, IsCounted, count-update, count-update_same, counter-update_same,
  parent_in-update, length-update, counter-update, activated-IsCounted, one_less,
}

module _ {C S : Type 0} where
  -- A write that makes no node active or idle.
  quiet-IsCounted :
      (j : NodeId) (f : ComponentNode C S → ComponentNode C S) (tree : ComponentTree C S)
      (n : ComponentNode C S)
      → IsCounted tree
      → get_elem? tree j ≡ some n
      → ((m : ComponentNode C S) → (f m).active_children ≡ m.active_children)
      → ((m : ComponentNode C S) → (f m).parent ≡ m.parent)
      → ((i : NodeId) → is_active i (f n) ≡ is_active i n)
      → IsCounted (update j f tree)
  quiet-IsCounted j f tree n v h keeps stays quiet = record {
    counted = λ i k e.
        let before = v.counted i k (sym (counter-update_same i j f tree keeps) ∙ e) in
        omega (arith, before, count-update i j f tree n h, ap bit (quiet i));
    parents = λ i q e.
        let before = v.parents i q (sym (parent_in-update i j f tree stays) ∙ e) in
        omega (arith, before, length-update j f tree);
  }

  -- A node that loses its state is one active child less for its parent, and for no one else.
  deactivated-IsCounted :
      (j : NodeId) (tree : ComponentTree C S) (n : ComponentNode C S) (s : S) (p : NodeId)
      → IsCounted tree
      → get_elem? tree j ≡ some n
      → n.state ≡ some s
      → n.parent ≡ some p
      → IsCounted (update p deactivate (update j (λ m. record m { state = none }) tree))
  deactivated-IsCounted j tree n s p v h stated below = record {
    counted = λ i k e.
        let t = update j (λ (m : ComponentNode C S). record m { state = none }) tree in
        let (k', found, whole) = counter-update i p deactivate (λ k. k - 1) t k (λ _. refl) e in
        let before = v.counted i k' (
          sym (counter-update_same i j (λ m. record m { state = none }) tree (λ _. refl))
          ∙ found) in
        let change =
          rw (stated, below) at (count-update i j (λ m. record m { state = none }) tree n h) in
        let keep = count-update_same i p deactivate t (λ _. refl) in
        one_less k k' (count i tree) (count i t) (p == i) whole before change ∙ sym keep;
    parents = λ i q e.
        let t = update j (λ (m : ComponentNode C S). record m { state = none }) tree in
        let before = v.parents i q (
          sym (
            parent_in-update i p deactivate t (λ _. refl)
            ∙ parent_in-update i j (λ m. record m { state = none }) tree (λ _. refl))
          ∙ e) in
        omega (
          arith,
          before,
          length-update p deactivate t,
          length-update j (λ m. record m { state = none }) tree,
        );
  }

  set_in :
      (j : NodeId) (s : S) (tree : ComponentTree C S) (n : ComponentNode C S) (state : Option S)
      (parent : Option NodeId)
      → IsCounted tree
      → get_elem? tree j ≡ some n
      → n.state ≡ state
      → n.parent ≡ parent
      → IsCounted (
          if is_none state
          then update_parent parent activate (update j (λ m. record m { state = some s }) tree)
          else update j (λ m. record m { state = some s }) tree)
  set_in j s tree n (some old) parent v h had below =
      quiet-IsCounted j (λ m. record m { state = some s }) tree n v h (λ _. refl) (λ _. refl)
        (λ i. rw had refl)
  set_in j s tree n none none v h had below =
      quiet-IsCounted j (λ m. record m { state = some s }) tree n v h (λ _. refl) (λ _. refl)
        (λ i. rw (had, below) refl)
  set_in j s tree n none (some p) v h had below = activated-IsCounted j s tree n p v h had below

  pub set_node_state-IsCounted :
      (j : NodeId) (s : S) (tree : ComponentTree C S)
      → IsCounted tree
      → IsCounted (set_node_state j s tree)
  unfolding set_node_state
  set_node_state-IsCounted j s tree v = elim (Option-cases (get_elem? tree j)) [
    | inl missing ↦ rw (missing, set_node_state) v
    | inr (n, h) ↦ rw (h, set_node_state) (set_in j s tree n n.state n.parent v h refl refl)
  ]

  clear_in :
      (j : NodeId) (tree : ComponentTree C S) (n : ComponentNode C S) (state : Option S)
      (parent : Option NodeId)
      → IsCounted tree
      → get_elem? tree j ≡ some n
      → n.state ≡ state
      → n.parent ≡ parent
      → IsCounted (
          if is_none state
          then update j (λ m. record m { state = none }) tree
          else update_parent parent deactivate (update j (λ m. record m { state = none }) tree))
  clear_in j tree n none parent v h had below =
      quiet-IsCounted j (λ m. record m { state = none }) tree n v h (λ _. refl) (λ _. refl)
        (λ i. rw had refl)
  clear_in j tree n (some s) none v h had below =
      quiet-IsCounted j (λ m. record m { state = none }) tree n v h (λ _. refl) (λ _. refl)
        (λ i. rw (had, below) refl)
  clear_in j tree n (some s) (some p) v h had below =
      deactivated-IsCounted j tree n s p v h had below

  pub clear_state-IsCounted :
      (j : NodeId) (tree : ComponentTree C S) → IsCounted tree → IsCounted (clear_state j tree)
  unfolding clear_state
  clear_state-IsCounted j tree v = elim (Option-cases (get_elem? tree j)) [
    | inl missing ↦ rw (missing, clear_state) v
    | inr (n, h) ↦ rw (h, clear_state) (clear_in j tree n n.state n.parent v h refl refl)
  ]
