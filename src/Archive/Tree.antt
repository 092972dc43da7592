-- ===== src/Archive/Tree.antt =====
-- crates/archive-trait/src/component_tree.rs: path state in an arena of nodes. A `HashMap` of children
-- is an association list, and `same` is the equality of its keys.
pub mod Counts
pub mod Invariant
pub mod Growth
pub mod Children
use tar_codec.Base.{
  ℕ, zero, suc, ◌+◌, ◌-◌, Bool, true, false, not, Option, none, some, List, [], ◌∷◌, ◌++◌, length,
  get_elem?, ◌==◌, if◌then◌else◌, and_then,
}
use tar_codec.Archive.Names.{is_some_and}

abbrev pub NodeId : Type 0
NodeId = ℕ

abbrev pub root_node : NodeId
root_node = 0

abbrev pub is_none {ℓ} : {A : Type ℓ} → Option A → Bool
is_none none = true
is_none (some a) = false

module _ (C S : Type 0) where
  pub record ComponentNode : Type 0 where
    pub parent : Option NodeId
    pub state : Option S
    pub children : List (C × NodeId)
    pub active_children : ℕ

  abbrev pub ComponentTree : Type 0
  ComponentTree = List ComponentNode

module _ {C S : Type 0} where
  abbrev pub root : Option S → ComponentNode C S
  root state = record { parent = none; state = state; children = []; active_children = 0 }

  abbrev pub child_node : NodeId → ComponentNode C S
  child_node parent = record {
    parent = some parent;
    state = none;
    children = [];
    active_children = 0;
  }

  unfoldable pub new_tree : Option S → ComponentTree C S
  new_tree root_state = root root_state ∷ []

  -- A write through `get_mut(i)`; there is none where there is no such node.
  abbrev pub update :
      NodeId → (ComponentNode C S → ComponentNode C S) → ComponentTree C S → ComponentTree C S
  update i f [] = []
  update zero f (n ∷ tree) = f n ∷ tree
  update (suc i) f (n ∷ tree) = n ∷ update i f tree

  abbrev pub update_parent :
      Option NodeId
      → (ComponentNode C S → ComponentNode C S)
      → ComponentTree C S
      → ComponentTree C S
  update_parent none f tree = tree
  update_parent (some i) f tree = update i f tree

  unfoldable pub state_of : ComponentTree C S → NodeId → Option S
  state_of tree i = and_then (get_elem? tree i) (λ n. n.state)

  abbrev pub activate : ComponentNode C S → ComponentNode C S
  activate n = record n { active_children = suc n.active_children }

  -- `active_children -= 1` would panic, or wrap around, at 0.
  abbrev pub deactivate : ComponentNode C S → ComponentNode C S
  deactivate n = record n { active_children = n.active_children - 1 }

  unfoldable pub set_node_state : NodeId → S → ComponentTree C S → ComponentTree C S
  set_node_state i s tree = elim (get_elem? tree i) [
    | none ↦ tree
    | some n ↦
        let tree' = update i (λ m. record m { state = some s }) tree in
        if is_none n.state then update_parent n.parent activate tree' else tree'
  ]

  unfoldable pub clear_state : NodeId → ComponentTree C S → ComponentTree C S
  clear_state i tree = elim (get_elem? tree i) [
    | none ↦ tree
    | some n ↦
        let tree' = update i (λ m. record m { state = none }) tree in
        if is_none n.state then tree' else update_parent n.parent deactivate tree'
  ]

  unfoldable pub has_active_children : ComponentTree C S → NodeId → Bool
  has_active_children tree i = is_some_and (λ n. not (n.active_children == 0)) (get_elem? tree i)

module _ {C : Type 0} (same : C → C → Bool) where
  unfoldable pub find_child : C → List (C × NodeId) → Option NodeId
  find_child component [] = none
  find_child component ((key, i) ∷ rest) =
      let found = find_child component rest in if same key component then some i else found

module _ {C S : Type 0} (same : C → C → Bool) where
  unfoldable pub child : ComponentTree C S → NodeId → C → Option NodeId
  unfolding find_child
  child tree parent component =
      and_then (get_elem? tree parent) (λ n. find_child same component n.children)

  unfoldable pub ensure_child : NodeId → C → ComponentTree C S → ComponentTree C S × NodeId
  unfolding child
  ensure_child parent component tree = elim (child tree parent component) [
    | some node ↦ (tree, node)
    | none ↦ (
      update parent (λ n. record n { children = (component, length tree) ∷ n.children })
          (tree ++ child_node parent ∷ []),
      length tree,
    )
  ]
