-- ===== src/Archive/Tree/Counts.antt =====
-- The counts of a tree of crates/archive-trait/src/component_tree.rs.
use tar_codec.Base.{
  ℕ, zero, suc, ◌+◌, ◌-◌, ◌<◌, Bool, true, false, not, ◌&&◌, Option, none, some, some-injective, [],
  ◌∷◌, length, get_elem?, ◌==◌, if◌then◌else◌, ◌≡◌, refl, sym, ap, ◌∙◌, arith,
}
use tar_codec.Archive.Names.{is_some_and}
use tar_codec.Archive.Tree.{NodeId, ComponentNode, ComponentTree, is_none, update, activate}

pub suc==suc : (a b : ℕ) → (suc a == suc b) ≡ (a == b)
suc==suc a b = ground arith

abbrev pub bit : Bool → ℕ
bit true = 1
bit false = 0

one_more :
    (k k' before after : ℕ) (is_parent : Bool)
    → k ≡ (if is_parent then suc k' else k')
    → k' ≡ before
    → after + 0 ≡ before + bit is_parent
    → k ≡ after
one_more k k' before after true h h' change = omega (arith, h, h', change)
one_more k k' before after false h h' change = omega (arith, h, h', change)

pub one_less :
    (k k' before after : ℕ) (is_parent : Bool)
    → k ≡ (if is_parent then k' - 1 else k')
    → k' ≡ before
    → after + bit is_parent ≡ before + 0
    → k ≡ after
one_less k k' before after true h h' change = omega (arith, h, h', change)
one_less k k' before after false h h' change = omega (arith, h, h', change)

module _ {C S : Type 0} where
  -- A node that has state and the given parent.
  abbrev pub is_active : NodeId → ComponentNode C S → Bool
  is_active i n = not (is_none n.state) && is_some_and (λ p. p == i) n.parent

  -- How many nodes with state have the given parent.
  abbrev pub count : NodeId → ComponentTree C S → ℕ
  count i [] = 0
  count i (n ∷ tree) = bit (is_active i n) + count i tree

  abbrev pub counter : ComponentTree C S → NodeId → Option ℕ
  counter [] i = none
  counter (n ∷ tree) zero = some n.active_children
  counter (n ∷ tree) (suc i) = counter tree i

  abbrev pub parent_in : ComponentTree C S → NodeId → Option NodeId
  parent_in [] i = none
  parent_in (n ∷ tree) zero = n.parent
  parent_in (n ∷ tree) (suc i) = parent_in tree i

  -- Each node counts its children that have state, and each parent is a node.
  pub record IsCounted (tree : ComponentTree C S) : Type 0 where
    pub counted : (i k : ℕ) → counter tree i ≡ some k → k ≡ count i tree
    pub parents : (j p : ℕ) → parent_in tree j ≡ some p → p < length tree

  pub count-update :
      (i j : NodeId) (f : ComponentNode C S → ComponentNode C S) (tree : ComponentTree C S)
      (n : ComponentNode C S)
      → get_elem? tree j ≡ some n
      → count i (update j f tree) + bit (is_active i n) ≡ count i tree + bit (is_active i (f n))
  count-update i j f [] n h = cc
  count-update i zero f (m ∷ tree) n h = rw (some-injective m n h) (omega arith)
  count-update i (suc j) f (m ∷ tree) n h = omega (arith, count-update i j f tree n h)

  pub count-update_same :
      (i j : NodeId) (f : ComponentNode C S → ComponentNode C S) (tree : ComponentTree C S)
      → ((n : ComponentNode C S) → is_active i (f n) ≡ is_active i n)
      → count i (update j f tree) ≡ count i tree
  count-update_same i j f [] h = refl
  count-update_same i zero f (m ∷ tree) h = rw (h m) refl
  count-update_same i (suc j) f (m ∷ tree) h = omega (arith, count-update_same i j f tree h)

  pub counter-update_same :
      (i j : NodeId) (f : ComponentNode C S → ComponentNode C S) (tree : ComponentTree C S)
      → ((n : ComponentNode C S) → (f n).active_children ≡ n.active_children)
      → counter (update j f tree) i ≡ counter tree i
  counter-update_same i j f [] h = refl
  counter-update_same zero zero f (m ∷ tree) h = ap some (h m)
  counter-update_same (suc i) zero f (m ∷ tree) h = refl
  counter-update_same zero (suc j) f (m ∷ tree) h = refl
  counter-update_same (suc i) (suc j) f (m ∷ tree) h = counter-update_same i j f tree h

  pub parent_in-update :
      (i j : NodeId) (f : ComponentNode C S → ComponentNode C S) (tree : ComponentTree C S)
      → ((n : ComponentNode C S) → (f n).parent ≡ n.parent)
      → parent_in (update j f tree) i ≡ parent_in tree i
  parent_in-update i j f [] h = refl
  parent_in-update zero zero f (m ∷ tree) h = h m
  parent_in-update (suc i) zero f (m ∷ tree) h = refl
  parent_in-update zero (suc j) f (m ∷ tree) h = refl
  parent_in-update (suc i) (suc j) f (m ∷ tree) h = parent_in-update i j f tree h

  pub length-update :
      (j : NodeId) (f : ComponentNode C S → ComponentNode C S) (tree : ComponentTree C S)
      → length (update j f tree) ≡ length tree
  length-update j f [] = refl
  length-update zero f (m ∷ tree) = refl
  length-update (suc j) f (m ∷ tree) = ap suc (length-update j f tree)

  -- The counter of the updated node alone changes.
  pub counter-update :
      (i j : NodeId) (f : ComponentNode C S → ComponentNode C S) (g : ℕ → ℕ)
      (tree : ComponentTree C S) (k : ℕ)
      → ((n : ComponentNode C S) → (f n).active_children ≡ g n.active_children)
      → counter (update j f tree) i ≡ some k
      → (k' : ℕ) × (counter tree i ≡ some k') × (k ≡ (if j == i then g k' else k'))
  counter-update i j f g [] k h e = cc
  counter-update zero zero f g (m ∷ tree) k h e =
      (m.active_children, refl, sym (some-injective (f m).active_children k e) ∙ h m)
  counter-update (suc i) zero f g (m ∷ tree) k h e = (k, e, ground arith)
  counter-update zero (suc j) f g (m ∷ tree) k h e = (k, e, ground arith)
  counter-update (suc i) (suc j) f g (m ∷ tree) k h e =
      let (k', found, whole) = counter-update i j f g tree k h e in
      (k', found, whole ∙ rw (suc==suc j i) refl)

  pub parent-get :
      (tree : ComponentTree C S) (i : NodeId) (n : ComponentNode C S)
      → get_elem? tree i ≡ some n
      → parent_in tree i ≡ n.parent
  parent-get [] i n h = cc
  parent-get (m ∷ tree) zero n h = ap (λ (o : ComponentNode C S). o.parent) (some-injective m n h)
  parent-get (m ∷ tree) (suc i) n h = parent-get tree i n h

  -- A node that gets state gets one more active child for its parent, and no one else.
  pub activated-IsCounted :
      (j : NodeId) (s : S) (tree : ComponentTree C S) (n : ComponentNode C S) (p : NodeId)
      → IsCounted tree
      → get_elem? tree j ≡ some n
      → n.state ≡ none
      → n.parent ≡ some p
      → IsCounted (update p activate (update j (λ m. record m { state = some s }) tree))
  activated-IsCounted j s tree n p v h fresh below = record {
    counted = λ i k e.
        let t = update j (λ (m : ComponentNode C S). record m { state = some s }) tree in
        let (k', found, whole) = counter-update i p activate suc t k (λ _. refl) e in
        let before = v.counted i k' (
          sym (counter-update_same i j (λ m. record m { state = some s }) tree (λ _. refl))
          ∙ found) in
        let change =
          rw (fresh, below) at (count-update i j (λ m. record m { state = some s }) tree n h) in
        let keep = count-update_same i p activate t (λ _. refl) in
        one_more k k' (count i tree) (count i t) (p == i) whole before change ∙ sym keep;
    parents = λ i q e.
        let t = update j (λ (m : ComponentNode C S). record m { state = some s }) tree in
        let before = v.parents i q (
          sym (
            parent_in-update i p activate t (λ _. refl)
            ∙ parent_in-update i j (λ m. record m { state = some s }) tree (λ _. refl))
          ∙ e) in
        omega (
          arith,
          before,
          length-update p activate t,
          length-update j (λ m. record m { state = some s }) tree,
        );
  }
