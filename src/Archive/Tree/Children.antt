-- ===== src/Archive/Tree/Children.antt =====
-- `has_active_children` of crates/archive-trait/src/component_tree.rs, and the counts that it reads.
use tar_codec.Base.{
  ℕ, zero, suc, ◌-◌, ◌<◌, true, not, none, some, some-injective, [], ◌∷◌, get_elem?, ◌==◌,
  if◌then◌else◌, ◌≡◌, ◌↔◌, refl, sym, ap, ◌∙◌, arith, Bool-cases, inl, inr,
}
use tar_codec.Archive.Tree.{
  NodeId, ComponentNode, ComponentTree, update, deactivate, clear_state, has_active_children,
}
use tar_codec.Archive.Path.Split.{==_self}
use tar_codec.Archive.Tree.Counts.{
  is_active, bit, count, counter, IsCounted, counter-update_same, counter-update,
}

module _ {C S : Type 0} where
  count-active :
      (i j : NodeId) (tree : ComponentTree C S) (n : ComponentNode C S)
      → get_elem? tree j ≡ some n
      → is_active i n ≡ true
      → 0 < count i tree
  count-active i j [] n h active = cc
  count-active i zero (m ∷ tree) n h active =
      omega (arith, ap bit (ap (is_active i) (some-injective m n h) ∙ active))
  count-active i (suc j) (m ∷ tree) n h active = omega (arith, count-active i j tree n h active)

  counter-get :
      (i : NodeId) (tree : ComponentTree C S) (n : ComponentNode C S)
      → get_elem? tree i ≡ some n
      → counter tree i ≡ some n.active_children
  counter-get i [] n h = cc
  counter-get zero (m ∷ tree) n h =
      ap (λ (o : ComponentNode C S). some o.active_children) (some-injective m n h)
  counter-get (suc i) (m ∷ tree) n h = counter-get i tree n h

  active_children-positive :
      (i j : NodeId) (tree : ComponentTree C S) (parent n : ComponentNode C S)
      → IsCounted tree
      → get_elem? tree i ≡ some parent
      → get_elem? tree j ≡ some n
      → is_active i n ≡ true
      → 0 < parent.active_children
  active_children-positive i j tree parent n v above h active = omega (
    arith,
    v.counted i parent.active_children (counter-get i tree parent above),
    count-active i j tree n h active,
  )

  deactivated :
      (i j : NodeId) (tree : ComponentTree C S) (parent after : ComponentNode C S)
      → get_elem? tree i ≡ some parent
      → get_elem? (update i deactivate (update j (λ m. record m { state = none }) tree)) i
        ≡ some after
      → 0 < parent.active_children
      → suc after.active_children ≡ parent.active_children
  deactivated i j tree parent after above cleared positive =
      let t = update j (λ (m : ComponentNode C S). record m { state = none }) tree in
      let (k, found, whole) =
        counter-update i i deactivate (λ k. k - 1) t after.active_children (λ _. refl)
          (counter-get i (update i deactivate t) after cleared) in
      let same = some-injective k parent.active_children (
        sym found
        ∙ counter-update_same i j (λ m. record m { state = none }) tree (λ _. refl)
        ∙ counter-get i tree parent above) in
      one_off i after.active_children k parent.active_children whole same positive
    where
      one_off : (i a k c : ℕ) → a ≡ (if i == i then k - 1 else k) → k ≡ c → 0 < c → suc a ≡ c
      one_off i a k c e same positive = ground arith

  -- Clearing a node that has state takes 1 from its parent's count, which is not 0.
  pub clear_state-deactivates :
      (i j : NodeId) (s : S) (tree : ComponentTree C S) (parent n after : ComponentNode C S)
      → IsCounted tree
      → get_elem? tree i ≡ some parent
      → get_elem? tree j ≡ some n
      → n.state ≡ some s
      → n.parent ≡ some i
      → get_elem? (clear_state j tree) i ≡ some after
      → suc after.active_children ≡ parent.active_children
  unfolding clear_state
  clear_state-deactivates i j s tree parent n after v above h stated below cleared =
      deactivated i j tree parent after above
        (sym (rw (h, stated, below, clear_state) refl) ∙ cleared)
        (active_children-positive i j tree parent n v above h (rw (stated, below, ==_self i) refl))

  active-count :
      (i : NodeId) (tree : ComponentTree C S)
      → 0 < count i tree
      → (j : NodeId) × (n : ComponentNode C S) × (get_elem? tree j ≡ some n)
        × (is_active i n ≡ true)
  active-count i [] h = absurd (omega (arith, h))
  active-count i (m ∷ tree) h = elim (Bool-cases (is_active i m)) [
    | inl active ↦ (zero, m, refl, active)
    | inr idle ↦
        let (j, n, found, active) = active-count i tree (omega (arith, h, ap bit idle)) in
        (suc j, n, found, active)
  ]

  -- `has_active_children` holds of a node exactly when some node that has state is its child.
  pub has_active_children_iff :
      (i : NodeId) (tree : ComponentTree C S) (parent : ComponentNode C S)
      → IsCounted tree
      → get_elem? tree i ≡ some parent
      → (has_active_children tree i ≡ true) ↔ (
          (j : NodeId) × (n : ComponentNode C S) × (get_elem? tree j ≡ some n)
          × (is_active i n ≡ true))
  unfolding has_active_children
  has_active_children_iff i tree parent v above =
      let counted = v.counted i parent.active_children (counter-get i tree parent above) in
      rw above (
        λ h. active-count i tree (nonzero parent.active_children (count i tree) h counted),
        λ (j, n, found, active).
            positive parent.active_children (count i tree) counted
              (count-active i j tree n found active),
      )
    where
      nonzero : (a c : ℕ) → not (a == 0) ≡ true → a ≡ c → 0 < c
      nonzero a c h e = ground arith

      positive : (a c : ℕ) → a ≡ c → 0 < c → not (a == 0) ≡ true
      positive a c e h = ground arith
