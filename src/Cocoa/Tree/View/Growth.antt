-- ===== src/Cocoa/Tree/View/Growth.antt =====
-- `grow_tree` and `depth_for_members` of crates/trelis-cocoa/src/tree/view.rs.
use native.Mathlib.Nat.{pow-suc, pow-le-pow_right}
use mathlib.Core.Option
use trelis.Common.{
  ℕ, zero, suc, ◌+◌, ◌-◌, ◌/◌, ◌^◌, ◌≤◌, ◌<◌, ◌≡◌, ◌↔◌, refl, sym, ap, ◌∙◌, arith, List, [], ◌∷◌,
  Option, none, some, All, Bool, Bool-cases, inl, inr, ◌==◌, ==_iff, if◌then◌else◌,
}
use trelis.Common.Map.{IsSorted, get, insert}
use trelis.Common.Map.Laws.{get-insert, get_below}
use trelis.Cocoa.Tree.Index.{NodeIndex, node, to_linear, from_linear, bit_length}
use trelis.Cocoa.Tree.Geometry.Family.{IsNode}
use trelis.Cocoa.Tree.Geometry.Linear.{from_linear-to_linear}
use trelis.Cocoa.Tree.Node.{TreeNode}
use trelis.Cocoa.Tree.View.{PartialTreeView, get_node, lower, regrow, grow_tree, depth_for_members}
use trelis.Cocoa.Tree.View.Stored.{IsEntry, IsView, double}

-- The same position one level deeper.
abbrev pub below : NodeIndex → NodeIndex
below i = node (i.depth + 1) i.position

below-IsNode : (i : NodeIndex) → IsNode i → i.depth < 31 → IsNode (below i)
below-IsNode i v h = record {
  shallow = omega arith;
  on_level = omega (arith, v.on_level, double i.depth);
}

same_linear : (i j : NodeIndex) → IsNode i → IsNode j → to_linear i ≡ to_linear j → i ≡ j
same_linear i j v w e =
    sym (from_linear-to_linear i v) ∙ ap from_linear e ∙ from_linear-to_linear j w

-- Two nodes have different indices exactly when the nodes below them have.
below-match :
    (i j : NodeIndex)
    → IsNode i
    → IsNode j
    → i.depth < 31
    → j.depth < 31
    → (to_linear (below i) == to_linear (below j)) ≡ (to_linear i == to_linear j)
below-match i j v w h k = elim (Bool-cases (to_linear i == to_linear j)) [
  | inl same ↦
      let e : i ≡ j = same_linear i j v w ((==_iff _ _).0 same) in
      (==_iff _ _).1 (ap (λ (x : NodeIndex). to_linear (below x)) e) ∙ sym same
  | inr different ↦ elim (Bool-cases (to_linear (below i) == to_linear (below j))) [
    | inl same ↦
        let e : below i ≡ below j =
          same_linear (below i) (below j) (below-IsNode i v h) (below-IsNode j w k)
            ((==_iff _ _).0 same) in
        let depths : i.depth ≡ j.depth = omega (arith, ap (λ (x : NodeIndex). x.depth) e) in
        let places : i.position ≡ j.position = ap (λ (x : NodeIndex). x.position) e in
        same
        ∙ sym (
            (==_iff (to_linear i) (to_linear j)).1
              (unfold to_linear in omega (arith, depths, places, ap (λ (d : ℕ). 2 ^ d) depths)))
    | inr other ↦ other ∙ sym different
  ]
]

get-regrow :
    (d low : ℕ) (m acc : List (ℕ × TreeNode)) (i : NodeIndex)
    → d < 31
    → IsNode i
    → i.depth < 31
    → IsSorted low m
    → All (IsEntry d) m
    → get (to_linear (below i)) (regrow m acc) ≡ elim (get (to_linear i) m) [
      | none ↦ get (to_linear (below i)) acc
      | some n ↦ some (lower n)
    ]
unfolding regrow get lower
get-regrow d low [] acc i h v k s e = refl
get-regrow d low ((j, n) ∷ m) acc i h v k s e =
    let more =
      get-regrow d (suc j) m (insert (to_linear (below n.index)) (lower n) acc) i h v k s.1 e.1 in
    elim (Bool-cases (j == to_linear i)) [
      | inl hit ↦
          let absent : get (to_linear i) m ≡ none =
            get_below (to_linear i) (suc j) m s.1 (omega (arith, (==_iff j (to_linear i)).0 hit)) in
          rw (more, hit, absent)
            (added
              ∙ ap (λ (b : Bool). if b then some (lower n) else get (to_linear (below i)) acc) hit)
      | inr miss ↦
          rw (more, miss)
            (ap
              (λ (x : Option TreeNode). elim (get (to_linear i) m) [
                | none ↦ x
                | some n' ↦ some (lower n')
              ])
              (added
                ∙ ap (λ (b : Bool). if b then some (lower n) else get (to_linear (below i)) acc)
                    miss))
    ]
  where
    acc' : List (ℕ × TreeNode)
    acc' = insert (to_linear (below n.index)) (lower n) acc

    added :
        get (to_linear (below i)) acc'
        ≡ (if j == to_linear i then some (lower n) else get (to_linear (below i)) acc)
    added =
        get-insert (to_linear (below i)) (to_linear (below n.index)) (lower n) acc
        ∙ ap (λ (b : Bool). if b then some (lower n) else get (to_linear (below i)) acc)
            (below-match n.index i e.0.exists v (omega (arith, e.0.in_tree)) k
              ∙ ap (λ (x : ℕ). x == to_linear i) (sym e.0.keyed))

as_map :
    (o : Option TreeNode) → elim o [ none ↦ none | some n ↦ some (lower n) ] ≡ Option.map lower o
as_map none = refl
as_map (some n) = refl

-- After the tree has grown, a position one level down holds exactly what the position above held, as
-- a node of the new level with the old state, and our leaf has moved along. The tree and the position
-- leave room for one more level in 32-bit indices.
pub get_node-grow_tree :
    (v : PartialTreeView) (i : NodeIndex)
    → IsView v
    → v.tree_depth < 31
    → IsNode i
    → i.depth < 31
    → (get_node (grow_tree v) (below i) ≡ Option.map lower (get_node v i))
      × ((grow_tree v).our_leaf ≡ below v.our_leaf)
      × ((grow_tree v).tree_depth ≡ v.tree_depth + 1)
unfolding get_node grow_tree get
get_node-grow_tree v i w h e k = (
  get-regrow v.tree_depth 0 v.nodes [] i h e k w.sorted w.entries
      ∙ as_map (get (to_linear i) v.nodes),
  ap (λ (d : ℕ). node (d + 1) v.our_leaf.position) (sym w.our_leaf_deep),
  refl,
)

-- The bits of a number are enough to hold it, and no fewer are.
bit_length-enough : (fuel n : ℕ) → n < 2 ^ fuel → n < 2 ^ bit_length fuel n
unfolding bit_length
bit_length-enough zero n h = h
bit_length-enough (suc fuel) n h = ground (
  arith,
  bit_length-enough fuel (n / 2) (omega (arith, pow-suc 2 fuel)),
  pow-suc 2 (bit_length fuel (n / 2)),
)

bit_length-least : (fuel n d : ℕ) → n < 2 ^ d → bit_length fuel n ≤ d
unfolding bit_length
bit_length-least zero n d h = omega arith
bit_length-least (suc fuel) n zero h = ground arith
bit_length-least (suc fuel) n (suc d) h =
    ground (arith, bit_length-least fuel (n / 2) d (omega (arith, pow-suc 2 d)))

-- For a positive member count in 32 bits, the trees that have a leaf for every member are those at
-- least as deep as `depth_for_members` says.
pub depth_for_members_lem :
    (count d : ℕ) → 0 < count → count < 2 ^ 32 → (depth_for_members count ≤ d) ↔ (count ≤ 2 ^ d)
unfolding depth_for_members
depth_for_members_lem count d h k = (
  λ deep. omega (
    arith,
    enough,
    pow-le-pow_right {n = 2} (omega arith) {i = bit_length 32 (count - 1)} {j = d} (ground arith),
  ),
  λ fits. ground (arith, bit_length-least 32 (count - 1) d (omega arith)),
)
  where
    enough : count - 1 < 2 ^ bit_length 32 (count - 1)
    enough = bit_length-enough 32 (count - 1) (omega arith)
