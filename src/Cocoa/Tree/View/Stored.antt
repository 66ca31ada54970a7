-- ===== src/Cocoa/Tree/View/Stored.antt =====
-- What makes a view of crates/trelis-cocoa/src/tree/view.rs well formed, and the calls that change
-- one.
use native.Mathlib.Nat.{pow-suc}
use trelis.Common.{
  ℕ, suc, ◌+◌, ◌*◌, ◌^◌, ltb, Bool-cases, inl, inr, ◌≤◌, ◌<◌, ◌≡◌, refl, sym, ap, subst, ◌∙◌, arith,
  List, [], ◌∷◌, All,
}
use trelis.Common.Map.{IsSorted, insert}
use trelis.Common.Map.Laws.{
  insert-IsSorted, remove-IsSorted, update-IsSorted, insert-All, remove-All, update-All,
}
use trelis.Cocoa.Tree.Index.{NodeIndex, to_linear}
use trelis.Cocoa.Tree.Geometry.Family.{IsNode}
use trelis.Cocoa.Tree.Node.{NodeState, TreeNode}
use trelis.Cocoa.Tree.View.{
  PartialTreeView, new, set_member_count, insert_node, remove_node, get_mut, update_state,
  blank_node, add_unmerged, remove_unmerged, lower, regrow, grow_tree, grow_if_needed,
  depth_for_members,
}

-- An entry of a view of the given depth: a node of the tree under its own linear index.
pub record IsEntry (tree_depth : ℕ) (e : ℕ × TreeNode) : Type 0 where
  pub keyed : e.0 ≡ to_linear e.1.index
  pub exists : IsNode e.1.index
  pub in_tree : e.1.index.depth ≤ tree_depth

pub record IsView (v : PartialTreeView) : Type 0 where
  pub sorted : IsSorted 0 v.nodes
  pub entries : All (IsEntry v.tree_depth) v.nodes
  pub our_leaf_deep : v.our_leaf.depth ≡ v.tree_depth
  pub our_leaf_exists : IsNode v.our_leaf

-- One call that changes a view. A node that is inserted lies in the tree, which `insert` does not
-- check; a change through `get_mut` leaves the node its index; a tree that grows has room for another
-- level in 32-bit indices.
pub data Step : PartialTreeView → PartialTreeView → Type 0 where
  inserts :
      {v : PartialTreeView} (n : TreeNode)
      → IsNode n.index
      → n.index.depth ≤ v.tree_depth
      → Step v (insert_node n v)
  changes :
      {v : PartialTreeView} (i : NodeIndex) (f : TreeNode → TreeNode)
      → ((n : TreeNode) → (f n).index ≡ n.index)
      → Step v (get_mut i f v)
  removes : {v : PartialTreeView} (i : NodeIndex) → Step v (remove_node i v).0
  blanks : {v : PartialTreeView} (i : NodeIndex) → Step v (blank_node i v)
  adds_unmerged : {v : PartialTreeView} (i : NodeIndex) (p : ℕ) → Step v (add_unmerged i p v)
  removes_unmerged : {v : PartialTreeView} (i : NodeIndex) (p : ℕ) → Step v (remove_unmerged i p v)
  counts : {v : PartialTreeView} (n : ℕ) → Step v (set_member_count n v)
  deepens : {v : PartialTreeView} → v.tree_depth < 31 → Step v (grow_tree v)
  grows : {v : PartialTreeView} (n : ℕ) → v.tree_depth < 31 → Step v (grow_if_needed n v).0

kept-IsEntry :
    (d k : ℕ) (n n' : TreeNode) → n'.index ≡ n.index → IsEntry d (k, n) → IsEntry d (k, n')
kept-IsEntry d k n n' same e = record {
  keyed = e.keyed ∙ ap to_linear (sym same);
  exists = subst IsNode (sym same) e.exists;
  in_tree = subst (λ (i : NodeIndex). i.depth ≤ d) (sym same) e.in_tree;
}

get_mut-IsView :
    (i : NodeIndex) (f : TreeNode → TreeNode) (v : PartialTreeView)
    → ((n : TreeNode) → (f n).index ≡ n.index)
    → IsView v
    → IsView (get_mut i f v)
unfolding get_mut
get_mut-IsView i f v same h = record {
  sorted = update-IsSorted (to_linear i) 0 f v.nodes h.sorted;
  entries =
      update-All (IsEntry v.tree_depth) (to_linear i) f v.nodes
        (λ k n e. kept-IsEntry v.tree_depth k n (f n) (same n) e) h.entries;
  our_leaf_deep = h.our_leaf_deep;
  our_leaf_exists = h.our_leaf_exists;
}

update_state-IsView :
    (i : NodeIndex) (f : NodeState → NodeState) (v : PartialTreeView)
    → IsView v
    → IsView (update_state i f v)
unfolding update_state
update_state-IsView i f v h = get_mut-IsView i _ v (λ n. refl) h

pub double : (d : ℕ) → 2 ^ (d + 1) ≡ 2 ^ d * 2
double d = ap (λ (n : ℕ). 2 ^ n) {y = suc d} (omega arith) ∙ pow-suc 2 d

pub lower-IsEntry :
    (d : ℕ) (n : TreeNode)
    → d < 31
    → IsNode n.index
    → n.index.depth ≤ d
    → IsEntry (d + 1) (to_linear (lower n).index, lower n)
unfolding lower
lower-IsEntry d n h e i = record {
  keyed = refl;
  exists = record {
    shallow = omega arith;
    on_level = omega (arith, e.on_level, double n.index.depth);
  };
  in_tree = omega arith;
}

regrow-holds :
    (d : ℕ) (m acc : List (ℕ × TreeNode))
    → d < 31
    → All (IsEntry d) m
    → IsSorted 0 acc
    → All (IsEntry (d + 1)) acc
    → IsSorted 0 (regrow m acc) × All (IsEntry (d + 1)) (regrow m acc)
unfolding regrow
regrow-holds d [] acc h e s a = (s, a)
regrow-holds d ((k, n) ∷ m) acc h e s a =
    regrow-holds d m (insert (to_linear (lower n).index) (lower n) acc) h e.1
      (insert-IsSorted (to_linear (lower n).index) 0 (lower n) acc (omega arith) s)
      (insert-All (IsEntry (d + 1)) (to_linear (lower n).index) (lower n) acc
        (lower-IsEntry d n h e.0.exists e.0.in_tree) a)

grow_tree-IsView : (v : PartialTreeView) → v.tree_depth < 31 → IsView v → IsView (grow_tree v)
unfolding grow_tree
grow_tree-IsView v h i =
    let kept = regrow-holds v.tree_depth v.nodes [] h i.entries tt tt in
    record {
      sorted = kept.0;
      entries = kept.1;
      our_leaf_deep = refl;
      our_leaf_exists = record {
        shallow = omega arith;
        on_level = omega (
          arith,
          i.our_leaf_exists.on_level,
          double v.tree_depth,
          ap (λ (d : ℕ). 2 ^ d) i.our_leaf_deep,
        );
      };
    }

-- Each of the calls that change a view keeps it a view: the nodes stay in ascending order of their
-- linear indices, each under its own index and within the tree, and our leaf stays on the last level.
-- A node that is inserted lies in the tree, a change through `get_mut` leaves the node its index, and
-- a tree that grows is less than 31 levels deep.
pub Step-IsView : {v w : PartialTreeView} → Step v w → IsView v → IsView w
unfolding insert_node remove_node blank_node add_unmerged remove_unmerged set_member_count
    grow_if_needed
Step-IsView (inserts {v} n e d) h = record {
  sorted = insert-IsSorted (to_linear n.index) 0 n v.nodes (omega arith) h.sorted;
  entries =
      insert-All (IsEntry v.tree_depth) (to_linear n.index) n v.nodes
        (record { keyed = refl; exists = e; in_tree = d }) h.entries;
  our_leaf_deep = h.our_leaf_deep;
  our_leaf_exists = h.our_leaf_exists;
}
Step-IsView (changes {v} i f same) h = get_mut-IsView i f v same h
Step-IsView (deepens {v} d) h = grow_tree-IsView v d h
Step-IsView (removes {v} i) h = record {
  sorted = remove-IsSorted (to_linear i) 0 v.nodes h.sorted;
  entries = remove-All (IsEntry v.tree_depth) (to_linear i) v.nodes h.entries;
  our_leaf_deep = h.our_leaf_deep;
  our_leaf_exists = h.our_leaf_exists;
}
Step-IsView (blanks {v} i) h = update_state-IsView i _ v h
Step-IsView (adds_unmerged {v} i p) h = update_state-IsView i _ v h
Step-IsView (removes_unmerged {v} i p) h = update_state-IsView i _ v h
Step-IsView (counts {v} n) h = record {
  sorted = h.sorted;
  entries = h.entries;
  our_leaf_deep = h.our_leaf_deep;
  our_leaf_exists = h.our_leaf_exists;
}
Step-IsView (grows {v} n d) h = elim (Bool-cases (ltb v.tree_depth (depth_for_members n))) [
  | inl more ↦ rw (more) (grow_tree-IsView v d h)
  | inr enough ↦ rw (enough) h
]

-- A new view holds no node and is one.
pub new-IsView : (p d : ℕ) → d < 32 → p < 2 ^ d → IsView (new p d)
unfolding new
new-IsView p d h k = record {
  sorted = tt;
  entries = tt;
  our_leaf_deep = refl;
  our_leaf_exists = record { shallow = h; on_level = k };
}
