-- ===== src/Cocoa/Tree/View.antt =====
-- crates/trelis-cocoa/src/tree/view.rs: the part of the tree that one member stores, keyed by linear
-- index.
pub mod Stored
pub mod Growth
use trelis.Common.{
  ℕ, suc, ◌+◌, ◌-◌, ◌*◌, ◌%◌, ◌^◌, List, [], ◌∷◌, ◌++◌, map, Option, none, some, Bool, true, false,
  ltb, ◌==◌, ◌&&◌, if◌then◌else◌, length, min,
}
use trelis.Common.Map.{get, insert, remove, update}
use trelis.Cocoa.Tree.Index.{NodeIndex, node, leaf, to_linear, bit_length}
use trelis.Cocoa.Tree.Path.{path_to_root, copath}
use trelis.Cocoa.Tree.Node.{
  NodeState, TreeNode, new_blank_state, unmerged_leaves, add_unmerged_leaf, remove_unmerged_leaf,
}

pub record PartialTreeView : Type 0 where
  pub nodes : List (ℕ × TreeNode)
  pub our_leaf : NodeIndex
  pub tree_depth : ℕ
  pub member_count : ℕ

unfoldable pub new : ℕ → ℕ → PartialTreeView
new our_leaf_position tree_depth = record {
  nodes = [];
  our_leaf = leaf tree_depth our_leaf_position;
  tree_depth = tree_depth;
  member_count = 0;
}

unfoldable pub set_member_count : ℕ → PartialTreeView → PartialTreeView
set_member_count count v = record v { member_count = count }

unfoldable pub our_path : PartialTreeView → List NodeIndex
our_path v = path_to_root v.our_leaf

unfoldable pub our_copath : PartialTreeView → List NodeIndex
our_copath v = copath v.our_leaf

unfoldable pub get_node : PartialTreeView → NodeIndex → Option TreeNode
get_node v i = get (to_linear i) v.nodes

unfoldable pub insert_node : TreeNode → PartialTreeView → PartialTreeView
insert_node n v = record v { nodes = insert (to_linear n.index) n v.nodes }

-- The view with the node taken out, and the node that was there.
unfoldable pub remove_node : NodeIndex → PartialTreeView → PartialTreeView × Option TreeNode
remove_node i v = (record v { nodes = remove (to_linear i) v.nodes }, get (to_linear i) v.nodes)

unfoldable pub contains_node : PartialTreeView → NodeIndex → Bool
unfolding get_node
contains_node v i = elim (get_node v i) [ none ↦ false | some _ ↦ true ]

-- The view after a caller of `get_mut` has changed the node behind the reference, if there is one.
unfoldable pub get_mut : NodeIndex → (TreeNode → TreeNode) → PartialTreeView → PartialTreeView
get_mut i f v = record v { nodes = update (to_linear i) f v.nodes }

-- A change of state through `get_mut`.
unfoldable pub update_state :
    NodeIndex → (NodeState → NodeState) → PartialTreeView → PartialTreeView
unfolding get_mut
update_state i f v = get_mut i (λ (n : TreeNode). record n { state = f n.state }) v

unfoldable pub blank_node : NodeIndex → PartialTreeView → PartialTreeView
unfolding update_state
blank_node i v = update_state i (λ _. new_blank_state) v

unfoldable pub add_unmerged : NodeIndex → ℕ → PartialTreeView → PartialTreeView
unfolding update_state
add_unmerged i leaf_position v = update_state i (add_unmerged_leaf leaf_position) v

unfoldable pub remove_unmerged : NodeIndex → ℕ → PartialTreeView → PartialTreeView
unfolding update_state
remove_unmerged i leaf_position v = update_state i (remove_unmerged_leaf leaf_position) v

-- `usize::saturating_add` on a 64-bit target.
abbrev pub saturating_add : ℕ → ℕ → ℕ
saturating_add a b = min (a + b) (2 ^ 64 - 1)

count_unmerged : ℕ → List (ℕ × TreeNode) → ℕ
count_unmerged acc [] = acc
count_unmerged acc ((k, n) ∷ m) =
    count_unmerged
      (elim (unmerged_leaves n.state) [
        | none ↦ acc
        | some leaves ↦ saturating_add acc (length leaves)
      ])
      m

unfoldable pub total_unmerged_leaves : PartialTreeView → ℕ
unfolding count_unmerged
total_unmerged_leaves v = count_unmerged 0 v.nodes

-- `32 - (count - 1).leading_zeros()`.
unfoldable pub depth_for_members : ℕ → ℕ
depth_for_members count = if count == 0 then 0 else bit_length 32 (count - 1)

contains_all : PartialTreeView → List NodeIndex → Bool
contains_all v [] = true
contains_all v (i ∷ is) = contains_node v i && contains_all v is

unfoldable pub path_is_complete : PartialTreeView → Bool
unfolding our_path contains_all
path_is_complete v = contains_all v (our_path v)

-- One level deeper, the same position: the old root becomes the left child of the new one.
unfoldable pub lower : TreeNode → TreeNode
lower n = record n { index = node (n.index.depth + 1) n.index.position }

unfoldable pub regrow : List (ℕ × TreeNode) → List (ℕ × TreeNode) → List (ℕ × TreeNode)
regrow [] new_nodes = new_nodes
regrow ((k, n) ∷ m) new_nodes = regrow m (insert (to_linear (lower n).index) (lower n) new_nodes)

unfoldable pub grow_tree : PartialTreeView → PartialTreeView
unfolding regrow lower
grow_tree v = record v {
  nodes = regrow v.nodes [];
  tree_depth = v.tree_depth + 1;
  our_leaf = leaf (v.tree_depth + 1) v.our_leaf.position;
}

unfoldable pub grow_if_needed : ℕ → PartialTreeView → PartialTreeView × Bool
unfolding grow_tree
grow_if_needed member_count v =
    if ltb v.tree_depth (depth_for_members member_count) then (grow_tree v, true) else (v, false)

-- `1 << tree_depth` on `u32`, for a depth below 32.
unfoldable pub capacity : PartialTreeView → ℕ
capacity v = if v.tree_depth == 0 then 1 else 2 ^ v.tree_depth

unfoldable pub needs_growth : ℕ → PartialTreeView → Bool
unfolding capacity
needs_growth member_count v = ltb (capacity v) member_count
