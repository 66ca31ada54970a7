-- ===== src/Cocoa/Tests.antt =====
-- Runs of crates/trelis-cocoa/src, some of them its own unit tests, and the theorems at inputs.
use mathlib.Core.Option
use trelis.Common.{
  ℕ, suc, ◌+◌, ◌^◌, ◌≤◌, ◌<◌, ◌≡◌, ◌↔◌, ◌⊎◌, refl, arith, List, [], ◌∷◌, none, some, true, All, In,
  length,
}
use trelis.Common.Outcome.{ok, err}
use trelis.Error.{CryptoError}
use trelis.Cocoa.Tree.Index.{
  NodeIndex, node, root, parent, left_child, right_child, sibling, to_linear, from_linear,
  is_descendant_of, bit_length,
}
use trelis.Common.Map
use trelis.Cocoa.Tree.Index
use trelis.Cocoa.Tree.Path.{path_to_root, copath, lowest_common_ancestor}
use trelis.Cocoa.Tree.Path.Meeting.{Meets, lowest_common_ancestor_lem}
use trelis.Cocoa.Tree.Path.Cover.{count_covering, copath_covers}
use trelis.Cocoa.Tree.Path.Line.{path_to_root_lem}
use trelis.Cocoa.Tree.Geometry.Family.{IsNode}
use trelis.Cocoa.Tree.Geometry.Linear.{from_linear-to_linear}
use trelis.Cocoa.Tree.Geometry.Ancestry.{Ancestor, is_descendant_of_iff}
use trelis.Cocoa.Tree.Node.{new_blank}
use trelis.Cocoa.Tree.View
use trelis.Cocoa.Tree.View.{
  PartialTreeView, insert_node, grow_tree, get_node, lower, depth_for_members, blank_node,
}
use trelis.Cocoa.Tree.View.Stored.{IsView, Step, inserts, Step-IsView, new-IsView}
use trelis.Cocoa.Tree.View.Growth.{below, get_node-grow_tree, depth_for_members_lem}
use trelis.Cocoa.Tree.Node.{TreeNode, PopulatedNodeData, populated}
use trelis.Cocoa.Tree.Resolution.{resolve, union}
use trelis.Cocoa.Tree.Resolution.Cover.{IsResolution, resolve_lem}
use trelis.Cocoa.Limits.{check_group_growth_limits, check_group_growth_limits_lem, max_group_size}
use trelis.Cocoa.Watermark
use trelis.Cocoa.Watermark.{SessionWatermark, check}
use trelis.Cocoa.Watermark.Order.{AtLeast, advance_all, check-advance_all}

path_to_root_test : path_to_root (node 3 5) ≡ node 3 5 ∷ node 2 2 ∷ node 1 1 ∷ node 0 0 ∷ []
unfolding path_to_root parent
path_to_root_test = refl

copath_test : copath (node 3 5) ≡ node 3 4 ∷ node 2 3 ∷ node 1 0 ∷ []
unfolding copath parent sibling
copath_test = refl

lowest_common_ancestor_test : lowest_common_ancestor (node 3 0) (node 3 3) ≡ some (node 1 0)
unfolding lowest_common_ancestor parent
lowest_common_ancestor_test = refl

lowest_common_ancestor_lem_example :
    (c : NodeIndex) × (lowest_common_ancestor (node 3 0) (node 2 1) ≡ some c)
    × Meets (node 3 0) (node 2 1) c
lowest_common_ancestor_lem_example =
    lowest_common_ancestor_lem (node 3 0) (node 2 1)
      (record { shallow = omega arith; on_level = omega arith })
      (record { shallow = omega arith; on_level = omega arith })

from_linear_test : from_linear 12 ≡ node 3 5
unfolding from_linear bit_length
from_linear_test = refl

fifth : IsNode (node 3 5)
fifth = record { shallow = omega arith; on_level = omega arith }

copath_covers_example : count_covering (node 3 2) (copath (node 3 5)) ≡ 1
copath_covers_example = copath_covers 3 5 2 (omega arith) (omega arith)

path_to_root_lem_example :
    (In (node 1 1) (path_to_root (node 3 5))
      ↔ ((node 1 1 ≡ node 3 5) ⊎ Ancestor (node 1 1) (node 3 5)))
    × (length (path_to_root (node 3 5)) ≡ suc 3)
    × In root (path_to_root (node 3 5))
path_to_root_lem_example = path_to_root_lem (node 3 5) (node 1 1) fifth

sibling_test : sibling (node 3 5) ≡ some (node 3 4)
unfolding sibling
sibling_test = refl

from_linear-to_linear_example : from_linear (to_linear (node 3 5)) ≡ node 3 5
from_linear-to_linear_example = from_linear-to_linear (node 3 5) fifth

is_descendant_of_iff_example :
    (is_descendant_of (node 3 5) (node 1 1) ≡ true) ↔ Ancestor (node 1 1) (node 3 5)
is_descendant_of_iff_example = is_descendant_of_iff (node 3 5) (node 1 1) fifth

-- The view of member 5 of a tree of depth 3, with one node.
abbrev small_view : PartialTreeView
small_view = insert_node (new_blank (node 1 1)) (View.new 5 3)

small-Step : Step (View.new 5 3) small_view
unfolding View.new new_blank
small-Step =
    inserts (new_blank (node 1 1)) (record { shallow = omega arith; on_level = omega arith })
      (omega arith)

Step-IsView_example : IsView small_view
Step-IsView_example = Step-IsView small-Step (new-IsView 5 3 (omega arith) (omega arith))

small_IsView : IsView small_view
small_IsView = Step-IsView small-Step (new-IsView 5 3 (omega arith) (omega arith))

shallow_tree : small_view.tree_depth < 31
unfolding insert_node View.new
shallow_tree = omega arith

get_node-grow_tree_example :
    (get_node (grow_tree small_view) (below (node 1 1))
      ≡ Option.map lower (get_node small_view (node 1 1)))
    × ((grow_tree small_view).our_leaf ≡ below small_view.our_leaf)
    × ((grow_tree small_view).tree_depth ≡ small_view.tree_depth + 1)
get_node-grow_tree_example =
    get_node-grow_tree small_view (node 1 1) small_IsView shallow_tree
      (record { shallow = omega arith; on_level = omega arith }) (omega arith)

depth_for_members_lem_example : (depth_for_members 5 ≤ 3) ↔ (5 ≤ 2 ^ 3)
depth_for_members_lem_example = depth_for_members_lem 5 3 (omega arith) (omega arith)

check_group_growth_limits_lem_example :
    ((check_group_growth_limits 1000 ≡ ok tt) ↔ (1000 ≤ max_group_size))
    × ((check_group_growth_limits 1000 ≡ err CryptoError.tree_depth_exceeded)
        ↔ (max_group_size < 1000))
check_group_growth_limits_lem_example =
    check_group_growth_limits_lem 1000 (omega arith) (omega arith)

abbrev history : List (ℕ × ℕ)
history = (3, 100) ∷ (4, 0) ∷ (3, 7) ∷ []

check-advance_all_example :
    (check (advance_all (Watermark.new 0 0) history) 4 2 ≡ ok tt)
    ↔ (AtLeast (4, 2) (0, 0) × All (AtLeast (4, 2)) history)
check-advance_all_example = check-advance_all (Watermark.new 0 0) history 4 2

-- A tree of depth 1 with a blank root and the key of its right leaf.
abbrev data_of_leaf : PopulatedNodeData
data_of_leaf = record {
  public_key = record { x448 = []; sntrup = [] };
  predecessor_key = none;
  parent_hash = ([], []);
  last_updater_id = [];
  update_signature = record { rsp = []; mldsa = [] };
  transcript_hash = [];
  confirmation_tag = [];
  origin = record { epoch = 0; sequence = 0; timestamp = 0 };
}

abbrev right_leaf : TreeNode
right_leaf = record { index = node 1 1; state = populated data_of_leaf }

abbrev two_leaves : PartialTreeView
two_leaves = insert_node right_leaf (insert_node (new_blank root) (View.new 1 1))

resolve_test : resolve (get_node two_leaves) 1 1 root ≡ some (node 1 1 ∷ [])
unfolding resolve get_node insert_node View.new new_blank to_linear left_child right_child union
    Map.get Map.insert Index.is_leaf
resolve_test = refl

resolve_lem_example :
    (rs : List NodeIndex) × (resolve (get_node two_leaves) 1 1 root ≡ some rs)
    × IsResolution (get_node two_leaves) 1 root rs
resolve_lem_example =
    resolve_lem (get_node two_leaves) 1 root
      (record { shallow = omega arith; on_level = omega arith }) (omega arith) (omega arith)
