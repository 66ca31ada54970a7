-- ===== src/Cocoa/Tree/Path.antt =====
-- crates/trelis-cocoa/src/tree/path.rs: paths, co-paths, subtrees and lowest common ancestors. A
-- loop recurs on fuel: a node's depth is enough, as each round goes up one level. `none` in
-- `lowest_common_ancestor` is a panic of `expect`.
pub mod Line
pub mod Cover
pub mod Climb
pub mod Meeting
use trelis.Common.{
  ℕ, zero, suc, ◌+◌, ◌-◌, ◌*◌, ◌%◌, ◌^◌, List, [], ◌∷◌, Option, none, some, ltb, if◌then◌else◌,
  drop, length,
}
use trelis.Cocoa.Tree.Index.{NodeIndex, node, parent, sibling, node_eq}

unfoldable pub path_loop : ℕ → NodeIndex → List NodeIndex
path_loop zero current = []
path_loop (suc fuel) current = elim (parent current) [
  | none ↦ []
  | some above ↦ above ∷ path_loop fuel above
]

unfoldable pub path_to_root : NodeIndex → List NodeIndex
unfolding path_loop
path_to_root leaf = leaf ∷ path_loop leaf.depth leaf

unfoldable pub copath_loop : ℕ → NodeIndex → List NodeIndex
copath_loop zero current = []
copath_loop (suc fuel) current = elim (sibling current) [
  | none ↦ []
  | some beside ↦ beside ∷ elim (parent current) [ none ↦ [] | some above ↦ copath_loop fuel above ]
]

unfoldable pub copath : NodeIndex → List NodeIndex
unfolding copath_loop
copath leaf = copath_loop leaf.depth leaf

unfoldable pub direct_path : NodeIndex → List NodeIndex
unfolding path_to_root
direct_path leaf = let full = path_to_root leaf in if ltb 1 (length full) then drop 1 full else []

-- `(0..count).map(|i| NodeIndex::new(depth, start + i))`.
unfoldable pub run_of_nodes : ℕ → ℕ → ℕ → List NodeIndex
run_of_nodes zero depth start = []
run_of_nodes (suc count) depth start = node depth start ∷ run_of_nodes count depth (start + 1)

unfoldable pub nodes_at_depth : NodeIndex → ℕ → List NodeIndex
unfolding run_of_nodes
nodes_at_depth root target_depth =
    let diff = target_depth - root.depth in
    if ltb target_depth root.depth
    then []
    else run_of_nodes (2 ^ diff) target_depth (root.position * 2 ^ diff % 2 ^ 32)

unfoldable pub leaves_in_subtree : NodeIndex → ℕ → List NodeIndex
unfolding nodes_at_depth
leaves_in_subtree i tree_depth = nodes_at_depth i tree_depth

-- `while node.depth > depth { node = node.parent().expect(..) }`.
pub raise : ℕ → NodeIndex → ℕ → Option NodeIndex
raise zero current depth = if ltb depth current.depth then none else some current
raise (suc fuel) current depth =
    let again : Option NodeIndex = elim (parent current) [
      | none ↦ none
      | some above ↦ raise fuel above depth
    ] in
    if ltb depth current.depth then again else some current

-- `while a != b { a = a.parent().expect(..); b = b.parent().expect(..) }`.
pub meet : ℕ → NodeIndex → NodeIndex → Option NodeIndex
meet zero a b = if node_eq a b then some a else none
meet (suc fuel) a b =
    let again : Option NodeIndex = elim (parent a) [
      | none ↦ none
      | some above_a ↦ elim (parent b) [ none ↦ none | some above_b ↦ meet fuel above_a above_b ]
    ] in
    if node_eq a b then some a else again

unfoldable pub lowest_common_ancestor : NodeIndex → NodeIndex → Option NodeIndex
unfolding raise meet
lowest_common_ancestor a b = elim (raise a.depth a b.depth) [
  | none ↦ none
  | some a' ↦ elim (raise b.depth b a'.depth) [ none ↦ none | some b' ↦ meet a'.depth a' b' ]
]
