-- ===== src/Cocoa/Tree/Resolution.antt =====
-- crates/trelis-cocoa/src/tree/resolution.rs: the populated nodes that stand for a subtree, and the
-- recipients of an update. A resolution is its list of nodes. `resolve` recurs on fuel, one for each
-- level below the node; `none` is for fuel that ran out.
pub mod Members
pub mod Cover
use trelis.Common.{
  ℕ, zero, suc, ◌-◌, List, [], ◌∷◌, ◌++◌, Option, none, some, Bool, true, false, ◌==◌, ◌||◌,
  if◌then◌else◌,
}
use trelis.Cocoa.Tree.Index.{NodeIndex, to_linear, left_child, right_child, sibling}
use trelis.Cocoa.Tree.Index
use trelis.Cocoa.Tree.Node.{TreeNode, is_populated}

-- `BTreeSet::contains` goes by the order of nodes, which is that of their linear indices.
unfoldable pub contains_node : List NodeIndex → NodeIndex → Bool
contains_node [] i = false
contains_node (j ∷ js) i = to_linear j == to_linear i || contains_node js i

-- The nodes of the second list that are not in the first.
unfoldable pub additions : List NodeIndex → List NodeIndex → List NodeIndex
unfolding contains_node
additions existing [] = []
additions existing (i ∷ is) =
    let rest = additions existing is in if contains_node existing i then rest else i ∷ rest

unfoldable pub union : List NodeIndex → List NodeIndex → List NodeIndex
unfolding additions
union nodes [] = nodes
union [] (i ∷ is) = i ∷ is
union (j ∷ js) (i ∷ is) = (j ∷ js) ++ additions (j ∷ js) (i ∷ is)

unfoldable pub both : Option (List NodeIndex) → Option (List NodeIndex) → Option (List NodeIndex)
both none right = none
both (some left) none = none
both (some left) (some right) = some (union left right)

-- What the source's trait `NodeLookup` provides.
module _ (get_node : NodeIndex → Option TreeNode) (tree_depth : ℕ) where
  unfoldable pub resolve : ℕ → NodeIndex → Option (List NodeIndex)
  unfolding both is_populated
  resolve zero index = elim (get_node index) [
    | none ↦ some []
    | some n ↦
        if is_populated n.state
        then some (index ∷ [])
        else (if Index.is_leaf index tree_depth then some [] else none)
  ]
  resolve (suc fuel) index =
      let below = both (resolve fuel (left_child index)) (resolve fuel (right_child index)) in
      elim (get_node index) [
        | none ↦ some []
        | some n ↦
            if is_populated n.state
            then some (index ∷ [])
            else (if Index.is_leaf index tree_depth then some [] else below)
      ]

  -- The fuel of a node: the levels below it.
  abbrev pub levels_below : NodeIndex → ℕ
  levels_below i = tree_depth - i.depth

  unfoldable pub resolve_all : List NodeIndex → List NodeIndex → Option (List NodeIndex)
  unfolding resolve
  resolve_all result [] = some result
  resolve_all result (i ∷ is) = elim (resolve (levels_below i) i) [
    | none ↦ none
    | some nodes ↦ resolve_all (union result nodes) is
  ]

  unfoldable pub resolve_set : List NodeIndex → Option (List NodeIndex)
  unfolding resolve_all
  resolve_set indices = resolve_all [] indices

  module _ (unmerged : NodeIndex → List NodeIndex) where
    collect_leaves : List NodeIndex → List NodeIndex → List NodeIndex
    collect_leaves result [] = result
    collect_leaves result (l ∷ ls) = collect_leaves (union result (l ∷ [])) ls

    collect : List NodeIndex → List NodeIndex → List NodeIndex
    collect result [] = result
    collect result (i ∷ is) = collect (collect_leaves result (unmerged i)) is

    unfoldable pub compute_lj : NodeIndex → Option (List NodeIndex)
    unfolding collect collect_leaves
    compute_lj path_node = elim (sibling path_node) [
      | none ↦ some []
      | some beside ↦ elim (resolve (levels_below beside) beside) [
        | none ↦ none
        | some resolution ↦ some (union resolution (collect [] resolution))
      ]
    ]
