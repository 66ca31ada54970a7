-- ===== src/Cocoa/Tree/Node.antt =====
-- crates/trelis-cocoa/src/tree/node.rs: a node of the ratchet tree is populated with key material
-- or blank. Hashes, identities, keys and signatures are the bytes that they are made of.
use trelis.Common.{
  ℕ, List, [], ◌∷◌, ◌++◌, Option, none, some, Bool, true, false, ◌==◌, ◌||◌, if◌then◌else◌,
}
use trelis.Hybrid.Keys.{HybridKemPublicKey, HybridSignature}
use trelis.Cocoa.Tree.Index
use trelis.Cocoa.Tree.Index.{NodeIndex}

pub record UpdateOrigin : Type 0 where
  pub epoch : ℕ
  pub sequence : ℕ
  pub timestamp : ℕ

pub record PopulatedNodeData : Type 0 where
  pub public_key : HybridKemPublicKey
  pub predecessor_key : Option HybridKemPublicKey
  pub parent_hash : List ℕ × List ℕ
  pub last_updater_id : List ℕ
  pub update_signature : HybridSignature
  pub transcript_hash : List ℕ
  pub confirmation_tag : List ℕ
  pub origin : UpdateOrigin

pub data NodeState : Type 0 where
  populated : PopulatedNodeData → NodeState
  -- With the positions of the leaves that have not merged an update through the node.
  blank : List ℕ → NodeState

abbrev pub new_blank_state : NodeState
new_blank_state = blank []

unfoldable pub is_blank : NodeState → Bool
is_blank (populated d) = false
is_blank (blank unmerged) = true

unfoldable pub is_populated : NodeState → Bool
is_populated (populated d) = true
is_populated (blank unmerged) = false

unfoldable pub public_key : NodeState → Option HybridKemPublicKey
public_key (populated d) = some d.public_key
public_key (blank unmerged) = none

unfoldable pub predecessor_key : NodeState → Option HybridKemPublicKey
predecessor_key (populated d) = d.predecessor_key
predecessor_key (blank unmerged) = none

unfoldable pub parent_hash : NodeState → Option (List ℕ × List ℕ)
parent_hash (populated d) = some d.parent_hash
parent_hash (blank unmerged) = none

unfoldable pub last_updater_id : NodeState → Option (List ℕ)
last_updater_id (populated d) = some d.last_updater_id
last_updater_id (blank unmerged) = none

unfoldable pub unmerged_leaves : NodeState → Option (List ℕ)
unmerged_leaves (populated d) = none
unmerged_leaves (blank unmerged) = some unmerged

unfoldable pub contains : List ℕ → ℕ → Bool
contains [] p = false
contains (q ∷ qs) p = p == q || contains qs p

-- `Vec::retain(|&pos| pos != leaf_position)`.
unfoldable pub without : ℕ → List ℕ → List ℕ
without p [] = []
without p (q ∷ qs) = let rest = without p qs in if q == p then rest else q ∷ rest

unfoldable pub add_unmerged_leaf : ℕ → NodeState → NodeState
unfolding contains
add_unmerged_leaf p (populated d) = populated d
add_unmerged_leaf p (blank unmerged) =
    if contains unmerged p then blank unmerged else blank (unmerged ++ (p ∷ []))

unfoldable pub remove_unmerged_leaf : ℕ → NodeState → NodeState
unfolding without
remove_unmerged_leaf p (populated d) = populated d
remove_unmerged_leaf p (blank unmerged) = blank (without p unmerged)

pub record TreeNode : Type 0 where
  pub index : NodeIndex
  pub state : NodeState

unfoldable pub new_populated : NodeIndex → PopulatedNodeData → TreeNode
new_populated index content = record { index = index; state = populated content }

unfoldable pub new_blank : NodeIndex → TreeNode
new_blank index = record { index = index; state = new_blank_state }

unfoldable pub is_leaf : TreeNode → ℕ → Bool
is_leaf n tree_depth = Index.is_leaf n.index tree_depth
