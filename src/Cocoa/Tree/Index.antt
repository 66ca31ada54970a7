-- ===== src/Cocoa/Tree/Index.antt =====
-- crates/trelis-cocoa/src/tree/index.rs: a node is named by its depth (0 is the root) and its
-- position at that depth. Fields are `u32`; linear indices are `u64`.
use trelis.Common.{
  ℕ, zero, suc, ◌+◌, ◌-◌, ◌*◌, ◌/◌, ◌%◌, ◌^◌, List, ◌++◌, Option, none, some, Bool, ltb, leb, ◌==◌,
  if◌then◌else◌, slice,
}
use trelis.Common.Bytes.{to_le_bytes, from_le_bytes}
use Prim.Native.Nat.{bit_xor}

pub record NodeIndex : Type 0 where
  pub depth : ℕ
  pub position : ℕ

abbrev pub node : ℕ → ℕ → NodeIndex
node depth position = record { depth = depth; position = position }

abbrev pub root : NodeIndex
root = node 0 0

abbrev pub leaf : ℕ → ℕ → NodeIndex
leaf tree_depth leaf_position = node tree_depth leaf_position

unfoldable pub is_root : NodeIndex → Bool
is_root i = i.depth == 0

unfoldable pub is_leaf : NodeIndex → ℕ → Bool
is_leaf i tree_depth = i.depth == tree_depth

unfoldable pub parent : NodeIndex → Option NodeIndex
parent i = if i.depth == 0 then none else some (node (i.depth - 1) (i.position / 2))

-- `u32` arithmetic panics on overflow in debug builds and wraps in release builds; here it wraps.
unfoldable pub left_child : NodeIndex → NodeIndex
left_child i = node ((i.depth + 1) % 2 ^ 32) (i.position * 2 % 2 ^ 32)

unfoldable pub right_child : NodeIndex → NodeIndex
right_child i = node ((i.depth + 1) % 2 ^ 32) ((i.position * 2 + 1) % 2 ^ 32)

unfoldable pub sibling : NodeIndex → Option NodeIndex
sibling i = if i.depth == 0 then none else some (node i.depth (bit_xor i.position 1))

unfoldable pub is_left_child : NodeIndex → Bool
is_left_child i = i.position % 2 == 0

unfoldable pub is_right_child : NodeIndex → Bool
is_right_child i = i.position % 2 == 1

-- `self.position >> depth_diff`, for a difference below 32, as between the depths of a tree.
unfoldable pub is_descendant_of : NodeIndex → NodeIndex → Bool
is_descendant_of i other =
    if leb i.depth other.depth
    then Bool.false
    else i.position / 2 ^ (i.depth - other.depth) == other.position

unfoldable pub is_ancestor_of : NodeIndex → NodeIndex → Bool
unfolding is_descendant_of
is_ancestor_of i other = is_descendant_of other i

-- `(1u64 << depth) - 1 + position`, for a depth below 64.
unfoldable pub to_linear : NodeIndex → ℕ
to_linear i = 2 ^ i.depth - 1 + i.position

-- `64 - n.leading_zeros()`: the bits that `n` needs. The fuel is the width of the word.
unfoldable pub bit_length : ℕ → ℕ → ℕ
bit_length zero n = 0
bit_length (suc fuel) n = let rest = bit_length fuel (n / 2) in if n == 0 then 0 else suc rest

unfoldable pub from_linear : ℕ → NodeIndex
from_linear linear =
    if linear == 0
    then root
    else let depth = bit_length 64 (linear + 1) - 1 in
      node depth ((linear - (2 ^ depth - 1)) % 2 ^ 32)

unfoldable pub to_bytes : NodeIndex → List ℕ
to_bytes i = to_le_bytes 4 i.depth ++ to_le_bytes 4 i.position

unfoldable pub from_bytes : List ℕ → NodeIndex
from_bytes bytes = node (from_le_bytes (slice bytes 0 4)) (from_le_bytes (slice bytes 4 4))

-- The order of nodes is that of their linear indices.
unfoldable pub node_lt : NodeIndex → NodeIndex → Bool
unfolding to_linear
node_lt i j = ltb (to_linear i) (to_linear j)

abbrev pub node_eq : NodeIndex → NodeIndex → Bool
node_eq i j = if i.depth == j.depth then i.position == j.position else Bool.false
