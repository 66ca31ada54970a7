-- ===== src/Cocoa/Tree/Geometry/Family.antt =====
-- Parent, children and siblings of a node that exists.
use native.Mathlib.Nat.{pow-suc, pow-le-pow_right}
use trelis.Common.{
  ℕ, zero, suc, ◌+◌, ◌-◌, ◌*◌, ◌/◌, ◌%◌, ◌^◌, ◌≤◌, ◌<◌, ◌≡◌, refl, sym, ap, subst, ◌∙◌, arith, ◌≢◌,
  none, some, some_eq,
}
use trelis.Common.Bits.{bit_xor-one}
use trelis.Cocoa.Tree.Index.{NodeIndex, node, parent, left_child, right_child, sibling}

-- The node lies in a tree whose indices fit `u32`.
pub record IsNode (i : NodeIndex) : Type 0 where
  pub shallow : i.depth < 32
  pub on_level : i.position < 2 ^ i.depth

pow_bound : (d : ℕ) → d < 32 → 2 ^ d ≤ 2 ^ 31
pow_bound d h = pow-le-pow_right {n = 2} (omega arith) {i = d} {j = 31} (omega arith)

parent-left_child : (i : NodeIndex) → IsNode i → i.depth < 31 → parent (left_child i) ≡ some i
unfolding parent left_child
parent-left_child i v h = ground (arith, pow_bound i.depth)

parent-right_child : (i : NodeIndex) → IsNode i → i.depth < 31 → parent (right_child i) ≡ some i
unfolding parent right_child
parent-right_child i v h = ground (arith, pow_bound i.depth)

-- Both children of a node above level 31 are nodes, and it is the parent of both.
pub children :
    (i : NodeIndex)
    → IsNode i
    → i.depth < 31
    → IsNode (left_child i)
      × IsNode (right_child i)
      × (parent (left_child i) ≡ some i)
      × (parent (right_child i) ≡ some i)
unfolding left_child right_child
children i v h = (
  record { shallow = omega arith; on_level = omega (arith, pow_bound i.depth, deeper) },
  record { shallow = omega arith; on_level = omega (arith, pow_bound i.depth, deeper) },
  parent-left_child i v h,
  parent-right_child i v h,
)
  where
    deeper : 2 ^ ((i.depth + 1) % 2 ^ 32) ≡ 2 ^ i.depth * 2
    deeper = ap (λ (n : ℕ). 2 ^ n) {y = suc i.depth} (omega arith) ∙ pow-suc 2 i.depth

pub parent-suc : (d p : ℕ) → parent (node (suc d) p) ≡ some (node d (p / 2))
unfolding parent
parent-suc d p = ground arith

pub parent-zero : (p : ℕ) → parent (node zero p) ≡ none
unfolding parent
parent-zero p = refl

parent_from : (d p : ℕ) (q : NodeIndex) → IsNode (node d p) → parent (node d p) ≡ some q → IsNode q
parent_from zero p q v e = cc (parent-zero p)
parent_from (suc d) p q v e =
    subst IsNode (some_eq (sym (parent-suc d p) ∙ e))
      (record { shallow = omega arith; on_level = omega (arith, pow-suc 2 d, v.on_level) })

pub parent-IsNode : (i p : NodeIndex) → IsNode i → parent i ≡ some p → IsNode p
parent-IsNode i p v e = parent_from i.depth i.position p v e

-- The position of the sibling.
abbrev pub beside : ℕ → ℕ
beside p = p / 2 * 2 + (1 - p % 2)

pub sibling-suc : (d p : ℕ) → sibling (node (suc d) p) ≡ some (node (suc d) (beside p))
unfolding sibling
sibling-suc d p = ground (arith, bit_xor-one p)

sibling_from :
    (d p : ℕ) (j : NodeIndex)
    → IsNode (node d p)
    → sibling (node d p) ≡ some j
    → IsNode j × (sibling j ≡ some (node d p)) × (parent j ≡ parent (node d p)) × (p ≢ j.position)
sibling_from zero p j v e = unfold sibling in cc e
sibling_from (suc d) p j v e =
    subst
      (λ j.
        IsNode j
        × (sibling j ≡ some (node (suc d) p))
        × (parent j ≡ parent (node (suc d) p))
        × (p ≢ j.position))
      (some_eq (sym (sibling-suc d p) ∙ e))
      (
        record { shallow = v.shallow; on_level = omega (arith, pow-suc 2 d, v.on_level) },
        sibling-suc d (beside p) ∙ ap (λ (n : ℕ). some (node (suc d) n)) (omega arith),
        parent-suc d (beside p)
            ∙ ap (λ (n : ℕ). some (node d n)) (omega arith)
            ∙ sym (parent-suc d p),
        λ h. omega arith,
      )

-- A sibling of a node is another node with the same parent, and siblings are each other's.
pub sibling_pair :
    (i j : NodeIndex)
    → IsNode i
    → sibling i ≡ some j
    → IsNode j × (sibling j ≡ some i) × (parent j ≡ parent i) × (i.position ≢ j.position)
sibling_pair i j v e = sibling_from i.depth i.position j v e
