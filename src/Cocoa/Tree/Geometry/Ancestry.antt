-- ===== src/Cocoa/Tree/Geometry/Ancestry.antt =====
-- `is_descendant_of` of crates/trelis-cocoa/src/tree/index.rs, which shifts a position, and the
-- relation that steps from a node to its parent generate.
use native.Mathlib.Nat.{div-div-eq-div-mul, pow-succ'}
use mathlib.Core.Bool.{false≢true}
use trelis.Common.{
  ℕ, zero, suc, ◌-◌, ◌/◌, ◌^◌, ◌≤◌, ◌<◌, ◌≡◌, refl, sym, ap, ◌∙◌, subst, arith, ◌↔◌, some, some_eq,
  true, false, ltb, ltb→lt, ltb-false, ◌==◌, ==_iff, Bool-cases, inl, inr,
}
use trelis.Cocoa.Tree.Index.{NodeIndex, node, parent, is_descendant_of}
use trelis.Cocoa.Tree.Geometry.Family.{IsNode, parent-suc, parent-zero}

-- `a` is a proper ancestor of the index.
pub data Ancestor (a : NodeIndex) : NodeIndex → Type 0 where
  parent_of : {i : NodeIndex} → parent i ≡ some a → Ancestor a i
  further : {i p : NodeIndex} → parent i ≡ some p → Ancestor a p → Ancestor a i

pub halve_pow : (k p : ℕ) → p / 2 ^ suc k ≡ p / 2 / 2 ^ k
halve_pow k p = ap (λ (n : ℕ). p / n) (pow-succ' 2 k) ∙ sym (div-div-eq-div-mul p 2 (2 ^ k))

-- One level further down, the same test.
pub is_descendant_of_step :
    (d p : ℕ) (a : NodeIndex)
    → a.depth < d
    → is_descendant_of (node (suc d) p) a ≡ is_descendant_of (node d (p / 2)) a
unfolding is_descendant_of
is_descendant_of_step d p a h =
    ground (arith, halve_pow (d - a.depth) p, ap (λ (n : ℕ). p / 2 ^ n) up)
  where
    up : suc d - a.depth ≡ suc (d - a.depth)
    up = omega arith

-- At the level of the parent, the test is equality with the parent.
pub is_descendant_of_parent :
    (d p : ℕ) (a : NodeIndex)
    → a.depth ≡ d
    → is_descendant_of (node (suc d) p) a ≡ (p / 2 == a.position)
unfolding is_descendant_of
is_descendant_of_parent d p a h =
    ground (arith, ap (λ (n : ℕ). p / 2 ^ n) {x = suc d - a.depth} {y = 1} (omega arith))

pub is_descendant_of_level : (i a : NodeIndex) → i.depth ≤ a.depth → is_descendant_of i a ≡ false
unfolding is_descendant_of
is_descendant_of_level i a h = ground arith

pub is_descendant_of-deeper : (i a : NodeIndex) → is_descendant_of i a ≡ true → a.depth < i.depth
unfolding is_descendant_of
is_descendant_of-deeper i a h = ground arith

node_path : (a : NodeIndex) (d p : ℕ) → a.depth ≡ d → a.position ≡ p → node d p ≡ a
node_path a d p e f = λ i. record { depth = sym e i; position = sym f i }

descendant_from :
    (d p : ℕ) (a : NodeIndex) → is_descendant_of (node d p) a ≡ true → Ancestor a (node d p)
descendant_from zero p a e =
    absurd (false≢true (sym (is_descendant_of_level (node zero p) a (omega arith)) ∙ e))
descendant_from (suc d) p a e = elim (Bool-cases (ltb a.depth d)) [
  | inl above ↦
      further (parent-suc d p)
        (descendant_from d (p / 2) a (sym (is_descendant_of_step d p a (ltb→lt _ _ above)) ∙ e))
  | inr not_above ↦
      let at_parent : a.depth ≡ d =
        omega (arith, ltb-false _ _ not_above, is_descendant_of-deeper (node (suc d) p) a e) in
      parent_of (
        parent-suc d p
        ∙ ap some (
            node_path a d (p / 2) at_parent
              (ground (arith, is_descendant_of_parent d p a at_parent))))
]

descendant_of_parent :
    (d p : ℕ) (a : NodeIndex) → parent (node d p) ≡ some a → is_descendant_of (node d p) a ≡ true
descendant_of_parent zero p a e = cc (parent-zero p)
descendant_of_parent (suc d) p a e =
    subst (λ a. is_descendant_of (node (suc d) p) a ≡ true) (some_eq (sym (parent-suc d p) ∙ e))
      (is_descendant_of_parent d p (node d (p / 2)) refl ∙ (==_iff _ _).1 refl)

descendant_further :
    (d p : ℕ) (q a : NodeIndex)
    → parent (node d p) ≡ some q
    → is_descendant_of q a ≡ true
    → is_descendant_of (node d p) a ≡ true
descendant_further zero p q a e h = cc (parent-zero p)
descendant_further (suc d) p q a e h =
    is_descendant_of_step d p a (is_descendant_of-deeper _ a here) ∙ here
  where
    here : is_descendant_of (node d (p / 2)) a ≡ true
    here = subst (λ q. is_descendant_of q a ≡ true) (some_eq (sym e ∙ parent-suc d p)) h

Ancestor-is_descendant_of : {a i : NodeIndex} → Ancestor a i → is_descendant_of i a ≡ true
Ancestor-is_descendant_of {a} {i} (parent_of e) = descendant_of_parent i.depth i.position a e
Ancestor-is_descendant_of {a} {i} (further {p = q} e h) =
    descendant_further i.depth i.position q a e (Ancestor-is_descendant_of h)

-- A node of a tree with 32-bit positions is a descendant of another exactly when steps to the parent
-- lead there, one at least. The node's depth is below 32, so that the shift is within the word.
pub is_descendant_of_iff :
    (i a : NodeIndex) → IsNode i → (is_descendant_of i a ≡ true) ↔ Ancestor a i
is_descendant_of_iff i a v = (descendant_from i.depth i.position a, Ancestor-is_descendant_of)
