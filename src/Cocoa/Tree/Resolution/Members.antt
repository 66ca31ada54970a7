-- ===== src/Cocoa/Tree/Resolution/Members.antt =====
-- Who is in a resolution of crates/trelis-cocoa/src/tree/resolution.rs.
use trelis.Common.{
  ℕ, zero, suc, ◌+◌, ◌<◌, ◌≡◌, refl, ap, ◌∙◌, arith, ◌⊎◌, inl, inr, List, [], ◌∷◌, Option, none,
  some, true, false, Bool-cases, Option-cases, if◌then◌else◌, All, All-append,
}
use trelis.Cocoa.Tree.Index.{NodeIndex, parent, left_child, right_child}
use trelis.Cocoa.Tree.Index
use trelis.Cocoa.Tree.Geometry.Family.{IsNode, children}
use trelis.Cocoa.Tree.Geometry.Ancestry.{Ancestor, parent_of, further}
use trelis.Cocoa.Tree.Node.{TreeNode, is_populated}
use trelis.Cocoa.Tree.Resolution.{additions, union, both, resolve}

module _ (P : NodeIndex → Type 0) where
  additions-All : (a b : List NodeIndex) → All P b → All P (additions a b)
  unfolding additions
  additions-All a [] h = tt
  additions-All a (i ∷ is) h = ground (arith, additions-All a is h.1, h.0)

  pub union-All : (a b : List NodeIndex) → All P a → All P b → All P (union a b)
  unfolding union
  union-All a [] h k = h
  union-All [] (i ∷ is) h k = k
  union-All (j ∷ js) (i ∷ is) h k =
      All-append P (j ∷ js) (additions (j ∷ js) (i ∷ is)) h (additions-All (j ∷ js) (i ∷ is) k)

All-map :
    (P Q : NodeIndex → Type 0) (l : List NodeIndex)
    → ((j : NodeIndex) → P j → Q j)
    → All P l
    → All Q l
All-map P Q [] f h = tt
All-map P Q (j ∷ js) f h = (f j h.0, All-map P Q js f h.1)

Ancestor-up : {i c j : NodeIndex} → parent c ≡ some i → Ancestor c j → Ancestor i j
Ancestor-up e (parent_of p) = further p (parent_of e)
Ancestor-up e (further p h) = further p (Ancestor-up e h)

pub left_deeper : (i : NodeIndex) → IsNode i → (left_child i).depth ≡ suc i.depth
unfolding left_child
left_deeper i v = omega (arith, v.shallow)

pub right_deeper : (i : NodeIndex) → IsNode i → (right_child i).depth ≡ suc i.depth
unfolding right_child
right_deeper i v = omega (arith, v.shallow)

pub leaf_level : (i : NodeIndex) (d : ℕ) → Index.is_leaf i d ≡ true → i.depth ≡ d
unfolding Index.is_leaf
leaf_level i d h = ground arith

module _ (get_node : NodeIndex → Option TreeNode) (tree_depth : ℕ) where
  -- `j` is stored with key material and is `i` or lies below it.
  pub record IsMember (i j : NodeIndex) : Type 0 where
    pub stored : TreeNode
    pub looked_up : get_node j ≡ some stored
    pub has_key : is_populated stored.state ≡ true
    pub below : (j ≡ i) ⊎ Ancestor i j

  from_child : (i c j : NodeIndex) → parent c ≡ some i → IsMember c j → IsMember i j
  from_child i c j e m = record {
    stored = m.stored;
    looked_up = m.looked_up;
    has_key = m.has_key;
    below = elim m.below [
      | inl same ↦ inr (parent_of (ap parent same ∙ e))
      | inr under ↦ inr (Ancestor-up e under)
    ];
  }

  unfoldable pub Resolved : NodeIndex → Option (List NodeIndex) → Type 0
  Resolved i r = (rs : List NodeIndex) × (r ≡ some rs) × All (IsMember i) rs

  both-Resolved :
      (i l r : NodeIndex) (rl rr : Option (List NodeIndex))
      → parent l ≡ some i
      → parent r ≡ some i
      → Resolved l rl
      → Resolved r rr
      → Resolved i (both rl rr)
  unfolding Resolved both
  both-Resolved i l r rl rr pl pr (ls, el, hl) (rs, er, hr) =
      rw (el, er)
        (
          union ls rs,
          refl,
          union-All (IsMember i) ls rs
              (All-map (IsMember l) (IsMember i) ls (λ j. from_child i l j pl) hl)
              (All-map (IsMember r) (IsMember i) rs (λ j. from_child i r j pr) hr),
        )

  -- A node whose own state decides, or a blank one above the leaves whose children are resolved.
  decided :
      (i : NodeIndex) (rest : Option (List NodeIndex))
      → (Index.is_leaf i tree_depth ≡ false → Resolved i rest)
      → Resolved i (elim (get_node i) [
        | none ↦ some []
        | some n ↦
            if is_populated n.state
            then some (i ∷ [])
            else (if Index.is_leaf i tree_depth then some [] else rest)
      ])
  unfolding Resolved
  decided i rest h = elim (Option-cases (get_node i)) [
    | inl missing ↦ rw (missing) ([], refl, tt)
    | inr (n, found) ↦ elim (Bool-cases (is_populated n.state)) [
      | inl full ↦
          rw (found, full)
            (
              i ∷ [],
              refl,
              (record { stored = n; looked_up = found; has_key = full; below = inl refl }, tt),
            )
      | inr blank ↦ elim (Bool-cases (Index.is_leaf i tree_depth)) [
        | inl leaf ↦ rw (found, blank, leaf) ([], refl, tt)
        | inr inner ↦ rw (found, blank, inner) (h inner)
      ]
    ]
  ]

  pub at_last_level : (i : NodeIndex) → i.depth ≡ tree_depth → Index.is_leaf i tree_depth ≡ true
  unfolding Index.is_leaf
  at_last_level i h = ground arith

  pub resolve-Resolved :
      (fuel : ℕ) (i : NodeIndex)
      → IsNode i
      → i.depth + fuel ≡ tree_depth
      → tree_depth < 32
      → Resolved i (resolve get_node tree_depth fuel i)
  unfolding resolve
  resolve-Resolved zero i v e h =
      decided i none (λ inner. cc (inner, at_last_level i (omega arith)))
  resolve-Resolved (suc fuel) i v e h =
      let (vl, vr, pl, pr) = children i v (omega arith) in
      let left = resolve-Resolved fuel (left_child i) vl (omega (arith, left_deeper i v)) h in
      let right = resolve-Resolved fuel (right_child i) vr (omega (arith, right_deeper i v)) h in
      decided i _ (λ inner. both-Resolved i (left_child i) (right_child i) _ _ pl pr left right)
