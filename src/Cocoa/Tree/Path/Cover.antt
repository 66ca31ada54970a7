-- ===== src/Cocoa/Tree/Path/Cover.antt =====
-- The co-path of crates/trelis-cocoa/src/tree/path.rs, and how many of its nodes a leaf lies below.
use trelis.Common.{
  ℕ, zero, suc, ◌/◌, ◌^◌, ◌<◌, ◌≤◌, ◌≡◌, refl, arith, List, [], ◌∷◌, Bool, ◌||◌, ltb, ltb→lt,
  ltb-false, Bool-cases, inl, inr, ◌==◌, if◌then◌else◌, All,
}
use native.Mathlib.Nat.{pow-suc}
use trelis.Cocoa.Tree.Index.{NodeIndex, node, is_descendant_of, node_eq}
use trelis.Cocoa.Tree.Geometry.Family.{parent-suc, sibling-suc, beside}
use trelis.Cocoa.Tree.Geometry.Ancestry.{
  is_descendant_of_step, is_descendant_of_parent, is_descendant_of_level,
}
use trelis.Cocoa.Tree.Path.{copath_loop, copath}

-- `m` is the node `c` or lies below it.
unfoldable pub covers : NodeIndex → NodeIndex → Bool
covers c m = node_eq c m || is_descendant_of m c

unfoldable pub count_covering : NodeIndex → List NodeIndex → ℕ
count_covering m [] = 0
count_covering m (c ∷ cs) = let rest = count_covering m cs in if covers c m then suc rest else rest

copath_loop-suc :
    (d p : ℕ)
    → copath_loop (suc d) (node (suc d) p)
      ≡ node (suc d) (beside p) ∷ copath_loop d (node d (p / 2))
unfolding copath_loop
copath_loop-suc d p = rw (sibling-suc d p, parent-suc d p, copath_loop)

-- No node of a co-path lies deeper than the leaf.
copath_loop_depths : (d p : ℕ) → All (λ (c : NodeIndex). c.depth ≤ d) (copath_loop d (node d p))
copath_loop_depths zero p = unfold copath_loop in tt
copath_loop_depths (suc d) p =
    rw (copath_loop-suc d p)
      (omega arith, weaken d (suc d) _ (omega arith) (copath_loop_depths d (p / 2)))
  where
    weaken :
        (m n : ℕ) (cs : List NodeIndex)
        → m ≤ n
        → All (λ (c : NodeIndex). c.depth ≤ m) cs
        → All (λ (c : NodeIndex). c.depth ≤ n) cs
    weaken m n [] h all = tt
    weaken m n (c ∷ cs) h all = (omega arith, weaken m n cs h all.1)

-- A node that is higher up covers a node just if it covers its parent.
covers_step :
    (d q : ℕ) (c : NodeIndex) → c.depth ≤ d → covers c (node (suc d) q) ≡ covers c (node d (q / 2))
unfolding covers
covers_step d q c h = elim (Bool-cases (ltb c.depth d)) [
  | inl above ↦ ground (arith, is_descendant_of_step d q c (ltb→lt _ _ above))
  | inr level ↦ ground (
    arith,
    is_descendant_of_parent d q c (omega (arith, ltb-false _ _ level)),
    is_descendant_of_level (node d (q / 2)) c (ltb-false _ _ level),
  )
]

count_covering_step :
    (d q : ℕ) (cs : List NodeIndex)
    → All (λ (c : NodeIndex). c.depth ≤ d) cs
    → count_covering (node (suc d) q) cs ≡ count_covering (node d (q / 2)) cs
unfolding count_covering
count_covering_step d q [] h = refl
count_covering_step d q (c ∷ cs) h =
    ground (arith, covers_step d q c h.0, count_covering_step d q cs h.1)

-- On its own level a node covers itself alone.
covers_level : (d p q : ℕ) → covers (node d p) (node d q) ≡ (p == q)
unfolding covers
covers_level d p q = ground (arith, is_descendant_of_level (node d q) (node d p) (omega arith))

count_loop :
    (d p q : ℕ)
    → p < 2 ^ d
    → q < 2 ^ d
    → count_covering (node d q) (copath_loop d (node d p)) ≡ (if q == p then 0 else 1)
unfolding count_covering
count_loop zero p q hp hq = unfold copath_loop in ground arith
count_loop (suc d) p q hp hq = rw (copath_loop-suc d p) (
    ground (
      arith,
      covers_level (suc d) (beside p) q,
      count_covering_step d q (copath_loop d (node d (p / 2))) (copath_loop_depths d (p / 2)),
      count_loop d (p / 2) (q / 2) (omega (arith, pow-suc 2 d)) (omega (arith, pow-suc 2 d)),
    ))

-- Of the leaves of a full tree, each but `p` itself lies below exactly one node of the co-path of
-- `p`, and `p` below none: what is encrypted to the co-path reaches every other leaf once.
pub copath_covers :
    (d p q : ℕ)
    → p < 2 ^ d
    → q < 2 ^ d
    → count_covering (node d q) (copath (node d p)) ≡ (if q == p then 0 else 1)
unfolding copath
copath_covers d p q hp hq = count_loop d p q hp hq
