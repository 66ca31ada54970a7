-- ===== src/Cocoa/Tree/Path/Line.antt =====
-- `path_to_root` and `direct_path` of crates/trelis-cocoa/src/tree/path.rs, and what they list.
use trelis.Common.{
  ℕ, zero, suc, ◌/◌, ◌≡◌, refl, sym, ap, ◌∙◌, subst, arith, ◌↔◌, ◌⊎◌, inl, inr, ◌∷◌, some, some_eq,
  length, In,
}
use trelis.Cocoa.Tree.Index.{NodeIndex, node, root, parent}
use trelis.Cocoa.Tree.Geometry.Family.{parent-suc, parent-zero, parent-IsNode, IsNode}
use trelis.Cocoa.Tree.Geometry.Ancestry.{Ancestor, parent_of, further}
use trelis.Cocoa.Tree.Path.{path_loop, path_to_root, direct_path}

path_loop-suc :
    (fuel d p : ℕ)
    → path_loop (suc fuel) (node (suc d) p) ≡ node d (p / 2) ∷ path_loop fuel (node d (p / 2))
unfolding path_loop
path_loop-suc fuel d p = rw (parent-suc d p, path_loop)

-- The depth is enough fuel: the loop lists every ancestor, each once for its level.
length-path_loop : (d p : ℕ) → length (path_loop d (node d p)) ≡ d
length-path_loop zero p = unfold path_loop in refl
length-path_loop (suc d) p = rw (path_loop-suc d d p) (ap suc (length-path_loop d (p / 2)))

path_loop-Ancestor :
    (d p : ℕ) (a : NodeIndex) → In a (path_loop d (node d p)) → Ancestor a (node d p)
path_loop-Ancestor zero p a h = unfold path_loop in absurd h
path_loop-Ancestor (suc d) p a h = elim (subst (In a) (path_loop-suc d d p) h) [
  | inl e ↦ parent_of (parent-suc d p ∙ ap some (sym e))
  | inr more ↦ further (parent-suc d p) (path_loop-Ancestor d (p / 2) a more)
]

first_step : (d p : ℕ) (a : NodeIndex) → parent (node d p) ≡ some a → In a (path_loop d (node d p))
first_step zero p a e = cc (parent-zero p)
first_step (suc d) p a e =
    subst (In a) (sym (path_loop-suc d d p)) (inl (some_eq (sym e ∙ parent-suc d p)))

later_step :
    (d p : ℕ) (q a : NodeIndex)
    → parent (node d p) ≡ some q
    → In a (path_loop q.depth q)
    → In a (path_loop d (node d p))
later_step zero p q a e h = cc (parent-zero p)
later_step (suc d) p q a e h = subst (In a) (sym (path_loop-suc d d p)) (
    inr
      (subst (λ (q : NodeIndex). In a (path_loop q.depth q)) (some_eq (sym e ∙ parent-suc d p)) h))

Ancestor-path_loop : {a i : NodeIndex} → Ancestor a i → In a (path_loop i.depth i)
Ancestor-path_loop {a} {i} (parent_of e) = first_step i.depth i.position a e
Ancestor-path_loop {a} {i} (further {p = q} e h) =
    later_step i.depth i.position q a e (Ancestor-path_loop h)

root-In : (d p : ℕ) → IsNode (node d p) → In root (path_to_root (node d p))
unfolding path_to_root
root-In zero p v = inl (ap (node 0) (omega (arith, v.on_level)))
root-In (suc d) p v = inr (
    subst (In root) (sym (path_loop-suc d d p))
      (root-In d (p / 2) (parent-IsNode (node (suc d) p) (node d (p / 2)) v (parent-suc d p))))

-- The path of a node holds the node and its ancestors and nothing else, among them the root, one
-- for each level up to it.
pub path_to_root_lem :
    (i a : NodeIndex)
    → IsNode i
    → (In a (path_to_root i) ↔ ((a ≡ i) ⊎ Ancestor a i))
      × (length (path_to_root i) ≡ suc i.depth)
      × In root (path_to_root i)
unfolding path_to_root
path_to_root_lem i a v = (
  (
    elim [ inl e ↦ inl e | inr h ↦ inr (path_loop-Ancestor i.depth i.position a h) ],
    elim [ inl e ↦ inl e | inr h ↦ inr (Ancestor-path_loop h) ],
  ),
  ap suc (length-path_loop i.depth i.position),
  root-In i.depth i.position v,
)

-- The direct path is the path without the node itself.
pub path_to_root-direct_path : (i : NodeIndex) → path_to_root i ≡ i ∷ direct_path i
unfolding direct_path
path_to_root-direct_path i = ground (arith, length-path_loop i.depth i.position)
