-- ===== src/Cocoa/Tree/Resolution/Cover.antt =====
-- Whom a resolution of crates/trelis-cocoa/src/tree/resolution.rs reaches.
use native.Mathlib.Nat.{pow-le-pow_right}
use trelis.Common.{
  ℕ, zero, suc, ◌+◌, ◌-◌, ◌/◌, ◌%◌, ◌^◌, ◌≤◌, ◌<◌, ◌≡◌, ◌||◌, refl, sym, ap, ◌∙◌, subst, arith, ◌⊎◌,
  inl, inr, List, [], ◌∷◌, ◌++◌, Option, none, some, Bool, true, false, Bool-cases, Option-cases,
  if◌then◌else◌, All, In, some_eq, ◌==◌, ==_iff,
}
use trelis.Cocoa.Tree.Index.{
  NodeIndex, node, parent, left_child, right_child, to_linear, from_linear,
}
use trelis.Cocoa.Tree.Index
use trelis.Cocoa.Tree.Geometry.Family.{IsNode, children, parent-suc, parent-zero, parent-IsNode}
use trelis.Cocoa.Tree.Geometry.Linear.{from_linear-to_linear}
use trelis.Cocoa.Tree.Geometry.Ancestry.{Ancestor, parent_of, further}
use trelis.Cocoa.Tree.Node.{TreeNode, is_populated}
use trelis.Cocoa.Tree.Resolution.{contains_node, additions, union, both, resolve}
use trelis.Cocoa.Tree.Resolution.Members.{
  union-All, IsMember, Resolved, resolve-Resolved, left_deeper, right_deeper, at_last_level,
  leaf_level,
}

node_cong : (d d' p p' : ℕ) → d ≡ d' → p ≡ p' → node d p ≡ node d' p'
node_cong d d' p p' e f = ap (λ (x : ℕ). node x p) e ∙ ap (λ (x : ℕ). node d' x) f

child_at :
    (d p : ℕ)
    → IsNode (node (suc d) p)
    → (node (suc d) p ≡ left_child (node d (p / 2)))
      ⊎ (node (suc d) p ≡ right_child (node d (p / 2)))
unfolding left_child right_child
child_at d p v =
    let bound : 2 ^ suc d ≤ 2 ^ 31 =
      pow-le-pow_right {n = 2} (omega arith) {i = suc d} {j = 31} (omega (arith, v.shallow)) in
    elim (Bool-cases (p % 2 == 0)) [
      | inl even ↦ inl (
          node_cong _ _ _ _ (omega (arith, v.shallow))
            (omega (arith, v.on_level, bound, (==_iff (p % 2) 0).0 even)))
      | inr odd ↦
          inr
            (node_cong _ _ _ _ (omega (arith, v.shallow)) (ground (arith, v.on_level, bound, odd)))
    ]

child_from :
    (d p : ℕ) (i : NodeIndex)
    → IsNode (node d p)
    → parent (node d p) ≡ some i
    → (node d p ≡ left_child i) ⊎ (node d p ≡ right_child i)
child_from zero p i v e = cc (e, parent-zero p)
child_from (suc d) p i v e =
    subst (λ (i : NodeIndex). (node (suc d) p ≡ left_child i) ⊎ (node (suc d) p ≡ right_child i))
      (some_eq (sym (parent-suc d p) ∙ e)) (child_at d p v)

contains_node-In :
    (a : List NodeIndex) (x : NodeIndex)
    → All IsNode a
    → IsNode x
    → contains_node a x ≡ true
    → In x a
unfolding contains_node
contains_node-In [] x va vx h = cc h
contains_node-In (j ∷ js) x va vx h = elim (Bool-cases (to_linear j == to_linear x)) [
  | inl same ↦ inl (
      sym (from_linear-to_linear x vx)
      ∙ ap from_linear (sym ((==_iff (to_linear j) (to_linear x)).0 same))
      ∙ from_linear-to_linear j va.0)
  | inr other ↦ inr (
      contains_node-In js x va.1 vx
        (subst (λ (b : Bool). (b || contains_node js x) ≡ true) other h))
]

In-additions :
    (a b : List NodeIndex) (x : NodeIndex)
    → All IsNode a
    → IsNode x
    → In x b
    → In x a ⊎ In x (additions a b)
unfolding additions
In-additions a [] x va vx h = absurd h
In-additions a (i ∷ is) x va vx (inl same) = elim (Bool-cases (contains_node a i)) [
  | inl old ↦ inl (contains_node-In a x va vx (ap (contains_node a) same ∙ old))
  | inr new ↦ rw (new) (inr (inl same))
]
In-additions a (i ∷ is) x va vx (inr more) = elim (In-additions a is x va vx more) [
  | inl there ↦ inl there
  | inr added ↦ elim (Bool-cases (contains_node a i)) [
    | inl old ↦ rw (old) (inr added)
    | inr new ↦ rw (new) (inr (inr added))
  ]
]

In-left : (a b : List NodeIndex) (x : NodeIndex) → In x a → In x (a ++ b)
In-left [] b x h = absurd h
In-left (i ∷ is) b x (inl e) = inl e
In-left (i ∷ is) b x (inr h) = inr (In-left is b x h)

In-right : (a b : List NodeIndex) (x : NodeIndex) → In x b → In x (a ++ b)
In-right [] b x h = h
In-right (i ∷ is) b x h = inr (In-right is b x h)

union-In-left : (a b : List NodeIndex) (x : NodeIndex) → In x a → In x (union a b)
unfolding union
union-In-left a [] x h = h
union-In-left [] (i ∷ is) x h = absurd h
union-In-left (j ∷ js) (i ∷ is) x h = In-left (j ∷ js) (additions (j ∷ js) (i ∷ is)) x h

union-In-right :
    (a b : List NodeIndex) (x : NodeIndex) → All IsNode a → IsNode x → In x b → In x (union a b)
unfolding union
union-In-right a [] x va vx h = absurd h
union-In-right [] (i ∷ is) x va vx h = h
union-In-right (j ∷ js) (i ∷ is) x va vx h = elim (In-additions (j ∷ js) (i ∷ is) x va vx h) [
  | inl there ↦ In-left (j ∷ js) (additions (j ∷ js) (i ∷ is)) x there
  | inr added ↦ In-right (j ∷ js) (additions (j ∷ js) (i ∷ is)) x added
]

All-In : (P : NodeIndex → Type 0) (l : List NodeIndex) (x : NodeIndex) → All P l → In x l → P x
All-In P [] x h k = absurd k
All-In P (i ∷ is) x h (inl e) = subst P (sym e) h.0
All-In P (i ∷ is) x h (inr k) = All-In P is x h.1 k

module _ (get_node : NodeIndex → Option TreeNode) (tree_depth : ℕ) where
  -- From `j` up to `i` every node is stored.
  pub data Linked (i : NodeIndex) : NodeIndex → Type 0 where
    itself : {n : TreeNode} → get_node i ≡ some n → Linked i i
    up :
        {j p : NodeIndex} {n : TreeNode}
        → get_node j ≡ some n
        → parent j ≡ some p
        → Linked i p
        → Linked i j

  -- A node that is linked to `i` is `i`, or linked to a child of it.
  through :
      {i j : NodeIndex}
      → IsNode j
      → Linked i j
      → (j ≡ i) ⊎ (Linked (left_child i) j ⊎ Linked (right_child i) j)
  through v (itself s) = inl refl
  through {i} v (up {j} {p} s e more) = elim (through (parent-IsNode j p v e) more) [
    | inl top ↦ elim (child_from j.depth j.position i v (e ∙ ap some top)) [
      | inl same ↦ inr (inl (subst (λ (x : NodeIndex). Linked x j) same (itself s)))
      | inr same ↦ inr (inr (subst (λ (x : NodeIndex). Linked x j) same (itself s)))
    ]
    | inr (inl left) ↦ inr (inl (up s e left))
    | inr (inr right) ↦ inr (inr (up s e right))
  ]

  top_stored : {i j : NodeIndex} → Linked i j → (n : TreeNode) × (get_node i ≡ some n)
  top_stored (itself {n} s) = (n, s)
  top_stored (up s e more) = top_stored more

  -- `j` is in the list or lies below a node that is.
  pub Covered : NodeIndex → List NodeIndex → Type 0
  Covered j rs = (m : NodeIndex) × In m rs × ((j ≡ m) ⊎ Ancestor m j)

  parent-depth : (d p : ℕ) (q : NodeIndex) → parent (node d p) ≡ some q → d ≡ suc q.depth
  parent-depth zero p q e = cc (e, parent-zero p)
  parent-depth (suc d) p q e =
      ap (λ (x : NodeIndex). suc x.depth) (some_eq (sym (parent-suc d p) ∙ e))

  Linked-depth : {i j : NodeIndex} → Linked i j → i.depth ≤ j.depth
  Linked-depth (itself s) = omega arith
  Linked-depth (up {j} {p} s e more) =
      omega (arith, Linked-depth more, parent-depth j.depth j.position p e)

  Ancestor-depth : {a j : NodeIndex} → Ancestor a j → a.depth < j.depth
  Ancestor-depth {a} {j} (parent_of e) = omega (arith, parent-depth j.depth j.position a e)
  Ancestor-depth {a} {j} (further {p = q} e h) =
      omega (arith, Ancestor-depth h, parent-depth j.depth j.position q e)

  Linked-below : {i j : NodeIndex} → Linked i j → (j ≡ i) ⊎ Ancestor i j
  Linked-below (itself s) = inl refl
  Linked-below {i} (up {j} {p} s e more) = elim (Linked-below more) [
    | inl same ↦ inr (parent_of (e ∙ ap some same))
    | inr under ↦ inr (further e under)
  ]

  module _ (j : NodeIndex) (n : TreeNode) (vj : IsNode j) (deep : j.depth ≤ tree_depth)
      (stored : get_node j ≡ some n) (full : is_populated n.state ≡ true) where
    Covering : NodeIndex → Option (List NodeIndex) → Type 0
    Covering i r =
        (rs : List NodeIndex) × (r ≡ some rs) × All IsNode rs × (Linked i j → Covered j rs)

    both-Covering :
        (i : NodeIndex) (rl rr : Option (List NodeIndex))
        → ¬ (j ≡ i)
        → Covering (left_child i) rl
        → Covering (right_child i) rr
        → Covering i (both rl rr)
    unfolding Covering Covered both
    both-Covering i rl rr other (ls, el, vl, hl) (rs, er, vr, hr) =
        rw (el, er)
          (
            union ls rs,
            refl,
            union-All IsNode ls rs vl vr,
            λ linked. elim (through vj linked) [
              | inl same ↦ absurd (other same)
              | inr (inl left) ↦ let (m, h, k) = hl left in (m, union-In-left ls rs m h, k)
              | inr (inr right) ↦
                  let (m, h, k) = hr right in
                  (m, union-In-right ls rs m vl (All-In IsNode rs m vr h) h, k)
            ],
          )

    decided :
        (i : NodeIndex) (rest : Option (List NodeIndex))
        → IsNode i
        → (Index.is_leaf i tree_depth ≡ true → i.depth ≡ tree_depth)
        → (Index.is_leaf i tree_depth ≡ false → ¬ (j ≡ i) → Covering i rest)
        → Covering i (elim (get_node i) [
          | none ↦ some []
          | some n ↦
              if is_populated n.state
              then some (i ∷ [])
              else (if Index.is_leaf i tree_depth then some [] else rest)
        ])
    unfolding Covering Covered
    decided i rest v last h = elim (Option-cases (get_node i)) [
      | inl missing ↦ rw (missing) ([], refl, tt, λ linked. cc (missing, (top_stored linked).1))
      | inr (k, found) ↦ elim (Bool-cases (is_populated k.state)) [
        | inl has ↦
            rw (found, has) (i ∷ [], refl, (v, tt), λ linked. (i, inl refl, Linked-below linked))
        | inr blank ↦
            let other : ¬ (j ≡ i) = λ same.
              let again : some k ≡ some n = sym found ∙ ap get_node (sym same) ∙ stored in
              cc (blank, full, some_eq again) in
            elim (Bool-cases (Index.is_leaf i tree_depth)) [
              | inl leaf ↦
                  rw (found, blank, leaf)
                    (
                      [],
                      refl,
                      tt,
                      λ linked. absurd (elim (Linked-below linked) [
                        | inl same ↦ other same
                        | inr under ↦ omega (arith, Ancestor-depth under, last leaf, deep)
                      ]),
                    )
              | inr inner ↦ rw (found, blank, inner) (h inner other)
            ]
      ]
    ]

    resolve-Covering :
        (fuel : ℕ) (i : NodeIndex)
        → IsNode i
        → i.depth + fuel ≡ tree_depth
        → tree_depth < 32
        → Covering i (resolve get_node tree_depth fuel i)
    unfolding resolve
    resolve-Covering zero i v e h =
        decided i none v (leaf_level i tree_depth)
          (λ inner other. cc (inner, at_last_level get_node tree_depth i (omega arith)))
    resolve-Covering (suc fuel) i v e h =
        let (vl, vr, pl, pr) = children i v (omega arith) in
        let left = resolve-Covering fuel (left_child i) vl (omega (arith, left_deeper i v)) h in
        let right = resolve-Covering fuel (right_child i) vr (omega (arith, right_deeper i v)) h in
        decided i _ v (leaf_level i tree_depth)
          (λ inner other. both-Covering i _ _ other left right)

  -- What a resolution of `i` is: the members are stored nodes with key material at or below `i`, and
  -- each stored node of the tree with key material from which every node up to `i` is stored is a
  -- member or lies below one.
  pub record IsResolution (i : NodeIndex) (rs : List NodeIndex) : Type 0 where
    pub members : All (IsMember get_node tree_depth i) rs
    pub covers :
        (j : NodeIndex) (n : TreeNode)
        → IsNode j
        → j.depth ≤ tree_depth
        → get_node j ≡ some n
        → is_populated n.state ≡ true
        → Linked i j
        → Covered j rs

  -- Every node `i` of a tree of less than 32 levels has a resolution, whatever is stored. Its members
  -- are stored nodes with key material at or below `i`, and each stored node of the tree with key
  -- material from which every node up to `i` is stored is a member or lies below one.
  pub resolve_lem :
      (i : NodeIndex)
      → IsNode i
      → i.depth ≤ tree_depth
      → tree_depth < 32
      → (rs : List NodeIndex) × (resolve get_node tree_depth (tree_depth - i.depth) i ≡ some rs)
        × IsResolution i rs
  unfolding Resolved Covering
  resolve_lem i v top h =
      let (rs, e, members) =
        resolve-Resolved get_node tree_depth (tree_depth - i.depth) i v (omega arith) h in
      (
        rs,
        e,
        record {
          members = members;
          covers = λ j n vj deep stored full linked.
              let (rs', e', valid, covered) =
                resolve-Covering j n vj deep stored full (tree_depth - i.depth) i v (omega arith)
                  h in
              subst (Covered j) (some_eq (sym e' ∙ e)) (covered linked);
        },
      )
