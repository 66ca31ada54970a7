-- ===== src/Cocoa/Tree/Path/Climb.antt =====
-- The loop that goes up to a level in `lowest_common_ancestor` of
-- crates/trelis-cocoa/src/tree/path.rs, and the paths that it keeps.
use native.Mathlib.Nat.{pow-suc}
use trelis.Common.{
  ℕ, zero, suc, ◌/◌, ◌^◌, ◌≤◌, ◌<◌, ◌≡◌, ◌⊎◌, inl, inr, refl, sym, ap, subst, ◌∙◌, arith, some,
  some_eq, ltb, lt→ltb, ltb→lt, ltb-false, Bool-cases,
}
use trelis.Cocoa.Tree.Index.{NodeIndex, node}
use trelis.Cocoa.Tree.Path.{raise}
use trelis.Cocoa.Tree.Geometry.Ancestry.{Ancestor, parent_of, further}
use trelis.Cocoa.Tree.Geometry.Family.{parent-suc}

-- The node itself, or one of its ancestors.
abbrev pub OnPath : NodeIndex → NodeIndex → Type 0
OnPath c i = (c ≡ i) ⊎ Ancestor c i

pub up :
    (x : NodeIndex) (d p : ℕ) → x.depth ≤ d → OnPath x (node (suc d) p) → OnPath x (node d (p / 2))
up x d p h (inl e) = absurd (omega (arith, ap (λ (i : NodeIndex). i.depth) e))
up x d p h (inr (parent_of e)) = inl (some_eq (sym e ∙ parent-suc d p))
up x d p h (inr (further e above)) =
    inr (subst (λ (i : NodeIndex). Ancestor x i) (some_eq (sym e ∙ parent-suc d p)) above)

pub down : (x : NodeIndex) (d p : ℕ) → OnPath x (node d (p / 2)) → OnPath x (node (suc d) p)
down x d p (inl e) = inr (parent_of (parent-suc d p ∙ ap some (sym e)))
down x d p (inr above) = inr (further (parent-suc d p) above)

pub halved : (d p : ℕ) → p < 2 ^ suc d → p / 2 < 2 ^ d
halved d p h = omega (arith, pow-suc 2 d)

-- The node at a level of a path: it is on the path, and all that is on the path and not below the
-- level is on its own path.
pub record At (i : NodeIndex) (k : ℕ) (c : NodeIndex) : Type 0 where
  pub level : c.depth ≡ k
  pub on_level : c.position < 2 ^ k
  pub on_path : OnPath c i
  pub above : (x : NodeIndex) → x.depth ≤ k → OnPath x i → OnPath x c

pub start_reached : (d p : ℕ) → p < 2 ^ d → At (node d p) d (node d p)
start_reached d p hp = record {
  level = refl;
  on_level = hp;
  on_path = inl refl;
  above = λ x h on. on;
}

reached_below :
    (d p k : ℕ) (c : NodeIndex) → k ≤ d → At (node d (p / 2)) k c → At (node (suc d) p) k c
reached_below d p k c h found = record {
  level = found.level;
  on_level = found.on_level;
  on_path = down c d p found.on_path;
  above = λ x shallow on. found.above x shallow (up x d p (omega arith) on);
}

pub stays : (fuel d p k : ℕ) → d ≤ k → raise fuel (node d p) k ≡ some (node d p)
unfolding raise
stays zero d p k h = ground arith
stays (suc fuel) d p k h = ground arith

climbs :
    (fuel d p k : ℕ) → k ≤ d → raise (suc fuel) (node (suc d) p) k ≡ raise fuel (node d (p / 2)) k
unfolding raise
climbs fuel d p k h = rw (parent-suc d p, lt→ltb k (suc d) (omega arith)) refl

pub raise-At :
    (fuel d p k : ℕ)
    → k ≤ d
    → d ≤ fuel
    → p < 2 ^ d
    → (c : NodeIndex) × (raise fuel (node d p) k ≡ some c) × At (node d p) k c
raise-At fuel zero p k h hf hp = (
  node zero p,
  stays fuel zero p k (omega arith),
  subst (λ (n : ℕ). At (node zero p) n (node zero p)) {x = zero} {y = k} (omega arith)
      (start_reached zero p hp),
)
raise-At zero (suc d) p k h hf hp = absurd (omega arith)
raise-At (suc fuel) (suc d) p k h hf hp = elim (Bool-cases (ltb d k)) [
  | inl deep ↦ (
    node (suc d) p,
    stays (suc fuel) (suc d) p k (ltb→lt d k deep),
    subst (λ (n : ℕ). At (node (suc d) p) n (node (suc d) p)) {x = suc d} {y = k}
        (omega (arith, ltb→lt d k deep)) (start_reached (suc d) p hp),
  )
  | inr high ↦
      let shallow = ltb-false d k high in
      let found = raise-At fuel d (p / 2) k shallow (omega arith) (halved d p hp) in
      (found.0, climbs fuel d p k shallow ∙ found.1, reached_below d p k found.0 shallow found.2)
]
