-- ===== src/Cocoa/Tree/Path/Meeting.antt =====
-- Where the paths of two nodes meet: `lowest_common_ancestor` of crates/trelis-cocoa/src/tree/path.rs.
use mathlib.Core.Bool.{false≢true}
use trelis.Common.{
  ℕ, zero, suc, ◌/◌, ◌^◌, ◌≤◌, ◌<◌, ◌≡◌, ◌≢◌, ◌==◌, ==_iff, ◌⊎◌, inl, inr, refl, sym, ap, subst,
  ◌∙◌, arith, some, some_eq, ltb, ltb→lt, ltb-false, Bool-cases,
}
use trelis.Cocoa.Tree.Index.{NodeIndex, node}
use trelis.Cocoa.Tree.Path.{raise, meet, lowest_common_ancestor}
use trelis.Cocoa.Tree.Geometry.Ancestry.{Ancestor, parent_of, further}
use trelis.Cocoa.Tree.Geometry.Family.{IsNode, parent-suc, parent-zero}
use trelis.Cocoa.Tree.Path.Climb.{OnPath, up, down, halved, At, raise-At, start_reached, stays}

ancestor_depth : (x : NodeIndex) (d p : ℕ) → Ancestor x (node d p) → x.depth < d
ancestor_depth x zero p (parent_of e) = cc (parent-zero p)
ancestor_depth x zero p (further e above) = cc (parent-zero p)
ancestor_depth x (suc d) p (parent_of e) =
    omega (arith, ap (λ (i : NodeIndex). i.depth) (some_eq (sym (parent-suc d p) ∙ e)))
ancestor_depth x (suc d) p (further e above) =
    let higher =
      ancestor_depth x d (p / 2)
        (subst (λ (i : NodeIndex). Ancestor x i) (some_eq (sym e ∙ parent-suc d p)) above) in
    omega arith

-- What is on the paths of two nodes of one level is above them, or they are the same.
shared_above :
    (x : NodeIndex) (d p q : ℕ)
    → p ≢ q
    → OnPath x (node (suc d) p)
    → OnPath x (node (suc d) q)
    → x.depth ≤ d
shared_above x d p q apart (inl e) (inl e') =
    absurd (apart (ap (λ (i : NodeIndex). i.position) (sym e ∙ e')))
shared_above x d p q apart (inr above) on = omega (arith, ancestor_depth x (suc d) p above)
shared_above x d p q apart on (inr above) = omega (arith, ancestor_depth x (suc d) q above)

-- A node on both paths above which all others on both lie.
pub record Meets (a b c : NodeIndex) : Type 0 where
  pub on_first : OnPath c a
  pub on_second : OnPath c b
  pub above : (x : NodeIndex) → OnPath x a → OnPath x b → OnPath x c

meets_same : (fuel d p q : ℕ) → p ≡ q → meet fuel (node d p) (node d q) ≡ some (node d p)
unfolding meet
meets_same zero d p q e = ground arith
meets_same (suc fuel) d p q e = ground arith

meets_higher :
    (fuel d p q : ℕ)
    → p ≢ q
    → meet (suc fuel) (node (suc d) p) (node (suc d) q)
      ≡ meet fuel (node d (p / 2)) (node d (q / 2))
unfolding meet
meets_higher fuel d p q apart = rw (parent-suc d p, parent-suc d q) ground arith

abbrev Met : ℕ → NodeIndex → NodeIndex → Type 0
Met fuel a b = (c : NodeIndex) × (meet fuel a b ≡ some c) × Meets a b c

same_node : (fuel d p q : ℕ) → p ≡ q → Met fuel (node d p) (node d q)
same_node fuel d p q e = (
  node d p,
  meets_same fuel d p q e,
  record {
    on_first = inl refl;
    on_second = inl (ap (λ (n : ℕ). node d n) e);
    above = λ x on on'. on;
  },
)

higher_meeting :
    (fuel d p q : ℕ)
    → p ≢ q
    → Met fuel (node d (p / 2)) (node d (q / 2))
    → Met (suc fuel) (node (suc d) p) (node (suc d) q)
higher_meeting fuel d p q apart met = (
  met.0,
  meets_higher fuel d p q apart ∙ met.1,
  record {
    on_first = down met.0 d p met.2.on_first;
    on_second = down met.0 d q met.2.on_second;
    above = λ x on on'.
        let shallow = shared_above x d p q apart on on' in
        met.2.above x (up x d p shallow on) (up x d q shallow on');
  },
)

meet-Met : (fuel d p q : ℕ) → d ≤ fuel → p < 2 ^ d → q < 2 ^ d → Met fuel (node d p) (node d q)
meet-Met fuel zero p q hf hp hq = same_node fuel zero p q (omega arith)
meet-Met zero (suc d) p q hf hp hq = absurd (omega arith)
meet-Met (suc fuel) (suc d) p q hf hp hq = elim (Bool-cases (p == q)) [
  | inl same ↦ same_node (suc fuel) (suc d) p q ((==_iff p q).0 same)
  | inr other ↦
      higher_meeting fuel d p q (λ e. false≢true (sym other ∙ (==_iff p q).1 e))
        (meet-Met fuel d (p / 2) (q / 2) (omega arith) (halved d p hp) (halved d q hq))
]

on_same_path : (c d i : NodeIndex) → OnPath c d → OnPath d i → OnPath c i
on_same_path c d i (inl e) on = subst (λ (x : NodeIndex). OnPath x i) (sym e) on
on_same_path c d i (inr above) (inl e) = inr (subst (λ (x : NodeIndex). Ancestor c x) e above)
on_same_path c d i (inr above) (inr higher) = inr (over higher)
  where
    over : {j : NodeIndex} → Ancestor d j → Ancestor c j
    over (parent_of e) = further e above
    over (further e higher) = further e (over higher)

OnPath-depth : (x a : NodeIndex) → OnPath x a → x.depth ≤ a.depth
OnPath-depth x a (inl e) = omega (arith, ap (λ (i : NodeIndex). i.depth) e)
OnPath-depth x a (inr above) = omega (arith, ancestor_depth x a.depth a.position above)

meet_level :
    (k : ℕ) (a b : NodeIndex)
    → a.depth ≡ k
    → b.depth ≡ k
    → a.position < 2 ^ k
    → b.position < 2 ^ k
    → Met a.depth a b
meet_level k a b ha hb pa pb =
    subst (λ (x : NodeIndex). Met x.depth x b) {x = node k a.position} {y = a}
      (λ i. node (sym ha i) a.position)
      (subst (λ (y : NodeIndex). Met k (node k a.position) y) {x = node k b.position} {y = b}
        (λ i. node (sym hb i) b.position) (meet-Met k k a.position b.position (omega arith) pa pb))

ancestor_found :
    (a b a' b' c : NodeIndex)
    → raise a.depth a b.depth ≡ some a'
    → raise b.depth b a'.depth ≡ some b'
    → meet a'.depth a' b' ≡ some c
    → lowest_common_ancestor a b ≡ some c
unfolding lowest_common_ancestor
ancestor_found a b a' b' c ra rb m = rw (lowest_common_ancestor, ra, rb, m) refl

-- From the nodes of one level that the two loops before the last one reach.
from_level :
    (k : ℕ) (a b a' b' : NodeIndex)
    → raise a.depth a b.depth ≡ some a'
    → raise b.depth b a'.depth ≡ some b'
    → At a k a'
    → At b k b'
    → k ≤ a.depth
    → k ≤ b.depth
    → (a.depth ≤ k) ⊎ (b.depth ≤ k)
    → (c : NodeIndex) × (lowest_common_ancestor a b ≡ some c) × Meets a b c
from_level k a b a' b' ra rb at_a at_b ka kb lowest =
    let met = meet_level k a' b' at_a.level at_b.level at_a.on_level at_b.on_level in
    (
      met.0,
      ancestor_found a b a' b' met.0 ra rb met.1,
      record {
        on_first = on_same_path met.0 a' a met.2.on_first at_a.on_path;
        on_second = on_same_path met.0 b' b met.2.on_second at_b.on_path;
        above = λ x on on'.
            let shallow = shared_depth x on on' in
            met.2.above x (at_a.above x shallow on) (at_b.above x shallow on');
      },
    )
  where
    shared_depth : (x : NodeIndex) → OnPath x a → OnPath x b → x.depth ≤ k
    shared_depth x on on' = elim lowest [
      | inl h ↦ omega (arith, OnPath-depth x a on)
      | inr h ↦ omega (arith, OnPath-depth x b on')
    ]

-- The loops end within the depths of the nodes: the lowest common ancestor exists, it is on the
-- paths of both nodes, and every node that is on both paths is on its own path.
pub lowest_common_ancestor_lem :
    (a b : NodeIndex)
    → IsNode a
    → IsNode b
    → (c : NodeIndex) × (lowest_common_ancestor a b ≡ some c) × Meets a b c
lowest_common_ancestor_lem a b va vb = elim (Bool-cases (ltb a.depth b.depth)) [
  | inl short ↦
      let h = ltb→lt a.depth b.depth short in
      let found =
        raise-At b.depth b.depth b.position a.depth (omega arith) (omega arith) vb.on_level in
      from_level a.depth a b a found.0 (stays a.depth a.depth a.position b.depth (omega arith))
        found.1 (start_reached a.depth a.position va.on_level) found.2 (omega arith) (omega arith)
        (inl (omega arith))
  | inr long ↦
      let h = ltb-false a.depth b.depth long in
      let found = raise-At a.depth a.depth a.position b.depth h (omega arith) va.on_level in
      from_level b.depth a b found.0 b found.1
        (stays b.depth b.depth b.position found.0.depth (omega (arith, found.2.level))) found.2
        (start_reached b.depth b.position vb.on_level) h (omega arith) (inr (omega arith))
]
