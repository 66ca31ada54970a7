-- ===== src/Cocoa/Tree/Geometry/Linear.antt =====
-- `to_linear` and `from_linear` of crates/trelis-cocoa/src/tree/index.rs number the nodes level by
-- level.
use native.Mathlib.Nat.{pow-suc, one-le-pow, pow-le-pow_right}
use trelis.Common.{
  ℕ, zero, suc, ◌+◌, ◌-◌, ◌/◌, ◌^◌, ◌≤◌, ◌<◌, ◌≡◌, refl, ap, ◌∙◌, arith, ltb, Bool-cases, inl, inr,
}
use trelis.Cocoa.Tree.Index.{NodeIndex, node, to_linear, from_linear, bit_length}
use trelis.Cocoa.Tree.Geometry.Family.{IsNode}

bit_length-zero : (fuel : ℕ) → bit_length fuel 0 ≡ 0
unfolding bit_length
bit_length-zero zero = refl
bit_length-zero (suc fuel) = refl

-- A number with its top bit at `d` needs `d + 1` bits.
bit_length_lem : (fuel d n : ℕ) → d < fuel → 2 ^ d ≤ n → n < 2 ^ suc d → bit_length fuel n ≡ suc d
unfolding bit_length
bit_length_lem zero d n f lo hi = absurd (omega arith)
bit_length_lem (suc fuel) zero n f lo hi =
    ground (arith, bit_length-zero fuel, ap (bit_length fuel) half)
  where
    half : n / 2 ≡ 0
    half = omega arith
bit_length_lem (suc fuel) (suc d) n f lo hi = ground (
  arith,
  pow-suc 2 d,
  pow-suc 2 (suc d),
  bit_length_lem fuel d (n / 2) (omega arith) (omega (arith, pow-suc 2 d))
      (omega (arith, pow-suc 2 (suc d))),
)

-- Every positive number below `2 ^ fuel` has a top bit.
top_bit : (fuel n : ℕ) → 0 < n → n < 2 ^ fuel → (d : ℕ) × (d < fuel) × (2 ^ d ≤ n) × (n < 2 ^ suc d)
top_bit zero n p h = absurd (omega arith)
top_bit (suc fuel) n p h = elim (Bool-cases (ltb 1 n)) [
  | inr one ↦ (0, omega arith, ground arith, ground arith)
  | inl more ↦
      let (d, f, lo, hi) = top_bit fuel (n / 2) (ground arith) (omega (arith, pow-suc 2 fuel)) in
      (suc d, omega arith, omega (arith, pow-suc 2 d), omega (arith, pow-suc 2 (suc d)))
]

-- `from_linear` finds the depth by the top bit of `linear + 1`.
from_linear_at :
    (d n : ℕ) → d < 32 → 2 ^ d ≤ n + 1 → n + 1 < 2 ^ suc d → from_linear n ≡ node d (n + 1 - 2 ^ d)
unfolding from_linear
from_linear_at zero n h lo hi = ground arith
from_linear_at (suc d) n h lo hi = ground (
  arith,
  bit_length_lem 64 (suc d) (n + 1) (omega arith) lo hi,
  one-le-pow d 2 (omega arith),
  pow-suc 2 d,
  pow-suc 2 (suc d),
  pow-le-pow_right {n = 2} (omega arith) {i = suc d} {j = 31} (omega arith),
)

-- The number of a node leads back to it: level by level, no two nodes share a number.
pub from_linear-to_linear : (i : NodeIndex) → IsNode i → from_linear (to_linear i) ≡ i
unfolding to_linear
from_linear-to_linear i v =
    from_linear_at i.depth _ v.shallow (omega arith)
      (omega (arith, v.on_level, pow-suc 2 i.depth, pos))
    ∙ ap (node i.depth) (omega (arith, pos))
  where
    pos : 1 ≤ 2 ^ i.depth
    pos = one-le-pow i.depth 2 (omega arith)

-- Every number below 2^32 - 1 is the linear index of the node that `from_linear` returns.
pub to_linear-from_linear :
    (n : ℕ) → n + 1 < 2 ^ 32 → IsNode (from_linear n) × (to_linear (from_linear n) ≡ n)
to_linear-from_linear n h =
    let (d, f, lo, hi) = top_bit 32 (n + 1) (omega arith) h in
    rw (from_linear_at d n f lo hi) (
      record { shallow = f; on_level = omega (arith, lo, hi, pow-suc 2 d) },
      unfold to_linear in omega (arith, lo, hi, one-le-pow d 2 (omega arith)),
    )
