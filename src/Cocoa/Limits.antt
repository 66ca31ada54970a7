-- ===== src/Cocoa/Limits.antt =====
-- crates/trelis-cocoa/src/limits.rs and the bounds of lib.rs.
use trelis.Common.{
  ℕ, ◌*◌, ◌^◌, ◌≤◌, ◌<◌, ◌≡◌, arith, ◌↔◌, ltb, ltb-false, ltb→lt, Bool-cases, inl, inr, ◌||◌,
  if◌then◌else◌,
}
use trelis.Common.Outcome.{ok, err}
use trelis.Error.{Result, CryptoError}
use trelis.Cocoa.Tree.View.{depth_for_members}
use trelis.Cocoa.Tree.View.Growth.{depth_for_members_lem}

abbrev pub max_group_size : ℕ
max_group_size = 2 ^ 20

abbrev pub max_tree_depth : ℕ
max_tree_depth = 20

abbrev pub max_message_size : ℕ
max_message_size = 64 * 1024 * 1024

abbrev pub max_merkle_proof_depth : ℕ
max_merkle_proof_depth = 20

abbrev pub max_unmerged_leaves : ℕ
max_unmerged_leaves = 100

unfoldable pub check_size_limits : ℕ → ℕ → ℕ → ℕ → ℕ → Result (Unit {0})
check_size_limits message_len proof_depth tree_depth group_size unmerged_leaves =
    if ltb max_message_size message_len
    then err CryptoError.message_too_large
    else if ltb max_merkle_proof_depth proof_depth
    then err CryptoError.proof_too_deep
    else if ltb max_group_size group_size
        || (ltb max_tree_depth tree_depth || ltb max_unmerged_leaves unmerged_leaves)
    then err CryptoError.tree_depth_exceeded
    else ok tt

unfoldable pub check_group_growth_limits : ℕ → Result (Unit {0})
unfolding check_size_limits depth_for_members
check_group_growth_limits member_count =
    check_size_limits 0 0 (depth_for_members member_count) member_count 0

size_limits_growth :
    (depth count : ℕ)
    → depth ≤ max_tree_depth
    → (check_size_limits 0 0 depth count 0 ≡ ok tt) ↔ (count ≤ max_group_size)
unfolding check_size_limits
size_limits_growth depth count h = ground arith

size_limits_refused :
    (depth count : ℕ)
    → max_group_size < count
    → check_size_limits 0 0 depth count 0 ≡ err CryptoError.tree_depth_exceeded
unfolding check_size_limits
size_limits_refused depth count h = ground arith

-- A group of a positive 32-bit member count may grow to it exactly when the count is at most 2^20,
-- for a tree with that many leaves is at most 20 deep; a larger count, and no other, is refused with
-- the tree-depth error.
pub check_group_growth_limits_lem :
    (count : ℕ)
    → 0 < count
    → count < 2 ^ 32
    → ((check_group_growth_limits count ≡ ok tt) ↔ (count ≤ max_group_size))
      × ((check_group_growth_limits count ≡ err CryptoError.tree_depth_exceeded)
          ↔ (max_group_size < count))
unfolding check_group_growth_limits
check_group_growth_limits_lem count h k = elim (Bool-cases (ltb max_group_size count)) [
  | inl large ↦
      let refused =
        size_limits_refused (depth_for_members count) count (ltb→lt max_group_size count large) in
      (
        (
          (λ e. cc (e, refused)),
          λ small. absurd (omega (arith, ltb→lt max_group_size count large)),
        ),
        ((λ e. ltb→lt max_group_size count large), λ more. refused),
      )
  | inr small ↦
      let accepted =
        (size_limits_growth (depth_for_members count) count
            ((depth_for_members_lem count 20 h k).1 (ltb-false max_group_size count small))).1
          (ltb-false max_group_size count small) in
      (
        ((λ e. ltb-false max_group_size count small), λ h. accepted),
        (
          (λ e. cc (e, accepted)),
          λ more. absurd (omega (arith, ltb-false max_group_size count small)),
        ),
      )
]
