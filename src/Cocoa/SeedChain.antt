-- ===== src/Cocoa/SeedChain.antt =====
-- crates/trelis-cocoa/src/operations/seed_chain.rs: the seeds along a path, from the leaf to the root.
use trelis.Common.{
  ℕ, zero, suc, ◌+◌, ◌<◌, ◌≡◌, refl, ap, ◌∙◌, arith, List, [], ◌∷◌, some, length, get_elem?,
}
use trelis.Error.{Result}
use trelis.Hybrid.Kem
use trelis.Hybrid.Kem.{HybridKemKeypair}
use trelis.Primitives.Interface.{Primitives}
use trelis.Cocoa.KeySchedule.{derive_h1_seed, advance_seed_chain}

abbrev pub seed_size : ℕ
seed_size = 32

module _ (p : Primitives) where
  unfoldable pub generate_leaf_seed : p.Rng → p.Rng × Result (List ℕ)
  generate_leaf_seed g = p.fill_bytes seed_size g

  -- The rounds of the loop in `derive_path_seeds`: the seeds that it pushes.
  unfoldable pub later_seeds : List ℕ → ℕ → List (List ℕ)
  later_seeds current zero = []
  later_seeds current (suc rounds) =
      let next = derive_h1_seed p current in next ∷ later_seeds next rounds

  unfoldable pub derive_path_seeds : List ℕ → ℕ → List (List ℕ)
  unfolding later_seeds
  derive_path_seeds leaf_seed zero = []
  derive_path_seeds leaf_seed (suc rest) = leaf_seed ∷ later_seeds leaf_seed rest

  unfoldable pub get_seed_at_level : List ℕ → ℕ → List ℕ
  unfolding advance_seed_chain
  get_seed_at_level leaf_seed levels_up = advance_seed_chain p leaf_seed levels_up

  unfoldable pub derive_node_keypair : List ℕ → Result (HybridKemKeypair p)
  derive_node_keypair seed = Kem.generate_from_seed p seed

  unfoldable pub derive_delta_root : List ℕ → List ℕ
  derive_delta_root root_seed = root_seed

  later_seeds_at :
      (current : List ℕ) (rounds i : ℕ)
      → i < rounds
      → get_elem? (later_seeds current rounds) i ≡ some (advance_seed_chain p current (suc i))
  unfolding later_seeds advance_seed_chain
  later_seeds_at current zero i h = absurd (omega arith)
  later_seeds_at current (suc rounds) zero h = refl
  later_seeds_at current (suc rounds) (suc i) h =
      later_seeds_at (derive_h1_seed p current) rounds i (omega arith)

  length-later_seeds :
      (current : List ℕ) (rounds : ℕ) → length (later_seeds current rounds) ≡ rounds
  unfolding later_seeds
  length-later_seeds current zero = refl
  length-later_seeds current (suc rounds) =
      ap suc (length-later_seeds (derive_h1_seed p current) rounds)

  advance_seed_chain_add :
      (seed : List ℕ) (i k : ℕ)
      → advance_seed_chain p seed (i + k) ≡ advance_seed_chain p (advance_seed_chain p seed i) k
  unfolding advance_seed_chain
  advance_seed_chain_add seed zero k =
      ap (advance_seed_chain p seed) {x = 0 + k} {y = k} (omega arith)
  advance_seed_chain_add seed (suc i) k =
      ap (advance_seed_chain p seed) {x = suc i + k} {y = suc (i + k)} (omega arith)
      ∙ advance_seed_chain_add (derive_h1_seed p seed) i k

  seed_at :
      (leaf_seed : List ℕ) (path_length i : ℕ)
      → i < path_length
      → get_elem? (derive_path_seeds leaf_seed path_length) i
        ≡ some (advance_seed_chain p leaf_seed i)
  unfolding derive_path_seeds advance_seed_chain
  seed_at leaf_seed zero i h = absurd (omega arith)
  seed_at leaf_seed (suc rest) zero h = refl
  seed_at leaf_seed (suc rest) (suc i) h = later_seeds_at leaf_seed rest i (omega arith)

  length-derive_path_seeds :
      (leaf_seed : List ℕ) (path_length : ℕ)
      → length (derive_path_seeds leaf_seed path_length) ≡ path_length
  unfolding derive_path_seeds
  length-derive_path_seeds leaf_seed zero = refl
  length-derive_path_seeds leaf_seed (suc rest) = ap suc (length-later_seeds leaf_seed rest)

  -- The path seeds are one for each node of the path. The one at each level is what the seed chain
  -- gives from the leaf's seed for that many levels up, and from it the seed chain gives the one
  -- that stands any number of levels further up the path: who holds the seed of a node derives those
  -- of all nodes above it. The levels lie on the path.
  pub derive_path_seeds_lem :
      (leaf_seed : List ℕ) (path_length i k : ℕ)
      → i + k < path_length
      → (length (derive_path_seeds leaf_seed path_length) ≡ path_length)
        × (seed : List ℕ) × (get_elem? (derive_path_seeds leaf_seed path_length) i ≡ some seed)
        × (seed ≡ get_seed_at_level leaf_seed i)
        × (get_elem? (derive_path_seeds leaf_seed path_length) (i + k)
            ≡ some (get_seed_at_level seed k))
  unfolding get_seed_at_level
  derive_path_seeds_lem leaf_seed path_length i k h = (
    length-derive_path_seeds leaf_seed path_length,
    advance_seed_chain p leaf_seed i,
    seed_at leaf_seed path_length i (omega arith),
    refl,
    seed_at leaf_seed path_length (i + k) h ∙ ap some (advance_seed_chain_add leaf_seed i k),
  )
