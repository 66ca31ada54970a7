-- ===== src/Common/Map.antt =====
-- The standard library's `BTreeMap` with numbers for keys: its entries in ascending order of keys.
pub mod Laws
use Prim.Native.Nat.{ℕ, suc, ◌≤◌}
use mathlib.Core.List.{List, [], ◌∷◌}
use mathlib.Core.Option.{Option, none, some}
use trelis.Common.Tests.{ltb, ◌==◌, if◌then◌else◌}

module _ {V : Type 0} where
  unfoldable pub get : ℕ → List (ℕ × V) → Option V
  get k [] = none
  get k ((j, v) ∷ m) = if j == k then some v else get k m

  unfoldable pub insert : ℕ → V → List (ℕ × V) → List (ℕ × V)
  insert k v [] = (k, v) ∷ []
  insert k v ((j, w) ∷ m) =
      if k == j
      then (k, v) ∷ m
      else (if ltb k j then (k, v) ∷ (j, w) ∷ m else (j, w) ∷ insert k v m)

  unfoldable pub remove : ℕ → List (ℕ × V) → List (ℕ × V)
  remove k [] = []
  remove k ((j, w) ∷ m) = if k == j then m else (j, w) ∷ remove k m

  -- Apply a function to the value of one key, through `get_mut`.
  unfoldable pub update : ℕ → (V → V) → List (ℕ × V) → List (ℕ × V)
  update k f [] = []
  update k f ((j, w) ∷ m) = if k == j then (j, f w) ∷ m else (j, w) ∷ update k f m

  -- The keys ascend, and each is at least the bound.
  abbrev pub IsSorted : ℕ → List (ℕ × V) → Type 0
  IsSorted low [] = Unit {0}
  IsSorted low ((j, v) ∷ m) = (low ≤ j) × IsSorted (suc j) m
