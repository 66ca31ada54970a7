-- ===== src/Common/Map/Laws.antt =====
-- Lookups after a change of a map, and what keeps its keys ascending.
use Prim.Native.Nat.{ℕ, suc, ◌<◌, ◌≤◌}
use mathlib.Core.Path.{◌≡◌, refl}
use mathlib.Core.List.{List, [], ◌∷◌}
use mathlib.Core.Option
use mathlib.Core.Option.{Option, none, some}
use native.Mathlib.Omega.{arith}
use trelis.Common.Tests.{◌==◌, if◌then◌else◌}
use trelis.Common.Lists.{All}
use trelis.Common.Map.{get, insert, remove, update, IsSorted}

module _ {V : Type 0} where
  pub get-insert :
      (j k : ℕ) (v : V) (m : List (ℕ × V))
      → get j (insert k v m) ≡ (if k == j then some v else get j m)
  unfolding get insert
  get-insert j k v [] = refl
  get-insert j k v ((i, w) ∷ m) = ground (arith, get-insert j k v m)

  pub get-update :
      (j k : ℕ) (f : V → V) (m : List (ℕ × V))
      → get j (update k f m) ≡ (if k == j then Option.map f (get j m) else get j m)
  unfolding get update
  get-update j k f [] = ground arith
  get-update j k f ((i, w) ∷ m) = ground (arith, get-update j k f m)

  -- A key below the bound is not in the map.
  pub get_below : (j low : ℕ) (m : List (ℕ × V)) → IsSorted low m → j < low → get j m ≡ none
  unfolding get
  get_below j low [] s h = refl
  get_below j low ((i, w) ∷ m) s h = ground (arith, get_below j (suc i) m s.1 (omega arith))

  pub get-remove :
      (j k low : ℕ) (m : List (ℕ × V))
      → IsSorted low m
      → get j (remove k m) ≡ (if k == j then none else get j m)
  unfolding get remove
  get-remove j k low [] s = ground arith
  get-remove j k low ((i, w) ∷ m) s =
      ground (arith, get-remove j k (suc i) m s.1, get_below j (suc i) m s.1)

  IsSorted-weaken :
      (low low' : ℕ) (m : List (ℕ × V)) → low' ≤ low → IsSorted low m → IsSorted low' m
  IsSorted-weaken low low' [] h s = tt
  IsSorted-weaken low low' ((i, w) ∷ m) h s = (omega arith, s.1)

  pub insert-IsSorted :
      (k low : ℕ) (v : V) (m : List (ℕ × V))
      → low ≤ k
      → IsSorted low m
      → IsSorted low (insert k v m)
  unfolding insert
  insert-IsSorted k low v [] h s = (h, tt)
  insert-IsSorted k low v ((i, w) ∷ m) h s =
      ground (arith, insert-IsSorted k (suc i) v m, s.1, IsSorted-weaken (suc i) (suc k) m)

  pub remove-IsSorted : (k low : ℕ) (m : List (ℕ × V)) → IsSorted low m → IsSorted low (remove k m)
  unfolding remove
  remove-IsSorted k low [] s = tt
  remove-IsSorted k low ((i, w) ∷ m) s =
      ground (arith, remove-IsSorted k (suc i) m s.1, IsSorted-weaken (suc i) low m)

  pub update-IsSorted :
      (k low : ℕ) (f : V → V) (m : List (ℕ × V)) → IsSorted low m → IsSorted low (update k f m)
  unfolding update
  update-IsSorted k low f [] s = tt
  update-IsSorted k low f ((i, w) ∷ m) s = ground (arith, update-IsSorted k (suc i) f m s.1)

module _ {V : Type 0} (P : ℕ × V → Type 0) where
  pub insert-All : (k : ℕ) (v : V) (m : List (ℕ × V)) → P (k, v) → All P m → All P (insert k v m)
  unfolding insert
  insert-All k v [] h a = (h, tt)
  insert-All k v ((i, w) ∷ m) h a = ground (arith, insert-All k v m h a.1)

  pub remove-All : (k : ℕ) (m : List (ℕ × V)) → All P m → All P (remove k m)
  unfolding remove
  remove-All k [] a = tt
  remove-All k ((i, w) ∷ m) a = ground (arith, remove-All k m a.1)

  pub update-All :
      (k : ℕ) (f : V → V) (m : List (ℕ × V))
      → ((i : ℕ) (w : V) → P (i, w) → P (i, f w))
      → All P m
      → All P (update k f m)
  unfolding update
  update-All k f [] h a = tt
  update-All k f ((i, w) ∷ m) h a = ground (arith, update-All k f m h a.1, h i w a.0)
