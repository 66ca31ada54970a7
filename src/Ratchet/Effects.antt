-- ===== src/Ratchet/Effects.antt =====
-- How crates/trelis-ratchet/src/send.rs and receive.rs compose their calls: `?` returns an error,
-- `expect` panics, and the state stays as the call that ends the function leaves it.
use trelis.Common.{Option, none, some, ◌≡◌}
use trelis.Common.Outcome.{Outcome, ok, err, map_err}
use trelis.Error.{CryptoError, Result}

pub data Fault : Type 0 where
  failed : CryptoError → Fault
  panicked : Fault

module _ {ℓ κ} {S : Type ℓ} {A : Type κ} where
  abbrev pub lift : Result A → S → S × Outcome Fault A
  lift r s = (s, map_err failed r)

  abbrev pub expect : Option A → S → S × Outcome Fault A
  expect none s = (s, err panicked)
  expect (some a) s = (s, ok a)

-- A draw from the generator, which is the second part of the state.
abbrev pub draw {ℓ} :
    {S R : Type 0} {A : Type ℓ} → (R → R × Result A) → S × R → (S × R) × Outcome Fault A
draw f s = ((s.0, (f s.1).0), map_err failed (f s.1).1)

pub ok-map_err : {A : Type 0} (r : Result A) (a : A) → map_err failed r ≡ ok a → r ≡ ok a
ok-map_err (ok b) a h = cc h
ok-map_err (err e) a h = cc h
