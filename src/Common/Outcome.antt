-- ===== src/Common/Outcome.antt =====
-- Results of fallible code, generic in the error type, and a state monad over them: Rust's `?`
-- returns the error and leaves the state as the failing call left it.
use mathlib.Core.Path.{◌≡◌, refl, ap, subst}
use mathlib.Core.Logic.{◌⊎◌, inl, inr}
use mathlib.Core.Bool.{Bool, true, false}

pub data Outcome {ℓ κ} (E : Type ℓ) (A : Type κ) : Type (ℓ ⊔ κ) where
  ok : A → Outcome E A
  err : E → Outcome E A

module _ {ℓ} {E : Type ℓ} where
  infixl 5 ◌>>=◌ ◌>>◌
  abbrev pub ◌>>=◌ {κ μ} : {A : Type κ} {B : Type μ} → Outcome E A → (A → Outcome E B) → Outcome E B
  ok a >>= f = f a
  err e >>= f = err e

  abbrev pub ◌>>◌ {κ} : {B : Type κ} → Outcome E (Unit {0}) → Outcome E B → Outcome E B
  ok a >> k = k
  err e >> k = err e

  -- `if bad { return Err(e) }` is `guard (not bad) e`.
  abbrev pub guard : Bool → E → Outcome E (Unit {0})
  guard true e = ok tt
  guard false e = err e

module _ {ℓ κ} {E : Type ℓ} {A : Type κ} where
  pub Outcome-cases : (r : Outcome E A) → ((a : A) × (r ≡ ok a)) ⊎ ((e : E) × (r ≡ err e))
  Outcome-cases (ok a) = inl (a, refl)
  Outcome-cases (err e) = inr (e, refl)

  abbrev pub map_err {μ} : {F : Type μ} → (E → F) → Outcome E A → Outcome F A
  map_err f (ok a) = ok a
  map_err f (err e) = err (f e)

  -- `m?` followed by code that reads and changes the state.
  abbrev pub and_then {μ ν} :
      {S : Type μ} {B : Type ν} → S × Outcome E A → (A → S → S × Outcome E B) → S × Outcome E B
  and_then (s, ok a) f = f a s
  and_then (s, err e) f = (s, err e)

module _ {ℓ} {E S A B P : Type ℓ} where
  -- A chain that succeeded has succeeded at each link.
  pub and_then-ok :
      (m : S × Outcome E A) (f : A → S → S × Outcome E B) (t : S) (b : B)
      → ((a : A) → m.1 ≡ ok a → f a m.0 ≡ (t, ok b) → P)
      → and_then m f ≡ (t, ok b)
      → P
  and_then-ok (s, ok a) f t b k e = k a refl e
  and_then-ok (s, err d) f t b k e = cc (ap (λ (r : S × Outcome E B). r.1) e)

module _ {ℓ} {E A B P : Type ℓ} where
  pub bind-ok :
      (m : Outcome E A) (f : A → Outcome E B) (b : B)
      → ((a : A) → m ≡ ok a → f a ≡ ok b → P)
      → (m >>= f) ≡ ok b
      → P
  bind-ok (ok a) f b k e = k a refl e
  bind-ok (err d) f b k e = cc e

module _ {ℓ} {E S A B : Type ℓ} where
  -- A chain whose first link succeeds goes on with what its rest does.
  pub and_then-goes :
      (m : S × Outcome E A) (f : A → S → S × Outcome E B) (a : A)
      → m.1 ≡ ok a
      → (b : B) × ((f a m.0).1 ≡ ok b)
      → (b : B) × ((and_then m f).1 ≡ ok b)
  and_then-goes (s, ok a') f a h rest =
      subst (λ (x : A). (b : B) × ((f x s).1 ≡ ok b)) {x = a} {y = a'} (cc h) rest
  and_then-goes (s, err e) f a h rest = cc h
