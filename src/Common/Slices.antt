-- ===== src/Common/Slices.antt =====
-- Slices `xs[a..b]` of a list, and cuts of a list that is known to be an append.
use Prim.Native.Nat.{ℕ, zero, suc, ◌+◌, ◌≤◌}
use mathlib.Core.Path.{◌≡◌, refl, sym, ap, ◌∙◌}
use mathlib.Core.List.{List, [], ◌∷◌, ◌++◌}
use native.Mathlib.Omega.{arith}
use trelis.Common.Lists.{length, take, drop, get_or, length-take, length-drop, All}

module _ {ℓ} {A : Type ℓ} where
  -- `xs[from..from + n]`; what lies past the end of `xs` is left out.
  abbrev pub slice : List A → ℕ → ℕ → List A
  slice xs from n = take n (drop from xs)

module _ {ℓ} {A : Type ℓ} where
  pub length-slice :
      (xs : List A) (from n : ℕ) → from + n ≤ length xs → length (slice xs from n) ≡ n
  length-slice xs from n h = omega (arith, length-take n (drop from xs), length-drop from xs)

  pub take-append_length : (xs ys : List A) (n : ℕ) → length xs ≡ n → take n (xs ++ ys) ≡ xs
  take-append_length [] ys zero e = refl
  take-append_length [] ys (suc n) e = absurd (omega arith)
  take-append_length (x ∷ xs) ys zero e = absurd (omega arith)
  take-append_length (x ∷ xs) ys (suc n) e = ap (◌∷◌ x) (take-append_length xs ys n (omega arith))

  pub drop-append_length : (xs ys : List A) (n : ℕ) → length xs ≡ n → drop n (xs ++ ys) ≡ ys
  drop-append_length [] ys zero e = refl
  drop-append_length [] ys (suc n) e = absurd (omega arith)
  drop-append_length (x ∷ xs) ys zero e = absurd (omega arith)
  drop-append_length (x ∷ xs) ys (suc n) e = drop-append_length xs ys n (omega arith)

  -- A slice that starts behind a prefix of known length.
  pub slice-append :
      (xs ys : List A) (from k n : ℕ)
      → length xs ≡ k
      → slice (xs ++ ys) (k + from) n ≡ slice ys from n
  slice-append [] ys from zero n e = ap (λ (t : ℕ). slice ys t n) (omega arith)
  slice-append [] ys from (suc k) n e = absurd (omega arith)
  slice-append (x ∷ xs) ys from zero n e = absurd (omega arith)
  slice-append (x ∷ xs) ys from (suc k) n e =
      ap (λ (t : ℕ). slice (x ∷ (xs ++ ys)) t n) {x = suc k + from} {y = suc (k + from)}
        (omega arith)
      ∙ slice-append xs ys from k n (omega arith)

  pub take-take : (m n : ℕ) (xs : List A) → m ≤ n → take m (take n xs) ≡ take m xs
  take-take zero n xs h = refl
  take-take (suc m) zero xs h = absurd (omega arith)
  take-take (suc m) (suc n) [] h = refl
  take-take (suc m) (suc n) (x ∷ xs) h = ap (◌∷◌ x) (take-take m n xs (omega arith))

  pub get_or-drop : (i : ℕ) (xs : List A) (d : A) → get_or xs i d ≡ get_or (drop i xs) 0 d
  get_or-drop zero [] d = refl
  get_or-drop zero (x ∷ xs) d = refl
  get_or-drop (suc i) [] d = refl
  get_or-drop (suc i) (x ∷ xs) d = get_or-drop i xs d

  pub take_all : (n : ℕ) (xs : List A) → length xs ≤ n → take n xs ≡ xs
  take_all zero [] h = refl
  take_all zero (x ∷ xs) h = absurd (omega arith)
  take_all (suc n) [] h = refl
  take_all (suc n) (x ∷ xs) h = ap (◌∷◌ x) (take_all n xs (omega arith))

  drop-nil : (n : ℕ) → drop {A = A} n [] ≡ []
  drop-nil zero = refl
  drop-nil (suc n) = refl

  pub drop-drop : (m n : ℕ) (xs : List A) → drop n (drop m xs) ≡ drop (m + n) xs
  drop-drop zero n xs = ap (λ (t : ℕ). drop t xs) (omega arith)
  drop-drop (suc m) n [] = drop-nil n ∙ sym (drop-nil (suc m + n))
  drop-drop (suc m) n (x ∷ xs) = drop-drop m n xs ∙ ap (λ (t : ℕ). drop t (x ∷ xs)) (step m n)
    where
      step : (m n : ℕ) → suc (m + n) ≡ suc m + n
      step m n = omega arith

  pub All-take {κ} : (P : A → Type κ) (n : ℕ) (xs : List A) → All P xs → All P (take n xs)
  All-take P zero xs h = tt
  All-take P (suc n) [] h = tt
  All-take P (suc n) (x ∷ xs) h = (h.0, All-take P n xs h.1)

  pub All-drop {κ} : (P : A → Type κ) (n : ℕ) (xs : List A) → All P xs → All P (drop n xs)
  All-drop P zero xs h = h
  All-drop P (suc n) [] h = tt
  All-drop P (suc n) (x ∷ xs) h = All-drop P n xs h.1

  -- A piece that stands behind a prefix of known length.
  pub slice_piece :
      (xs ys zs : List A) (k n : ℕ)
      → length xs ≡ k
      → length ys ≡ n
      → slice (xs ++ (ys ++ zs)) k n ≡ ys
  slice_piece xs ys zs k n hx hy =
      ap (λ (t : ℕ). slice (xs ++ (ys ++ zs)) t n) {x = k} {y = k + 0} (omega arith)
      ∙ slice-append xs (ys ++ zs) 0 k n hx
      ∙ take-append_length ys zs n hy
