-- ===== src/Primitives/X448.antt =====
-- crates/trelis-primitives/src/x448.rs: X448 over a curve. A key is the list of its bytes; the
-- arithmetic on points is that of the crate `ed448_goldilocks_plus`.
use trelis.Common.{
  ℕ, zero, suc, ◌+◌, ◌*◌, ◌/◌, ◌≡◌, refl, ap, subst, ◌∙◌, arith, List, [], ◌∷◌, Bool, true, false,
  ltb, if◌then◌else◌, length,
}
use trelis.Common.Outcome.{ok, err, and_then}
use trelis.Error.{Result, CryptoError}
use trelis.Hybrid.Keys.{all_zero}
use trelis.Primitives.Interface.{Primitives, PrimitiveLaws}

-- "trelis-x448-keygen"
abbrev pub x448_keygen_context : List ℕ
x448_keygen_context =
    116 ∷ 114 ∷ 101 ∷ 108 ∷ 105 ∷ 115 ∷ 45 ∷ 120 ∷ 52 ∷ 52 ∷ 56 ∷ 45 ∷ 107 ∷ 101 ∷ 121 ∷ 103 ∷ 101
    ∷ 110 ∷ []

-- "trelis-x448-expand"
abbrev pub x448_expand_context : List ℕ
x448_expand_context =
    116 ∷ 114 ∷ 101 ∷ 108 ∷ 105 ∷ 115 ∷ 45 ∷ 120 ∷ 52 ∷ 52 ∷ 56 ∷ 45 ∷ 101 ∷ 120 ∷ 112 ∷ 97 ∷ 110
    ∷ 100 ∷ []

abbrev pub secret_key_size : ℕ
secret_key_size = 56

-- `bytes[i] = f(bytes[i])`, on an array that is longer than `i`.
unfoldable pub update_at : ℕ → (ℕ → ℕ) → List ℕ → List ℕ
update_at i f [] = []
update_at zero f (b ∷ bs) = f b ∷ bs
update_at (suc i) f (b ∷ bs) = b ∷ update_at i f bs

-- `bytes[0] &= 0xFC; bytes[55] |= 0x80;` on bytes: the two low bits of the first are cleared, the
-- high bit of the last is set.
unfoldable pub clamp : List ℕ → List ℕ
unfolding update_at
clamp bytes =
    update_at 55 (λ b. if ltb b 128 then b + 128 else b) (update_at 0 (λ b. b / 4 * 4) bytes)

-- `X448Secret::from_bytes`.
unfoldable pub secret_from_bytes : List ℕ → List ℕ
unfolding clamp
secret_from_bytes bytes = clamp bytes

module _ (p : Primitives) where
  unfoldable pub generate : p.Rng → p.Rng × Result (List ℕ)
  generate g = and_then (p.fill_bytes secret_key_size g) (λ bytes g. (g, ok (clamp bytes)))

  unfoldable pub generate_from_seed : List ℕ → List ℕ
  generate_from_seed seed =
      let derived = p.derive_key x448_keygen_context seed in
      clamp (p.derive_xof secret_key_size x448_expand_context derived)

  unfoldable pub public_key : List ℕ → List ℕ
  public_key secret = p.base_mult secret

  unfoldable pub diffie_hellman : List ℕ → List ℕ → Result (List ℕ)
  diffie_hellman secret their_public =
      if p.is_low_order their_public
      then err CryptoError.decapsulation_failed
      else let shared_point = p.mult their_public secret in
        if all_zero shared_point then err CryptoError.decapsulation_failed else ok shared_point

-- Both sides agree: if one side derives a secret from the other's public key, the other side
-- derives the same secret from the first one's. The curve satisfies its laws.
pub diffie_hellman_comm :
    (p : Primitives) (a b shared : List ℕ)
    → PrimitiveLaws p
    → diffie_hellman p a (public_key p b) ≡ ok shared
    → diffie_hellman p b (public_key p a) ≡ ok shared
unfolding diffie_hellman public_key
diffie_hellman_comm p a b shared laws h =
    low (p.is_low_order (p.base_mult b)) (p.is_low_order (p.base_mult a)) (laws.low_order a b) (
      subst
        (λ (t : List ℕ).
          (if p.is_low_order (p.base_mult b)
            then err CryptoError.decapsulation_failed
            else checked t)
          ≡ ok shared)
        (laws.mult_comm b a) h)
  where
    checked : List ℕ → Result (List ℕ)
    checked t = if all_zero t then err CryptoError.decapsulation_failed else ok t

    low :
        (l m : Bool)
        → (m ≡ true → all_zero (p.mult (p.base_mult a) b) ≡ true)
        → (if l then err CryptoError.decapsulation_failed else checked (p.mult (p.base_mult a) b))
          ≡ ok shared
        → (if m then err CryptoError.decapsulation_failed else checked (p.mult (p.base_mult a) b))
          ≡ ok shared
    low true m k e = cc e
    low false false k e = e
    low false true k e = cc (
        subst
          (λ (z : Bool).
            (if z then err CryptoError.decapsulation_failed else ok (p.mult (p.base_mult a) b))
            ≡ ok shared)
          (k refl) e)

update_at-update_at :
    (i : ℕ) (f g : ℕ → ℕ) (xs : List ℕ)
    → ((x : ℕ) → f (g x) ≡ g x)
    → update_at i f (update_at i g xs) ≡ update_at i g xs
unfolding update_at
update_at-update_at i f g [] h = refl
update_at-update_at zero f g (x ∷ xs) h = ap (λ (t : ℕ). t ∷ xs) (h x)
update_at-update_at (suc i) f g (x ∷ xs) h = ap (◌∷◌ x) (update_at-update_at i f g xs h)

-- Updates at different places commute.
update_at_comm :
    (i : ℕ) (f g : ℕ → ℕ) (xs : List ℕ)
    → update_at 0 f (update_at (suc i) g xs) ≡ update_at (suc i) g (update_at 0 f xs)
unfolding update_at
update_at_comm i f g [] = refl
update_at_comm i f g (x ∷ xs) = refl

pub length-update_at : (i : ℕ) (f : ℕ → ℕ) (xs : List ℕ) → length (update_at i f xs) ≡ length xs
unfolding update_at
length-update_at i f [] = refl
length-update_at zero f (x ∷ xs) = refl
length-update_at (suc i) f (x ∷ xs) = ap suc (length-update_at i f xs)

pub length-clamp : (bytes : List ℕ) → length (clamp bytes) ≡ length bytes
unfolding clamp
length-clamp bytes = length-update_at 55 _ _ ∙ length-update_at 0 _ bytes

-- Clamping a clamped key changes nothing.
pub clamp-clamp : (bytes : List ℕ) → clamp (clamp bytes) ≡ clamp bytes
unfolding clamp
clamp-clamp bytes =
    ap (update_at 55 high) (
      update_at_comm 54 low high (update_at 0 low bytes)
      ∙ ap (update_at 55 high) (update_at-update_at 0 low low bytes (λ x. omega arith)))
    ∙ update_at-update_at 55 high high (update_at 0 low bytes) (λ x. ground arith)
  where
    low : ℕ → ℕ
    low b = b / 4 * 4

    high : ℕ → ℕ
    high b = if ltb b 128 then b + 128 else b
