-- ===== src/Hybrid/Kem.antt =====
-- crates/trelis-hybrid/src/kem.rs: the hybrid KEM from X448 and sntrup761.
pub mod Agreement
use trelis.Common.{ℕ, ◌+◌, ◌≡◌, List, [], ◌∷◌, ◌++◌, ◌==◌, length, take, drop, not, if◌then◌else◌}
use trelis.Common.Outcome.{ok, err, ◌>>=◌, and_then}
use trelis.Error.{Result, CryptoError}
use trelis.Hybrid.Combiner.{combine_v2}
use trelis.Hybrid.Keys.{HybridKemPublicKey, HybridEncapsulation, public_key_to_bytes}
use trelis.Primitives.Interface.{Primitives}
use trelis.Primitives.X448

-- "trelis-hybrid-x448"
abbrev pub hybrid_kem_x448_seed_context : List ℕ
hybrid_kem_x448_seed_context =
    116 ∷ 114 ∷ 101 ∷ 108 ∷ 105 ∷ 115 ∷ 45 ∷ 104 ∷ 121 ∷ 98 ∷ 114 ∷ 105 ∷ 100 ∷ 45 ∷ 120 ∷ 52 ∷ 52
    ∷ 56 ∷ []

-- "trelis-hybrid-sntrup761"
abbrev pub hybrid_kem_sntrup_seed_context : List ℕ
hybrid_kem_sntrup_seed_context =
    116 ∷ 114 ∷ 101 ∷ 108 ∷ 105 ∷ 115 ∷ 45 ∷ 104 ∷ 121 ∷ 98 ∷ 114 ∷ 105 ∷ 100 ∷ 45 ∷ 115 ∷ 110 ∷ 116
    ∷ 114 ∷ 117 ∷ 112 ∷ 55 ∷ 54 ∷ 49 ∷ []

abbrev pub x448_sk_size : ℕ
x448_sk_size = 56

abbrev pub sntrup_sk_size : ℕ
sntrup_sk_size = 1763

abbrev pub secret_key_size : ℕ
secret_key_size = x448_sk_size + sntrup_sk_size

pub record HybridKemKeypair (p : Primitives) : Type 0 where
  pub public_key : HybridKemPublicKey
  pub x448_secret : List ℕ
  pub sntrup_secret : p.SntrupSecret

module _ (p : Primitives) where
  -- The end of each of the three constructors: the public key is computed from the secrets.
  unfoldable pub from_secrets : List ℕ → p.SntrupSecret → HybridKemKeypair p
  from_secrets x448_secret sntrup_secret = record {
    public_key = record {
      x448 = X448.public_key p x448_secret;
      sntrup = p.sntrup_public_key sntrup_secret;
    };
    x448_secret = x448_secret;
    sntrup_secret = sntrup_secret;
  }

  -- `generate_inner`, up to what is made of the two secrets.
  unfoldable pub generate_as :
      {K : Type 0} → (List ℕ → p.SntrupSecret → K) → p.Rng → p.Rng × Result K
  generate_as make g = and_then (X448.generate p g) (λ x448_secret g.
      and_then (p.sntrup_generate g) (λ sntrup_secret g. (g, ok (make x448_secret sntrup_secret))))

  unfoldable pub generate : p.Rng → p.Rng × Result (HybridKemKeypair p)
  unfolding generate_as from_secrets
  generate g = generate_as from_secrets g

  unfoldable pub generate_from_seed : List ℕ → Result (HybridKemKeypair p)
  unfolding from_secrets
  generate_from_seed seed =
      let x448_seed = p.derive_key hybrid_kem_x448_seed_context seed in
      let sntrup_seed = p.derive_key hybrid_kem_sntrup_seed_context seed in
      let x448_secret = X448.generate_from_seed p x448_seed in
      p.sntrup_from_seed sntrup_seed >>= λ sntrup_secret.
      ok (from_secrets x448_secret sntrup_secret)

  unfoldable pub to_bytes : HybridKemKeypair p → List ℕ
  to_bytes k = k.x448_secret ++ p.sntrup_secret_as_bytes k.sntrup_secret

  unfoldable pub from_bytes : List ℕ → Result (HybridKemKeypair p)
  unfolding from_secrets
  from_bytes bytes =
      if not (length bytes == secret_key_size)
      then err (CryptoError.invalid_key_length secret_key_size (length bytes))
      else let x448_secret = X448.secret_from_bytes (take x448_sk_size bytes) in
        p.sntrup_secret_from_bytes (drop x448_sk_size bytes) >>= λ sntrup_secret.
        ok (from_secrets x448_secret sntrup_secret)

  unfoldable pub decapsulate : HybridKemKeypair p → HybridEncapsulation → Result (List ℕ)
  decapsulate k encapsulation =
      X448.diffie_hellman p k.x448_secret encapsulation.x448_ephemeral >>= λ x448_ss.
      p.sntrup_decapsulate k.sntrup_secret encapsulation.sntrup_ciphertext >>= λ sntrup_ss. ok (
        combine_v2 p x448_ss sntrup_ss encapsulation.sntrup_ciphertext encapsulation.x448_ephemeral
          (public_key_to_bytes k.public_key))

  unfoldable pub x448_dh : HybridKemKeypair p → List ℕ → Result (List ℕ)
  x448_dh k their_public = X448.diffie_hellman p k.x448_secret their_public

  unfoldable pub sntrup_decapsulate : HybridKemKeypair p → List ℕ → Result (List ℕ)
  sntrup_decapsulate k ciphertext = p.sntrup_decapsulate k.sntrup_secret ciphertext

  unfoldable pub sntrup_encapsulate : HybridKemPublicKey → p.Rng → p.Rng × Result (List ℕ × List ℕ)
  sntrup_encapsulate pk g = p.sntrup_encapsulate pk.sntrup g

  unfoldable pub encapsulate :
      HybridKemPublicKey → p.Rng → p.Rng × Result (List ℕ × HybridEncapsulation)
  encapsulate pk g = and_then (X448.generate p g) (λ x448_ephemeral_secret g.
      let x448_ephemeral = X448.public_key p x448_ephemeral_secret in
      and_then (g, X448.diffie_hellman p x448_ephemeral_secret pk.x448)
        (λ x448_ss g. and_then (p.sntrup_encapsulate pk.sntrup g) (λ sealed g. (
          g,
          ok (
            combine_v2 p x448_ss sealed.0 sealed.1 x448_ephemeral (public_key_to_bytes pk),
            record { x448_ephemeral = x448_ephemeral; sntrup_ciphertext = sealed.1 },
          ),
        ))))

-- The public key is that of the secrets, as every constructor makes it.
pub record IsKeypair (p : Primitives) (k : HybridKemKeypair p) : Type 0 where
  pub x448_public : k.public_key.x448 ≡ X448.public_key p k.x448_secret
  pub sntrup_public : k.public_key.sntrup ≡ p.sntrup_public_key k.sntrup_secret
