-- ===== src/Hybrid/Identity.antt =====
-- crates/trelis-hybrid/src/identity.rs: the keys of a device, for signing and for the KEM.
pub mod RoundTrip
use trelis.Common.{ℕ, ◌+◌, List, [], ◌∷◌, ◌++◌, ◌==◌, not, length, take, drop, if◌then◌else◌}
use trelis.Common.Outcome.{ok, err, ◌>>=◌, and_then}
use trelis.Error.{Result, CryptoError}
use trelis.Hybrid.Kem
use trelis.Hybrid.Kem.{HybridKemKeypair}
use trelis.Hybrid.Keys.{
  HybridKemPublicKey, HybridSignature, HybridEncapsulation, public_key_to_bytes,
  public_key_from_bytes,
}
use trelis.Hybrid.Signature
use trelis.Hybrid.Signature.{HybridSigningKeypair, HybridSigningPublicKey, signing_key_to_bytes}
use trelis.Hybrid.Signature.Keys
use trelis.Primitives.Interface.{Primitives}
use trelis.Wire.Constants.{hybrid_kem_pk_size}

-- "trelis-device-signing-key-v1"
abbrev pub device_signing_key_context : List ℕ
device_signing_key_context =
    116 ∷ 114 ∷ 101 ∷ 108 ∷ 105 ∷ 115 ∷ 45 ∷ 100 ∷ 101 ∷ 118 ∷ 105 ∷ 99 ∷ 101 ∷ 45 ∷ 115 ∷ 105 ∷ 103
    ∷ 110 ∷ 105 ∷ 110 ∷ 103 ∷ 45 ∷ 107 ∷ 101 ∷ 121 ∷ 45 ∷ 118 ∷ 49 ∷ []

-- "trelis-device-identity-key-v1"
abbrev pub device_identity_key_context : List ℕ
device_identity_key_context =
    116 ∷ 114 ∷ 101 ∷ 108 ∷ 105 ∷ 115 ∷ 45 ∷ 100 ∷ 101 ∷ 118 ∷ 105 ∷ 99 ∷ 101 ∷ 45 ∷ 105 ∷ 100 ∷ 101
    ∷ 110 ∷ 116 ∷ 105 ∷ 116 ∷ 121 ∷ 45 ∷ 107 ∷ 101 ∷ 121 ∷ 45 ∷ 118 ∷ 49 ∷ []

abbrev pub identity_public_size : ℕ
identity_public_size = Keys.public_key_size + hybrid_kem_pk_size

abbrev pub identity_secret_size : ℕ
identity_secret_size = Keys.secret_key_size + Kem.secret_key_size

pub record HybridIdentityPublicKey : Type 0 where
  pub signing : HybridSigningPublicKey
  pub kem : HybridKemPublicKey

pub record HybridIdentityKeypair (p : Primitives) : Type 0 where
  pub public_key : HybridIdentityPublicKey
  pub signing : HybridSigningKeypair p
  pub kem : HybridKemKeypair p

unfoldable pub identity_public_to_bytes : HybridIdentityPublicKey → List ℕ
identity_public_to_bytes pk = signing_key_to_bytes pk.signing ++ public_key_to_bytes pk.kem

module _ (p : Primitives) where
  -- The end of each of the three constructors: the public key is that of the two keypairs.
  unfoldable pub of_keypairs : HybridSigningKeypair p → HybridKemKeypair p → HybridIdentityKeypair p
  of_keypairs signing kem = record {
    public_key = record { signing = signing.public_key; kem = kem.public_key };
    signing = signing;
    kem = kem;
  }

  -- `generate_inner`.
  unfoldable pub generate_identity : p.Rng → p.Rng × Result (HybridIdentityKeypair p)
  unfolding of_keypairs
  generate_identity g =
      and_then (Keys.generate p g)
        (λ signing g. and_then (Kem.generate p g) (λ kem g. (g, ok (of_keypairs signing kem))))

  unfoldable pub identity_from_seed : List ℕ → Result (HybridIdentityKeypair p)
  unfolding of_keypairs
  identity_from_seed seed =
      let signing_seed = p.derive_key device_signing_key_context seed in
      let kem_seed = p.derive_key device_identity_key_context seed in
      Keys.generate_from_seed p signing_seed >>= λ signing.
      Kem.generate_from_seed p kem_seed >>= λ kem. ok (of_keypairs signing kem)

  unfoldable pub identity_to_bytes : HybridIdentityKeypair p → List ℕ
  identity_to_bytes k = Keys.to_bytes p k.signing ++ Kem.to_bytes p k.kem

  unfoldable pub identity_from_bytes : List ℕ → Result (HybridIdentityKeypair p)
  unfolding of_keypairs
  identity_from_bytes bytes =
      if not (length bytes == identity_secret_size)
      then err (CryptoError.invalid_key_length identity_secret_size (length bytes))
      else Keys.from_bytes p (take Keys.secret_key_size bytes) >>= λ signing.
          Kem.from_bytes p (drop Keys.secret_key_size bytes) >>= λ kem. ok (of_keypairs signing kem)

  unfoldable pub identity_public_from_bytes : List ℕ → Result HybridIdentityPublicKey
  identity_public_from_bytes bytes =
      if not (length bytes == identity_public_size)
      then err (CryptoError.invalid_key_length identity_public_size (length bytes))
      else Keys.signing_key_from_bytes p (take Keys.public_key_size bytes) >>= λ signing.
          public_key_from_bytes (drop Keys.public_key_size bytes) >>= λ kem.
          ok (record { signing = signing; kem = kem })
