-- ===== src/Hybrid/Identity/RoundTrip.antt =====
-- An identity of crates/trelis-hybrid/src/identity.rs that is stored and loaded again.
use trelis.Common.{◌≡◌, sym, arith, length, length-append, take-append_length, drop-append_length}
use trelis.Common.Outcome.{ok}
use trelis.Hybrid.Identity.{
  HybridIdentityKeypair, identity_to_bytes, identity_from_bytes, of_keypairs,
}
use trelis.Hybrid.Kem
use trelis.Hybrid.Kem.{IsKeypair}
use trelis.Hybrid.Kem.Agreement.{from_bytes-to_bytes_keypair}
use trelis.Hybrid.Signature.{IsSigningKeypair}
use trelis.Hybrid.Signature.Keys
use trelis.Hybrid.Signature.Keys.{from_bytes-to_bytes_signing}
use trelis.Primitives.Interface.{Primitives, PrimitiveLaws}
use trelis.Primitives.X448.{clamp}

-- What the constructors establish: the public keys are those of the secrets, and the X448 secret has
-- been clamped.
pub record IsIdentity (p : Primitives) (k : HybridIdentityKeypair p) : Type 0 where
  pub signing_valid : IsSigningKeypair p k.signing
  pub kem_valid : IsKeypair p k.kem
  pub public_signing : k.public_key.signing ≡ k.signing.public_key
  pub public_kem : k.public_key.kem ≡ k.kem.public_key
  pub secret_size : length k.kem.x448_secret ≡ 56
  pub clamped : clamp k.kem.x448_secret ≡ k.kem.x448_secret

module _ (p : Primitives) where
  length-signing :
      (k : HybridIdentityKeypair p) → PrimitiveLaws p → length (Keys.to_bytes p k.signing) ≡ 4089
  unfolding Keys.to_bytes
  length-signing k laws = omega (
    arith,
    length-append (p.ed448_seed k.signing.ed448_secret)
        (p.mldsa_secret_to_bytes k.signing.mldsa_secret),
    laws.ed448_seed_size k.signing.ed448_secret,
    laws.mldsa_secret_size k.signing.mldsa_secret,
  )

  length-kem :
      (k : HybridIdentityKeypair p)
      → PrimitiveLaws p
      → IsIdentity p k
      → length (Kem.to_bytes p k.kem) ≡ 1819
  unfolding Kem.to_bytes
  length-kem k laws valid = omega (
    arith,
    length-append k.kem.x448_secret (p.sntrup_secret_as_bytes k.kem.sntrup_secret),
    laws.sntrup_secret_size k.kem.sntrup_secret,
    valid.secret_size,
  )

  together : (k : HybridIdentityKeypair p) → IsIdentity p k → of_keypairs p k.signing k.kem ≡ k
  unfolding of_keypairs
  together k valid = rw (sym valid.public_signing, sym valid.public_kem)

  -- An identity that is stored is loaded again, both its keypairs and its public key. It has what
  -- the constructors establish, and the primitives satisfy their laws.
  pub identity_from_bytes-to_bytes :
      (k : HybridIdentityKeypair p)
      → PrimitiveLaws p
      → IsIdentity p k
      → identity_from_bytes p (identity_to_bytes p k) ≡ ok k
  unfolding identity_from_bytes identity_to_bytes
  identity_from_bytes-to_bytes k laws valid =
      let signing = Keys.to_bytes p k.signing in
      let kem = Kem.to_bytes p k.kem in
      rw (
        length-append signing kem,
        length-signing k laws,
        length-kem k laws valid,
        take-append_length signing kem 4089 (length-signing k laws),
        drop-append_length signing kem 4089 (length-signing k laws),
        from_bytes-to_bytes_signing p k.signing laws valid.signing_valid,
        from_bytes-to_bytes_keypair p k.kem laws valid.kem_valid valid.secret_size valid.clamped,
        together k valid,
      )
