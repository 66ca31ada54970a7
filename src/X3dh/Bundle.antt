-- ===== src/X3dh/Bundle.antt =====
-- crates/trelis-x3dh-pq/src/bundle.rs: the keys that a device publishes, signed by their owner.
use trelis.Common.{ℕ, List, [], ◌∷◌, ◌++◌, ltb, if◌then◌else◌}
use trelis.Common.Bytes.{to_le_bytes}
use trelis.Common.Outcome.{ok, err, and_then, map_err}
use trelis.Error.{Result, CryptoError}
use trelis.Hybrid.Keys.{HybridKemPublicKey, HybridSignature, public_key_to_bytes}
use trelis.Hybrid.Signature
use trelis.Hybrid.Signature.{HybridSigningKeypair, HybridSigningPublicKey, signing_key_to_bytes}
use trelis.Primitives.Interface.{Primitives}

-- "trelis-prekey-bundle-v1"
abbrev pub bundle_domain : List ℕ
bundle_domain =
    116 ∷ 114 ∷ 101 ∷ 108 ∷ 105 ∷ 115 ∷ 45 ∷ 112 ∷ 114 ∷ 101 ∷ 107 ∷ 101 ∷ 121 ∷ 45 ∷ 98 ∷ 117 ∷ 110
    ∷ 100 ∷ 108 ∷ 101 ∷ 45 ∷ 118 ∷ 49 ∷ []

pub record PreKeyBundle : Type 0 where
  pub identity_signing : HybridSigningPublicKey
  pub identity_kem : HybridKemPublicKey
  pub one_time_key : HybridKemPublicKey
  pub otk_key_id : ℕ
  pub timestamp : ℕ
  pub expiration : ℕ

unfoldable pub signing_data : PreKeyBundle → List ℕ
signing_data b =
    bundle_domain
    ++ (signing_key_to_bytes b.identity_signing
        ++ (public_key_to_bytes b.identity_kem
            ++ (public_key_to_bytes b.one_time_key
                ++ (to_le_bytes 8 b.otk_key_id
                    ++ (to_le_bytes 8 b.timestamp ++ to_le_bytes 8 b.expiration)))))

pub record SignedPreKeyBundle : Type 0 where
  pub bundle : PreKeyBundle
  pub signature : HybridSignature

-- `SignedPreKeyBundle::validate_timestamps`.
unfoldable pub validate_timestamps : SignedPreKeyBundle → ℕ → Result (Unit {0})
validate_timestamps s now =
    if ltb now s.bundle.timestamp
    then err CryptoError.bundle_timestamp_in_future
    else if ltb s.bundle.expiration now
    then err CryptoError.bundle_expired
    else ok tt

module _ (p : Primitives) where
  -- `PreKeyBundle::sign`.
  unfoldable pub sign_bundle :
      PreKeyBundle → HybridSigningKeypair p → p.Rng → p.Rng × Result SignedPreKeyBundle
  sign_bundle b keypair g =
      and_then (Signature.sign p keypair (signing_data b) g)
        (λ signature g. (g, ok (record { bundle = b; signature = signature })))

  -- `SignedPreKeyBundle::verify`.
  unfoldable pub verify_bundle : SignedPreKeyBundle → Result (Unit {0})
  verify_bundle s =
      map_err (λ e. CryptoError.invalid_bundle_signature)
        (Signature.verify p s.bundle.identity_signing (signing_data s.bundle) s.signature)
