-- ===== src/X3dh/Builder.antt =====
-- crates/trelis-x3dh-pq/src/builder.rs: a builder whose type says which of the required fields are set.
-- The pairs of marker types, `NoIdentitySigning` and `WithIdentitySigning` and the like, are the two
-- values of an index.
pub mod Calls
use trelis.Common.{
  ℕ, ◌-◌, ◌^◌, ◌≡◌, ◌≢◌, refl, ◌∙◌, arith, Option, none, some, ltb, ◌==◌, ◌&&◌, not, ◌⊎◌, inl, inr,
  ◌<◌, Bool-cases, if◌then◌else◌,
}
use trelis.Common.Outcome.{Outcome, ok, err, ◌>>=◌}
use trelis.Error.{CryptoError}
use trelis.Hybrid.Keys.{HybridKemPublicKey}
use trelis.Hybrid.Signature.{HybridSigningPublicKey}
use trelis.Ratchet.Effects.{Fault, failed, panicked}
use trelis.X3dh.Bundle.{PreKeyBundle}

pub data Marker : Type 0 where
  missing present : Marker

-- `u64::MAX`.
abbrev pub u64_max : ℕ
u64_max = 2 ^ 64 - 1

pub record PrekeyBundleBuilder (s k o : Marker) : Type 0 where
  pub identity_signing : Option HybridSigningPublicKey
  pub identity_kem : Option HybridKemPublicKey
  pub one_time_key : Option HybridKemPublicKey
  pub otk_key_id : ℕ
  pub timestamp : ℕ
  pub expiration : ℕ

unfoldable pub new : PrekeyBundleBuilder missing missing missing
new = record {
  identity_signing = none;
  identity_kem = none;
  one_time_key = none;
  otk_key_id = 0;
  timestamp = 0;
  expiration = u64_max;
}

unfoldable pub with_identity_signing :
    {k o : Marker}
    → PrekeyBundleBuilder missing k o
    → HybridSigningPublicKey
    → PrekeyBundleBuilder present k o
with_identity_signing b key = record {
  identity_signing = some key;
  identity_kem = b.identity_kem;
  one_time_key = b.one_time_key;
  otk_key_id = b.otk_key_id;
  timestamp = b.timestamp;
  expiration = b.expiration;
}

unfoldable pub with_identity_kem :
    {s o : Marker}
    → PrekeyBundleBuilder s missing o
    → HybridKemPublicKey
    → PrekeyBundleBuilder s present o
with_identity_kem b key = record {
  identity_signing = b.identity_signing;
  identity_kem = some key;
  one_time_key = b.one_time_key;
  otk_key_id = b.otk_key_id;
  timestamp = b.timestamp;
  expiration = b.expiration;
}

unfoldable pub with_one_time_key :
    {s k : Marker}
    → PrekeyBundleBuilder s k missing
    → HybridKemPublicKey
    → PrekeyBundleBuilder s k present
with_one_time_key b key = record {
  identity_signing = b.identity_signing;
  identity_kem = b.identity_kem;
  one_time_key = some key;
  otk_key_id = b.otk_key_id;
  timestamp = b.timestamp;
  expiration = b.expiration;
}

module _ {s k o : Marker} where
  unfoldable pub with_otk_key_id : PrekeyBundleBuilder s k o → ℕ → PrekeyBundleBuilder s k o
  with_otk_key_id b otk_key_id = record b { otk_key_id = otk_key_id }

  unfoldable pub with_timestamp : PrekeyBundleBuilder s k o → ℕ → PrekeyBundleBuilder s k o
  with_timestamp b timestamp = record b { timestamp = timestamp }

  unfoldable pub with_expiration : PrekeyBundleBuilder s k o → ℕ → PrekeyBundleBuilder s k o
  with_expiration b expiration = record b { expiration = expiration }

-- `Option::expect` in a function that returns a result.
abbrev pub expected {ℓ} : {A : Type ℓ} → Option A → Outcome Fault A
expected none = err panicked
expected (some a) = ok a

unfoldable pub build : PrekeyBundleBuilder present present present → Outcome Fault PreKeyBundle
build b =
    if not (b.expiration == u64_max) && ltb b.expiration b.timestamp
    then err (failed CryptoError.bundle_timestamp_in_future)
    else expected b.identity_signing >>= λ identity_signing.
        expected b.identity_kem >>= λ identity_kem. expected b.one_time_key >>= λ one_time_key.
        ok (record {
          identity_signing = identity_signing;
          identity_kem = identity_kem;
          one_time_key = one_time_key;
          otk_key_id = b.otk_key_id;
          timestamp = b.timestamp;
          expiration = b.expiration;
        })
