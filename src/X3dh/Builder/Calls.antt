-- ===== src/X3dh/Builder/Calls.antt =====
-- The builders of crates/trelis-x3dh-pq/src/builder.rs by the calls that make them.
use trelis.Common.{
  ℕ, ◌≡◌, ◌≢◌, refl, ◌∙◌, arith, Option, none, some, ltb, ◌==◌, ◌&&◌, not, ◌⊎◌, inl, inr, ◌<◌,
  Bool-cases, false,
}
use trelis.Common.Outcome.{ok, err}
use trelis.Error.{CryptoError}
use trelis.Hybrid.Keys.{HybridKemPublicKey}
use trelis.Hybrid.Signature.{HybridSigningPublicKey}
use trelis.Ratchet.Effects.{failed}
use trelis.X3dh.Builder.{
  Marker, missing, present, u64_max, PrekeyBundleBuilder, new, with_identity_signing,
  with_identity_kem, with_one_time_key, with_otk_key_id, with_timestamp, with_expiration, build,
}
use trelis.X3dh.Bundle.{PreKeyBundle}

-- The last value that was given to each setter.
pub record Given : Type 0 where
  pub signing_key : Option HybridSigningPublicKey
  pub kem_key : Option HybridKemPublicKey
  pub otk : Option HybridKemPublicKey
  pub key_id : Option ℕ
  pub created : Option ℕ
  pub expires : Option ℕ

-- The builders that code outside the module can make, with what the setters were given on the way:
-- the fields are private, so each is the result of these calls.
pub data Reachable : (s k o : Marker) → PrekeyBundleBuilder s k o → Given → Type 0 where
  start : Reachable missing missing missing new (record {
    signing_key = none;
    kem_key = none;
    otk = none;
    key_id = none;
    created = none;
    expires = none;
  })
  signing :
      {k o : Marker} {b : PrekeyBundleBuilder missing k o} {v : Given}
      (key : HybridSigningPublicKey)
      → Reachable missing k o b v
      → Reachable present k o (with_identity_signing b key) (record v { signing_key = some key })
  kem :
      {s o : Marker} {b : PrekeyBundleBuilder s missing o} {v : Given} (key : HybridKemPublicKey)
      → Reachable s missing o b v
      → Reachable s present o (with_identity_kem b key) (record v { kem_key = some key })
  one_time :
      {s k : Marker} {b : PrekeyBundleBuilder s k missing} {v : Given} (key : HybridKemPublicKey)
      → Reachable s k missing b v
      → Reachable s k present (with_one_time_key b key) (record v { otk = some key })
  identified :
      {s k o : Marker} {b : PrekeyBundleBuilder s k o} {v : Given} (n : ℕ)
      → Reachable s k o b v
      → Reachable s k o (with_otk_key_id b n) (record v { key_id = some n })
  stamped :
      {s k o : Marker} {b : PrekeyBundleBuilder s k o} {v : Given} (n : ℕ)
      → Reachable s k o b v
      → Reachable s k o (with_timestamp b n) (record v { created = some n })
  expiring :
      {s k o : Marker} {b : PrekeyBundleBuilder s k o} {v : Given} (n : ℕ)
      → Reachable s k o b v
      → Reachable s k o (with_expiration b n) (record v { expires = some n })

abbrev Holds : {A : Type 0} → Marker → Option A → Type 0
Holds missing o = Unit {0}
Holds present none = ⊥
Holds present (some a) = Unit {0}

-- The value, or the default of a setter that was not called.
abbrev pub or_default : ℕ → Option ℕ → ℕ
or_default n none = n
or_default n (some m) = m

-- The builder stores what its setters were given, and the markers say which were called.
record Stores {s k o : Marker} (b : PrekeyBundleBuilder s k o) (v : Given) : Type 0 where
  has_signing : Holds s v.signing_key
  has_kem : Holds k v.kem_key
  has_otk : Holds o v.otk
  signing_stored : b.identity_signing ≡ v.signing_key
  kem_stored : b.identity_kem ≡ v.kem_key
  otk_stored : b.one_time_key ≡ v.otk
  id_stored : b.otk_key_id ≡ or_default 0 v.key_id
  created_stored : b.timestamp ≡ or_default 0 v.created
  expires_stored : b.expiration ≡ or_default u64_max v.expires

Reachable-Stores :
    {s k o : Marker} (b : PrekeyBundleBuilder s k o) (v : Given) → Reachable s k o b v → Stores b v
unfolding new with_identity_signing with_identity_kem with_one_time_key with_otk_key_id
    with_timestamp with_expiration
Reachable-Stores _ _ start = record {
  has_signing = tt;
  has_kem = tt;
  has_otk = tt;
  signing_stored = refl;
  kem_stored = refl;
  otk_stored = refl;
  id_stored = refl;
  created_stored = refl;
  expires_stored = refl;
}
Reachable-Stores _ _ (signing {b = b} {v = v} key r) =
    let h = Reachable-Stores b v r in
    record {
      has_signing = tt;
      has_kem = h.has_kem;
      has_otk = h.has_otk;
      signing_stored = refl;
      kem_stored = h.kem_stored;
      otk_stored = h.otk_stored;
      id_stored = h.id_stored;
      created_stored = h.created_stored;
      expires_stored = h.expires_stored;
    }
Reachable-Stores _ _ (kem {b = b} {v = v} key r) =
    let h = Reachable-Stores b v r in
    record {
      has_signing = h.has_signing;
      has_kem = tt;
      has_otk = h.has_otk;
      signing_stored = h.signing_stored;
      kem_stored = refl;
      otk_stored = h.otk_stored;
      id_stored = h.id_stored;
      created_stored = h.created_stored;
      expires_stored = h.expires_stored;
    }
Reachable-Stores _ _ (one_time {b = b} {v = v} key r) =
    let h = Reachable-Stores b v r in
    record {
      has_signing = h.has_signing;
      has_kem = h.has_kem;
      has_otk = tt;
      signing_stored = h.signing_stored;
      kem_stored = h.kem_stored;
      otk_stored = refl;
      id_stored = h.id_stored;
      created_stored = h.created_stored;
      expires_stored = h.expires_stored;
    }
Reachable-Stores _ _ (identified {b = b} {v = v} n r) =
    let h = Reachable-Stores b v r in
    record {
      has_signing = h.has_signing;
      has_kem = h.has_kem;
      has_otk = h.has_otk;
      signing_stored = h.signing_stored;
      kem_stored = h.kem_stored;
      otk_stored = h.otk_stored;
      id_stored = refl;
      created_stored = h.created_stored;
      expires_stored = h.expires_stored;
    }
Reachable-Stores _ _ (stamped {b = b} {v = v} n r) =
    let h = Reachable-Stores b v r in
    record {
      has_signing = h.has_signing;
      has_kem = h.has_kem;
      has_otk = h.has_otk;
      signing_stored = h.signing_stored;
      kem_stored = h.kem_stored;
      otk_stored = h.otk_stored;
      id_stored = h.id_stored;
      created_stored = refl;
      expires_stored = h.expires_stored;
    }
Reachable-Stores _ _ (expiring {b = b} {v = v} n r) =
    let h = Reachable-Stores b v r in
    record {
      has_signing = h.has_signing;
      has_kem = h.has_kem;
      has_otk = h.has_otk;
      signing_stored = h.signing_stored;
      kem_stored = h.kem_stored;
      otk_stored = h.otk_stored;
      id_stored = h.id_stored;
      created_stored = h.created_stored;
      expires_stored = refl;
    }

-- A bundle with the values that the setters were given, and the defaults for those not called.
pub record IsBuilt (v : Given) (bundle : PreKeyBundle) : Type 0 where
  pub signing_key : v.signing_key ≡ some bundle.identity_signing
  pub kem_key : v.kem_key ≡ some bundle.identity_kem
  pub otk : v.otk ≡ some bundle.one_time_key
  pub key_id : bundle.otk_key_id ≡ or_default 0 v.key_id
  pub created : bundle.timestamp ≡ or_default 0 v.created
  pub expires : bundle.expiration ≡ or_default u64_max v.expires

-- The expiration that was given is not `u64::MAX` and lies before the timestamp.
abbrev pub IsLate : Given → Type 0
IsLate v =
    (or_default u64_max v.expires ≢ u64_max)
    × (or_default u64_max v.expires < or_default 0 v.created)

set-some : {A : Type 0} (o : Option A) → Holds present o → (a : A) × (o ≡ some a)
set-some none h = absurd h
set-some (some a) h = (a, refl)

builds :
    (b : PrekeyBundleBuilder present present present) (first : HybridSigningPublicKey)
    (second third : HybridKemPublicKey)
    → (not (b.expiration == u64_max) && ltb b.expiration b.timestamp) ≡ false
    → b.identity_signing ≡ some first
    → b.identity_kem ≡ some second
    → b.one_time_key ≡ some third
    → build b
      ≡ ok (record {
        identity_signing = first;
        identity_kem = second;
        one_time_key = third;
        otk_key_id = b.otk_key_id;
        timestamp = b.timestamp;
        expiration = b.expiration;
      })
unfolding build
builds b first second third fine hs hk ho = rw (fine, hs, hk, ho) refl

-- A builder whose type says that every required field is set, however it was made, is built without
-- a panic: if the expiration that was given, 0 included, is not `u64::MAX` and lies before the
-- timestamp, the result is the error for that, and otherwise it is a bundle with the last value that
-- was given to each setter, the key id and the timestamp 0 and the expiration `u64::MAX` if they
-- were not given.
pub Reachable-build :
    (b : PrekeyBundleBuilder present present present) (v : Given)
    → Reachable present present present b v
    → (IsLate v × (build b ≡ err (failed CryptoError.bundle_timestamp_in_future)))
      ⊎ (¬ IsLate v × ((bundle : PreKeyBundle) × ((build b ≡ ok bundle) × IsBuilt v bundle)))
unfolding build
Reachable-build b v r =
    let h = Reachable-Stores b v r in
    let s = set-some v.signing_key h.has_signing in
    let k = set-some v.kem_key h.has_kem in
    let o = set-some v.otk h.has_otk in
    elim (Bool-cases (not (b.expiration == u64_max) && ltb b.expiration b.timestamp)) [
      | inl late ↦ inl (
        (ground (arith, h.expires_stored), ground (arith, h.expires_stored, h.created_stored)),
        rw (late),
      )
      | inr fine ↦ inr (
        λ late. ground (arith, late.0, late.1, h.expires_stored, h.created_stored),
        (
          record {
            identity_signing = s.0;
            identity_kem = k.0;
            one_time_key = o.0;
            otk_key_id = b.otk_key_id;
            timestamp = b.timestamp;
            expiration = b.expiration;
          },
          (
            builds b s.0 k.0 o.0 fine (h.signing_stored ∙ s.1) (h.kem_stored ∙ k.1)
                (h.otk_stored ∙ o.1),
            record {
              signing_key = s.1;
              kem_key = k.1;
              otk = o.1;
              key_id = h.id_stored;
              created = h.created_stored;
              expires = h.expires_stored;
            },
          ),
        ),
      )
    ]
