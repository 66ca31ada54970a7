-- ===== src/Hybrid/Kem/Agreement.antt =====
-- What the two ends of the KEM of crates/trelis-hybrid/src/kem.rs agree on.
use trelis.Common.{
  ℕ, ◌≡◌, refl, sym, ap, subst, List, length, length-append, take-append_length, drop-append_length,
}
use trelis.Common.Outcome.{ok, and_then-ok}
use trelis.Error.{Result}
use trelis.Hybrid.Combiner.{combine_v2}
use trelis.Hybrid.Kem.{
  HybridKemKeypair, IsKeypair, from_secrets, generate, generate_as, to_bytes, from_bytes,
  encapsulate, decapsulate, x448_dh, sntrup_encapsulate, sntrup_decapsulate,
}
use trelis.Hybrid.Keys.{HybridKemPublicKey, HybridEncapsulation, public_key_to_bytes}
use trelis.Primitives.Interface.{Primitives, PrimitiveLaws}
use trelis.Primitives.X448
use trelis.Primitives.X448.{clamp, diffie_hellman_comm}
use trelis.Ratchet.Crypto.{Crypto, Laws}

module _ (p : Primitives) where
  pub from_secrets-IsKeypair : (x : List ℕ) (s : p.SntrupSecret) → IsKeypair p (from_secrets p x s)
  unfolding from_secrets
  from_secrets-IsKeypair x s = record { x448_public = refl; sntrup_public = refl }

  pub generate-IsKeypair :
      (g : p.Rng) (k : HybridKemKeypair p) → (generate p g).1 ≡ ok k → IsKeypair p k
  unfolding generate generate_as
  generate-IsKeypair g k made =
      and_then-ok (X448.generate p g) _ (generate p g).0 k
        (λ x drawn.
          and_then-ok (p.sntrup_generate (X448.generate p g).0) _ (generate p g).0 k
            (λ s drawn' result.
              subst (λ (k : HybridKemKeypair p). IsKeypair p k) {x = from_secrets p x s}
                (cc (ap (λ (r : p.Rng × Result (HybridKemKeypair p)). r.1) result))
                (from_secrets-IsKeypair x s)))
        (ap (λ (r : Result (HybridKemKeypair p)). ((generate p g).0, r)) made)

  -- Either of two owners derives the same X448 secret from the other's public key.
  pub x448_dh_comm :
      (k k' : HybridKemKeypair p) (shared : List ℕ)
      → PrimitiveLaws p
      → IsKeypair p k
      → IsKeypair p k'
      → x448_dh p k k'.public_key.x448 ≡ ok shared
      → x448_dh p k' k.public_key.x448 ≡ ok shared
  unfolding x448_dh
  x448_dh_comm k k' shared laws valid valid' h =
      subst (λ (pk : List ℕ). X448.diffie_hellman p k'.x448_secret pk ≡ ok shared)
        (sym valid.x448_public)
        (diffie_hellman_comm p k.x448_secret k'.x448_secret shared laws (
          subst (λ (pk : List ℕ). X448.diffie_hellman p k.x448_secret pk ≡ ok shared)
            valid'.x448_public h))

  -- The same for the part of sntrup761 alone.
  pub sntrup_decapsulate-sntrup_encapsulate :
      (k : HybridKemKeypair p) (g : p.Rng) (secret ct : List ℕ)
      → PrimitiveLaws p
      → IsKeypair p k
      → (sntrup_encapsulate p k.public_key g).1 ≡ ok (secret, ct)
      → sntrup_decapsulate p k ct ≡ ok secret
  unfolding sntrup_encapsulate sntrup_decapsulate
  sntrup_decapsulate-sntrup_encapsulate k g secret ct laws valid made =
      laws.decapsulate-encapsulate k.sntrup_secret g secret ct (
        subst (λ (pk : List ℕ). (p.sntrup_encapsulate pk g).1 ≡ ok (secret, ct)) valid.sntrup_public
          made)

  pub length-sntrup_encapsulate :
      (pk : HybridKemPublicKey) (g : p.Rng) (secret ct : List ℕ)
      → PrimitiveLaws p
      → (sntrup_encapsulate p pk g).1 ≡ ok (secret, ct)
      → length ct ≡ 1039
  unfolding sntrup_encapsulate
  length-sntrup_encapsulate pk g secret ct laws made =
      laws.ciphertext_size pk.sntrup g secret ct made

  opened :
      (k : HybridKemKeypair p) (x448_ss sntrup_ss ct eph : List ℕ)
      → X448.diffie_hellman p k.x448_secret eph ≡ ok x448_ss
      → p.sntrup_decapsulate k.sntrup_secret ct ≡ ok sntrup_ss
      → decapsulate p k (record { x448_ephemeral = eph; sntrup_ciphertext = ct })
        ≡ ok (combine_v2 p x448_ss sntrup_ss ct eph (public_key_to_bytes k.public_key))
  unfolding decapsulate
  opened k x448_ss sntrup_ss ct eph hx hs = rw (hx, hs)

  -- The owner of a keypair recovers the secret that was encapsulated to its public key. The
  -- primitives satisfy their laws.
  pub decapsulate-encapsulate :
      (k : HybridKemKeypair p) (g h : p.Rng) (secret : List ℕ) (e : HybridEncapsulation)
      → PrimitiveLaws p
      → IsKeypair p k
      → encapsulate p k.public_key g ≡ (h, ok (secret, e))
      → decapsulate p k e ≡ ok secret
  unfolding encapsulate
  decapsulate-encapsulate k g h secret e laws valid made =
      and_then-ok (X448.generate p g) _ _ _
        (λ eph drawn.
          and_then-ok ((X448.generate p g).0, X448.diffie_hellman p eph k.public_key.x448) _ _ _
            (λ x448_ss agreed.
              and_then-ok (p.sntrup_encapsulate k.public_key.sntrup (X448.generate p g).0) _ _ _
                (λ sealed encapsulated result.
                  finish (X448.generate p g).0 eph x448_ss sealed.0 sealed.1 agreed encapsulated
                    result)))
        made
    where
      finish :
          (r : p.Rng) (eph x448_ss sntrup_ss ct : List ℕ)
          → X448.diffie_hellman p eph k.public_key.x448 ≡ ok x448_ss
          → (p.sntrup_encapsulate k.public_key.sntrup r).1 ≡ ok (sntrup_ss, ct)
          → ◌≡◌ {A = p.Rng × Result (List ℕ × HybridEncapsulation)}
              (
                (p.sntrup_encapsulate k.public_key.sntrup r).0,
                ok (
                  combine_v2 p x448_ss sntrup_ss ct
                      (X448.public_key p eph)
                      (public_key_to_bytes k.public_key),
                  record { x448_ephemeral = X448.public_key p eph; sntrup_ciphertext = ct },
                ),
              )
              (h, ok (secret, e))
          → decapsulate p k e ≡ ok secret
      finish r eph x448_ss sntrup_ss ct agreed encapsulated result =
          subst (λ (e : HybridEncapsulation). decapsulate p k e ≡ ok secret)
            {x = record { x448_ephemeral = X448.public_key p eph; sntrup_ciphertext = ct }}
            (cc result)
            (subst
              (λ (s : List ℕ).
                decapsulate p k
                  (record { x448_ephemeral = X448.public_key p eph; sntrup_ciphertext = ct })
                ≡ ok s)
              {x = combine_v2 p x448_ss sntrup_ss ct (X448.public_key p eph)
                (public_key_to_bytes k.public_key)}
              (cc result)
              (opened k x448_ss sntrup_ss ct (X448.public_key p eph)
                (diffie_hellman_comm p eph k.x448_secret x448_ss laws (
                  subst (λ (pk : List ℕ). X448.diffie_hellman p eph pk ≡ ok x448_ss)
                    valid.x448_public agreed))
                (laws.decapsulate-encapsulate k.sntrup_secret r sntrup_ss ct (
                  subst (λ (pk : List ℕ). (p.sntrup_encapsulate pk r).1 ≡ ok (sntrup_ss, ct))
                    valid.sntrup_public encapsulated))))

  rebuilt :
      (k : HybridKemKeypair p) → IsKeypair p k → from_secrets p k.x448_secret k.sntrup_secret ≡ k
  unfolding from_secrets
  rebuilt k valid = rw (sym valid.x448_public, sym valid.sntrup_public)

  -- A keypair that is written is read back. Its public key is that of its secrets, the X448 secret
  -- has been clamped and has 56 bytes, and the primitives satisfy their laws.
  pub from_bytes-to_bytes_keypair :
      (k : HybridKemKeypair p)
      → PrimitiveLaws p
      → IsKeypair p k
      → length k.x448_secret ≡ 56
      → clamp k.x448_secret ≡ k.x448_secret
      → from_bytes p (to_bytes p k) ≡ ok k
  unfolding from_bytes to_bytes X448.secret_from_bytes
  from_bytes-to_bytes_keypair k laws valid size clamped = rw (
    length-append k.x448_secret (p.sntrup_secret_as_bytes k.sntrup_secret),
    size,
    laws.sntrup_secret_size k.sntrup_secret,
    take-append_length k.x448_secret (p.sntrup_secret_as_bytes k.sntrup_secret) 56 size,
    drop-append_length k.x448_secret (p.sntrup_secret_as_bytes k.sntrup_secret) 56 size,
    laws.sntrup_secret_read k.sntrup_secret,
    clamped,
    rebuilt k valid,
  )

  -- A keypair with the fact that its constructor established.
  abbrev pub Certified : Type 0
  Certified = (k : HybridKemKeypair p) × IsKeypair p k

  abbrev pub certified : List ℕ → p.SntrupSecret → Certified
  certified x s = (from_secrets p x s, from_secrets-IsKeypair x s)

  -- The cryptography of the ratchet, with the hybrid KEM for its KEM.
  abbrev pub hybrid_crypto : Crypto
  hybrid_crypto = record {
    Keypair = Certified;
    Rng = p.Rng;
    public_key = λ k. k.0.public_key;
    generate = generate_as p certified;
    generate_bytes = p.fill_bytes;
    encapsulate = encapsulate p;
    decapsulate = λ k. decapsulate p k.0;
    hash = p.hash;
    derive_key = p.derive_key;
    encrypt = p.encrypt;
    decrypt = p.decrypt;
  }

  -- The hybrid KEM and the AEAD give the ratchet what it asks of its cryptography: its interface is
  -- implemented, with every law. The primitives satisfy their laws.
  pub hybrid_crypto-Laws : PrimitiveLaws p → Laws hybrid_crypto
  hybrid_crypto-Laws laws = record {
    decapsulate-encapsulate =
        λ k g h secret e made. decapsulate-encapsulate k.0 g h secret e laws k.1 made;
    decrypt-encrypt = laws.decrypt-encrypt;
    length-derive_key = laws.length-derive_key;
  }
