-- ===== src/X3dh/Agreement.antt =====
-- Both sides of the handshake of crates/trelis-x3dh-pq, from the initiator's call to the responder's.
use trelis.Common.{
  ℕ, ◌≤◌, ◌≡◌, ap, subst, ◌∙◌, arith, List, length, length-append, take-append_length,
  drop-append_length,
}
use trelis.Common.Outcome.{ok, ◌>>=◌, and_then-ok}
use trelis.Error.{Result}
use trelis.Hybrid.Identity.{HybridIdentityKeypair}
use trelis.Hybrid.Kem
use trelis.Hybrid.Kem.{HybridKemKeypair, IsKeypair}
use trelis.Hybrid.Kem.Agreement.{
  generate-IsKeypair, x448_dh_comm, sntrup_decapsulate-sntrup_encapsulate,
  length-sntrup_encapsulate,
}
use trelis.Hybrid.Keys.{HybridKemPublicKey, x448_accepts, ciphertext_accepts}
use trelis.Primitives.Interface.{Primitives, PrimitiveLaws}
use trelis.Primitives.X448
use trelis.X3dh.Bundle.{SignedPreKeyBundle, verify_bundle, validate_timestamps}
use trelis.X3dh.Initiator.{
  InitialMessage, InitiatorResult, initial_to_bytes, initial_from_bytes, initiate,
  pq_ciphertext_typed,
}
use trelis.X3dh.Responder.{respond}
use trelis.X3dh.SessionKeys
use trelis.X3dh.SessionKeys.{SessionKeys, swap_directions}
use trelis.X3dh.Transcript
use trelis.X3dh.Transcript.{SessionFlags, derive_shared_secret}

-- The initial message is read back from its bytes.
initial_from_bytes-to_bytes :
    (m : InitialMessage)
    → length m.ephemeral_public ≡ 56
    → length m.pq_ciphertext ≡ 1039
    → initial_from_bytes (initial_to_bytes m) ≡ ok m
unfolding initial_from_bytes initial_to_bytes
initial_from_bytes-to_bytes m he hc = rw (
  length-append m.ephemeral_public m.pq_ciphertext,
  he,
  hc,
  take-append_length m.ephemeral_public m.pq_ciphertext 56 he,
  drop-append_length m.ephemeral_public m.pq_ciphertext 56 he,
)

-- The bundle holds the public keys of the responder's identity and one-time keypair, and every
-- keypair has the public key of its secrets.
pub record Matches (p : Primitives) (alice bob : HybridIdentityKeypair p) (otk : HybridKemKeypair p)
    (b : SignedPreKeyBundle) : Type 0 where
  pub same_signing : b.bundle.identity_signing ≡ bob.signing.public_key
  pub same_kem : b.bundle.identity_kem ≡ bob.kem.public_key
  pub same_otk : b.bundle.one_time_key ≡ otk.public_key
  pub alice_valid : IsKeypair p alice.kem
  pub bob_valid : IsKeypair p bob.kem
  pub otk_valid : IsKeypair p otk

module _ (p : Primitives) (alice bob : HybridIdentityKeypair p) (otk : HybridKemKeypair p)
    (b : SignedPreKeyBundle) (flags : SessionFlags) where
  -- What the responder makes of the bytes that it receives.
  unfoldable pub respond_to_bytes : List ℕ → Result SessionKeys
  respond_to_bytes bytes = initial_from_bytes bytes >>= λ m.
      respond p bob otk alice.signing.public_key alice.kem.public_key.x448 b m flags

  abbrev keys : List ℕ → List ℕ → List ℕ → List ℕ → SessionKeys
  keys dh1 dh2 dh3 pq_ss = SessionKeys.derive p (
      derive_shared_secret p (
        Transcript.new p alice.signing.public_key b.bundle.identity_signing b dh1 dh2 dh3 pq_ss
          flags))

  answered :
      (eph dh1 dh2 dh3 pq_ss ct : List ℕ)
      → Matches p alice bob otk b
      → length eph ≡ 56
      → length ct ≡ 1039
      → Kem.x448_dh p otk alice.kem.public_key.x448 ≡ ok dh1
      → Kem.x448_dh p bob.kem eph ≡ ok dh2
      → Kem.x448_dh p otk eph ≡ ok dh3
      → Kem.sntrup_decapsulate p otk ct ≡ ok pq_ss
      → respond_to_bytes (initial_to_bytes (record { ephemeral_public = eph; pq_ciphertext = ct }))
        ≡ ok (swap_directions (keys dh1 dh2 dh3 pq_ss))
  unfolding respond_to_bytes respond pq_ciphertext_typed
  answered eph dh1 dh2 dh3 pq_ss ct m he hc h1 h2 h3 hs = rw (
    initial_from_bytes-to_bytes (record { ephemeral_public = eph; pq_ciphertext = ct }) he hc,
    x448_accepts eph he,
    ciphertext_accepts ct hc,
    h1,
    h2,
    h3,
    hs,
    m.same_signing,
  )

  -- The two sides agree: when the initiator has established a session on the responder's bundle, the
  -- responder reads the initial message from its bytes and derives the same root key, with the
  -- initiator's sending key for receiving and its receiving key for sending. The bundle is the
  -- responder's own, the responder knows the initiator's public keys, both were given the same
  -- flags, and the primitives satisfy their laws.
  pub respond-initiate :
      (now : ℕ) (g h : p.Rng) (r : InitiatorResult)
      → PrimitiveLaws p
      → Matches p alice bob otk b
      → initiate p alice b now flags g ≡ (h, ok r)
      → respond_to_bytes (initial_to_bytes r.initial_message) ≡ ok (swap_directions r.session_keys)
  unfolding initiate X448.public_key
  respond-initiate now g h r laws m made =
      and_then-ok (g, verify_bundle p b) _ _ _
        (λ verified hv.
          and_then-ok (g, validate_timestamps b now) _ _ _
            (λ valid ht. and_then-ok (Kem.generate p g) _ _ _ (λ e drawn.
              and_then-ok ((Kem.generate p g).0, Kem.x448_dh p alice.kem b.bundle.one_time_key.x448)
                _ _ _
                (λ dh1 h1.
                  and_then-ok ((Kem.generate p g).0, Kem.x448_dh p e b.bundle.identity_kem.x448) _ _
                    _
                    (λ dh2 h2.
                      and_then-ok ((Kem.generate p g).0, Kem.x448_dh p e b.bundle.one_time_key.x448)
                        _ _ _
                        (λ dh3 h3.
                          and_then-ok
                            (Kem.sntrup_encapsulate p b.bundle.one_time_key (Kem.generate p g).0) _
                            _ _
                            (λ sealed hs result.
                              finish (Kem.generate p g).0 e dh1 dh2 dh3 sealed.0 sealed.1
                                (generate-IsKeypair p g e drawn) h1 h2 h3 hs result)))))))
        made
    where
      to_otk :
          (k : HybridKemKeypair p) (shared : List ℕ)
          → Kem.x448_dh p k b.bundle.one_time_key.x448 ≡ ok shared
          → Kem.x448_dh p k otk.public_key.x448 ≡ ok shared
      to_otk k shared e =
          subst (λ (pk : HybridKemPublicKey). Kem.x448_dh p k pk.x448 ≡ ok shared) m.same_otk e

      opens :
          (q : p.Rng) (pq_ss ct : List ℕ)
          → (Kem.sntrup_encapsulate p b.bundle.one_time_key q).1 ≡ ok (pq_ss, ct)
          → Kem.sntrup_decapsulate p otk ct ≡ ok pq_ss
      opens q pq_ss ct e = sntrup_decapsulate-sntrup_encapsulate p otk q pq_ss ct laws m.otk_valid (
          subst (λ (pk : HybridKemPublicKey). (Kem.sntrup_encapsulate p pk q).1 ≡ ok (pq_ss, ct))
            m.same_otk e)

      finish :
          (q : p.Rng) (e : HybridKemKeypair p) (dh1 dh2 dh3 pq_ss ct : List ℕ)
          → IsKeypair p e
          → Kem.x448_dh p alice.kem b.bundle.one_time_key.x448 ≡ ok dh1
          → Kem.x448_dh p e b.bundle.identity_kem.x448 ≡ ok dh2
          → Kem.x448_dh p e b.bundle.one_time_key.x448 ≡ ok dh3
          → (Kem.sntrup_encapsulate p b.bundle.one_time_key q).1 ≡ ok (pq_ss, ct)
          → ◌≡◌ {A = p.Rng × Result InitiatorResult}
              (
                (Kem.sntrup_encapsulate p b.bundle.one_time_key q).0,
                ok (record {
                  session_keys = keys dh1 dh2 dh3 pq_ss;
                  initial_message = record {
                    ephemeral_public = e.public_key.x448;
                    pq_ciphertext = ct;
                  };
                }),
              )
              (h, ok r)
          → respond_to_bytes (initial_to_bytes r.initial_message)
            ≡ ok (swap_directions r.session_keys)
      finish q e dh1 dh2 dh3 pq_ss ct valid h1 h2 h3 hs result =
          subst
            (λ (r : InitiatorResult).
              respond_to_bytes (initial_to_bytes r.initial_message)
              ≡ ok (swap_directions r.session_keys))
            {x = record {
              session_keys = keys dh1 dh2 dh3 pq_ss;
              initial_message = record { ephemeral_public = e.public_key.x448; pq_ciphertext = ct };
            }}
            (cc result)
            (answered e.public_key.x448 dh1 dh2 dh3 pq_ss ct m
              (ap length valid.x448_public ∙ laws.length-base_mult e.x448_secret)
              (length-sntrup_encapsulate p b.bundle.one_time_key q pq_ss ct laws hs)
              (x448_dh_comm p alice.kem otk dh1 laws m.alice_valid m.otk_valid
                (to_otk alice.kem dh1 h1))
              (x448_dh_comm p e bob.kem dh2 laws valid m.bob_valid (
                subst (λ (pk : HybridKemPublicKey). Kem.x448_dh p e pk.x448 ≡ ok dh2) m.same_kem
                  h2))
              (x448_dh_comm p e otk dh3 laws valid m.otk_valid (to_otk e dh3 h3))
              (opens q pq_ss ct hs))

window :
    (b : SignedPreKeyBundle) (now : ℕ) (u : Unit {0})
    → validate_timestamps b now ≡ ok u
    → (b.bundle.timestamp ≤ now) × (now ≤ b.bundle.expiration)
unfolding validate_timestamps
window b now u e = ground arith

-- A session is only ever established on a bundle whose signature verifies under the identity that it
-- names, and at a time between its timestamp and its expiration.
pub initiate_sound :
    (p : Primitives) (alice : HybridIdentityKeypair p) (b : SignedPreKeyBundle) (now : ℕ)
    (flags : SessionFlags) (g h : p.Rng) (r : InitiatorResult)
    → initiate p alice b now flags g ≡ (h, ok r)
    → (verify_bundle p b ≡ ok tt) × ((b.bundle.timestamp ≤ now) × (now ≤ b.bundle.expiration))
unfolding initiate
initiate_sound p alice b now flags g h r made =
    and_then-ok (g, verify_bundle p b) _ _ _
      (λ verified hv.
        and_then-ok (g, validate_timestamps b now) _ _ _
          (λ valid ht rest. (hv, window b now valid ht)))
      made
