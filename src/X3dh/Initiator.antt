-- ===== src/X3dh/Initiator.antt =====
-- crates/trelis-x3dh-pq/src/initiator.rs: the side that opens a session from a published bundle.
use trelis.Common.{ℕ, ◌+◌, List, ◌++◌, ◌==◌, not, length, take, drop, if◌then◌else◌}
use trelis.Common.Outcome.{ok, err, and_then}
use trelis.Error.{Result, CryptoError}
use trelis.Hybrid.Identity.{HybridIdentityKeypair}
use trelis.Hybrid.Kem
use trelis.Hybrid.Keys.{ciphertext_from_bytes}
use trelis.Primitives.Interface.{Primitives}
use trelis.Wire.Constants.{x448_pk_size, sntrup761_ct_size}
use trelis.X3dh.Bundle.{SignedPreKeyBundle, verify_bundle, validate_timestamps}
use trelis.X3dh.SessionKeys
use trelis.X3dh.SessionKeys.{SessionKeys}
use trelis.X3dh.Transcript
use trelis.X3dh.Transcript.{SessionFlags, derive_shared_secret}

pub record InitialMessage : Type 0 where
  pub ephemeral_public : List ℕ
  pub pq_ciphertext : List ℕ

unfoldable pub initial_to_bytes : InitialMessage → List ℕ
initial_to_bytes m = m.ephemeral_public ++ m.pq_ciphertext

unfoldable pub initial_from_bytes : List ℕ → Result InitialMessage
initial_from_bytes bytes =
    if not (length bytes == x448_pk_size + sntrup761_ct_size)
    then err CryptoError.malformed_message
    else ok (record {
      ephemeral_public = take x448_pk_size bytes;
      pq_ciphertext = drop x448_pk_size bytes;
    })

unfoldable pub pq_ciphertext_typed : InitialMessage → Result (List ℕ)
pq_ciphertext_typed m = ciphertext_from_bytes m.pq_ciphertext

pub record InitiatorResult : Type 0 where
  pub session_keys : SessionKeys
  pub initial_message : InitialMessage

module _ (p : Primitives) where
  -- `Initiator::establish`.
  unfoldable pub initiate :
      HybridIdentityKeypair p
      → SignedPreKeyBundle
      → ℕ
      → SessionFlags
      → p.Rng
      → p.Rng × Result InitiatorResult
  initiate our_identity their_bundle current_time flags g =
      and_then (g, verify_bundle p their_bundle)
        (λ verified g.
          and_then (g, validate_timestamps their_bundle current_time)
            (λ valid g. and_then (Kem.generate p g) (λ ephemeral g.
              and_then (g, Kem.x448_dh p our_identity.kem their_bundle.bundle.one_time_key.x448)
                (λ dh1 g.
                  and_then (g, Kem.x448_dh p ephemeral their_bundle.bundle.identity_kem.x448)
                    (λ dh2 g.
                      and_then (g, Kem.x448_dh p ephemeral their_bundle.bundle.one_time_key.x448)
                        (λ dh3 g.
                          and_then (Kem.sntrup_encapsulate p their_bundle.bundle.one_time_key g)
                            (λ sealed g.
                              let transcript =
                                Transcript.new p our_identity.signing.public_key
                                  their_bundle.bundle.identity_signing their_bundle dh1 dh2 dh3
                                  sealed.0 flags in
                              let shared_secret = derive_shared_secret p transcript in
                              (
                                g,
                                ok (record {
                                  session_keys = SessionKeys.derive p shared_secret;
                                  initial_message = record {
                                    ephemeral_public = ephemeral.public_key.x448;
                                    pq_ciphertext = sealed.1;
                                  };
                                }),
                              ))))))))
