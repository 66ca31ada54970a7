-- ===== src/X3dh/Responder.antt =====
-- crates/trelis-x3dh-pq/src/responder.rs: the side that published the bundle.
use trelis.Common.{ℕ, List}
use trelis.Common.Outcome.{ok, ◌>>=◌}
use trelis.Error.{Result}
use trelis.Hybrid.Identity.{HybridIdentityKeypair}
use trelis.Hybrid.Kem
use trelis.Hybrid.Kem.{HybridKemKeypair}
use trelis.Hybrid.Keys.{x448_from_bytes}
use trelis.Hybrid.Signature.{HybridSigningPublicKey}
use trelis.Primitives.Interface.{Primitives}
use trelis.X3dh.Bundle.{SignedPreKeyBundle}
use trelis.X3dh.Initiator.{InitialMessage, pq_ciphertext_typed}
use trelis.X3dh.SessionKeys
use trelis.X3dh.SessionKeys.{SessionKeys, swap_directions}
use trelis.X3dh.Transcript
use trelis.X3dh.Transcript.{SessionFlags, derive_shared_secret}

module _ (p : Primitives) where
  -- `Responder::establish`.
  unfoldable pub respond :
      HybridIdentityKeypair p
      → HybridKemKeypair p
      → HybridSigningPublicKey
      → List ℕ
      → SignedPreKeyBundle
      → InitialMessage
      → SessionFlags
      → Result SessionKeys
  respond our_identity our_otk their_identity_signing their_identity_kem_x448 our_bundle
        initial_message flags =
      x448_from_bytes initial_message.ephemeral_public >>= λ their_ephemeral.
      pq_ciphertext_typed initial_message >>= λ pq_ciphertext.
      Kem.x448_dh p our_otk their_identity_kem_x448 >>= λ dh1.
      Kem.x448_dh p our_identity.kem their_ephemeral >>= λ dh2.
      Kem.x448_dh p our_otk their_ephemeral >>= λ dh3.
      Kem.sntrup_decapsulate p our_otk pq_ciphertext >>= λ pq_ss.
      let transcript =
        Transcript.new p their_identity_signing our_identity.signing.public_key our_bundle dh1 dh2
          dh3 pq_ss flags in
      let shared_secret = derive_shared_secret p transcript in
      ok (swap_directions (SessionKeys.derive p shared_secret))
