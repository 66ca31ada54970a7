-- ===== src/X3dh/Tests.antt =====
-- A run of the handshake of crates/trelis-x3dh-pq/src with small stand-ins for the primitives, and the
-- theorems at inputs.
use trelis.Common.{
  ℕ, ◌+◌, ◌≤◌, ◌<◌, ◌≡◌, ◌⊎◌, some, none, refl, arith, List, [], ◌∷◌, Bool, true, false,
}
use trelis.Common.Bytes.{to_le_bytes}
use trelis.Common.Outcome.{Outcome, ok, err}
use trelis.Error.{CryptoError, Result}
use trelis.Hybrid.Identity.{HybridIdentityKeypair}
use trelis.Hybrid.Kem
use trelis.Hybrid.Kem.{HybridKemKeypair, from_secrets}
use trelis.Hybrid.Kem.Agreement.{
  from_secrets-IsKeypair, hybrid_crypto, hybrid_crypto-Laws, Certified,
}
use trelis.Hybrid.Keys.{all_zero, public_key_to_bytes}
use trelis.Hybrid.Signature
use trelis.Hybrid.Signature.{HybridSigningKeypair, from_components, bop_verify_core, bop_sign_core}
use trelis.Primitives.Tests.{toy_primitives, toy_primitives-Laws, first, total}
use trelis.Primitives.X448
use trelis.Ratchet.Effects.{Fault, failed}
use trelis.Ratchet.Header
use trelis.Ratchet.Kdf.{derive_nonce_with_random}
use trelis.Ratchet.Send.{SendResult, send_message, derive_hedged_nonce}
use trelis.Ratchet.Receive.{receive_message}
use trelis.Ratchet.Session.{InSync}
use trelis.Ratchet.Session.Start.{init-InSync}
use trelis.Ratchet.Session.Conversation.{Conversation, Step, Reachable, IsFaithful}
use trelis.Ratchet.State.{
  KemRatchet, init_initiator, init_responder, validate_can_send, check_exhaustion, is_none, fresh,
  session_exhaustion_threshold,
}
use trelis.Ratchet.Session.Progress.{IsReliable, InSync-progress}
use trelis.X3dh.Agreement.{Matches, respond_to_bytes, respond-initiate, initiate_sound}
use trelis.X3dh.Builder
use trelis.X3dh.Builder.{PrekeyBundleBuilder, Marker, build}
use trelis.X3dh.Builder.Calls
use trelis.X3dh.Builder.Calls.{Given, IsLate, IsBuilt, Reachable-build}
use trelis.X3dh.Bundle.{
  PreKeyBundle, SignedPreKeyBundle, sign_bundle, verify_bundle, validate_timestamps, signing_data,
}
use trelis.X3dh.Initiator.{InitiatorResult, initiate, initial_to_bytes}
use trelis.X3dh.Session.{handshake-IsFaithful}
use trelis.X3dh.SessionKeys.{SessionKeys, swap_directions}
use trelis.X3dh.Transcript.{SessionFlags}

abbrev device : ℕ → Bool → HybridIdentityKeypair toy_primitives
device n b =
    let signing = from_components toy_primitives n (n + 1) in
    let kem = from_secrets toy_primitives (n ∷ []) b in
    record {
      public_key = record { signing = signing.public_key; kem = kem.public_key };
      signing = signing;
      kem = kem;
    }

abbrev alice : HybridIdentityKeypair toy_primitives
alice = device 3 true

abbrev bob : HybridIdentityKeypair toy_primitives
bob = device 5 false

abbrev otk : HybridKemKeypair toy_primitives
otk = from_secrets toy_primitives (7 ∷ []) true

abbrev bob_keys : PreKeyBundle
bob_keys = record {
  identity_signing = bob.signing.public_key;
  identity_kem = bob.kem.public_key;
  one_time_key = otk.public_key;
  otk_key_id = 1;
  timestamp = 100;
  expiration = 200;
}

abbrev signed_value : Result SignedPreKeyBundle → SignedPreKeyBundle
signed_value (ok s) = s
signed_value (err e) = record { bundle = bob_keys; signature = record { rsp = []; mldsa = [] } }

abbrev bob_bundle : SignedPreKeyBundle
bob_bundle = signed_value (sign_bundle toy_primitives bob_keys bob.signing 1).1

abbrev flags : SessionFlags
flags = record { li_capable = false }

abbrev toy_started : ℕ × Result InitiatorResult
toy_started = initiate toy_primitives alice bob_bundle 150 flags 2

abbrev no_keys : SessionKeys
no_keys = record { root_key = []; send_chain_key = []; recv_chain_key = [] }

abbrev started_value : Result InitiatorResult → InitiatorResult
started_value (ok r) = r
started_value (err e) = record {
  session_keys = no_keys;
  initial_message = record { ephemeral_public = []; pq_ciphertext = [] };
}

abbrev toy_result : InitiatorResult
toy_result = started_value toy_started.1

toy_started_ok : toy_started ≡ (toy_started.0, ok toy_result)
unfolding initiate verify_bundle Signature.verify bop_verify_core sign_bundle Signature.sign
    bop_sign_core from_components Signature.bop_m_prime validate_timestamps Kem.generate
    Kem.generate_as from_secrets X448.generate X448.clamp X448.update_at X448.public_key Kem.x448_dh
    X448.diffie_hellman all_zero Kem.sntrup_encapsulate to_le_bytes signing_data
    Signature.signing_key_to_bytes public_key_to_bytes Signature.h2_challenge
toy_started_ok = refl

toy_Matches : Matches toy_primitives alice bob otk bob_bundle
unfolding sign_bundle Signature.sign bop_sign_core from_components
toy_Matches = record {
  same_signing = refl;
  same_kem = refl;
  same_otk = refl;
  alice_valid = from_secrets-IsKeypair toy_primitives (3 ∷ []) true;
  bob_valid = from_secrets-IsKeypair toy_primitives (5 ∷ []) false;
  otk_valid = from_secrets-IsKeypair toy_primitives (7 ∷ []) true;
}

respond-initiate_example :
    respond_to_bytes toy_primitives alice bob otk bob_bundle flags
      (initial_to_bytes toy_result.initial_message)
    ≡ ok (swap_directions toy_result.session_keys)
respond-initiate_example =
    respond-initiate toy_primitives alice bob otk bob_bundle flags 150 2 toy_started.0 toy_result
      toy_primitives-Laws toy_Matches toy_started_ok

initiate_sound_example :
    (verify_bundle toy_primitives bob_bundle ≡ ok tt)
    × ((bob_bundle.bundle.timestamp ≤ 150) × (150 ≤ bob_bundle.bundle.expiration))
initiate_sound_example =
    initiate_sound toy_primitives alice bob_bundle 150 flags 2 toy_started.0 toy_result
      toy_started_ok

abbrev bob_certified : Certified toy_primitives
bob_certified = (
  from_secrets toy_primitives (5 ∷ []) false,
  from_secrets-IsKeypair toy_primitives (5 ∷ []) false,
)

abbrev ratchet_value :
    KemRatchet (Certified toy_primitives)
    → Result (KemRatchet (Certified toy_primitives))
    → KemRatchet (Certified toy_primitives)
ratchet_value d (ok s) = s
ratchet_value d (err e) = d

abbrev toy_ratchet : ℕ × Result (KemRatchet (Certified toy_primitives))
toy_ratchet =
    init_initiator (hybrid_crypto toy_primitives) toy_result.session_keys.root_key
      bob_certified.0.public_key 150 30

abbrev bob_ratchet : KemRatchet (Certified toy_primitives)
bob_ratchet =
    init_responder (hybrid_crypto toy_primitives) (swap_directions toy_result.session_keys).root_key
      bob_certified 160

abbrev alice_ratchet : KemRatchet (Certified toy_primitives)
alice_ratchet = ratchet_value bob_ratchet toy_ratchet.1

toy_ratchet_ok : toy_ratchet ≡ (toy_ratchet.0, ok alice_ratchet)
unfolding init_initiator Kem.generate_as X448.generate
toy_ratchet_ok = refl

abbrev greeting : List ℕ
greeting = 104 ∷ 105 ∷ []

-- Alice sends her first message over the ratchet.
abbrev first_send : (KemRatchet (Certified toy_primitives) × ℕ) × Outcome Fault SendResult
first_send = send_message (hybrid_crypto toy_primitives) greeting 151 (alice_ratchet, 31)

abbrev sent_value : Outcome Fault SendResult → SendResult
sent_value (ok r) = r
sent_value (err e) = record {
  message = record {
    header = Header.new 0 otk.public_key (record { x448_ephemeral = []; sntrup_ciphertext = [] }) 0;
    nonce = [];
    ciphertext = [];
  };
  state_updated = false;
}

first_send_ok : first_send ≡ (first_send.0, ok (sent_value first_send.1))
unfolding send_message validate_can_send check_exhaustion is_none derive_hedged_nonce
    derive_nonce_with_random Header.new init_initiator fresh Kem.generate_as Kem.encapsulate
    from_secrets X448.generate X448.public_key X448.clamp X448.diffie_hellman all_zero to_le_bytes
first_send_ok = refl

-- It is on its way.
abbrev toy_conversation : Conversation (hybrid_crypto toy_primitives)
toy_conversation = record {
  speaker = first_send.0.0;
  listener = bob_ratchet;
  in_flight = (sent_value first_send.1).message ∷ [];
  said = greeting ∷ [];
  heard = [];
}

toy_conversation-Reachable :
    Reachable
      (hybrid_crypto toy_primitives)
      (record {
        speaker = alice_ratchet;
        listener = bob_ratchet;
        in_flight = [];
        said = [];
        heard = [];
      })
      toy_conversation
toy_conversation-Reachable =
    Reachable.after Reachable.start
      (Step.speak greeting 151 31 first_send.0.1 (sent_value first_send.1) first_send_ok)

handshake-IsFaithful_example : IsFaithful (hybrid_crypto toy_primitives) toy_conversation
handshake-IsFaithful_example =
    handshake-IsFaithful toy_primitives alice bob otk bob_bundle flags 150 160 2 toy_started.0 30
      toy_ratchet.0 toy_result (swap_directions toy_result.session_keys) bob_certified alice_ratchet
      toy_conversation toy_primitives-Laws toy_Matches toy_started_ok respond-initiate_example
      toy_ratchet_ok toy_conversation-Reachable

not_all_zero : (n : ℕ) (bytes : List ℕ) → all_zero ((1 + n) ∷ bytes) ≡ false
unfolding all_zero
not_all_zero n bytes = ground arith

agrees :
    (secret point : List ℕ)
    → X448.diffie_hellman toy_primitives secret point ≡ ok (toy_primitives.mult point secret)
unfolding X448.diffie_hellman
agrees secret point = rw (not_all_zero (first point + total secret) (to_le_bytes 55 0)) refl

-- The hybrid KEM goes through for Bob's key, which is not of low order.
hybrid-IsReliable : IsReliable (hybrid_crypto toy_primitives) bob_certified.0.public_key greeting
unfolding Kem.generate_as Kem.encapsulate X448.generate
hybrid-IsReliable = record {
  generates = λ g. (_, refl);
  draws = λ g. (_, refl);
  encapsulates =
      λ g. rw (agrees (X448.clamp (to_le_bytes 56 g)) bob_certified.0.public_key.x448) (_, refl);
  encrypts = λ key nonce aad. (_, refl);
}

ratchets_InSync : InSync (hybrid_crypto toy_primitives) alice_ratchet bob_ratchet
unfolding swap_directions
ratchets_InSync =
    init-InSync (hybrid_crypto toy_primitives) toy_result.session_keys.root_key bob_certified 150
      160 30 toy_ratchet.0 alice_ratchet toy_ratchet_ok

alice_knows : alice_ratchet.their_public_key ≡ some bob_certified.0.public_key
unfolding init_initiator fresh Kem.generate_as X448.generate
alice_knows = refl

alice_below : alice_ratchet.send_count < session_exhaustion_threshold
unfolding init_initiator fresh Kem.generate_as X448.generate
alice_below = omega arith

InSync-progress_example :
    (r : SendResult) × (s' : KemRatchet (Certified toy_primitives)) × (g' : ℕ) × (send_message
        (hybrid_crypto toy_primitives)
        greeting
        151
        (alice_ratchet, 31)
      ≡ ((s', g'), ok r))
    × (t' : KemRatchet (Certified toy_primitives)) × (receive_message
          (hybrid_crypto toy_primitives)
          r.message
          152
          bob_ratchet
        ≡ (t', ok greeting))
    × InSync (hybrid_crypto toy_primitives) s' t'
InSync-progress_example =
    InSync-progress (hybrid_crypto toy_primitives) greeting 151 152 alice_ratchet bob_ratchet 31
      bob_certified.0.public_key (hybrid_crypto-Laws toy_primitives toy_primitives-Laws)
      hybrid-IsReliable ratchets_InSync alice_knows alice_below

-- A builder with the one-time key first and an expiration before the timestamp.
abbrev late : PrekeyBundleBuilder Marker.present Marker.present Marker.present
late =
    Builder.with_expiration
      (Builder.with_identity_signing
        (Builder.with_identity_kem
          (Builder.with_timestamp (Builder.with_one_time_key Builder.new otk.public_key) 2000)
          bob.kem.public_key)
        bob.signing.public_key)
      1500

abbrev late_given : Given
late_given = record {
  signing_key = some bob.signing.public_key;
  kem_key = some bob.kem.public_key;
  otk = some otk.public_key;
  key_id = none;
  created = some 2000;
  expires = some 1500;
}

Reachable-build_example :
    (IsLate late_given × (build late ≡ err (failed CryptoError.bundle_timestamp_in_future)))
    ⊎ (¬ IsLate late_given
        × ((bundle : PreKeyBundle) × ((build late ≡ ok bundle) × IsBuilt late_given bundle)))
Reachable-build_example = Reachable-build late late_given (
    Calls.Reachable.expiring 1500 (
      Calls.Reachable.signing bob.signing.public_key (
        Calls.Reachable.kem bob.kem.public_key (
          Calls.Reachable.stamped 2000
            (Calls.Reachable.one_time otk.public_key Calls.Reachable.start)))))
