-- ===== src/Ratchet/Tests.antt =====
-- Runs of crates/trelis-ratchet/src with small stand-ins for the primitives, and the theorems at
-- inputs.
use trelis.Common.{
  ℕ, ◌+◌, ◌≡◌, refl, subst, arith, List, [], ◌∷◌, ◌++◌, none, some, ◌==◌, take, In, true, ◌≢◌, Bool,
  if◌then◌else◌,
}
use trelis.Common.Bytes.{to_le_bytes, from_le_bytes, to_be_bytes, length-to_le_bytes}
use trelis.Common.Outcome.{Outcome, ok, err}
use trelis.Error.{CryptoError, Result}
use trelis.Hybrid.Keys.{HybridKemPublicKey, HybridEncapsulation}
use trelis.Ratchet.Crypto.{Crypto, Laws}
use trelis.Ratchet.Kdf.{kdf_rk, derive_nonce_with_random}
use trelis.Ratchet.Effects.{Fault, failed}
use trelis.Ratchet.Header
use trelis.Ratchet.Header.{RatchetMessage, MessageHeader}
use trelis.Ratchet.State.{
  KemRatchet, validate_can_send, check_exhaustion, is_none, find_keypair, derive_key_id,
  init_initiator, init_responder, fresh,
}
use trelis.Ratchet.Send.{SendResult, send_message, derive_hedged_nonce}
use trelis.Ratchet.Receive.{receive_message}
use trelis.Ratchet.Kdf.{kdf_root, kdf_message, nonce_context, derive_initial_root_key}
use trelis.Ratchet.Kdf.Inputs.{kdf_rk_lem, derive_nonce_with_random_lem}
use trelis.Ratchet.Header.{message_to_bytes, message_from_bytes}
use trelis.Ratchet.Header.RoundTrip.{message_from_bytes-to_bytes}
use trelis.Hybrid.Keys.{
  IsPublicKey, IsEncapsulation, all_zero, public_key_to_bytes, encapsulation_to_bytes,
}
use trelis.Ratchet.Effects.{panicked}
use trelis.Ratchet.Atomic.{send_message_fails, receive_message_fails}
use trelis.Ratchet.Keyring.{rotate_all, find_keypair-rotate_all}
use trelis.Ratchet.StateFile
use trelis.Ratchet.Session.{InSync}
use trelis.Ratchet.Session.Start.{init-InSync, init-IsFaithful}
use trelis.Ratchet.Session.Delivery.{send_message-receive_message}
use trelis.Ratchet.Session.Conversation.{Conversation, Reachable, start, after, speak, IsFaithful}

abbrev sum : List ℕ → ℕ
sum [] = 0
sum (b ∷ bs) = b + sum bs

abbrev key_of : ℕ → HybridKemPublicKey
key_of k = record { x448 = k ∷ []; sntrup = [] }

-- A tag, and the text in the clear.
abbrev seal : List ℕ → List ℕ → List ℕ → List ℕ → Result (List ℕ)
seal key nonce text aad = ok ((sum key + (sum nonce + sum aad)) ∷ text)

abbrev unseal : List ℕ → List ℕ → List ℕ → List ℕ → Result (List ℕ)
unseal key nonce [] aad = err CryptoError.aead_authentication_failed
unseal key nonce (tag ∷ text) aad =
    if tag == sum key + (sum nonce + sum aad)
    then ok text
    else err CryptoError.aead_authentication_failed

abbrev toy : Crypto
toy = record {
  Keypair = ℕ;
  Rng = ℕ;
  public_key = key_of;
  generate = λ g. (g + 1, ok g);
  generate_bytes = λ n g. (g + 1, ok (to_le_bytes n g));
  encapsulate =
      λ pk g. (g + 1, ok (pk.x448, record { x448_ephemeral = g ∷ []; sntrup_ciphertext = [] }));
  decapsulate = λ k e. ok (k ∷ []);
  hash = λ bytes. to_le_bytes 8 (sum bytes);
  derive_key = λ context input. to_le_bytes 32 (sum context + sum input);
  encrypt = seal;
  decrypt = unseal;
}

opens :
    (key nonce text aad : List ℕ)
    → unseal key nonce ((sum key + (sum nonce + sum aad)) ∷ text) aad ≡ ok text
opens key nonce text aad = ground arith

toy-Laws : Laws toy
toy-Laws = record {
  decapsulate-encapsulate = λ k g h secret e eq. cc eq;
  decrypt-encrypt = λ key nonce text aad sealed eq.
      subst (λ (s : List ℕ). unseal key nonce s aad ≡ ok text)
        {x = (sum key + (sum nonce + sum aad)) ∷ text} (cc eq) (opens key nonce text aad);
  length-derive_key = λ context input. length-to_le_bytes 32 _;
}

abbrev session_key : List ℕ
session_key = 1 ∷ 2 ∷ 3 ∷ []

abbrev alice : KemRatchet ℕ
alice = fresh toy session_key 7 (some (key_of 5)) (some 5) 1000

abbrev bob : KemRatchet ℕ
bob = init_responder toy session_key 5 1000

alice_starts : init_initiator toy session_key (key_of 5) 1000 7 ≡ (8, ok alice)
unfolding init_initiator fresh derive_key_id to_le_bytes from_le_bytes
alice_starts = refl

session_InSync : InSync toy alice bob
session_InSync = init-InSync toy session_key 5 1000 1000 7 8 alice alice_starts

abbrev greeting : List ℕ
greeting = 104 ∷ 105 ∷ []

-- Alice's first message.
abbrev first_send : (KemRatchet ℕ × ℕ) × Outcome Fault SendResult
first_send = send_message toy greeting 1001 (alice, 20)

abbrev result_of : Outcome Fault SendResult → SendResult
result_of (ok r) = r
result_of (err e) = record {
  message = record {
    header = Header.new 0 (key_of 0) (record { x448_ephemeral = []; sntrup_ciphertext = [] }) 0;
    nonce = [];
    ciphertext = [];
  };
  state_updated = Bool.false;
}

first_send_ok : first_send ≡ (first_send.0, ok (result_of first_send.1))
unfolding send_message validate_can_send check_exhaustion is_none derive_hedged_nonce
    derive_nonce_with_random Header.new init_responder fresh
first_send_ok = refl

send_message-receive_message_example :
    (bob' : KemRatchet ℕ) × (receive_message toy (result_of first_send.1).message 1002 bob
      ≡ (bob', ok greeting))
    × InSync toy first_send.0.0 bob'
send_message-receive_message_example =
    send_message-receive_message toy toy-Laws greeting 1001 1002 alice first_send.0.0 bob 20
      first_send.0.1 (result_of first_send.1) session_InSync first_send_ok

-- Bob, who knows no key of Alice, cannot send.
bob_cannot_send :
    (send_message toy greeting 1001 (bob, 20)).1 ≡ err (failed CryptoError.no_recipient_key)
unfolding send_message init_responder
bob_cannot_send = refl

send_message_fails_example :
    (failed CryptoError.no_recipient_key ≢ panicked)
    × ((send_message toy greeting 1001 (bob, 20)).0.0 ≡ bob)
send_message_fails_example =
    send_message_fails toy greeting 1001 bob 20 (failed CryptoError.no_recipient_key)
      bob_cannot_send

-- A message to Bob's key, in order, without a valid ciphertext, and a sender's key that Bob has not
-- seen.
abbrev tampered : RatchetMessage
tampered = record {
  header = Header.new 5 (key_of 9) (record { x448_ephemeral = []; sntrup_ciphertext = [] }) 0;
  nonce = [];
  ciphertext = [];
}

tampered_refused :
    (receive_message toy tampered 1002 bob).1 ≡ err (failed CryptoError.aead_authentication_failed)
unfolding receive_message Header.new init_responder fresh derive_key_id to_le_bytes from_le_bytes
tampered_refused = refl

receive_message_fails_example :
    (failed CryptoError.aead_authentication_failed ≢ panicked)
    × ((receive_message toy tampered 1002 bob).0 ≡ bob)
receive_message_fails_example =
    receive_message_fails toy tampered 1002 bob (failed CryptoError.aead_authentication_failed)
      tampered_refused

-- Alice has sent a message that Bob has yet to read.
abbrev one_sent : Conversation toy
one_sent = record {
  speaker = first_send.0.0;
  listener = bob;
  in_flight = (result_of first_send.1).message ∷ [];
  said = greeting ∷ [];
  heard = [];
}

one_sent-Reachable :
    Reachable toy
      (record { speaker = alice; listener = bob; in_flight = []; said = []; heard = [] })
      one_sent
one_sent-Reachable =
    after start (speak greeting 1001 20 first_send.0.1 (result_of first_send.1) first_send_ok)

init-IsFaithful_example : IsFaithful toy one_sent
init-IsFaithful_example =
    init-IsFaithful toy session_key 5 1000 1000 7 8 alice one_sent toy-Laws alice_starts
      one_sent-Reachable

find_keypair-rotate_all_example :
    In
      (alice.our_key_id, alice.our_keypair)
      (rotate_all toy (8 ∷ 9 ∷ 10 ∷ []) alice).previous_keypairs
    × (find_keypair alice.our_key_id (rotate_all toy (8 ∷ 9 ∷ 10 ∷ []) alice) ≢ none)
find_keypair-rotate_all_example = find_keypair-rotate_all toy 8 (9 ∷ 10 ∷ []) alice (omega arith)

abbrev zeros : ℕ → List ℕ
zeros n = to_le_bytes n 0

kdf_rk_lem_example : kdf_rk toy (zeros 32) (1 ∷ 2 ∷ []) ≡ record {
  new_root_key = toy.derive_key kdf_root (zeros 32 ++ (1 ∷ 2 ∷ []));
  message_key = toy.derive_key kdf_message (zeros 32 ++ (1 ∷ 2 ∷ []));
}
kdf_rk_lem_example = kdf_rk_lem toy (zeros 32) (1 ∷ 2 ∷ []) (length-to_le_bytes 32 0)

derive_nonce_with_random_lem_example :
    derive_nonce_with_random toy 42 (zeros 32) (zeros 16)
    ≡ ok (take 24 (toy.derive_key nonce_context (to_be_bytes 8 42 ++ (zeros 32 ++ zeros 16))))
derive_nonce_with_random_lem_example =
    derive_nonce_with_random_lem toy 42 (zeros 32) (zeros 16) (length-to_le_bytes 32 0)
      (length-to_le_bytes 16 0)

abbrev some_key : HybridKemPublicKey
some_key = record { x448 = zeros 56; sntrup = to_le_bytes 1158 1 }

some_IsPublicKey : IsPublicKey some_key
unfolding all_zero to_le_bytes
some_IsPublicKey = record {
  x448_size = length-to_le_bytes 56 0;
  sntrup_size = length-to_le_bytes 1158 1;
  not_zero = refl;
}

abbrev some_encapsulation : HybridEncapsulation
some_encapsulation = record { x448_ephemeral = zeros 56; sntrup_ciphertext = zeros 1039 }

some_IsEncapsulation : IsEncapsulation some_encapsulation
some_IsEncapsulation = record {
  ephemeral_size = length-to_le_bytes 56 0;
  ciphertext_size = length-to_le_bytes 1039 0;
}

message_from_bytes-to_bytes_example :
    message_from_bytes (
      message_to_bytes (record {
        header = Header.new 77 some_key some_encapsulation 3;
        nonce = zeros 24;
        ciphertext = greeting;
      }))
    ≡ ok (record {
      header = Header.new 77 some_key some_encapsulation 3;
      nonce = zeros 24;
      ciphertext = greeting;
    })
message_from_bytes-to_bytes_example =
    message_from_bytes-to_bytes 77 3 some_key some_encapsulation (zeros 24) greeting (omega arith)
      (omega arith) some_IsPublicKey some_IsEncapsulation (length-to_le_bytes 24 0) (omega arith)

has_peer_test : StateFile.has_peer (StateFile.new 3) ≡ true
unfolding StateFile.has_peer
has_peer_test = refl

-- Bob has read Alice's first message; then both send before they read.
abbrev bob_read : KemRatchet ℕ
bob_read = (receive_message toy (result_of first_send.1).message 1002 bob).0

abbrev bob_sends : (KemRatchet ℕ × ℕ) × Outcome Fault SendResult
bob_sends = send_message toy greeting 1003 (bob_read, 40)

abbrev alice_sends : (KemRatchet ℕ × ℕ) × Outcome Fault SendResult
alice_sends = send_message toy greeting 1003 (first_send.0.0, 50)

crossing_test :
    (receive_message toy (result_of alice_sends.1).message 1004 bob_sends.0.0).1
    ≡ err (failed CryptoError.aead_authentication_failed)
unfolding send_message receive_message validate_can_send check_exhaustion is_none
    derive_hedged_nonce derive_nonce_with_random Header.new init_responder fresh
    derive_initial_root_key to_le_bytes from_le_bytes to_be_bytes public_key_to_bytes
    encapsulation_to_bytes
crossing_test = refl
