-- ===== src/Ratchet/Header.antt =====
-- crates/trelis-ratchet/src/header.rs: the header of a message, which is its associated data, and
-- the message on the wire.
pub mod RoundTrip
use trelis.Common.{
  ℕ, ◌+◌, ◌%◌, ◌^◌, List, [], ◌∷◌, ◌++◌, Bool, true, false, ltb, ◌==◌, not, length, get_or, slice,
  take, if◌then◌else◌,
}
use trelis.Common.Bytes.{to_le_bytes, from_le_bytes}
use trelis.Common.Outcome.{Outcome, ok, err, ◌>>=◌}
use trelis.Error.{Result, CryptoError}
use trelis.Hybrid.Keys.{
  HybridKemPublicKey, HybridEncapsulation, public_key_to_bytes, public_key_from_bytes,
  encapsulation_to_bytes, encapsulation_from_bytes,
}
use trelis.Wire.Constants.{
  protocol_version, cipher_suite, hybrid_kem_pk_size, hybrid_encap_size, nonce_size,
}

-- The crate's `HEADER_SIZE`.
abbrev pub message_header_size : ℕ
message_header_size = 2339

pub record MessageHeader : Type 0 where
  pub version : ℕ
  pub suite : ℕ
  pub recipient_key_id : ℕ
  pub sender_public_key : HybridKemPublicKey
  pub encapsulation : HybridEncapsulation
  pub message_number : ℕ

unfoldable pub new : ℕ → HybridKemPublicKey → HybridEncapsulation → ℕ → MessageHeader
new recipient_key_id sender_public_key encapsulation message_number = record {
  version = protocol_version;
  suite = cipher_suite;
  recipient_key_id = recipient_key_id;
  sender_public_key = sender_public_key;
  encapsulation = encapsulation;
  message_number = message_number;
}

unfoldable pub to_bytes : MessageHeader → List ℕ
to_bytes h =
    h.version
    ∷ h.suite
    ∷ (to_le_bytes 4 message_header_size
        ++ (to_le_bytes 8 h.recipient_key_id
            ++ (to_le_bytes 4 hybrid_kem_pk_size
                ++ (public_key_to_bytes h.sender_public_key
                    ++ (to_le_bytes 4 hybrid_encap_size
                        ++ (encapsulation_to_bytes h.encapsulation
                            ++ to_le_bytes 8 h.message_number))))))

unfoldable pub from_bytes : List ℕ → Result MessageHeader
from_bytes bytes =
    if ltb (length bytes) message_header_size
    then err CryptoError.malformed_message
    else if not (get_or bytes 0 0 == protocol_version)
    then err (CryptoError.unsupported_protocol_version (get_or bytes 0 0) protocol_version)
    else if not (get_or bytes 1 0 == cipher_suite)
    then err (CryptoError.unsupported_cipher_suite (get_or bytes 1 0) cipher_suite)
    else public_key_from_bytes (slice bytes 18 hybrid_kem_pk_size) >>= λ sender_public_key.
        encapsulation_from_bytes (slice bytes 1236 hybrid_encap_size) >>= λ encapsulation.
        ok (record {
          version = get_or bytes 0 0;
          suite = get_or bytes 1 0;
          recipient_key_id = from_le_bytes (slice bytes 6 8);
          sender_public_key = sender_public_key;
          encapsulation = encapsulation;
          message_number = from_le_bytes (slice bytes 2331 8);
        })

pub record RatchetMessage : Type 0 where
  pub header : MessageHeader
  pub nonce : List ℕ
  pub ciphertext : List ℕ

unfoldable pub aad : RatchetMessage → List ℕ
unfolding to_bytes
aad m = to_bytes m.header

-- `ciphertext.len() as u32` wraps.
unfoldable pub message_to_bytes : RatchetMessage → List ℕ
unfolding to_bytes
message_to_bytes m =
    to_bytes m.header ++ (m.nonce ++ (to_le_bytes 4 (length m.ciphertext % 2 ^ 32) ++ m.ciphertext))

-- `checked_add` cannot fail on a 64-bit target: both numbers are below `2 ^ 33`.
unfoldable pub message_from_bytes : List ℕ → Result RatchetMessage
unfolding from_bytes
message_from_bytes bytes =
    if ltb (length bytes) (message_header_size + nonce_size + 4)
    then err CryptoError.malformed_message
    else from_bytes (take message_header_size bytes) >>= λ header.
        let ct_len = from_le_bytes (slice bytes 2363 4) in
        if ltb (length bytes) (2367 + ct_len)
        then err CryptoError.malformed_message
        else ok (record {
          header = header;
          nonce = slice bytes 2339 nonce_size;
          ciphertext = slice bytes 2367 ct_len;
        })
