-- ===== src/Error.antt =====
-- crates/trelis-error/src/lib.rs: the error type of every crate and its classification.
-- The texts that `Display` prints are left out.
use trelis.Common.{ℕ, Bool, true, false}
use trelis.Common.Outcome.{Outcome}

pub data CryptoError : Type 0 where
  invalid_key_length : (expected actual : ℕ) → CryptoError
  key_generation_failed key_derivation_failed : CryptoError
  signature_verification_failed invalid_signature : CryptoError
  invalid_context_length : (actual max : ℕ) → CryptoError
  decryption_failed aead_authentication_failed : CryptoError
  invalid_nonce_length : (expected actual : ℕ) → CryptoError
  encapsulation_failed decapsulation_failed invalid_ciphertext : CryptoError
  invalid_ciphertext_length : (expected actual : ℕ) → CryptoError
  unknown_sender_key message_counter_too_old : CryptoError
  message_counter_too_far_ahead : (max_skip gap : ℕ) → CryptoError
  too_many_skipped_keys : (limit : ℕ) → CryptoError
  skipped_key_expired duplicate_message : CryptoError
  epoch_too_old : (minimum received : ℕ) → CryptoError
  unknown_recipient_key_id : CryptoError
  session_exhausted : (current threshold : ℕ) → CryptoError
  unsupported_protocol_version : (received supported : ℕ) → CryptoError
  unsupported_cipher_suite : (received supported : ℕ) → CryptoError
  malformed_message invalid_header : CryptoError
  unexpected_end_of_input : (expected available : ℕ) → CryptoError
  invalid_bundle_signature bundle_expired bundle_timestamp_in_future : CryptoError
  wrong_recipient context_mismatch rng_failure : CryptoError
  invalid_node_index member_not_found group_full invalid_tree_state : CryptoError
  invalid_group_size group_id_mismatch self_removal_forbidden : CryptoError
  invalid_leaf_position duplicate_member parent_hash_mismatch : CryptoError
  round_hash_mismatch identity_key_mismatch removed_from_group : CryptoError
  epoch_mismatch : (expected received : ℕ) → CryptoError
  message_too_large proof_too_deep tree_depth_exceeded : CryptoError
  rate_limit_exceeded : CryptoError
  no_active_session session_compromised no_recipient_key : CryptoError
  message_order_violation : (expected received : ℕ) → CryptoError
  invalid_magic unsupported_state_version : CryptoError
  nonce_expired nonce_replayed nonce_mismatch : CryptoError

abbrev pub Result {ℓ} : Type ℓ → Type ℓ
Result A = Outcome CryptoError A

pub data ErrorCategory : Type 0 where
  fatal transient protocol security : ErrorCategory

-- The last arm of the source's match lists the security errors one by one; here they are the rest.
pub category : CryptoError → ErrorCategory
category key_generation_failed = fatal
category rng_failure = fatal
category invalid_tree_state = fatal
category group_full = fatal
category invalid_group_size = fatal
category rate_limit_exceeded = transient
category (session_exhausted current threshold) = protocol
category (epoch_too_old minimum received) = protocol
category unknown_sender_key = protocol
category unknown_recipient_key_id = protocol
category member_not_found = protocol
category invalid_node_index = protocol
category no_active_session = protocol
category session_compromised = protocol
category no_recipient_key = protocol
category group_id_mismatch = protocol
category self_removal_forbidden = protocol
category invalid_leaf_position = protocol
category removed_from_group = protocol
category (epoch_mismatch expected received) = protocol
category (message_order_violation expected received) = protocol
category _ = security

pub is_fatal : CryptoError → Bool
unfolding category
is_fatal e = elim (category e) [ fatal ↦ true | _ ↦ false ]

pub is_security_error : CryptoError → Bool
unfolding category
is_security_error e = elim (category e) [ security ↦ true | _ ↦ false ]
