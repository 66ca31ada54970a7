-- ===== src/Ratchet/Receive.antt =====
-- crates/trelis-ratchet/src/receive.rs.
use trelis.Common.{ℕ, List, Bool, true, Option, none, some, ◌==◌, not, if◌then◌else◌}
use trelis.Common.Outcome.{Outcome, ok, and_then, guard}
use trelis.Error.{CryptoError}
use trelis.Hybrid.Keys.{HybridKemPublicKey, public_key_eq}
use trelis.Ratchet.Crypto.{Crypto}
use trelis.Ratchet.Kdf.{kdf_rk}
use trelis.Ratchet.Effects.{Fault, lift, expect}
use trelis.Ratchet.Header
use trelis.Ratchet.Header.{RatchetMessage}
use trelis.Ratchet.State.{
  KemRatchet, RatchetStatus, validate_can_receive, find_keypair, set_root_key, set_recv_count,
  set_status, set_last_activity, set_their_public_key, is_none,
}

-- `state.their_public_key() != Some(&key)`.
unfoldable pub is_changed : Option HybridKemPublicKey → HybridKemPublicKey → Bool
is_changed none key = true
is_changed (some known) key = not (public_key_eq known key)

module _ (c : Crypto) where
  -- Step 8: what an authenticated message does to the state.
  unfoldable pub received :
      Bool → RatchetMessage → List ℕ → ℕ → KemRatchet c.Keypair → KemRatchet c.Keypair
  unfolding set_root_key set_recv_count set_status set_last_activity set_their_public_key
  received sender_key_changed message new_root_key current_time s =
      let rooted = set_root_key new_root_key s in
      let keyed =
        if sender_key_changed
        then set_their_public_key c message.header.sender_public_key rooted
        else rooted in
      set_last_activity current_time
        (set_status RatchetStatus.active (set_recv_count message.header.message_number keyed))

  unfoldable pub receive_message :
      RatchetMessage → ℕ → KemRatchet c.Keypair → KemRatchet c.Keypair × Outcome Fault (List ℕ)
  unfolding validate_can_receive find_keypair is_none is_changed kdf_rk Header.to_bytes received
  receive_message message current_time state =
      and_then (lift (validate_can_receive state) state) λ _. λ s.
        and_then
          (lift
            (guard (message.header.message_number == s.recv_count)
              (CryptoError.message_order_violation s.recv_count message.header.message_number))
            s)
          λ _. λ s.
            and_then
              (lift
                (guard (not (is_none (find_keypair message.header.recipient_key_id s)))
                  CryptoError.unknown_recipient_key_id)
                s)
              λ _. λ s.
                let sender_key_changed =
                  is_changed s.their_public_key message.header.sender_public_key in
                and_then (expect (find_keypair message.header.recipient_key_id s) s) λ keypair. λ s.
                  and_then (lift (c.decapsulate keypair message.header.encapsulation) s)
                    λ shared_secret.
                      let kdf_output = kdf_rk c state.root_key shared_secret in
                      λ s.
                        and_then
                          (lift
                            (c.decrypt kdf_output.message_key message.nonce message.ciphertext
                              (Header.to_bytes message.header))
                            s)
                          λ plaintext. λ s. (
                            received sender_key_changed message kdf_output.new_root_key current_time
                                s,
                            ok plaintext,
                          )
