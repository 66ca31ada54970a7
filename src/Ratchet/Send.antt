-- ===== src/Ratchet/Send.antt =====
-- crates/trelis-ratchet/src/send.rs. The result's flag `state_updated`, always true, is kept.
use trelis.Common.{ℕ, List, Bool, true}
use trelis.Common.Outcome.{Outcome, ok, and_then}
use trelis.Ratchet.Crypto.{Crypto}
use trelis.Ratchet.Kdf.{kdf_rk, derive_nonce_with_random}
use trelis.Ratchet.Effects.{Fault, lift, expect, draw}
use trelis.Ratchet.Header
use trelis.Ratchet.Header.{RatchetMessage, MessageHeader}
use trelis.Ratchet.State.{
  KemRatchet, RatchetStatus, validate_can_send, rotate_keypair, set_root_key, increment_send_count,
  set_status, set_last_activity,
}

pub record SendResult : Type 0 where
  pub message : RatchetMessage
  pub state_updated : Bool

module _ (c : Crypto) where
  -- `derive_hedged_nonce` of nonce.rs.
  unfoldable pub derive_hedged_nonce :
      {S : Type 0} → ℕ → List ℕ → S × c.Rng → (S × c.Rng) × Outcome Fault (List ℕ)
  derive_hedged_nonce counter message_key t =
      and_then (draw (c.generate_bytes 16) t)
        λ random_component. lift (derive_nonce_with_random c counter message_key random_component)

  -- Step 8: what a successful send does to the state.
  unfoldable pub sent : c.Keypair → List ℕ → ℕ → KemRatchet c.Keypair → KemRatchet c.Keypair
  unfolding rotate_keypair set_root_key increment_send_count set_status set_last_activity
  sent new_keypair new_root_key current_time s = set_last_activity current_time (
      set_status RatchetStatus.awaiting_reply
        (increment_send_count (set_root_key new_root_key (rotate_keypair c new_keypair s))))

  unfoldable pub send_message :
      List ℕ
      → ℕ
      → KemRatchet c.Keypair × c.Rng
      → (KemRatchet c.Keypair × c.Rng) × Outcome Fault SendResult
  unfolding validate_can_send kdf_rk Header.new Header.to_bytes derive_hedged_nonce sent
  send_message plaintext current_time (state, rng) =
      and_then (lift (validate_can_send state) (state, rng)) λ _. λ t.
        and_then (draw c.generate t) λ new_keypair. λ t.
          and_then (expect state.their_public_key t) λ their_pk. λ t.
            and_then (draw (c.encapsulate their_pk) t) λ (shared_secret, encapsulation). λ t.
              and_then (expect state.their_key_id t) λ their_key_id.
                let kdf_output = kdf_rk c state.root_key shared_secret in
                let header =
                  Header.new their_key_id (c.public_key new_keypair) encapsulation
                    state.send_count in
                λ t.
                  and_then (derive_hedged_nonce state.send_count kdf_output.message_key t) λ nonce.
                    λ t.
                      and_then
                        (lift
                          (c.encrypt kdf_output.message_key nonce plaintext
                            (Header.to_bytes header))
                          t)
                        λ ciphertext. λ (s, g). (
                          (sent new_keypair kdf_output.new_root_key current_time s, g),
                          ok (record {
                            message = record {
                              header = header;
                              nonce = nonce;
                              ciphertext = ciphertext;
                            };
                            state_updated = true;
                          }),
                        )
