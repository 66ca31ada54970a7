-- ===== src/Cocoa/Session.antt =====
-- crates/trelis-cocoa/src/session.rs: a member's view of a group and the messages of an epoch. The set
-- of member ids is a list that holds each id once: its order is never read.
pub mod Message
pub mod Delivery
pub mod Counters
pub mod Epochs
mod Tests
use trelis.Common.{ℕ, ◌+◌, ◌==◌, not, List, [], ◌∷◌, ◌++◌, Bool, true, false, length, if◌then◌else◌}
use trelis.Common.Bytes.{to_le_bytes}
use trelis.Common.Outcome.{Outcome, ok, err, ◌>>=◌, ◌>>◌, and_then, map_err}
use trelis.Error.{Result, CryptoError}
use trelis.Hybrid.Kem
use trelis.Hybrid.Kem.{HybridKemKeypair}
use trelis.Hybrid.Keys.{bytes_eq}
use trelis.Primitives.Interface.{Primitives}
use trelis.Ratchet.Effects.{Fault, failed, lift}
use trelis.Cocoa.Epoch
use trelis.Cocoa.Epoch.{
  Epoch, MessageKey, next_message_key, message_key_for_counter, derive_secrets, secrets_message_key,
}
use trelis.Cocoa.Limits.{check_size_limits}
use trelis.Cocoa.Tree.View
use trelis.Cocoa.Tree.View.{PartialTreeView, depth_for_members}
use trelis.Cocoa.Watermark
use trelis.Cocoa.Watermark.{SessionWatermark}

pub record EncryptedMessage : Type 0 where
  pub epoch : ℕ
  pub sender_leaf_position : ℕ
  pub counter : ℕ
  pub ciphertext : List ℕ

unfoldable pub contains_id : List ℕ → List (List ℕ) → Bool
contains_id id [] = false
contains_id id (m ∷ members) = if bytes_eq id m then true else contains_id id members

unfoldable pub insert_id : List ℕ → List (List ℕ) → List (List ℕ)
unfolding contains_id
insert_id id members = if contains_id id members then members else id ∷ members

unfoldable pub remove_id : List ℕ → List (List ℕ) → List (List ℕ)
remove_id id [] = []
remove_id id (m ∷ members) = if bytes_eq id m then members else m ∷ remove_id id members

pub record CocoaSession (p : Primitives) : Type 0 where
  pub group_id : List ℕ
  pub our_user_id : List ℕ
  pub our_leaf_position : ℕ
  pub our_keypair : HybridKemKeypair p
  pub tree : PartialTreeView
  pub epoch : Epoch
  pub transcript_hash : List ℕ
  pub members : List (List ℕ)

-- The associated data of a message: group, epoch, sender and counter.
unfoldable pub message_aad : List ℕ → ℕ → ℕ → ℕ → List ℕ
message_aad group_id epoch sender_leaf_position counter =
    group_id
    ++ (to_le_bytes 8 epoch ++ (to_le_bytes 4 sender_leaf_position ++ to_le_bytes 8 counter))

module _ (p : Primitives) where
  unfoldable pub create_group :
      List ℕ → List ℕ → HybridKemKeypair p → ℕ → List ℕ → Result (CocoaSession p)
  unfolding insert_id
  create_group group_id our_user_id our_keypair initial_members epoch_secret =
      if initial_members == 0
      then err CryptoError.invalid_group_size
      else let tree_depth = depth_for_members initial_members in
        let transcript_hash = to_le_bytes 32 0 in
        ok (record {
          group_id = group_id;
          our_user_id = our_user_id;
          our_leaf_position = 0;
          our_keypair = our_keypair;
          tree = View.set_member_count initial_members (View.new 0 tree_depth);
          epoch = Epoch.initial p epoch_secret transcript_hash;
          transcript_hash = transcript_hash;
          members = insert_id our_user_id [];
        })

  unfoldable pub join_group :
      List ℕ → List ℕ → HybridKemKeypair p → ℕ → ℕ → ℕ → List ℕ → List ℕ → CocoaSession p
  unfolding insert_id
  join_group group_id our_user_id our_keypair our_position tree_depth member_count epoch_secret
        transcript_hash =
      record {
        group_id = group_id;
        our_user_id = our_user_id;
        our_leaf_position = our_position;
        our_keypair = our_keypair;
        tree = View.set_member_count member_count (View.new our_position tree_depth);
        epoch = Epoch.initial p epoch_secret transcript_hash;
        transcript_hash = transcript_hash;
        members = insert_id our_user_id [];
      }

  unfoldable pub restore_session :
      List ℕ → List ℕ → HybridKemKeypair p → ℕ → ℕ → ℕ → List ℕ → List ℕ → ℕ → CocoaSession p
  unfolding insert_id
  restore_session group_id our_user_id our_keypair our_position tree_depth member_count epoch_secret
        transcript_hash epoch_number =
      record {
        group_id = group_id;
        our_user_id = our_user_id;
        our_leaf_position = our_position;
        our_keypair = our_keypair;
        tree = View.set_member_count member_count (View.new our_position tree_depth);
        epoch = Epoch.restore p epoch_secret transcript_hash epoch_number;
        transcript_hash = transcript_hash;
        members = insert_id our_user_id [];
      }

module _ {p : Primitives} where
  unfoldable pub is_member : List ℕ → CocoaSession p → Bool
  is_member id s = contains_id id s.members

  unfoldable pub insert_member : List ℕ → CocoaSession p → CocoaSession p
  insert_member id s = record s { members = insert_id id s.members }

  unfoldable pub remove_member : List ℕ → CocoaSession p → CocoaSession p
  remove_member id s = record s { members = remove_id id s.members }

  unfoldable pub set_session_counter : ℕ → CocoaSession p → CocoaSession p × Result (Unit {0})
  set_session_counter counter s =
      let set = Epoch.set_message_counter counter s.epoch in (record s { epoch = set.0 }, set.1)

module _ (p : Primitives) where
  unfoldable pub restore_session_checked :
      SessionWatermark
      → List ℕ
      → List ℕ
      → HybridKemKeypair p
      → ℕ
      → ℕ
      → ℕ
      → List ℕ
      → List ℕ
      → ℕ
      → ℕ
      → Result (CocoaSession p)
  restore_session_checked watermark group_id our_user_id our_keypair our_position tree_depth
        member_count epoch_secret transcript_hash epoch_number message_counter =
      Watermark.check watermark epoch_number message_counter
      >> (let s =
            restore_session p group_id our_user_id our_keypair our_position tree_depth member_count
              epoch_secret transcript_hash epoch_number in
          let set = set_session_counter message_counter s in (set.1 >> ok set.0))

  -- A message from the key that the epoch gave out; the counter has moved on by then, and stays so
  -- if the encryption fails.
  unfoldable pub encrypt : List ℕ → CocoaSession p → CocoaSession p × Outcome Fault EncryptedMessage
  unfolding message_aad
  encrypt plaintext s =
      and_then (lift (check_size_limits (length plaintext) 0 0 0 0) s) (λ checked s.
        let taken = next_message_key p s.our_leaf_position s.epoch in
        and_then (record s { epoch = taken.0 }, taken.1)
          (λ message_key s.
            and_then
              (lift
                (p.encrypt message_key.key message_key.nonce plaintext
                  (message_aad s.group_id s.epoch.number s.our_leaf_position message_key.counter))
                s)
              (λ ciphertext s. (
                s,
                ok (record {
                  epoch = s.epoch.number;
                  sender_leaf_position = s.our_leaf_position;
                  counter = message_key.counter;
                  ciphertext = ciphertext;
                }),
              ))))

  unfoldable pub decrypt : CocoaSession p → EncryptedMessage → Result (List ℕ)
  unfolding message_aad message_key_for_counter
  decrypt s m =
      check_size_limits (length m.ciphertext) 0 0 0 0
      >> (if not (m.epoch == s.epoch.number)
          then err (CryptoError.epoch_mismatch s.epoch.number m.epoch)
          else let message_key =
              message_key_for_counter p s.epoch m.sender_leaf_position m.counter in
            p.decrypt message_key.key message_key.nonce m.ciphertext
              (message_aad s.group_id m.epoch m.sender_leaf_position m.counter))

  unfoldable pub decrypt_with_epoch_secret :
      CocoaSession p → List ℕ → EncryptedMessage → Result (List ℕ)
  unfolding message_aad
  decrypt_with_epoch_secret s epoch_secret m =
      check_size_limits (length m.ciphertext) 0 0 0 0
      >> (let secrets = derive_secrets p epoch_secret in
          let message_key = secrets_message_key p secrets m.sender_leaf_position m.counter in
          p.decrypt message_key.key message_key.nonce m.ciphertext
            (message_aad s.group_id m.epoch m.sender_leaf_position m.counter))

  unfoldable pub advance_epoch :
      List ℕ → List ℕ → CocoaSession p → CocoaSession p × Outcome Fault (Unit {0})
  advance_epoch delta_root new_transcript_hash s =
      and_then
        (
          s,
          Epoch.advance p s.epoch.secrets.init_secret delta_root new_transcript_hash s.epoch.number,
        )
        (λ epoch s. (record s { epoch = epoch; transcript_hash = new_transcript_hash }, ok tt))

  unfoldable pub rotate_keypair :
      CocoaSession p × p.Rng → (CocoaSession p × p.Rng) × Result (Unit {0})
  rotate_keypair (s, g) =
      let made = Kem.generate p g in
      and_then ((s, made.0), made.1)
        (λ keypair t. ((record t.0 { our_keypair = keypair }, t.1), ok tt))
