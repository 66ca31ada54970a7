-- ===== src/Cocoa/Session/Tests.antt =====
-- Two members of a group of crates/trelis-cocoa with small stand-ins for the primitives, and the
-- theorems on sessions, epochs, seeds and commits at inputs.
use trelis.Common.{
  ℕ, ◌+◌, ◌≡◌, refl, arith, List, [], ◌∷◌, true, false, All, length, leb, some, get_elem?,
  if◌then◌else◌,
}
use trelis.Common.Bytes.{to_le_bytes, length-to_le_bytes}
use trelis.Common.Outcome.{Outcome, ok, err, ◌>>=◌}
use trelis.Error.{CryptoError, Result}
use trelis.Hybrid.Kem.{HybridKemKeypair, from_secrets}
use trelis.Hybrid.Kem
use trelis.Hybrid.Kem.Agreement.{from_secrets-IsKeypair}
use trelis.Hybrid.Keys.{all_zero}
use trelis.Primitives.Committing.{encrypt_committing, aead_commitment}
use trelis.Primitives.X448
use trelis.Cocoa.SeedEncrypt.{EncryptedNodeSeed, encrypt_seed_to_recipient}
use trelis.Cocoa.SeedEncrypt.Recipients.{
  encrypt_to_all, encrypt_seed_to_resolution, public_keys_of, Recovered,
  encrypt_seed_to_resolution-Recovered,
}
use trelis.Cocoa.CommitSign.{new_add}
use trelis.Cocoa.CommitSign.Extended.{
  ExtendedCommitContent, extend_add, IsExtended, extended_to_bytes_inj,
}
use trelis.Cocoa.Tree.Index.{node}
use trelis.Primitives.Tests.{toy_primitives, toy_primitives-Laws}
use trelis.Ratchet.Effects.{Fault}
use trelis.Cocoa.Epoch
use trelis.Cocoa.Epoch.{checked_suc, next_message_key}
use trelis.Cocoa.KeySchedule.Inputs.{round_hash_input_inj}
use trelis.Cocoa.Limits.{check_size_limits, max_message_size}
use trelis.Cocoa.SeedChain.{derive_path_seeds, derive_path_seeds_lem, get_seed_at_level}
use trelis.Cocoa.Session.{
  CocoaSession, EncryptedMessage, create_group, join_group, encrypt, decrypt,
}
use trelis.Cocoa.Session.Message.{to_bytes, from_bytes}
use trelis.Cocoa.Session.Delivery.{InEpoch, decrypt-encrypt_group}
use trelis.Cocoa.Session.Counters.{Run, Step, IsAscending, AtMost, at, place, Run-IsAscending}
use trelis.Cocoa.Session.Epochs.{advance_epochs, secrets_after, advance_epochs_lem}

abbrev keypair : HybridKemKeypair toy_primitives
keypair = from_secrets toy_primitives (5 ∷ []) true

abbrev group_id : List ℕ
group_id = to_le_bytes 32 99

abbrev epoch_secret : List ℕ
epoch_secret = to_le_bytes 32 17

-- The joiner, which also stands for a result that is an error.
abbrev joiner : CocoaSession toy_primitives
joiner = join_group toy_primitives group_id (2 ∷ []) keypair 1 1 2 epoch_secret (to_le_bytes 32 0)

abbrev session_value : Result (CocoaSession toy_primitives) → CocoaSession toy_primitives
session_value (ok s) = s
session_value (err e) = joiner

abbrev creator : CocoaSession toy_primitives
creator = session_value (create_group toy_primitives group_id (1 ∷ []) keypair 2 epoch_secret)

members_InEpoch : InEpoch creator joiner
unfolding create_group join_group
members_InEpoch = record { same_group = refl; same_number = refl; same_secrets = refl }

abbrev greeting : List ℕ
greeting = 104 ∷ 105 ∷ []

abbrev toy_encrypted : CocoaSession toy_primitives × Outcome Fault EncryptedMessage
toy_encrypted = encrypt toy_primitives greeting creator

abbrev message_value : Outcome Fault EncryptedMessage → EncryptedMessage
message_value (ok m) = m
message_value (err e) = record { epoch = 0; sender_leaf_position = 0; counter = 0; ciphertext = [] }

toy_encrypted_ok : toy_encrypted ≡ (toy_encrypted.0, ok (message_value toy_encrypted.1))
unfolding encrypt create_group next_message_key checked_suc check_size_limits Epoch.initial
toy_encrypted_ok = refl

creator_starts : (creator.epoch.number ≡ 0) × (creator.our_leaf_position ≡ 0)
unfolding create_group Epoch.initial
creator_starts = (refl, refl)

decrypt-encrypt_group_example :
    (from_bytes (to_bytes (message_value toy_encrypted.1)) >>= decrypt toy_primitives joiner) ≡ (
      if leb (length greeting + 16) max_message_size
      then ok greeting
      else err CryptoError.message_too_large)
decrypt-encrypt_group_example =
    decrypt-encrypt_group toy_primitives greeting creator toy_encrypted.0 joiner
      (message_value toy_encrypted.1) toy_primitives-Laws members_InEpoch
      (omega (arith, creator_starts.0)) (omega (arith, creator_starts.1)) toy_encrypted_ok

-- Two messages in a row.
abbrev toy_second : CocoaSession toy_primitives × Outcome Fault EncryptedMessage
toy_second = encrypt toy_primitives greeting toy_encrypted.0

toy_second_ok : toy_second ≡ (toy_second.0, ok (message_value toy_second.1))
unfolding encrypt create_group next_message_key checked_suc check_size_limits Epoch.initial
toy_second_ok = refl

abbrev two_messages : List EncryptedMessage
two_messages = message_value toy_encrypted.1 ∷ message_value toy_second.1 ∷ []

Run-IsAscending_example :
    IsAscending two_messages × All (λ m. AtMost (at toy_primitives creator) (place m)) two_messages
Run-IsAscending_example = Run-IsAscending toy_primitives creator two_messages toy_second.0 (
    Run.step (Step.seals greeting toy_encrypted_ok)
      (Run.step (Step.seals greeting toy_second_ok) Run.stop))

abbrev commits : List (List ℕ × List ℕ)
commits = (to_le_bytes 32 1, to_le_bytes 32 2) ∷ (to_le_bytes 32 3, to_le_bytes 32 4) ∷ []

advance_epochs_lem_example :
    (creator' joiner' : CocoaSession toy_primitives) × (advance_epochs toy_primitives commits
        creator
      ≡ (creator', ok tt))
    × (advance_epochs toy_primitives commits joiner ≡ (joiner', ok tt))
    × InEpoch creator' joiner'
    × (creator'.epoch.number ≡ creator.epoch.number + 2)
    × (creator'.epoch.secrets ≡ secrets_after toy_primitives creator.epoch.secrets commits)
    × (creator'.epoch.message_counter ≡ 0)
advance_epochs_lem_example =
    advance_epochs_lem toy_primitives (to_le_bytes 32 1, to_le_bytes 32 2)
      ((to_le_bytes 32 3, to_le_bytes 32 4) ∷ []) creator joiner members_InEpoch
      (omega (arith, creator_starts.0))

derive_path_seeds_lem_example :
    (length (derive_path_seeds toy_primitives epoch_secret 4) ≡ 4)
    × (seed : List ℕ) × (get_elem? (derive_path_seeds toy_primitives epoch_secret 4) 1 ≡ some seed)
    × (seed ≡ get_seed_at_level toy_primitives epoch_secret 1)
    × (get_elem? (derive_path_seeds toy_primitives epoch_secret 4) (1 + 2)
        ≡ some (get_seed_at_level toy_primitives seed 2))
derive_path_seeds_lem_example =
    derive_path_seeds_lem toy_primitives epoch_secret 4 1 2 (omega arith)

-- A seed for the node at depth 2 and position 1, encrypted to two members with generator state 4.
abbrev node_seed : List ℕ
node_seed = to_le_bytes 32 21

abbrev recipients : List (HybridKemKeypair toy_primitives)
recipients = keypair ∷ from_secrets toy_primitives (7 ∷ []) false ∷ []

abbrev seeds_sealed : ℕ × Result (List EncryptedNodeSeed)
seeds_sealed =
    encrypt_seed_to_resolution toy_primitives node_seed (node 3 2 ∷ node 3 3 ∷ [])
      (public_keys_of toy_primitives recipients) (node 2 1) 4

abbrev seeds_value : Result (List EncryptedNodeSeed) → List EncryptedNodeSeed
seeds_value (ok es) = es
seeds_value (err e) = []

seeds_sealed_ok : seeds_sealed ≡ (seeds_sealed.0, ok (seeds_value seeds_sealed.1))
unfolding encrypt_seed_to_resolution encrypt_to_all encrypt_seed_to_recipient Kem.encapsulate
    X448.generate X448.diffie_hellman X448.public_key X448.clamp encrypt_committing aead_commitment
    from_secrets all_zero to_le_bytes
seeds_sealed_ok = refl

encrypt_seed_to_resolution-Recovered_example :
    Recovered toy_primitives node_seed (node 2 1) recipients (seeds_value seeds_sealed.1)
encrypt_seed_to_resolution-Recovered_example =
    encrypt_seed_to_resolution-Recovered toy_primitives node_seed (node 3 2 ∷ node 3 3 ∷ [])
      recipients (node 2 1) 4 seeds_sealed.0 (seeds_value seeds_sealed.1) toy_primitives-Laws
      (
        from_secrets-IsKeypair toy_primitives (5 ∷ []) true,
        (from_secrets-IsKeypair toy_primitives (7 ∷ []) false, tt),
      )
      (length-to_le_bytes 32 21) seeds_sealed_ok

abbrev user : ℕ → List ℕ
user n = to_le_bytes 32 n

round_hash_input_inj_example :
    (user 1 ≡ user 1) × (((user 2 ∷ []) ≡ (user 2 ∷ [])) × ((user 3 ∷ []) ≡ (user 3 ∷ [])))
round_hash_input_inj_example =
    round_hash_input_inj (user 1) (user 1) (user 2 ∷ []) (user 2 ∷ []) (user 3 ∷ []) (user 3 ∷ [])
      (length-to_le_bytes 32 1) (length-to_le_bytes 32 1) (length-to_le_bytes 32 2, tt)
      (length-to_le_bytes 32 2, tt) (length-to_le_bytes 32 3, tt) (length-to_le_bytes 32 3, tt)
      (omega arith) (omega arith) (omega arith) (omega arith) refl

-- The commit that adds user 4 at position 6.
abbrev adding : ExtendedCommitContent
adding = extend_add (new_add group_id 3 (user 1) (user 2) 5 (user 3)) (user 4) 6

adding-IsExtended : IsExtended adding
unfolding new_add
adding-IsExtended =
    IsExtended.adds (new_add group_id 3 (user 1) (user 2) 5 (user 3)) (user 4) 6
      (record {
        group_size = length-to_le_bytes 32 99;
        epoch_width = omega arith;
        round_size = length-to_le_bytes 32 1;
        updates_size = length-to_le_bytes 32 2;
        position_width = omega arith;
        user_size = length-to_le_bytes 32 3;
      })
      refl (length-to_le_bytes 32 4) (omega arith)

extended_to_bytes_inj_example : adding ≡ adding
extended_to_bytes_inj_example =
    extended_to_bytes_inj adding adding adding-IsExtended adding-IsExtended refl
