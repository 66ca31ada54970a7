-- ===== src/Cocoa/KeySchedule.antt =====
-- crates/trelis-cocoa/src/key_schedule.rs: the keys and hashes of a group, each under its own context.
pub mod Inputs
use trelis.Common.{ℕ, zero, suc, ◌%◌, ◌^◌, List, [], ◌∷◌, ◌++◌, length, take}
use trelis.Common.Bytes.{to_le_bytes}
use trelis.Hybrid.Keys.{HybridKemPublicKey, public_key_to_bytes}
use trelis.Primitives.Interface.{Primitives}

-- "cocoa-sa-seed-derive-v1"
abbrev pub h1_context : List ℕ
h1_context =
    99 ∷ 111 ∷ 99 ∷ 111 ∷ 97 ∷ 45 ∷ 115 ∷ 97 ∷ 45 ∷ 115 ∷ 101 ∷ 101 ∷ 100 ∷ 45 ∷ 100 ∷ 101 ∷ 114
    ∷ 105 ∷ 118 ∷ 101 ∷ 45 ∷ 118 ∷ 49 ∷ []

-- "cocoa-sa-keygen-x448-v1"
abbrev pub h2_context_x448 : List ℕ
h2_context_x448 =
    99 ∷ 111 ∷ 99 ∷ 111 ∷ 97 ∷ 45 ∷ 115 ∷ 97 ∷ 45 ∷ 107 ∷ 101 ∷ 121 ∷ 103 ∷ 101 ∷ 110 ∷ 45 ∷ 120
    ∷ 52 ∷ 52 ∷ 56 ∷ 45 ∷ 118 ∷ 49 ∷ []

-- "cocoa-sa-keygen-sntrup-v1"
abbrev pub h2_context_sntrup : List ℕ
h2_context_sntrup =
    99 ∷ 111 ∷ 99 ∷ 111 ∷ 97 ∷ 45 ∷ 115 ∷ 97 ∷ 45 ∷ 107 ∷ 101 ∷ 121 ∷ 103 ∷ 101 ∷ 110 ∷ 45 ∷ 115
    ∷ 110 ∷ 116 ∷ 114 ∷ 117 ∷ 112 ∷ 45 ∷ 118 ∷ 49 ∷ []

-- "cocoa-sa-tree-label-v1"
abbrev pub h3_context : List ℕ
h3_context =
    99 ∷ 111 ∷ 99 ∷ 111 ∷ 97 ∷ 45 ∷ 115 ∷ 97 ∷ 45 ∷ 116 ∷ 114 ∷ 101 ∷ 101 ∷ 45 ∷ 108 ∷ 97 ∷ 98 ∷ 101
    ∷ 108 ∷ 45 ∷ 118 ∷ 49 ∷ []

-- "cocoa-sa-parent-hash-v1"
abbrev pub h4_context : List ℕ
h4_context =
    99 ∷ 111 ∷ 99 ∷ 111 ∷ 97 ∷ 45 ∷ 115 ∷ 97 ∷ 45 ∷ 112 ∷ 97 ∷ 114 ∷ 101 ∷ 110 ∷ 116 ∷ 45 ∷ 104 ∷ 97
    ∷ 115 ∷ 104 ∷ 45 ∷ 118 ∷ 49 ∷ []

-- "cocoa-sa-epoch-secret-v1"
abbrev pub h5_context : List ℕ
h5_context =
    99 ∷ 111 ∷ 99 ∷ 111 ∷ 97 ∷ 45 ∷ 115 ∷ 97 ∷ 45 ∷ 101 ∷ 112 ∷ 111 ∷ 99 ∷ 104 ∷ 45 ∷ 115 ∷ 101 ∷ 99
    ∷ 114 ∷ 101 ∷ 116 ∷ 45 ∷ 118 ∷ 49 ∷ []

-- "cocoa-sa-round-hash-v1"
abbrev pub round_hash_context : List ℕ
round_hash_context =
    99 ∷ 111 ∷ 99 ∷ 111 ∷ 97 ∷ 45 ∷ 115 ∷ 97 ∷ 45 ∷ 114 ∷ 111 ∷ 117 ∷ 110 ∷ 100 ∷ 45 ∷ 104 ∷ 97
    ∷ 115 ∷ 104 ∷ 45 ∷ 118 ∷ 49 ∷ []

-- "cocoa-sa-transcript-hash-v1"
abbrev pub transcript_hash_context : List ℕ
transcript_hash_context =
    99 ∷ 111 ∷ 99 ∷ 111 ∷ 97 ∷ 45 ∷ 115 ∷ 97 ∷ 45 ∷ 116 ∷ 114 ∷ 97 ∷ 110 ∷ 115 ∷ 99 ∷ 114 ∷ 105
    ∷ 112 ∷ 116 ∷ 45 ∷ 104 ∷ 97 ∷ 115 ∷ 104 ∷ 45 ∷ 118 ∷ 49 ∷ []

-- "cocoa-sa-app-secret-v1"
abbrev pub app_secret_context : List ℕ
app_secret_context =
    99 ∷ 111 ∷ 99 ∷ 111 ∷ 97 ∷ 45 ∷ 115 ∷ 97 ∷ 45 ∷ 97 ∷ 112 ∷ 112 ∷ 45 ∷ 115 ∷ 101 ∷ 99 ∷ 114 ∷ 101
    ∷ 116 ∷ 45 ∷ 118 ∷ 49 ∷ []

-- "cocoa-sa-conf-key-v1"
abbrev pub conf_key_context : List ℕ
conf_key_context =
    99 ∷ 111 ∷ 99 ∷ 111 ∷ 97 ∷ 45 ∷ 115 ∷ 97 ∷ 45 ∷ 99 ∷ 111 ∷ 110 ∷ 102 ∷ 45 ∷ 107 ∷ 101 ∷ 121 ∷ 45
    ∷ 118 ∷ 49 ∷ []

-- "cocoa-sa-init-secret-v1"
abbrev pub init_secret_context : List ℕ
init_secret_context =
    99 ∷ 111 ∷ 99 ∷ 111 ∷ 97 ∷ 45 ∷ 115 ∷ 97 ∷ 45 ∷ 105 ∷ 110 ∷ 105 ∷ 116 ∷ 45 ∷ 115 ∷ 101 ∷ 99
    ∷ 114 ∷ 101 ∷ 116 ∷ 45 ∷ 118 ∷ 49 ∷ []

-- "cocoa-sa-message-key-v1"
abbrev pub message_key_context : List ℕ
message_key_context =
    99 ∷ 111 ∷ 99 ∷ 111 ∷ 97 ∷ 45 ∷ 115 ∷ 97 ∷ 45 ∷ 109 ∷ 101 ∷ 115 ∷ 115 ∷ 97 ∷ 103 ∷ 101 ∷ 45
    ∷ 107 ∷ 101 ∷ 121 ∷ 45 ∷ 118 ∷ 49 ∷ []

-- "cocoa-sa-message-nonce-v1"
abbrev pub message_nonce_context : List ℕ
message_nonce_context =
    99 ∷ 111 ∷ 99 ∷ 111 ∷ 97 ∷ 45 ∷ 115 ∷ 97 ∷ 45 ∷ 109 ∷ 101 ∷ 115 ∷ 115 ∷ 97 ∷ 103 ∷ 101 ∷ 45
    ∷ 110 ∷ 111 ∷ 110 ∷ 99 ∷ 101 ∷ 45 ∷ 118 ∷ 49 ∷ []

-- "h1-sibling"
abbrev pub h1_sibling : List ℕ
h1_sibling = 104 ∷ 49 ∷ 45 ∷ 115 ∷ 105 ∷ 98 ∷ 108 ∷ 105 ∷ 110 ∷ 103 ∷ []

-- "h2-predecessors"
abbrev pub h2_predecessors : List ℕ
h2_predecessors =
    104 ∷ 50 ∷ 45 ∷ 112 ∷ 114 ∷ 101 ∷ 100 ∷ 101 ∷ 99 ∷ 101 ∷ 115 ∷ 115 ∷ 111 ∷ 114 ∷ 115 ∷ []

-- A hasher that is fed each element of a slice.
unfoldable pub feed : {A : Type 0} → (A → List ℕ) → List A → List ℕ
feed bytes [] = []
feed bytes (a ∷ rest) = bytes a ++ feed bytes rest

-- `(users.len() as u32).to_le_bytes()` and then the users.
unfoldable pub user_list : List (List ℕ) → List ℕ
unfolding feed
user_list users = to_le_bytes 4 (length users % 2 ^ 32) ++ feed (λ user. user) users

unfoldable pub round_hash_input : List ℕ → List (List ℕ) → List (List ℕ) → List ℕ
unfolding user_list
round_hash_input root_tree_label removed_users added_users =
    root_tree_label ++ (user_list removed_users ++ user_list added_users)

module _ (p : Primitives) where
  unfoldable pub derive_h1_seed : List ℕ → List ℕ
  derive_h1_seed delta = p.derive_key h1_context delta

  unfoldable pub h2_keygen_x448 : List ℕ → List ℕ
  h2_keygen_x448 seed = p.derive_key h2_context_x448 seed

  unfoldable pub h2_keygen_sntrup : List ℕ → List ℕ
  h2_keygen_sntrup seed = p.derive_key h2_context_sntrup seed

  unfoldable pub h3_tree_label : ℕ → ℕ → List ℕ → List ℕ
  h3_tree_label depth position public_key =
      p.derive_key h3_context (to_le_bytes 4 depth ++ (to_le_bytes 4 position ++ public_key))

  unfoldable pub h3_round_hash : List ℕ → List (List ℕ) → List (List ℕ) → List ℕ
  unfolding round_hash_input
  h3_round_hash root_tree_label removed_users added_users =
      p.derive_key round_hash_context (round_hash_input root_tree_label removed_users added_users)

  unfoldable pub h3_transcript_hash : List ℕ → List ℕ → List ℕ
  h3_transcript_hash prev_transcript round_hash =
      p.derive_key transcript_hash_context (prev_transcript ++ round_hash)

  unfoldable pub h4_parent_hash_h1 : HybridKemPublicKey → List ℕ → List ℕ
  h4_parent_hash_h1 child_pk sibling_label =
      p.derive_key h4_context (h1_sibling ++ (public_key_to_bytes child_pk ++ sibling_label))

  unfoldable pub h4_parent_hash_h2 :
      HybridKemPublicKey → List HybridKemPublicKey → List ℕ → List HybridKemPublicKey → List ℕ
  unfolding feed
  h4_parent_hash_h2 child_pk predecessor_keys child_h2 resolution_keys = p.derive_key h4_context (
      h2_predecessors
      ++ (public_key_to_bytes child_pk
          ++ (feed public_key_to_bytes predecessor_keys
              ++ (child_h2 ++ feed public_key_to_bytes resolution_keys))))

  unfoldable pub h5_epoch_secret : List ℕ → List ℕ → List ℕ → List ℕ
  h5_epoch_secret init_secret_prev delta_root transcript_hash =
      p.derive_key h5_context (init_secret_prev ++ (delta_root ++ transcript_hash))

  unfoldable pub derive_app_secret : List ℕ → List ℕ
  derive_app_secret epoch_secret = p.derive_key app_secret_context epoch_secret

  unfoldable pub derive_conf_key : List ℕ → List ℕ
  derive_conf_key epoch_secret = p.derive_key conf_key_context epoch_secret

  unfoldable pub derive_init_secret : List ℕ → List ℕ
  derive_init_secret epoch_secret = p.derive_key init_secret_context epoch_secret

  unfoldable pub derive_message_key : List ℕ → ℕ → ℕ → List ℕ
  derive_message_key app_secret sender_leaf_position counter =
      p.derive_key message_key_context
        (app_secret ++ (to_le_bytes 4 sender_leaf_position ++ to_le_bytes 8 counter))

  unfoldable pub derive_message_nonce : List ℕ → ℕ → ℕ → List ℕ
  derive_message_nonce app_secret sender_leaf_position counter = take 24 (
      p.derive_key message_nonce_context
        (app_secret ++ (to_le_bytes 4 sender_leaf_position ++ to_le_bytes 8 counter)))

  -- `for _ in 0..levels`.
  unfoldable pub advance_seed_chain : List ℕ → ℕ → List ℕ
  unfolding derive_h1_seed
  advance_seed_chain current zero = current
  advance_seed_chain current (suc levels) = advance_seed_chain (derive_h1_seed current) levels
