-- ===== src/Ratchet/Kdf.antt =====
-- crates/trelis-ratchet/src/kdf.rs and nonce.rs: keys and nonces from BLAKE3. A context string is
-- the list of its ASCII codes.
pub mod Inputs
use trelis.Common.{
  ℕ, ◌+◌, ◌≤◌, ◌≡◌, refl, ap, sym, ◌∙◌, arith, List, [], ◌∷◌, ◌++◌, Bool, true, false, leb, length,
  take, drop, if◌then◌else◌, take-append_length, drop-append_length, length-append, length-take,
  length-drop, take-append-drop, take-take, Bool-cases, inl, inr,
}
use trelis.Common.Bytes.{to_be_bytes, to_le_bytes}
use trelis.Common.Copy.{copy_at}
use trelis.Common.Outcome.{ok}
use trelis.Error.{Result}
use trelis.Ratchet.Crypto.{Crypto}

-- "trelis-pq-ratchet-root-v1"
abbrev pub kdf_root : List ℕ
kdf_root =
    116 ∷ 114 ∷ 101 ∷ 108 ∷ 105 ∷ 115 ∷ 45 ∷ 112 ∷ 113 ∷ 45 ∷ 114 ∷ 97 ∷ 116 ∷ 99 ∷ 104 ∷ 101 ∷ 116
    ∷ 45 ∷ 114 ∷ 111 ∷ 111 ∷ 116 ∷ 45 ∷ 118 ∷ 49 ∷ []

-- "trelis-pq-ratchet-message-v1"
abbrev pub kdf_message : List ℕ
kdf_message =
    116 ∷ 114 ∷ 101 ∷ 108 ∷ 105 ∷ 115 ∷ 45 ∷ 112 ∷ 113 ∷ 45 ∷ 114 ∷ 97 ∷ 116 ∷ 99 ∷ 104 ∷ 101 ∷ 116
    ∷ 45 ∷ 109 ∷ 101 ∷ 115 ∷ 115 ∷ 97 ∷ 103 ∷ 101 ∷ 45 ∷ 118 ∷ 49 ∷ []

-- "trelis-ratchet-init-v1"
abbrev pub kdf_init : List ℕ
kdf_init =
    116 ∷ 114 ∷ 101 ∷ 108 ∷ 105 ∷ 115 ∷ 45 ∷ 114 ∷ 97 ∷ 116 ∷ 99 ∷ 104 ∷ 101 ∷ 116 ∷ 45 ∷ 105 ∷ 110
    ∷ 105 ∷ 116 ∷ 45 ∷ 118 ∷ 49 ∷ []

-- "trelis-ratchet-nonce-v1"
abbrev pub nonce_context : List ℕ
nonce_context =
    116 ∷ 114 ∷ 101 ∷ 108 ∷ 105 ∷ 115 ∷ 45 ∷ 114 ∷ 97 ∷ 116 ∷ 99 ∷ 104 ∷ 101 ∷ 116 ∷ 45 ∷ 110 ∷ 111
    ∷ 110 ∷ 99 ∷ 101 ∷ 45 ∷ 118 ∷ 49 ∷ []

abbrev pub kdf_max_stack_input : ℕ
kdf_max_stack_input = 256

pub record KdfOutput : Type 0 where
  pub new_root_key : List ℕ
  pub message_key : List ℕ

module _ (c : Crypto) where
  -- Both buffers of the source: one on the stack, cut to length, and one on the heap.
  unfoldable pub kdf_rk : List ℕ → List ℕ → KdfOutput
  unfolding copy_at
  kdf_rk root_key shared_secret =
      let total_len = length root_key + length shared_secret in
      let input =
        copy_at 32 shared_secret (copy_at 0 root_key (to_le_bytes kdf_max_stack_input 0)) in
      if leb total_len kdf_max_stack_input
      then record {
        new_root_key = c.derive_key kdf_root (take total_len input);
        message_key = c.derive_key kdf_message (take total_len input);
      }
      else record {
        new_root_key = c.derive_key kdf_root (root_key ++ shared_secret);
        message_key = c.derive_key kdf_message (root_key ++ shared_secret);
      }

  unfoldable pub derive_initial_root_key : List ℕ → List ℕ
  derive_initial_root_key session_key = c.derive_key kdf_init session_key

  -- The input is an array of 56 bytes, filled in three parts.
  unfoldable pub derive_nonce_with_random : ℕ → List ℕ → List ℕ → Result (List ℕ)
  unfolding copy_at
  derive_nonce_with_random counter message_key random_component =
      let input =
        copy_at 40 random_component
          (copy_at 8 message_key (copy_at 0 (to_be_bytes 8 counter) (to_le_bytes 56 0))) in
      ok (take 24 (c.derive_key nonce_context input))
