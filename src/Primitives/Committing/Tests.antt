-- ===== src/Primitives/Committing/Tests.antt =====
-- The committing AEAD of crates/trelis-primitives/src/aead.rs with small stand-ins for its primitives, and
-- its theorems at inputs.
use trelis.Common.{ℕ, ◌≡◌, ◌≢◌, ◌⊎◌, refl, arith, List, [], ◌∷◌, take, length, ◌-◌}
use trelis.Common.Bytes.{to_le_bytes, length-to_le_bytes}
use trelis.Common.Outcome.{ok, err}
use trelis.Error.{Result}
use trelis.Primitives.Committing.{
  aead_commit_context, aead_commitment, commitment_input, encrypt_committing, decrypt_committing,
  decrypt_committing_binds,
}
use trelis.Primitives.Tests.{toy_primitives}

abbrev nonce : List ℕ
nonce = to_le_bytes 24 7

-- Two keys of which the stand-in derives the same commitment key.
abbrev key : List ℕ
key = 1 ∷ 2 ∷ []

abbrev other_key : List ℕ
other_key = 2 ∷ 1 ∷ []

abbrev committed_text : List ℕ
committed_text = 5 ∷ 6 ∷ []

abbrev bytes_of : Result (List ℕ) → List ℕ
bytes_of (ok bytes) = bytes
bytes_of (err e) = []

abbrev sealed : List ℕ
sealed = bytes_of (encrypt_committing toy_primitives key nonce committed_text [])

opens : decrypt_committing toy_primitives key nonce sealed [] ≡ ok committed_text
unfolding encrypt_committing decrypt_committing aead_commitment commitment_input to_le_bytes
opens = refl

opens_too : decrypt_committing toy_primitives other_key nonce sealed [] ≡ ok committed_text
unfolding encrypt_committing decrypt_committing aead_commitment commitment_input to_le_bytes
opens_too = refl

abbrev cut : List ℕ
cut = take (length sealed - 32) sealed

abbrev derived : List ℕ → List ℕ
derived k = toy_primitives.derive_key aead_commit_context k

decrypt_committing_binds_example :
    ((key ≡ other_key) × ((nonce ≡ nonce) × (◌≡◌ {A = List ℕ} [] [])))
    ⊎ (((key ≢ other_key) × (derived key ≡ derived other_key))
        ⊎ (((derived key ≢ derived other_key)
              ⊎ (commitment_input nonce [] cut ≢ commitment_input nonce [] cut))
            × (aead_commitment toy_primitives key nonce [] cut
                ≡ aead_commitment toy_primitives other_key nonce [] cut)))
decrypt_committing_binds_example =
    decrypt_committing_binds toy_primitives key nonce [] other_key nonce [] sealed committed_text
      committed_text (length-to_le_bytes 24 7) (length-to_le_bytes 24 7) (omega arith) (omega arith)
      opens opens_too
