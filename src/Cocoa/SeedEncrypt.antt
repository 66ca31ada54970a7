-- ===== src/Cocoa/SeedEncrypt.antt =====
-- crates/trelis-cocoa/src/operations/seed_encrypt.rs: the seed of a node, encrypted to a member.
pub mod Recipients
use trelis.Common.{
  ℕ, ◌+◌, ◌≡◌, ap, subst, List, [], ◌∷◌, ◌++◌, ◌==◌, not, length, take, drop, if◌then◌else◌, Bool,
  true, false,
}
use trelis.Common.Bytes.{to_le_bytes}
use trelis.Common.Copy.{copy_at}
use trelis.Common.Outcome.{ok, err, ◌>>=◌, and_then, and_then-ok}
use trelis.Error.{Result, CryptoError}
use trelis.Hybrid.Kem
use trelis.Hybrid.Kem.{HybridKemKeypair, IsKeypair}
use trelis.Hybrid.Kem.Agreement.{decapsulate-encapsulate}
use trelis.Hybrid.Keys.{
  HybridKemPublicKey, HybridEncapsulation, encapsulation_to_bytes, encapsulation_from_bytes,
}
use trelis.Primitives.Committing.{
  encrypt_committing, decrypt_committing, decrypt_committing-encrypt_committing, aead_tag_size,
  commitment_size,
}
use trelis.Primitives.Interface.{Primitives, PrimitiveLaws}
use trelis.Wire.Constants.{hybrid_encap_size}
use trelis.Cocoa.SeedChain.{seed_size}
use trelis.Cocoa.Tree.Index.{NodeIndex}

abbrev pub encrypted_seed_ciphertext_size : ℕ
encrypted_seed_ciphertext_size = seed_size + aead_tag_size + commitment_size

abbrev pub encrypted_seed_size : ℕ
encrypted_seed_size = hybrid_encap_size + encrypted_seed_ciphertext_size

abbrev pub seed_encryption_nonce : List ℕ
seed_encryption_nonce = to_le_bytes 24 0

abbrev pub seed_aad_version : ℕ
seed_aad_version = 1

abbrev pub seed_aad_size : ℕ
seed_aad_size = 28

-- "cocoa-seed-encrypt"
abbrev pub seed_domain : List ℕ
seed_domain =
    99 ∷ 111 ∷ 99 ∷ 111 ∷ 97 ∷ 45 ∷ 115 ∷ 101 ∷ 101 ∷ 100 ∷ 45 ∷ 101 ∷ 110 ∷ 99 ∷ 114 ∷ 121 ∷ 112
    ∷ 116 ∷ []

pub record EncryptedNodeSeed : Type 0 where
  pub encapsulation : HybridEncapsulation
  pub ciphertext : List ℕ

unfoldable pub seed_to_bytes : EncryptedNodeSeed → List ℕ
seed_to_bytes e = encapsulation_to_bytes e.encapsulation ++ e.ciphertext

unfoldable pub seed_from_bytes : List ℕ → Result EncryptedNodeSeed
seed_from_bytes bytes =
    if not (length bytes == encrypted_seed_size)
    then err CryptoError.malformed_message
    else encapsulation_from_bytes (take hybrid_encap_size bytes) >>= λ encapsulation.
        ok (record { encapsulation = encapsulation; ciphertext = drop hybrid_encap_size bytes })

unfoldable pub build_seed_aad : NodeIndex → List ℕ
unfolding copy_at
build_seed_aad tree_position = copy_at 10 seed_domain (
    copy_at 6 (to_le_bytes 4 tree_position.position) (
      copy_at 2 (to_le_bytes 4 tree_position.depth)
        (copy_at 0 (to_le_bytes 2 seed_aad_version) (to_le_bytes seed_aad_size 0))))

module _ (p : Primitives) where
  unfoldable pub encrypt_seed_to_recipient :
      List ℕ → HybridKemPublicKey → NodeIndex → p.Rng → p.Rng × Result EncryptedNodeSeed
  encrypt_seed_to_recipient seed recipient_public_key tree_position g =
      and_then (Kem.encapsulate p recipient_public_key g) (λ shared g.
        let aad = build_seed_aad tree_position in
        and_then (g, encrypt_committing p shared.0 seed_encryption_nonce seed aad)
          (λ ciphertext g.
            if not (length ciphertext == encrypted_seed_ciphertext_size)
            then (g, err CryptoError.aead_authentication_failed)
            else (g, ok (record { encapsulation = shared.1; ciphertext = ciphertext }))))

  unfoldable pub decrypt_seed : EncryptedNodeSeed → HybridKemKeypair p → NodeIndex → Result (List ℕ)
  decrypt_seed encrypted our_keypair tree_position =
      Kem.decapsulate p our_keypair encrypted.encapsulation >>= λ shared_secret.
      let aad = build_seed_aad tree_position in
      decrypt_committing p shared_secret seed_encryption_nonce encrypted.ciphertext aad
      >>= λ plaintext.
          if not (length plaintext == 32) then err CryptoError.decryption_failed else ok plaintext

  decrypted :
      (k : HybridKemKeypair p) (i : NodeIndex) (shared seed : List ℕ) (e : EncryptedNodeSeed)
      → length seed ≡ 32
      → Kem.decapsulate p k e.encapsulation ≡ ok shared
      → decrypt_committing p shared seed_encryption_nonce e.ciphertext (build_seed_aad i) ≡ ok seed
      → decrypt_seed e k i ≡ ok seed
  unfolding decrypt_seed
  decrypted k i shared seed e size hk hd = rw (hk, hd, size)

  sized_only :
      (b : Bool) (g h : p.Rng) (e e' : EncryptedNodeSeed)
      → ◌≡◌ {A = p.Rng × Result EncryptedNodeSeed}
          (if not b then (g, err CryptoError.aead_authentication_failed) else (g, ok e))
          (h, ok e')
      → e ≡ e'
  sized_only true g h e e' eq = cc eq
  sized_only false g h e e' eq = cc (ap (λ (r : p.Rng × Result EncryptedNodeSeed). r.1) eq)

  -- A member recovers the seed that was encrypted to its public key for the same node. A seed has 32
  -- bytes, the public key is that of the member's secrets, and the primitives satisfy their laws.
  pub decrypt_seed-encrypt_seed_to_recipient :
      (seed : List ℕ) (k : HybridKemKeypair p) (i : NodeIndex) (g h : p.Rng) (e : EncryptedNodeSeed)
      → PrimitiveLaws p
      → IsKeypair p k
      → length seed ≡ 32
      → encrypt_seed_to_recipient seed k.public_key i g ≡ (h, ok e)
      → decrypt_seed e k i ≡ ok seed
  unfolding encrypt_seed_to_recipient
  decrypt_seed-encrypt_seed_to_recipient seed k i g h e laws valid size made =
      and_then-ok (Kem.encapsulate p k.public_key g) _ _ _
        (λ shared sealed.
          and_then-ok
            (
              (Kem.encapsulate p k.public_key g).0,
              encrypt_committing p shared.0 seed_encryption_nonce seed (build_seed_aad i),
            )
            _ _ _
            (λ ciphertext encrypted result.
              subst (λ (e : EncryptedNodeSeed). decrypt_seed e k i ≡ ok seed)
                (sized_only (length ciphertext == encrypted_seed_ciphertext_size)
                  (Kem.encapsulate p k.public_key g).0 h
                  (record { encapsulation = shared.1; ciphertext = ciphertext }) e result)
                (decrypted k i shared.0 seed
                  (record { encapsulation = shared.1; ciphertext = ciphertext }) size
                  (decapsulate-encapsulate p k g (Kem.encapsulate p k.public_key g).0 shared.0
                    shared.1 laws valid
                    (ap
                      (λ (r : Result (List ℕ × HybridEncapsulation)).
                        ((Kem.encapsulate p k.public_key g).0, r))
                      sealed))
                  (decrypt_committing-encrypt_committing p shared.0 seed_encryption_nonce seed
                    (build_seed_aad i) ciphertext laws encrypted))))
        made
