-- ===== src/Ratchet/Crypto.antt =====
-- What crates/trelis-ratchet takes from elsewhere: the hybrid KEM (crates/trelis-hybrid/src/kem.rs),
-- the AEAD and the random bytes of crates/trelis-primitives, and the crate `blake3`. The client's
-- theorems assume `Laws` of it, the KEM's and the AEAD's documented round trips.
use trelis.Common.{ℕ, ◌≡◌, List, length}
use trelis.Common.Outcome.{ok}
use trelis.Error.{Result}
use trelis.Hybrid.Keys.{HybridKemPublicKey, HybridEncapsulation}

-- `Rng` is the state of the operating system's generator.
pub record Crypto : Type 1 where
  pub Keypair : Type 0
  pub Rng : Type 0
  pub public_key : Keypair → HybridKemPublicKey
  pub generate : Rng → Rng × Result Keypair
  pub generate_bytes : ℕ → Rng → Rng × Result (List ℕ)
  pub encapsulate : HybridKemPublicKey → Rng → Rng × Result (List ℕ × HybridEncapsulation)
  pub decapsulate : Keypair → HybridEncapsulation → Result (List ℕ)
  -- `blake3::hash` and `blake3::derive_key`, the context first.
  pub hash : List ℕ → List ℕ
  pub derive_key : List ℕ → List ℕ → List ℕ
  -- Key, nonce, text, associated data.
  pub encrypt : List ℕ → List ℕ → List ℕ → List ℕ → Result (List ℕ)
  pub decrypt : List ℕ → List ℕ → List ℕ → List ℕ → Result (List ℕ)

pub record Laws (c : Crypto) : Type 0 where
  -- The key's owner recovers the secret that was encapsulated to it.
  pub decapsulate-encapsulate :
      (k : c.Keypair) (g h : c.Rng) (secret : List ℕ) (e : HybridEncapsulation)
      → c.encapsulate (c.public_key k) g ≡ (h, ok (secret, e))
      → c.decapsulate k e ≡ ok secret
  -- A text that was encrypted is decrypted with the same key, nonce and data.
  pub decrypt-encrypt :
      (key nonce text aad sealed : List ℕ)
      → c.encrypt key nonce text aad ≡ ok sealed
      → c.decrypt key nonce sealed aad ≡ ok text
  pub length-derive_key : (context input : List ℕ) → length (c.derive_key context input) ≡ 32
