-- ===== src/Primitives/Interface.antt =====
-- What the crates take from below: the third-party crates `ed448_goldilocks_plus` and `blake3`, the
-- generator of the operating system, and the schemes sntrup761, Ed448 and ML-DSA-65 of
-- crates/trelis-primitives by their methods. The client's theorems assume `PrimitiveLaws`: the group
-- law of the curve and the documented correctness of each scheme.
use trelis.Common.{ℕ, ◌+◌, ◌≡◌, List, true, Bool, length}
use trelis.Common.Outcome.{ok}
use trelis.Error.{Result}
use trelis.Hybrid.Keys.{all_zero}

-- Keys, ciphertexts and signatures are lists of bytes, `Rng` is the state of the generator.
pub record Primitives : Type 1 where
  pub Rng : Type 0
  pub fill_bytes : ℕ → Rng → Rng × Result (List ℕ)
  -- `blake3::hash`, `blake3::derive_key` with the context first, and the extendable output of a
  -- hasher for a context, to a number of bytes; a hash under a key. A hasher that is fed several
  -- pieces has their concatenation for its input.
  pub hash : List ℕ → List ℕ
  pub derive_key : List ℕ → List ℕ → List ℕ
  pub derive_xof : ℕ → List ℕ → List ℕ → List ℕ
  pub keyed_hash : List ℕ → List ℕ → List ℕ
  -- The generator times a scalar, a point times a scalar, and the points of small order.
  pub base_mult : List ℕ → List ℕ
  pub mult : List ℕ → List ℕ → List ℕ
  pub is_low_order : List ℕ → Bool
  -- XChaCha20-Poly1305: key, nonce, text, associated data.
  pub encrypt : List ℕ → List ℕ → List ℕ → List ℕ → Result (List ℕ)
  pub decrypt : List ℕ → List ℕ → List ℕ → List ℕ → Result (List ℕ)
  -- `Sntrup761SecretKey` and the methods of the two keys.
  pub SntrupSecret : Type 0
  pub sntrup_generate : Rng → Rng × Result SntrupSecret
  pub sntrup_from_seed : List ℕ → Result SntrupSecret
  pub sntrup_secret_as_bytes : SntrupSecret → List ℕ
  pub sntrup_secret_from_bytes : List ℕ → Result SntrupSecret
  pub sntrup_public_key : SntrupSecret → List ℕ
  pub sntrup_encapsulate : List ℕ → Rng → Rng × Result (List ℕ × List ℕ)
  pub sntrup_decapsulate : SntrupSecret → List ℕ → Result (List ℕ)
  -- `Ed448SigningKey` with its commitments, and `bop_extcom` of a verifying key.
  pub Ed448Secret : Type 0
  pub BopNonce : Type 0
  pub ed448_generate : Rng → Rng × Result Ed448Secret
  pub ed448_from_seed : List ℕ → Ed448Secret
  pub ed448_seed : Ed448Secret → List ℕ
  pub ed448_verifying_key : Ed448Secret → List ℕ
  pub bop_commit : Ed448Secret → Rng → Rng × Result (List ℕ × BopNonce)
  pub respond : BopNonce → List ℕ → List ℕ
  pub bop_extcom : List ℕ → List ℕ → List ℕ → Result (List ℕ)
  -- `from_bytes` of `Ed448VerifyingKey` and of `Ed448BopResponse`.
  pub ed448_key_from_bytes : List ℕ → Result (List ℕ)
  pub response_from_bytes : List ℕ → Result (List ℕ)
  -- The trait `MlDsaScheme`.
  pub MldsaSecret : Type 0
  pub mldsa_generate : Rng → Rng × Result MldsaSecret
  pub mldsa_from_seed : List ℕ → Result MldsaSecret
  pub mldsa_secret_to_bytes : MldsaSecret → List ℕ
  pub mldsa_secret_from_bytes : List ℕ → Result MldsaSecret
  pub mldsa_key_from_bytes : List ℕ → Result (List ℕ)
  pub mldsa_signature_from_bytes : List ℕ → Result (List ℕ)
  pub mldsa_verifying_key : MldsaSecret → List ℕ
  pub mldsa_sign_hedged : MldsaSecret → List ℕ → Rng → Rng × Result (List ℕ)
  pub mldsa_verify : List ℕ → List ℕ → List ℕ → Result (Unit {0})

pub record PrimitiveLaws (p : Primitives) : Type 0 where
  -- Multiples of the generator commute.
  pub mult_comm : (a b : List ℕ) → p.mult (p.base_mult a) b ≡ p.mult (p.base_mult b) a
  -- A multiple of the generator that has small order is neutral, and the neutral point is written
  -- as zeros.
  pub low_order :
      (a b : List ℕ)
      → p.is_low_order (p.base_mult a) ≡ true
      → all_zero (p.mult (p.base_mult a) b) ≡ true
  pub length-base_mult : (a : List ℕ) → length (p.base_mult a) ≡ 56
  -- A ciphertext opens to the secret it was made with, and has the size of its type.
  pub decapsulate-encapsulate :
      (k : p.SntrupSecret) (g : p.Rng) (secret ct : List ℕ)
      → (p.sntrup_encapsulate (p.sntrup_public_key k) g).1 ≡ ok (secret, ct)
      → p.sntrup_decapsulate k ct ≡ ok secret
  pub ciphertext_size :
      (pk : List ℕ) (g : p.Rng) (secret ct : List ℕ)
      → (p.sntrup_encapsulate pk g).1 ≡ ok (secret, ct)
      → length ct ≡ 1039
  pub sntrup_secret_size : (k : p.SntrupSecret) → length (p.sntrup_secret_as_bytes k) ≡ 1763
  pub sntrup_secret_read :
      (k : p.SntrupSecret) → p.sntrup_secret_from_bytes (p.sntrup_secret_as_bytes k) ≡ ok k
  -- A signing secret is read back from its seed, and from its bytes.
  pub ed448_seed_size : (k : p.Ed448Secret) → length (p.ed448_seed k) ≡ 57
  pub ed448_seed_read : (k : p.Ed448Secret) → p.ed448_from_seed (p.ed448_seed k) ≡ k
  pub mldsa_secret_size : (k : p.MldsaSecret) → length (p.mldsa_secret_to_bytes k) ≡ 4032
  pub mldsa_secret_read :
      (k : p.MldsaSecret) → p.mldsa_secret_from_bytes (p.mldsa_secret_to_bytes k) ≡ ok k
  -- Schnorr's identity: from the response to any challenge the commitment is recomputed.
  pub extcom-respond :
      (k : p.Ed448Secret) (g : p.Rng) (point chl : List ℕ) (nonce : p.BopNonce)
      → (p.bop_commit k g).1 ≡ ok (point, nonce)
      → p.bop_extcom (p.ed448_verifying_key k) chl (p.respond nonce chl) ≡ ok point
  pub verify-sign :
      (k : p.MldsaSecret) (g : p.Rng) (m signature : List ℕ)
      → (p.mldsa_sign_hedged k m g).1 ≡ ok signature
      → p.mldsa_verify (p.mldsa_verifying_key k) m signature ≡ ok tt
  pub decrypt-encrypt :
      (key nonce text aad sealed : List ℕ)
      → p.encrypt key nonce text aad ≡ ok sealed
      → p.decrypt key nonce sealed aad ≡ ok text
  pub length-encrypt :
      (key nonce text aad sealed : List ℕ)
      → p.encrypt key nonce text aad ≡ ok sealed
      → length sealed ≡ length text + 16
  pub length-hash : (input : List ℕ) → length (p.hash input) ≡ 32
  pub length-keyed_hash : (key input : List ℕ) → length (p.keyed_hash key input) ≡ 32
  pub length-derive_key : (context input : List ℕ) → length (p.derive_key context input) ≡ 32
