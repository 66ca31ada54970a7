-- ===== src/Primitives/Tests.antt =====
-- Small stand-ins for the primitives that the crates take from below, with their laws.
use trelis.Common.{
  ℕ, suc, ◌+◌, ◌≡◌, refl, ap, subst, arith, List, [], ◌∷◌, ◌++◌, ◌==◌, Bool, true, false, length,
  if◌then◌else◌, drop, drop-append_length, length-append, ==_iff,
}
use trelis.Common.Bytes.{to_le_bytes, length-to_le_bytes}
use trelis.Common.Outcome.{ok, err}
use trelis.Error.{CryptoError, Result}
use trelis.Primitives.Interface.{Primitives, PrimitiveLaws}

abbrev pub total : List ℕ → ℕ
total [] = 0
total (b ∷ bs) = b + total bs

abbrev pub first : List ℕ → ℕ
first [] = 0
first (b ∷ bs) = b

abbrev pub bit : Bool → ℕ
bit true = 1
bit false = 0

-- A tag, and the text in the clear.
abbrev seal : List ℕ → List ℕ → List ℕ → List ℕ → Result (List ℕ)
seal key nonce text aad = ok ((total key + (total nonce + total aad)) ∷ (to_le_bytes 15 0 ++ text))

abbrev unseal : List ℕ → List ℕ → List ℕ → List ℕ → Result (List ℕ)
unseal key nonce [] aad = err CryptoError.aead_authentication_failed
unseal key nonce (tag ∷ text) aad =
    if tag == total key + (total nonce + total aad)
    then ok (drop 15 text)
    else err CryptoError.aead_authentication_failed

abbrev check_signature : List ℕ → List ℕ → List ℕ → Result (Unit {0})
check_signature vk m signature =
    if first signature == first vk + total m
    then ok tt
    else err CryptoError.signature_verification_failed

-- A point is a number, the generator times a scalar is the sum of the scalar's bytes, and a point
-- times a scalar is their sum and one.
abbrev pub toy_primitives : Primitives
toy_primitives = record {
  Rng = ℕ;
  fill_bytes = λ n g. (g + 1, ok (to_le_bytes n g));
  hash = λ bytes. to_le_bytes 32 (total bytes);
  derive_key = λ context input. to_le_bytes 32 (total context + total input);
  derive_xof = λ n context input. to_le_bytes n (total context + total input);
  keyed_hash = λ key input. to_le_bytes 32 (total key + total input);
  base_mult = λ a. total a ∷ to_le_bytes 55 0;
  mult = λ point a. (1 + (first point + total a)) ∷ to_le_bytes 55 0;
  is_low_order = λ point. false;
  encrypt = seal;
  decrypt = unseal;
  SntrupSecret = Bool;
  sntrup_generate = λ g. (g + 1, ok (g == 3));
  sntrup_from_seed = λ seed. ok (first seed == 3);
  sntrup_secret_as_bytes = λ k. bit k ∷ to_le_bytes 1762 0;
  sntrup_secret_from_bytes = λ bytes. ok (first bytes == 1);
  sntrup_public_key = λ k. (bit k + 1) ∷ [];
  sntrup_encapsulate = λ pk g. (g + 1, ok (first pk ∷ to_le_bytes 31 0, g ∷ to_le_bytes 1038 0));
  sntrup_decapsulate = λ k ct. ok ((bit k + 1) ∷ to_le_bytes 31 0);
  Ed448Secret = ℕ;
  BopNonce = ℕ;
  ed448_generate = λ g. (g + 1, ok g);
  ed448_from_seed = first;
  ed448_seed = λ k. k ∷ to_le_bytes 56 0;
  ed448_key_from_bytes = λ bytes. ok bytes;
  response_from_bytes = λ bytes. ok bytes;
  ed448_verifying_key = λ k. k ∷ [];
  bop_commit = λ k g. (g + 1, ok (g ∷ [], g));
  respond = λ nonce challenge. nonce ∷ [];
  bop_extcom = λ vk challenge response. ok response;
  MldsaSecret = ℕ;
  mldsa_generate = λ g. (g + 1, ok g);
  mldsa_from_seed = λ seed. ok (first seed);
  mldsa_secret_to_bytes = λ k. k ∷ to_le_bytes 4031 0;
  mldsa_secret_from_bytes = λ bytes. ok (first bytes);
  mldsa_key_from_bytes = λ bytes. ok bytes;
  mldsa_signature_from_bytes = λ bytes. ok bytes;
  mldsa_verifying_key = λ k. k ∷ [];
  mldsa_sign_hedged = λ k m g. (g + 1, ok ((k + total m) ∷ []));
  mldsa_verify = check_signature;
}

opens :
    (key nonce text aad : List ℕ)
    → unseal key nonce ((total key + (total nonce + total aad)) ∷ (to_le_bytes 15 0 ++ text)) aad
      ≡ ok text
opens key nonce text aad = rw (
  (==_iff tag tag).1 refl,
  drop-append_length (to_le_bytes 15 0) text 15 (length-to_le_bytes 15 0),
)
  where
    tag : ℕ
    tag = total key + (total nonce + total aad)

accepts :
    (k : ℕ) (vk m signature : List ℕ)
    → first signature ≡ first vk + total m
    → check_signature vk m signature ≡ ok tt
accepts k vk m signature h = ground arith

bit_read : (k : Bool) → (bit k == 1) ≡ k
bit_read true = refl
bit_read false = refl

pub toy_primitives-Laws : PrimitiveLaws toy_primitives
toy_primitives-Laws = record {
  mult_comm = λ a b. ap (λ (n : ℕ). n ∷ to_le_bytes 55 0) (omega arith);
  low_order = λ a b h. cc h;
  length-base_mult = λ a. ap suc (length-to_le_bytes 55 0);
  decapsulate-encapsulate = λ k g secret ct h. cc h;
  ciphertext_size = λ pk g secret ct h.
      subst (λ (ct : List ℕ). length ct ≡ 1039) {x = g ∷ to_le_bytes 1038 0} (cc h)
        (ap suc (length-to_le_bytes 1038 0));
  sntrup_secret_size = λ k. ap suc (length-to_le_bytes 1762 0);
  sntrup_secret_read = λ k. ap ok (bit_read k);
  ed448_seed_size = λ k. ap suc (length-to_le_bytes 56 0);
  ed448_seed_read = λ k. refl;
  mldsa_secret_size = λ k. ap suc (length-to_le_bytes 4031 0);
  mldsa_secret_read = λ k. refl;
  extcom-respond = λ k g point challenge nonce h. cc h;
  verify-sign = λ k g m signature h. accepts k (k ∷ []) m signature (
      subst (λ (s : List ℕ). first s ≡ k + total m) {x = (k + total m) ∷ []} {y = signature} (cc h)
        refl);
  decrypt-encrypt = λ key nonce text aad sealed eq.
      subst (λ (s : List ℕ). unseal key nonce s aad ≡ ok text)
        {x = (total key + (total nonce + total aad)) ∷ (to_le_bytes 15 0 ++ text)} (cc eq)
        (opens key nonce text aad);
  length-encrypt = λ key nonce text aad sealed eq.
      subst (λ (s : List ℕ). length s ≡ length text + 16)
        {x = (total key + (total nonce + total aad)) ∷ (to_le_bytes 15 0 ++ text)} {y = sealed}
        (cc eq) (omega (arith, length-append (to_le_bytes 15 0) text, length-to_le_bytes 15 0));
  length-hash = λ input. length-to_le_bytes 32 _;
  length-keyed_hash = λ key input. length-to_le_bytes 32 _;
  length-derive_key = λ context input. length-to_le_bytes 32 _;
}
