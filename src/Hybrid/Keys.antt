-- ===== src/Hybrid/Keys.antt =====
-- The byte strings of crates/trelis-hybrid/src/kem.rs and signature.rs: each type is a pair of
-- fixed-size arrays, which stand here as lists of bytes.
use trelis.Common.{
  ℕ, ◌≡◌, ◌≢◌, refl, ap, arith, List, [], ◌∷◌, ◌++◌, Bool, true, false, ◌==◌, ◌&&◌, not, length,
  take, drop, if◌then◌else◌, take-append_length, drop-append_length, length-append,
}
use trelis.Common.Outcome.{ok, err, ◌>>=◌}
use trelis.Error.{Result, CryptoError}
use trelis.Wire.Constants.{
  x448_pk_size, sntrup761_pk_size, sntrup761_ct_size, hybrid_kem_pk_size, hybrid_encap_size,
}

pub record HybridKemPublicKey : Type 0 where
  pub x448 : List ℕ
  pub sntrup : List ℕ

pub record HybridEncapsulation : Type 0 where
  pub x448_ephemeral : List ℕ
  pub sntrup_ciphertext : List ℕ

pub record HybridSignature : Type 0 where
  pub rsp : List ℕ
  pub mldsa : List ℕ

-- `X448Public::from_bytes`.
unfoldable pub x448_from_bytes : List ℕ → Result (List ℕ)
x448_from_bytes bytes =
    if not (length bytes == x448_pk_size)
    then err (CryptoError.invalid_key_length x448_pk_size (length bytes))
    else ok bytes

-- `Iterator::all(|&b| b == 0)`.
unfoldable pub all_zero : List ℕ → Bool
all_zero [] = true
all_zero (b ∷ bs) = b == 0 && all_zero bs

-- `Sntrup761PublicKey::from_bytes`.
unfoldable pub sntrup_from_bytes : List ℕ → Result (List ℕ)
unfolding all_zero
sntrup_from_bytes bytes =
    if not (length bytes == sntrup761_pk_size)
    then err (CryptoError.invalid_key_length sntrup761_pk_size (length bytes))
    else if all_zero bytes
    then err CryptoError.decapsulation_failed
    else ok bytes

-- `Sntrup761Ciphertext::from_bytes`.
unfoldable pub ciphertext_from_bytes : List ℕ → Result (List ℕ)
ciphertext_from_bytes bytes =
    if not (length bytes == sntrup761_ct_size)
    then err (CryptoError.invalid_ciphertext_length sntrup761_ct_size (length bytes))
    else ok bytes

unfoldable pub public_key_to_bytes : HybridKemPublicKey → List ℕ
public_key_to_bytes pk = pk.x448 ++ pk.sntrup

unfoldable pub public_key_from_bytes : List ℕ → Result HybridKemPublicKey
unfolding x448_from_bytes sntrup_from_bytes
public_key_from_bytes bytes =
    if not (length bytes == hybrid_kem_pk_size)
    then err (CryptoError.invalid_key_length hybrid_kem_pk_size (length bytes))
    else x448_from_bytes (take x448_pk_size bytes) >>= λ x448.
        sntrup_from_bytes (drop x448_pk_size bytes) >>= λ sntrup.
        ok (record { x448 = x448; sntrup = sntrup })

unfoldable pub encapsulation_to_bytes : HybridEncapsulation → List ℕ
encapsulation_to_bytes e = e.x448_ephemeral ++ e.sntrup_ciphertext

unfoldable pub encapsulation_from_bytes : List ℕ → Result HybridEncapsulation
unfolding x448_from_bytes ciphertext_from_bytes
encapsulation_from_bytes bytes =
    if not (length bytes == hybrid_encap_size)
    then err CryptoError.decapsulation_failed
    else x448_from_bytes (take x448_pk_size bytes) >>= λ x448_ephemeral.
        ciphertext_from_bytes (drop x448_pk_size bytes) >>= λ sntrup_ciphertext.
        ok (record { x448_ephemeral = x448_ephemeral; sntrup_ciphertext = sntrup_ciphertext })

-- Equality of byte arrays.
unfoldable pub bytes_eq : List ℕ → List ℕ → Bool
bytes_eq [] [] = true
bytes_eq [] (c ∷ cs) = false
bytes_eq (b ∷ bs) [] = false
bytes_eq (b ∷ bs) (c ∷ cs) = b == c && bytes_eq bs cs

unfoldable pub public_key_eq : HybridKemPublicKey → HybridKemPublicKey → Bool
unfolding bytes_eq
public_key_eq a b = bytes_eq a.x448 b.x448 && bytes_eq a.sntrup b.sntrup

-- The arrays have the sizes of the Rust types, and the key is one that `from_bytes` accepts.
pub record IsPublicKey (pk : HybridKemPublicKey) : Type 0 where
  pub x448_size : length pk.x448 ≡ x448_pk_size
  pub sntrup_size : length pk.sntrup ≡ sntrup761_pk_size
  pub not_zero : all_zero pk.sntrup ≡ false

pub record IsEncapsulation (e : HybridEncapsulation) : Type 0 where
  pub ephemeral_size : length e.x448_ephemeral ≡ x448_pk_size
  pub ciphertext_size : length e.sntrup_ciphertext ≡ sntrup761_ct_size

pub x448_accepts : (bytes : List ℕ) → length bytes ≡ x448_pk_size → x448_from_bytes bytes ≡ ok bytes
unfolding x448_from_bytes
x448_accepts bytes h = ground arith

sntrup_accepts :
    (bytes : List ℕ)
    → length bytes ≡ sntrup761_pk_size
    → all_zero bytes ≡ false
    → sntrup_from_bytes bytes ≡ ok bytes
unfolding sntrup_from_bytes
sntrup_accepts bytes h z = ground arith

pub ciphertext_accepts :
    (bytes : List ℕ) → length bytes ≡ sntrup761_ct_size → ciphertext_from_bytes bytes ≡ ok bytes
unfolding ciphertext_from_bytes
ciphertext_accepts bytes h = ground arith

pub length-public_key_to_bytes :
    (pk : HybridKemPublicKey) → IsPublicKey pk → length (public_key_to_bytes pk) ≡ 1214
unfolding public_key_to_bytes
length-public_key_to_bytes pk v =
    omega (arith, length-append pk.x448 pk.sntrup, v.x448_size, v.sntrup_size)

pub length-encapsulation_to_bytes :
    (e : HybridEncapsulation) → IsEncapsulation e → length (encapsulation_to_bytes e) ≡ 1095
unfolding encapsulation_to_bytes
length-encapsulation_to_bytes e v =
    omega (
      arith,
      length-append e.x448_ephemeral e.sntrup_ciphertext,
      v.ephemeral_size,
      v.ciphertext_size,
    )

-- A public key that is written is read back.
pub public_key_from_bytes-to_bytes :
    (pk : HybridKemPublicKey)
    → IsPublicKey pk
    → public_key_from_bytes (public_key_to_bytes pk) ≡ ok pk
unfolding public_key_from_bytes public_key_to_bytes
public_key_from_bytes-to_bytes pk v = rw (
  length-append pk.x448 pk.sntrup,
  v.x448_size,
  v.sntrup_size,
  take-append_length pk.x448 pk.sntrup x448_pk_size v.x448_size,
  drop-append_length pk.x448 pk.sntrup x448_pk_size v.x448_size,
  x448_accepts pk.x448 v.x448_size,
  sntrup_accepts pk.sntrup v.sntrup_size v.not_zero,
)

pub encapsulation_from_bytes-to_bytes :
    (e : HybridEncapsulation)
    → IsEncapsulation e
    → encapsulation_from_bytes (encapsulation_to_bytes e) ≡ ok e
unfolding encapsulation_from_bytes encapsulation_to_bytes
encapsulation_from_bytes-to_bytes e v = rw (
  length-append e.x448_ephemeral e.sntrup_ciphertext,
  v.ephemeral_size,
  v.ciphertext_size,
  take-append_length e.x448_ephemeral e.sntrup_ciphertext x448_pk_size v.ephemeral_size,
  drop-append_length e.x448_ephemeral e.sntrup_ciphertext x448_pk_size v.ephemeral_size,
  x448_accepts e.x448_ephemeral v.ephemeral_size,
  ciphertext_accepts e.sntrup_ciphertext v.ciphertext_size,
)

pub bytes_eq_sound : (bs cs : List ℕ) → bytes_eq bs cs ≡ true → bs ≡ cs
unfolding bytes_eq
bytes_eq_sound [] [] h = refl
bytes_eq_sound [] (c ∷ cs) h = cc h
bytes_eq_sound (b ∷ bs) [] h = cc h
bytes_eq_sound (b ∷ bs) (c ∷ cs) h = ground (arith, bytes_eq_sound bs cs)

pub bytes_eq_refl : (bs : List ℕ) → bytes_eq bs bs ≡ true
unfolding bytes_eq
bytes_eq_refl [] = refl
bytes_eq_refl (b ∷ bs) = ground (arith, bytes_eq_refl bs)

pub bytes_eq-false : (bs cs : List ℕ) → bytes_eq bs cs ≡ false → bs ≢ cs
bytes_eq-false bs cs h e = cc (h, bytes_eq_refl bs, ap (bytes_eq bs) e)

pub public_key_eq_sound : (a b : HybridKemPublicKey) → public_key_eq a b ≡ true → a ≡ b
unfolding public_key_eq
public_key_eq_sound a b h =
    ground (arith, bytes_eq_sound a.x448 b.x448, bytes_eq_sound a.sntrup b.sntrup)
