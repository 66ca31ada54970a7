-- ===== src/Hybrid/Signature/Keys.antt =====
-- crates/trelis-hybrid/src/signature.rs: how signing keypairs are made, and the bytes of keys and
-- signatures.
use trelis.Common.{
  ℕ, ◌+◌, ◌≡◌, sym, List, [], ◌∷◌, ◌++◌, ◌==◌, not, length, take, drop, if◌then◌else◌,
  length-append, take-append_length, drop-append_length,
}
use trelis.Common.Outcome.{ok, err, ◌>>=◌, and_then}
use trelis.Error.{Result, CryptoError}
use trelis.Hybrid.Keys.{HybridSignature}
use trelis.Hybrid.Signature.{
  HybridSigningKeypair, HybridSigningPublicKey, IsSigningKeypair, from_components,
}
use trelis.Primitives.Interface.{Primitives, PrimitiveLaws}

-- "trelis-hybrid-signing-ed448-v1"
abbrev pub hybrid_signing_ed448_seed_context : List ℕ
hybrid_signing_ed448_seed_context =
    116 ∷ 114 ∷ 101 ∷ 108 ∷ 105 ∷ 115 ∷ 45 ∷ 104 ∷ 121 ∷ 98 ∷ 114 ∷ 105 ∷ 100 ∷ 45 ∷ 115 ∷ 105 ∷ 103
    ∷ 110 ∷ 105 ∷ 110 ∷ 103 ∷ 45 ∷ 101 ∷ 100 ∷ 52 ∷ 52 ∷ 56 ∷ 45 ∷ 118 ∷ 49 ∷ []

-- "trelis-hybrid-signing-ed448-v1-2"
abbrev pub hybrid_signing_ed448_seed_context_2 : List ℕ
hybrid_signing_ed448_seed_context_2 =
    116 ∷ 114 ∷ 101 ∷ 108 ∷ 105 ∷ 115 ∷ 45 ∷ 104 ∷ 121 ∷ 98 ∷ 114 ∷ 105 ∷ 100 ∷ 45 ∷ 115 ∷ 105 ∷ 103
    ∷ 110 ∷ 105 ∷ 110 ∷ 103 ∷ 45 ∷ 101 ∷ 100 ∷ 52 ∷ 52 ∷ 56 ∷ 45 ∷ 118 ∷ 49 ∷ 45 ∷ 50 ∷ []

-- "trelis-hybrid-signing-mldsa-v1"
abbrev pub hybrid_signing_mldsa_seed_context : List ℕ
hybrid_signing_mldsa_seed_context =
    116 ∷ 114 ∷ 101 ∷ 108 ∷ 105 ∷ 115 ∷ 45 ∷ 104 ∷ 121 ∷ 98 ∷ 114 ∷ 105 ∷ 100 ∷ 45 ∷ 115 ∷ 105 ∷ 103
    ∷ 110 ∷ 105 ∷ 110 ∷ 103 ∷ 45 ∷ 109 ∷ 108 ∷ 100 ∷ 115 ∷ 97 ∷ 45 ∷ 118 ∷ 49 ∷ []

abbrev pub ed448_pk_size : ℕ
ed448_pk_size = 57

abbrev pub mldsa_pk_size : ℕ
mldsa_pk_size = 1952

abbrev pub public_key_size : ℕ
public_key_size = ed448_pk_size + mldsa_pk_size

abbrev pub ed448_sig_size : ℕ
ed448_sig_size = 57

abbrev pub mldsa_sig_size : ℕ
mldsa_sig_size = 3309

abbrev pub signature_size : ℕ
signature_size = ed448_sig_size + mldsa_sig_size

abbrev pub ed448_sk_size : ℕ
ed448_sk_size = 57

abbrev pub mldsa_sk_size : ℕ
mldsa_sk_size = 4032

abbrev pub secret_key_size : ℕ
secret_key_size = ed448_sk_size + mldsa_sk_size

unfoldable pub signature_to_bytes : HybridSignature → List ℕ
signature_to_bytes s = s.rsp ++ s.mldsa

module _ (p : Primitives) where
  unfoldable pub generate : p.Rng → p.Rng × Result (HybridSigningKeypair p)
  unfolding from_components
  generate g = and_then (p.ed448_generate g) (λ ed448_secret g.
      and_then (p.mldsa_generate g)
        (λ mldsa_secret g. (g, ok (from_components p ed448_secret mldsa_secret))))

  unfoldable pub generate_from_seed : List ℕ → Result (HybridSigningKeypair p)
  unfolding from_components
  generate_from_seed seed =
      let ed448_seed_part1 = p.derive_key hybrid_signing_ed448_seed_context seed in
      let ed448_seed_part2 = p.derive_key hybrid_signing_ed448_seed_context_2 seed in
      let ed448_seed = ed448_seed_part1 ++ take 25 ed448_seed_part2 in
      let mldsa_seed = p.derive_key hybrid_signing_mldsa_seed_context seed in
      let ed448_secret = p.ed448_from_seed ed448_seed in
      p.mldsa_from_seed mldsa_seed >>= λ mldsa_secret.
      ok (from_components p ed448_secret mldsa_secret)

  unfoldable pub to_bytes : HybridSigningKeypair p → List ℕ
  to_bytes k = p.ed448_seed k.ed448_secret ++ p.mldsa_secret_to_bytes k.mldsa_secret

  unfoldable pub from_bytes : List ℕ → Result (HybridSigningKeypair p)
  unfolding from_components
  from_bytes bytes =
      if not (length bytes == secret_key_size)
      then err (CryptoError.invalid_key_length secret_key_size (length bytes))
      else let ed448_secret = p.ed448_from_seed (take ed448_sk_size bytes) in
        p.mldsa_secret_from_bytes (drop ed448_sk_size bytes) >>= λ mldsa_secret.
        ok (from_components p ed448_secret mldsa_secret)

  unfoldable pub signing_key_from_bytes : List ℕ → Result HybridSigningPublicKey
  signing_key_from_bytes bytes =
      if not (length bytes == public_key_size)
      then err (CryptoError.invalid_key_length public_key_size (length bytes))
      else p.ed448_key_from_bytes (take ed448_pk_size bytes) >>= λ ed448.
          p.mldsa_key_from_bytes (drop ed448_pk_size bytes) >>= λ mldsa.
          ok (record { ed448 = ed448; mldsa = mldsa })

  unfoldable pub signature_from_bytes : List ℕ → Result HybridSignature
  signature_from_bytes bytes =
      if not (length bytes == signature_size)
      then err CryptoError.invalid_signature
      else p.response_from_bytes (take ed448_sig_size bytes) >>= λ rsp.
          p.mldsa_signature_from_bytes (drop ed448_sig_size bytes) >>= λ mldsa.
          ok (record { rsp = rsp; mldsa = mldsa })

  rejoined :
      (k : HybridSigningKeypair p)
      → IsSigningKeypair p k
      → from_components p k.ed448_secret k.mldsa_secret ≡ k
  unfolding from_components
  rejoined k valid = rw (sym valid.ed448_public, sym valid.mldsa_public)

  -- A signing keypair that is written is read back. Its public key is that of its secrets, and the
  -- primitives satisfy their laws.
  pub from_bytes-to_bytes_signing :
      (k : HybridSigningKeypair p)
      → PrimitiveLaws p
      → IsSigningKeypair p k
      → from_bytes (to_bytes k) ≡ ok k
  unfolding from_bytes to_bytes
  from_bytes-to_bytes_signing k laws valid =
      let seed = p.ed448_seed k.ed448_secret in
      let rest = p.mldsa_secret_to_bytes k.mldsa_secret in
      rw (
        length-append seed rest,
        laws.ed448_seed_size k.ed448_secret,
        laws.mldsa_secret_size k.mldsa_secret,
        take-append_length seed rest 57 (laws.ed448_seed_size k.ed448_secret),
        drop-append_length seed rest 57 (laws.ed448_seed_size k.ed448_secret),
        laws.mldsa_secret_read k.mldsa_secret,
        laws.ed448_seed_read k.ed448_secret,
        rejoined k valid,
      )
