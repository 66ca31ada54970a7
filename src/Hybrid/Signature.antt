-- ===== src/Hybrid/Signature.antt =====
-- crates/trelis-hybrid/src/signature.rs: Ed448 and ML-DSA-65 joined so that neither half of a
-- signature stands without the other.
pub mod Keys
pub mod Verified
use trelis.Common.{ℕ, ◌+◌, ◌≡◌, List, [], ◌∷◌, ◌++◌, leb, length, if◌then◌else◌}
use trelis.Common.Outcome.{Outcome, ok, err, ◌>>=◌, and_then}
use trelis.Error.{Result, CryptoError}
use trelis.Hybrid.Keys.{HybridSignature}
use trelis.Primitives.Interface.{Primitives}

-- "trelis-hybrid-sig-bop2-h1-v1"
abbrev pub sig_bop2_h1_context : List ℕ
sig_bop2_h1_context =
    116 ∷ 114 ∷ 101 ∷ 108 ∷ 105 ∷ 115 ∷ 45 ∷ 104 ∷ 121 ∷ 98 ∷ 114 ∷ 105 ∷ 100 ∷ 45 ∷ 115 ∷ 105 ∷ 103
    ∷ 45 ∷ 98 ∷ 111 ∷ 112 ∷ 50 ∷ 45 ∷ 104 ∷ 49 ∷ 45 ∷ 118 ∷ 49 ∷ []

-- "trelis-hybrid-sig-bop2-h1-ctx-v1"
abbrev pub sig_bop2_h1_ctx_context : List ℕ
sig_bop2_h1_ctx_context =
    116 ∷ 114 ∷ 101 ∷ 108 ∷ 105 ∷ 115 ∷ 45 ∷ 104 ∷ 121 ∷ 98 ∷ 114 ∷ 105 ∷ 100 ∷ 45 ∷ 115 ∷ 105 ∷ 103
    ∷ 45 ∷ 98 ∷ 111 ∷ 112 ∷ 50 ∷ 45 ∷ 104 ∷ 49 ∷ 45 ∷ 99 ∷ 116 ∷ 120 ∷ 45 ∷ 118 ∷ 49 ∷ []

-- "trelis-hybrid-sig-bop2-h1-prehash-v1"
abbrev pub sig_bop2_h1_prehash_context : List ℕ
sig_bop2_h1_prehash_context =
    116 ∷ 114 ∷ 101 ∷ 108 ∷ 105 ∷ 115 ∷ 45 ∷ 104 ∷ 121 ∷ 98 ∷ 114 ∷ 105 ∷ 100 ∷ 45 ∷ 115 ∷ 105 ∷ 103
    ∷ 45 ∷ 98 ∷ 111 ∷ 112 ∷ 50 ∷ 45 ∷ 104 ∷ 49 ∷ 45 ∷ 112 ∷ 114 ∷ 101 ∷ 104 ∷ 97 ∷ 115 ∷ 104 ∷ 45
    ∷ 118 ∷ 49 ∷ []

-- "trelis-hybrid-sig-bop2-h2-v1"
abbrev pub sig_bop2_h2_context : List ℕ
sig_bop2_h2_context =
    116 ∷ 114 ∷ 101 ∷ 108 ∷ 105 ∷ 115 ∷ 45 ∷ 104 ∷ 121 ∷ 98 ∷ 114 ∷ 105 ∷ 100 ∷ 45 ∷ 115 ∷ 105 ∷ 103
    ∷ 45 ∷ 98 ∷ 111 ∷ 112 ∷ 50 ∷ 45 ∷ 104 ∷ 50 ∷ 45 ∷ 118 ∷ 49 ∷ []

pub data H1Domain : Type 0 where
  plain context prehashed : H1Domain

unfoldable pub h1_context : H1Domain → List ℕ
h1_context plain = sig_bop2_h1_context
h1_context context = sig_bop2_h1_ctx_context
h1_context prehashed = sig_bop2_h1_prehash_context

pub record HybridSigningPublicKey : Type 0 where
  pub ed448 : List ℕ
  pub mldsa : List ℕ

unfoldable pub signing_key_to_bytes : HybridSigningPublicKey → List ℕ
signing_key_to_bytes pk = pk.ed448 ++ pk.mldsa

pub record HybridSigningKeypair (p : Primitives) : Type 0 where
  pub public_key : HybridSigningPublicKey
  pub ed448_secret : p.Ed448Secret
  pub mldsa_secret : p.MldsaSecret

-- The length of the context in one byte, the context, the message.
unfoldable pub bop_context_region : List ℕ → List ℕ → Result (List ℕ)
bop_context_region ctx message =
    if leb (length ctx) 255
    then ok (length ctx ∷ (ctx ++ message))
    else err (CryptoError.invalid_context_length (length ctx) 255)

module _ (p : Primitives) where
  unfoldable pub from_components : p.Ed448Secret → p.MldsaSecret → HybridSigningKeypair p
  from_components ed448_secret mldsa_secret = record {
    public_key = record {
      ed448 = p.ed448_verifying_key ed448_secret;
      mldsa = p.mldsa_verifying_key mldsa_secret;
    };
    ed448_secret = ed448_secret;
    mldsa_secret = mldsa_secret;
  }

  unfoldable pub bop_m_prime : H1Domain → List ℕ → List ℕ → List ℕ → List ℕ → List ℕ
  unfolding h1_context
  bop_m_prime domain pk_id pk_sig message commitment =
      p.derive_key (h1_context domain) (pk_id ++ (pk_sig ++ (message ++ commitment)))

  unfoldable pub h2_challenge : List ℕ → List ℕ
  h2_challenge sigma2 = p.derive_xof 114 sig_bop2_h2_context sigma2

  unfoldable pub bop_sign_core :
      HybridSigningKeypair p → H1Domain → List ℕ → p.Rng → p.Rng × Result HybridSignature
  bop_sign_core k domain message g = and_then (p.bop_commit k.ed448_secret g) (λ committed g.
      let m_prime = bop_m_prime domain k.public_key.ed448 k.public_key.mldsa message committed.0 in
      and_then (p.mldsa_sign_hedged k.mldsa_secret m_prime g) (λ mldsa_sig g.
        let chl = h2_challenge mldsa_sig in
        (g, ok (record { rsp = p.respond committed.1 chl; mldsa = mldsa_sig }))))

  unfoldable pub bop_verify_core :
      HybridSigningPublicKey → H1Domain → List ℕ → HybridSignature → Result (Unit {0})
  bop_verify_core pk domain message signature =
      let chl = h2_challenge signature.mldsa in
      p.bop_extcom pk.ed448 chl signature.rsp >>= λ commitment.
      let m_prime = bop_m_prime domain pk.ed448 pk.mldsa message commitment in
      elim (p.mldsa_verify pk.mldsa m_prime signature.mldsa) [
        | ok u ↦ ok tt
        | err e ↦ err CryptoError.signature_verification_failed
      ]

  unfoldable pub sign : HybridSigningKeypair p → List ℕ → p.Rng → p.Rng × Result HybridSignature
  sign k message g = bop_sign_core k H1Domain.plain message g

  unfoldable pub sign_with_context :
      HybridSigningKeypair p → List ℕ → List ℕ → p.Rng → p.Rng × Result HybridSignature
  sign_with_context k message ctx g =
      and_then (g, bop_context_region ctx message)
        (λ region g. bop_sign_core k H1Domain.context region g)

  unfoldable pub sign_prehashed :
      HybridSigningKeypair p → List ℕ → List ℕ → p.Rng → p.Rng × Result HybridSignature
  sign_prehashed k ctx message g =
      let digest = p.derive_key ctx message in bop_sign_core k H1Domain.prehashed digest g

  unfoldable pub verify : HybridSigningPublicKey → List ℕ → HybridSignature → Result (Unit {0})
  verify pk message signature = bop_verify_core pk H1Domain.plain message signature

  unfoldable pub verify_with_context :
      HybridSigningPublicKey → List ℕ → List ℕ → HybridSignature → Result (Unit {0})
  verify_with_context pk message ctx signature = bop_context_region ctx message >>= λ region.
      bop_verify_core pk H1Domain.context region signature

  unfoldable pub verify_prehashed :
      HybridSigningPublicKey → List ℕ → List ℕ → HybridSignature → Result (Unit {0})
  verify_prehashed pk ctx message signature =
      let digest = p.derive_key ctx message in
      bop_verify_core pk H1Domain.prehashed digest signature

-- The public key is that of the secrets, as every constructor makes it.
pub record IsSigningKeypair (p : Primitives) (k : HybridSigningKeypair p) : Type 0 where
  pub ed448_public : k.public_key.ed448 ≡ p.ed448_verifying_key k.ed448_secret
  pub mldsa_public : k.public_key.mldsa ≡ p.mldsa_verifying_key k.mldsa_secret
