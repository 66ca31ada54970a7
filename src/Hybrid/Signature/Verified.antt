-- ===== src/Hybrid/Signature/Verified.antt =====
-- Signatures of crates/trelis-hybrid/src/signature.rs that are verified, by each pair of entry points.
use trelis.Common.{
  ℕ, ◌<◌, ◌≡◌, refl, sym, ap, subst, ◌∙◌, arith, List, ◌∷◌, ◌++◌, Bool, leb, length, take, drop,
  if◌then◌else◌, take-append_length, drop-append_length, Bool-cases, inl, inr,
}
use trelis.Common.Outcome.{ok, err, and_then-ok}
use trelis.Error.{Result, CryptoError}
use trelis.Hybrid.Keys.{HybridSignature}
use trelis.Hybrid.Signature.{
  H1Domain, HybridSigningKeypair, HybridSigningPublicKey, IsSigningKeypair, bop_context_region,
  bop_m_prime, h2_challenge, bop_sign_core, bop_verify_core, sign, sign_with_context,
  sign_prehashed, verify, verify_with_context, verify_prehashed,
}
use trelis.Primitives.Interface.{Primitives, PrimitiveLaws}

-- A call of one of the three entry points: the message, and the context where there is one.
pub data Call : Type 0 where
  plainly : (message : List ℕ) → Call
  in_context : (message ctx : List ℕ) → Call
  digested : (ctx message : List ℕ) → Call

module _ (p : Primitives) where
  unfoldable pub sign_call : HybridSigningKeypair p → Call → p.Rng → p.Rng × Result HybridSignature
  sign_call k (plainly message) g = sign p k message g
  sign_call k (in_context message ctx) g = sign_with_context p k message ctx g
  sign_call k (digested ctx message) g = sign_prehashed p k ctx message g

  unfoldable pub verify_call : HybridSigningPublicKey → Call → HybridSignature → Result (Unit {0})
  verify_call pk (plainly message) s = verify p pk message s
  verify_call pk (in_context message ctx) s = verify_with_context p pk message ctx s
  verify_call pk (digested ctx message) s = verify_prehashed p pk ctx message s

  accepted :
      (pk : HybridSigningPublicKey) (domain : H1Domain) (message rsp mldsa point : List ℕ)
      → p.bop_extcom pk.ed448 (h2_challenge p mldsa) rsp ≡ ok point
      → p.mldsa_verify pk.mldsa (bop_m_prime p domain pk.ed448 pk.mldsa message point) mldsa ≡ ok tt
      → bop_verify_core p pk domain message (record { rsp = rsp; mldsa = mldsa }) ≡ ok tt
  unfolding bop_verify_core
  accepted pk domain message rsp mldsa point he hm = rw (he, hm)

  bop_verify_core-bop_sign_core :
      (k : HybridSigningKeypair p) (domain : H1Domain) (message : List ℕ) (g h : p.Rng)
      (s : HybridSignature)
      → PrimitiveLaws p
      → IsSigningKeypair p k
      → bop_sign_core p k domain message g ≡ (h, ok s)
      → bop_verify_core p k.public_key domain message s ≡ ok tt
  unfolding bop_sign_core
  bop_verify_core-bop_sign_core k domain message g h s laws valid made =
      and_then-ok (p.bop_commit k.ed448_secret g) _ _ _
        (λ committed drawn.
          and_then-ok
            (p.mldsa_sign_hedged k.mldsa_secret (m_prime committed.0)
              (p.bop_commit k.ed448_secret g).0)
            _ _ _
            (λ sigma signed result.
              subst
                (λ (s : HybridSignature). bop_verify_core p k.public_key domain message s ≡ ok tt)
                {x = record { rsp = p.respond committed.1 (h2_challenge p sigma); mldsa = sigma }}
                (cc result)
                (accepted k.public_key domain message _ sigma committed.0
                  (subst
                    (λ (vk : List ℕ).
                      p.bop_extcom vk (h2_challenge p sigma)
                        (p.respond committed.1 (h2_challenge p sigma))
                      ≡ ok committed.0)
                    (sym valid.ed448_public)
                    (laws.extcom-respond k.ed448_secret g committed.0 (h2_challenge p sigma)
                      committed.1 drawn))
                  (subst (λ (vk : List ℕ). p.mldsa_verify vk (m_prime committed.0) sigma ≡ ok tt)
                    (sym valid.mldsa_public)
                    (laws.verify-sign k.mldsa_secret (p.bop_commit k.ed448_secret g).0
                      (m_prime committed.0) sigma signed)))))
        made
    where
      m_prime : List ℕ → List ℕ
      m_prime point = bop_m_prime p domain k.public_key.ed448 k.public_key.mldsa message point

  region_ok :
      (pk : HybridSigningPublicKey) (message ctx region : List ℕ) (s : HybridSignature)
      → bop_context_region ctx message ≡ ok region
      → bop_verify_core p pk H1Domain.context region s ≡ ok tt
      → verify_with_context p pk message ctx s ≡ ok tt
  unfolding verify_with_context
  region_ok pk message ctx region s hr hv = rw (hr, hv)

  -- Every signature that a keypair makes, whichever entry point made it, is accepted by the
  -- matching verification under the keypair's public key. The public key is that of the secrets and
  -- the primitives satisfy their laws.
  pub verify_call-sign_call :
      (k : HybridSigningKeypair p) (call : Call) (g h : p.Rng) (s : HybridSignature)
      → PrimitiveLaws p
      → IsSigningKeypair p k
      → sign_call k call g ≡ (h, ok s)
      → verify_call k.public_key call s ≡ ok tt
  unfolding sign_call verify_call sign verify sign_with_context sign_prehashed verify_prehashed
  verify_call-sign_call k (plainly message) g h s laws valid made =
      bop_verify_core-bop_sign_core k H1Domain.plain message g h s laws valid made
  verify_call-sign_call k (in_context message ctx) g h s laws valid made =
      and_then-ok (g, bop_context_region ctx message) _ _ _
        (λ region built result.
          region_ok k.public_key message ctx region s built
            (bop_verify_core-bop_sign_core k H1Domain.context region g h s laws valid result))
        made
  verify_call-sign_call k (digested ctx message) g h s laws valid made =
      bop_verify_core-bop_sign_core k H1Domain.prehashed (p.derive_key ctx message) g h s laws valid
        made

  -- With a context of more than 255 bytes neither signing nor verification goes ahead: both return
  -- the error with the length, and no random bytes are drawn.
  pub long_context_refused :
      (k : HybridSigningKeypair p) (pk : HybridSigningPublicKey) (message ctx : List ℕ) (g : p.Rng)
      (s : HybridSignature)
      → 255 < length ctx
      → (sign_with_context p k message ctx g
          ≡ (g, err (CryptoError.invalid_context_length (length ctx) 255)))
        × (verify_with_context p pk message ctx s
            ≡ err (CryptoError.invalid_context_length (length ctx) 255))
  unfolding sign_with_context verify_with_context bop_context_region
  long_context_refused k pk message ctx g s h = (ground arith, ground arith)

abbrev Refused : List ℕ → List ℕ → List ℕ → Bool → Type 0
Refused c m region b =
    (if b
      then ok (length c ∷ (c ++ m))
      else err (CryptoError.invalid_context_length (length c) 255))
    ≡ ok region

region_shape :
    (c m region : List ℕ) → bop_context_region c m ≡ ok region → region ≡ length c ∷ (c ++ m)
unfolding bop_context_region
region_shape c m region h = elim (Bool-cases (leb (length c) 255)) [
  | inl small ↦ cc (sym (subst (Refused c m region) small h))
  | inr large ↦ cc (subst (Refused c m region) large h)
]

-- A region determines the context and the message that it was made from: no two calls with different
-- contexts or messages sign the same bytes.
pub bop_context_region_inj :
    (c m c' m' region : List ℕ)
    → bop_context_region c m ≡ ok region
    → bop_context_region c' m' ≡ ok region
    → (c ≡ c') × (m ≡ m')
unfolding bop_context_region
bop_context_region_inj c m c' m' region h h' = (
  sym (take-append_length c m (length c) refl)
      ∙ (ap (take (length c)) same ∙ take-append_length c' m' (length c) (sym same_length)),
  sym (drop-append_length c m (length c) refl)
      ∙ (ap (drop (length c)) same ∙ drop-append_length c' m' (length c) (sym same_length)),
)
  where
    both : length c ∷ (c ++ m) ≡ length c' ∷ (c' ++ m')
    both = sym (region_shape c m region h) ∙ region_shape c' m' region h'

    same : c ++ m ≡ c' ++ m'
    same = cc both

    same_length : length c ≡ length c'
    same_length = cc both
