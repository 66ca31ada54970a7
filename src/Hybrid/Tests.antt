-- ===== src/Hybrid/Tests.antt =====
-- Runs of crates/trelis-hybrid/src with small stand-ins for the primitives, and the theorems at
-- inputs.
use trelis.Common.{ℕ, ◌≡◌, refl, [], ◌∷◌}
use trelis.Common.Outcome.{ok, err}
use trelis.Error.{Result}
use trelis.Hybrid.Kem.Agreement.{hybrid_crypto, hybrid_crypto-Laws}
use trelis.Hybrid.Keys.{HybridSignature}
use trelis.Hybrid.Signature.{
  HybridSigningKeypair, IsSigningKeypair, bop_context_region, sign_with_context, bop_sign_core,
  from_components,
}
use trelis.Hybrid.Signature.Verified.{Call, sign_call, verify_call, verify_call-sign_call}
use trelis.Primitives.Tests.{toy_primitives, toy_primitives-Laws}
use trelis.Ratchet.Crypto.{Laws}

hybrid_crypto-Laws_example : Laws (hybrid_crypto toy_primitives)
hybrid_crypto-Laws_example = hybrid_crypto-Laws toy_primitives toy_primitives-Laws

abbrev toy_signer : HybridSigningKeypair toy_primitives
toy_signer = from_components toy_primitives 6 7

toy_signer-IsSigningKeypair : IsSigningKeypair toy_primitives toy_signer
unfolding from_components
toy_signer-IsSigningKeypair = record { ed448_public = refl; mldsa_public = refl }

abbrev toy_signed : ℕ × Result HybridSignature
toy_signed = sign_call toy_primitives toy_signer (Call.in_context (1 ∷ 2 ∷ []) (3 ∷ [])) 9

abbrev signature_value : Result HybridSignature → HybridSignature
signature_value (ok s) = s
signature_value (err e) = record { rsp = []; mldsa = [] }

toy_signed_ok : toy_signed ≡ (toy_signed.0, ok (signature_value toy_signed.1))
unfolding sign_call sign_with_context bop_context_region bop_sign_core
toy_signed_ok = refl

verify_call-sign_call_example :
    verify_call toy_primitives toy_signer.public_key
      (Call.in_context (1 ∷ 2 ∷ []) (3 ∷ []))
      (signature_value toy_signed.1)
    ≡ ok tt
verify_call-sign_call_example =
    verify_call-sign_call toy_primitives toy_signer (Call.in_context (1 ∷ 2 ∷ []) (3 ∷ [])) 9
      toy_signed.0 (signature_value toy_signed.1) toy_primitives-Laws toy_signer-IsSigningKeypair
      toy_signed_ok
