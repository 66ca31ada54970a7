-- ===== src/Hybrid/Combiner.antt =====
-- crates/trelis-hybrid/src/combiner.rs: one shared secret from the secrets of X448 and sntrup761.
use trelis.Common.{ℕ, ◌+◌, ◌≡◌, ap, List, [], ◌∷◌, ◌++◌, length}
use trelis.Common.Bytes.{to_le_bytes, length-to_le_bytes}
use trelis.Common.Copy.{copy_at, write_pieces, write_pieces_lem, joined, total_size}
use trelis.Primitives.Interface.{Primitives, PrimitiveLaws}

-- "trelis-hybrid-kem-v1"
abbrev pub hybrid_kem_context : List ℕ
hybrid_kem_context =
    116 ∷ 114 ∷ 101 ∷ 108 ∷ 105 ∷ 115 ∷ 45 ∷ 104 ∷ 121 ∷ 98 ∷ 114 ∷ 105 ∷ 100 ∷ 45 ∷ 107 ∷ 101 ∷ 109
    ∷ 45 ∷ 118 ∷ 49 ∷ []

-- "trelis-hybrid-kem-v2"
abbrev pub hybrid_kem_v2_context : List ℕ
hybrid_kem_v2_context =
    116 ∷ 114 ∷ 101 ∷ 108 ∷ 105 ∷ 115 ∷ 45 ∷ 104 ∷ 121 ∷ 98 ∷ 114 ∷ 105 ∷ 100 ∷ 45 ∷ 107 ∷ 101 ∷ 109
    ∷ 45 ∷ 118 ∷ 50 ∷ []

abbrev pub x448_ss_size : ℕ
x448_ss_size = 56

abbrev pub sntrup_ss_size : ℕ
sntrup_ss_size = 32

abbrev pub combined_input_size : ℕ
combined_input_size = x448_ss_size + sntrup_ss_size

abbrev pub v2_combined_input_size : ℕ
v2_combined_input_size = 184

module _ (p : Primitives) where
  unfoldable pub combine : List ℕ → List ℕ → List ℕ
  unfolding copy_at
  combine x448_ss sntrup_ss =
      let input =
        copy_at x448_ss_size sntrup_ss (copy_at 0 x448_ss (to_le_bytes combined_input_size 0)) in
      p.derive_key hybrid_kem_context input

  unfoldable pub combine_v2 : List ℕ → List ℕ → List ℕ → List ℕ → List ℕ → List ℕ
  unfolding copy_at
  combine_v2 x448_ss sntrup_ss ct_sntrup x448_eph pk_hybrid =
      let input = copy_at (96 + x448_ss_size) sntrup_ss (
        copy_at 96 x448_ss (
          copy_at 64 (p.hash pk_hybrid) (
            copy_at 32 (p.hash x448_eph)
              (copy_at 0 (p.hash ct_sntrup) (to_le_bytes v2_combined_input_size 0))))) in
      p.derive_key hybrid_kem_v2_context input

  -- The combined secret is derived from the hashes of the ciphertext, of the ephemeral key and of
  -- the recipient's key, the X448 secret and the sntrup761 secret, in that order and with nothing of
  -- the buffer left over. The secrets have 56 and 32 bytes and a hash has 32.
  pub combine_v2_lem :
      (x448_ss sntrup_ss ct_sntrup x448_eph pk_hybrid : List ℕ)
      → PrimitiveLaws p
      → length x448_ss ≡ 56
      → length sntrup_ss ≡ 32
      → combine_v2 x448_ss sntrup_ss ct_sntrup x448_eph pk_hybrid
        ≡ p.derive_key hybrid_kem_v2_context (
            p.hash ct_sntrup
            ++ (p.hash x448_eph ++ (p.hash pk_hybrid ++ (x448_ss ++ (sntrup_ss ++ [])))))
  unfolding combine_v2 write_pieces joined total_size
  combine_v2_lem x448_ss sntrup_ss ct_sntrup x448_eph pk_hybrid laws hx hs =
      ap (p.derive_key hybrid_kem_v2_context) (
        write_pieces_lem pieces (to_le_bytes 184 0)
          (
            laws.length-hash ct_sntrup,
            (laws.length-hash x448_eph, (laws.length-hash pk_hybrid, (hx, (hs, tt)))),
          )
          (length-to_le_bytes 184 0))
    where
      pieces : List (ℕ × List ℕ)
      pieces =
          (32, p.hash ct_sntrup)
          ∷ (32, p.hash x448_eph)
          ∷ (32, p.hash pk_hybrid)
          ∷ (56, x448_ss)
          ∷ (32, sntrup_ss)
          ∷ []
