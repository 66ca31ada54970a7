-- ===== src/Cocoa/SeedEncrypt/Recipients.antt =====
-- `encrypt_seed_to_resolution` of crates/trelis-cocoa/src/operations/seed_encrypt.rs: a seed for all
-- members of a resolution.
use trelis.Common.{
  ℕ, ◌≡◌, ap, subst, List, [], ◌∷◌, ◌==◌, not, length, if◌then◌else◌, All, Bool, true, false,
}
use trelis.Common.Outcome.{ok, err, and_then, and_then-ok}
use trelis.Error.{Result, CryptoError}
use trelis.Hybrid.Kem.{HybridKemKeypair, IsKeypair}
use trelis.Hybrid.Keys.{HybridKemPublicKey}
use trelis.Primitives.Interface.{Primitives, PrimitiveLaws}
use trelis.Cocoa.SeedEncrypt.{
  EncryptedNodeSeed, encrypt_seed_to_recipient, decrypt_seed,
  decrypt_seed-encrypt_seed_to_recipient,
}
use trelis.Cocoa.Tree.Index.{NodeIndex}

module _ (p : Primitives) where
  -- The loop: the first error ends it.
  unfoldable pub encrypt_to_all :
      List ℕ → List HybridKemPublicKey → NodeIndex → p.Rng → p.Rng × Result (List EncryptedNodeSeed)
  encrypt_to_all seed [] tree_position g = (g, ok [])
  encrypt_to_all seed (pk ∷ pks) tree_position g =
      and_then (encrypt_seed_to_recipient p seed pk tree_position g) (λ encrypted g.
        and_then (encrypt_to_all seed pks tree_position g) (λ rest g. (g, ok (encrypted ∷ rest))))

  unfoldable pub encrypt_seed_to_resolution :
      List ℕ
      → List NodeIndex
      → List HybridKemPublicKey
      → NodeIndex
      → p.Rng
      → p.Rng × Result (List EncryptedNodeSeed)
  unfolding encrypt_to_all
  encrypt_seed_to_resolution seed resolution public_keys tree_position g =
      if not (length resolution == length public_keys)
      then (g, err CryptoError.malformed_message)
      else encrypt_to_all seed public_keys tree_position g

  abbrev pub public_keys_of : List (HybridKemKeypair p) → List HybridKemPublicKey
  public_keys_of [] = []
  public_keys_of (k ∷ ks) = k.public_key ∷ public_keys_of ks

  -- One encryption for each member, which recovers the seed from it.
  abbrev pub Recovered :
      List ℕ → NodeIndex → List (HybridKemKeypair p) → List EncryptedNodeSeed → Type 0
  Recovered seed i [] [] = Unit
  Recovered seed i [] (e ∷ es) = ⊥
  Recovered seed i (k ∷ ks) [] = ⊥
  Recovered seed i (k ∷ ks) (e ∷ es) = (decrypt_seed p e k i ≡ ok seed) × Recovered seed i ks es

  listed :
      (g h : p.Rng) (made es : List EncryptedNodeSeed)
      → ◌≡◌ {A = p.Rng × Result (List EncryptedNodeSeed)} (g, ok made) (h, ok es)
      → made ≡ es
  listed g h made es e = cc (ap (λ (r : p.Rng × Result (List EncryptedNodeSeed)). r.1) e)

  encrypt_to_all-Recovered :
      (seed : List ℕ) (ks : List (HybridKemKeypair p)) (i : NodeIndex) (g h : p.Rng)
      (es : List EncryptedNodeSeed)
      → PrimitiveLaws p
      → All (IsKeypair p) ks
      → length seed ≡ 32
      → encrypt_to_all seed (public_keys_of ks) i g ≡ (h, ok es)
      → Recovered seed i ks es
  unfolding encrypt_to_all
  encrypt_to_all-Recovered seed [] i g h es laws valid size made =
      subst (Recovered seed i []) (listed g h [] es made) tt
  encrypt_to_all-Recovered seed (k ∷ ks) i g h es laws valid size made =
      let first = encrypt_seed_to_recipient p seed k.public_key i g in
      let others = encrypt_to_all seed (public_keys_of ks) i first.0 in
      and_then-ok first _ _ _
        (λ e sealed. and_then-ok others _ _ _ (λ rest all result.
          subst (Recovered seed i (k ∷ ks)) (listed others.0 h (e ∷ rest) es result) (
            decrypt_seed-encrypt_seed_to_recipient p seed k i g first.0 e laws valid.0 size
                (ap (λ (r : Result EncryptedNodeSeed). (first.0, r)) sealed),
            encrypt_to_all-Recovered seed ks i first.0 others.0 rest laws valid.1 size
                (ap (λ (r : Result (List EncryptedNodeSeed)). (others.0, r)) all),
          )))
        made

  -- Every member of a resolution recovers the seed that was encrypted to the resolution, each from
  -- the encryption in its place, and there are no other encryptions. A seed has 32 bytes, the public
  -- keys are those of the members' secrets, and the primitives satisfy their laws.
  pub encrypt_seed_to_resolution-Recovered :
      (seed : List ℕ) (resolution : List NodeIndex) (ks : List (HybridKemKeypair p)) (i : NodeIndex)
      (g h : p.Rng) (es : List EncryptedNodeSeed)
      → PrimitiveLaws p
      → All (IsKeypair p) ks
      → length seed ≡ 32
      → encrypt_seed_to_resolution seed resolution (public_keys_of ks) i g ≡ (h, ok es)
      → Recovered seed i ks es
  unfolding encrypt_seed_to_resolution
  encrypt_seed_to_resolution-Recovered seed resolution ks i g h es laws valid size made =
      encrypt_to_all-Recovered seed ks i g h es laws valid size
        (passes (length resolution == length (public_keys_of ks)) made)
    where
      passes :
          {r : p.Rng × Result (List EncryptedNodeSeed)} (b : Bool)
          → (if not b then (g, err CryptoError.malformed_message) else r) ≡ (h, ok es)
          → r ≡ (h, ok es)
      passes true e = e
      passes false e = absurd (cc (ap (λ (r : p.Rng × Result (List EncryptedNodeSeed)). r.1) e))
