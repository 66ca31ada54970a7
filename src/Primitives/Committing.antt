-- ===== src/Primitives/Committing.antt =====
-- The committing AEAD of crates/trelis-primitives/src/aead.rs: a ciphertext of XChaCha20-Poly1305 with
-- a keyed hash of key, nonce and data appended.
mod Tests
use trelis.Common.{
  ℕ, ◌+◌, ◌-◌, ◌≡◌, ◌≢◌, ◌⊎◌, inl, inr, refl, sym, ap, subst, ◌∙◌, arith, List, [], ◌∷◌, ◌++◌, Bool,
  true, false, ltb, if◌then◌else◌, not, length, take, drop, length-append, take-append_length,
  drop-append_length, Bool-cases,
}
use trelis.Common.Bytes.{
  IsU64, to_le_bytes, from_le_bytes, length-to_le_bytes, from_le_bytes-to_le_bytes,
}
use trelis.Common.Copy.{append_inj}
use trelis.Common.Outcome.{ok, err, ◌>>=◌, bind-ok}
use trelis.Error.{Result, CryptoError}
use trelis.Hybrid.Keys.{bytes_eq, bytes_eq_sound, bytes_eq_refl, bytes_eq-false}
use trelis.Primitives.Interface.{Primitives, PrimitiveLaws}

-- "trelis-aead-commit-v1"
abbrev pub aead_commit_context : List ℕ
aead_commit_context =
    116 ∷ 114 ∷ 101 ∷ 108 ∷ 105 ∷ 115 ∷ 45 ∷ 97 ∷ 101 ∷ 97 ∷ 100 ∷ 45 ∷ 99 ∷ 111 ∷ 109 ∷ 109 ∷ 105
    ∷ 116 ∷ 45 ∷ 118 ∷ 49 ∷ []

abbrev pub commitment_size : ℕ
commitment_size = 32

abbrev pub aead_tag_size : ℕ
aead_tag_size = 16

abbrev pub aead_nonce_size : ℕ
aead_nonce_size = 24

unfoldable pub commitment_input : List ℕ → List ℕ → List ℕ → List ℕ
commitment_input nonce aad ct =
    to_le_bytes 8 aead_nonce_size
    ++ (nonce ++ (to_le_bytes 8 (length aad) ++ (aad ++ (to_le_bytes 8 (length ct) ++ ct))))

passed :
    (short same : Bool) (r : Result (List ℕ)) (text : List ℕ)
    → (if short
        then err CryptoError.invalid_ciphertext
        else (if not same then err CryptoError.aead_authentication_failed else r))
      ≡ ok text
    → same ≡ true
passed true same r text h = cc h
passed false true r text h = refl
passed false false r text h = cc h

commitment_input_inj :
    (n a ct n' a' ct' : List ℕ)
    → length n ≡ 24
    → length n' ≡ 24
    → IsU64 (length a)
    → IsU64 (length a')
    → commitment_input n a ct ≡ commitment_input n' a' ct'
    → (n ≡ n') × (a ≡ a')
unfolding commitment_input
commitment_input_inj n a ct n' a' ct' hn hn' ha ha' e =
    let first = append_inj (to_le_bytes 8 24) (to_le_bytes 8 24) _ _ refl e in
    let second = append_inj n n' _ _ (hn ∙ sym hn') first.1 in
    let third =
      append_inj (to_le_bytes 8 (length a)) (to_le_bytes 8 (length a')) _ _
        (length-to_le_bytes 8 (length a) ∙ sym (length-to_le_bytes 8 (length a'))) second.1 in
    let same_length =
      sym (from_le_bytes-to_le_bytes 8 (length a) (omega arith))
      ∙ (ap from_le_bytes third.0 ∙ from_le_bytes-to_le_bytes 8 (length a') (omega arith)) in
    (second.0, (append_inj a a' _ _ same_length third.1).0)

module _ (p : Primitives) where
  unfoldable pub aead_commitment : List ℕ → List ℕ → List ℕ → List ℕ → List ℕ
  unfolding commitment_input
  aead_commitment key nonce aad ct =
      let k_commit = p.derive_key aead_commit_context key in
      p.keyed_hash k_commit (commitment_input nonce aad ct)

  unfoldable pub encrypt_committing : List ℕ → List ℕ → List ℕ → List ℕ → Result (List ℕ)
  encrypt_committing key nonce plaintext aad =
      p.encrypt key nonce plaintext aad >>= λ out. ok (out ++ aead_commitment key nonce aad out)

  unfoldable pub decrypt_committing : List ℕ → List ℕ → List ℕ → List ℕ → Result (List ℕ)
  unfolding bytes_eq
  decrypt_committing key nonce committing_ct aad =
      if ltb (length committing_ct) (aead_tag_size + commitment_size)
      then err CryptoError.invalid_ciphertext
      else let split = length committing_ct - commitment_size in
        let ct = take split committing_ct in
        let commitment = drop split committing_ct in
        let expected = aead_commitment key nonce aad ct in
        if not (bytes_eq expected commitment)
        then err CryptoError.aead_authentication_failed
        else p.decrypt key nonce ct aad

  committed :
      (key nonce ct aad text : List ℕ)
      → decrypt_committing key nonce ct aad ≡ ok text
      → aead_commitment key nonce aad (take (length ct - 32) ct) ≡ drop (length ct - 32) ct
  unfolding decrypt_committing
  committed key nonce ct aad text h = bytes_eq_sound _ _ (passed (ltb (length ct) 48) _ _ text h)

  -- What `encrypt_committing` makes, `decrypt_committing` opens under the same key, nonce and data.
  pub decrypt_committing-encrypt_committing :
      (key nonce text aad sealed : List ℕ)
      → PrimitiveLaws p
      → encrypt_committing key nonce text aad ≡ ok sealed
      → decrypt_committing key nonce sealed aad ≡ ok text
  unfolding encrypt_committing decrypt_committing aead_commitment
  decrypt_committing-encrypt_committing key nonce text aad sealed laws made =
      bind-ok (p.encrypt key nonce text aad) _ _
        (λ out encrypted result.
          subst (λ (s : List ℕ). decrypt_committing key nonce s aad ≡ ok text)
            {x = out ++ aead_commitment key nonce aad out} {y = sealed} (cc result)
            (opens out encrypted))
        made
    where
      opens :
          (out : List ℕ)
          → p.encrypt key nonce text aad ≡ ok out
          → decrypt_committing key nonce (out ++ aead_commitment key nonce aad out) aad ≡ ok text
      opens out encrypted = rw (
        long,
        cut,
        take-append_length out (aead_commitment key nonce aad out) (length out) refl,
        drop-append_length out (aead_commitment key nonce aad out) (length out) refl,
        bytes_eq_refl (aead_commitment key nonce aad out),
        laws.decrypt-encrypt key nonce text aad out encrypted,
      )
        where
          whole : List ℕ
          whole = out ++ aead_commitment key nonce aad out

          tag_size : length (aead_commitment key nonce aad out) ≡ 32
          tag_size = laws.length-keyed_hash _ _

          out_size : length out ≡ length text + 16
          out_size = laws.length-encrypt key nonce text aad out encrypted

          cut : length (out ++ aead_commitment key nonce aad out) - 32 ≡ length out
          cut = omega (arith, length-append out (aead_commitment key nonce aad out), tag_size)

          long : ltb (length (out ++ aead_commitment key nonce aad out)) 48 ≡ false
          long =
              ground
                (arith, length-append out (aead_commitment key nonce aad out), tag_size, out_size)

  -- A ciphertext that opens under two keys, nonces and data either had the same key, nonce and data
  -- both times, or the two keys are different and derive the same commitment key, or the keyed hash
  -- gives one commitment for the two different inputs. A nonce has 24 bytes, and the data less than
  -- 2^64.
  pub decrypt_committing_binds :
      (k n a k' n' a' ct text text' : List ℕ)
      → length n ≡ 24
      → length n' ≡ 24
      → IsU64 (length a)
      → IsU64 (length a')
      → decrypt_committing k n ct a ≡ ok text
      → decrypt_committing k' n' ct a' ≡ ok text'
      → ((k ≡ k') × ((n ≡ n') × (a ≡ a')))
        ⊎ (((k ≢ k') × (p.derive_key aead_commit_context k ≡ p.derive_key aead_commit_context k'))
            ⊎ (((p.derive_key aead_commit_context k ≢ p.derive_key aead_commit_context k')
                  ⊎ (commitment_input n a (take (length ct - 32) ct)
                      ≢ commitment_input n' a' (take (length ct - 32) ct)))
                × (aead_commitment k n a (take (length ct - 32) ct)
                    ≡ aead_commitment k' n' a' (take (length ct - 32) ct))))
  decrypt_committing_binds k n a k' n' a' ct text text' hn hn' ha ha' h h' =
      let body = take (length ct - 32) ct in
      let derived = p.derive_key aead_commit_context k in
      let derived' = p.derive_key aead_commit_context k' in
      let agree = committed k n ct a text h ∙ sym (committed k' n' ct a' text' h') in
      elim (Bool-cases (bytes_eq (commitment_input n a body) (commitment_input n' a' body))) [
        | inr apart ↦ inr (inr (inr (bytes_eq-false _ _ apart), agree))
        | inl joined ↦ elim (Bool-cases (bytes_eq derived derived')) [
          | inr apart ↦ inr (inr (inl (bytes_eq-false _ _ apart), agree))
          | inl same ↦ elim (Bool-cases (bytes_eq k k')) [
            | inl one ↦ inl (
              bytes_eq_sound k k' one,
              commitment_input_inj n a body n' a' body hn hn' ha ha' (bytes_eq_sound _ _ joined),
            )
            | inr two ↦ inr (inl (bytes_eq-false k k' two, bytes_eq_sound _ _ same))
          ]
        ]
      ]
