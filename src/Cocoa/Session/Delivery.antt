-- ===== src/Cocoa/Session/Delivery.antt =====
-- Messages of crates/trelis-cocoa/src/session.rs between members of a group that are in one epoch.
use trelis.Common.{
  ℕ, leb, Bool-cases, inl, inr, ==_iff, ◌+◌, ◌^◌, ◌≤◌, ◌<◌, ◌≡◌, refl, sym, ap, subst, ◌∙◌, arith,
  List, length, if◌then◌else◌, Option, none, some,
}
use trelis.Common.Bytes.{IsU32, IsU64}
use trelis.Common.Outcome.{Outcome, ok, err, ◌>>=◌, ◌>>◌, map_err, and_then, and_then-ok}
use trelis.Error.{Result, CryptoError}
use trelis.Primitives.Interface.{Primitives, PrimitiveLaws}
use trelis.Ratchet.Effects.{Fault, failed, lift, expect, ok-map_err}
use trelis.Cocoa.Epoch.{
  Epoch, MessageKey, checked_suc, next_message_key, message_key_for_counter, secrets_message_key,
}
use trelis.Cocoa.Limits.{check_size_limits, max_message_size}
use trelis.Cocoa.Session.{CocoaSession, EncryptedMessage, encrypt, decrypt, message_aad}
use trelis.Cocoa.Session.Message.{
  to_bytes, from_bytes, IsMessage, message_from_bytes-to_bytes_group,
}

module _ {p : Primitives} where
  -- Two members that see the same epoch of the same group.
  pub record InEpoch (s t : CocoaSession p) : Type 0 where
    pub same_group : s.group_id ≡ t.group_id
    pub same_number : s.epoch.number ≡ t.epoch.number
    pub same_secrets : s.epoch.secrets ≡ t.epoch.secrets

module _ (p : Primitives) where
  -- What a successful encryption went through.
  pub record Sealed (plaintext : List ℕ) (s s' : CocoaSession p) (m : EncryptedMessage)
      : Type 0 where
    pub checked : check_size_limits (length plaintext) 0 0 0 0 ≡ ok tt
    pub counted : s.epoch.message_counter + 1 < 2 ^ 64
    pub moved :
        s' ≡ record s { epoch = record s.epoch { message_counter = s.epoch.message_counter + 1 } }
    pub of_epoch : m.epoch ≡ s.epoch.number
    pub of_sender : m.sender_leaf_position ≡ s.our_leaf_position
    pub numbered : m.counter ≡ s.epoch.message_counter
    pub encrypted :
        p.encrypt
          (secrets_message_key p s.epoch.secrets s.our_leaf_position s.epoch.message_counter).key
          (secrets_message_key p s.epoch.secrets s.our_leaf_position s.epoch.message_counter).nonce
          plaintext
          (message_aad s.group_id s.epoch.number s.our_leaf_position s.epoch.message_counter)
        ≡ ok m.ciphertext

  pub checked_suc-some : (n m : ℕ) → checked_suc n ≡ some m → (n + 1 < 2 ^ 64) × (m ≡ n + 1)
  unfolding checked_suc
  checked_suc-some n m h = ground arith

  taken :
      (leaf : ℕ) (e e' : Epoch) (k : MessageKey)
      → next_message_key p leaf e ≡ (e', ok k)
      → (e.message_counter + 1 < 2 ^ 64)
        × ((e' ≡ record e { message_counter = e.message_counter + 1 })
            × (k ≡ secrets_message_key p e.secrets leaf e.message_counter))
  unfolding next_message_key
  taken leaf e e' k h = go (checked_suc e.message_counter) refl h
    where
      go :
          (o : Option ℕ)
          → checked_suc e.message_counter ≡ o
          → and_then (expect o e) (λ counter f. (
            record f { message_counter = counter },
            ok (secrets_message_key p e.secrets leaf e.message_counter),
          ))
            ≡ (e', ok k)
          → (e.message_counter + 1 < 2 ^ 64)
            × ((e' ≡ record e { message_counter = e.message_counter + 1 })
                × (k ≡ secrets_message_key p e.secrets leaf e.message_counter))
      go none hc h = cc (ap (λ (x : Epoch × Outcome Fault MessageKey). x.1) h)
      go (some n) hc h =
          let step = checked_suc-some e.message_counter n hc in (step.0, (cc (h, step.1), cc h))

  pub encrypt-Sealed :
      (plaintext : List ℕ) (s s' : CocoaSession p) (m : EncryptedMessage)
      → encrypt p plaintext s ≡ (s', ok m)
      → Sealed plaintext s s' m
  unfolding encrypt secrets_message_key
  encrypt-Sealed plaintext s s' m made =
      and_then-ok (lift (check_size_limits (length plaintext) 0 0 0 0) s) _ _ _
        (λ u checked.
          and_then-ok
            (
              record s { epoch = (next_message_key p s.our_leaf_position s.epoch).0 },
              (next_message_key p s.our_leaf_position s.epoch).1,
            )
            _ _ _
            (λ key given.
              and_then-ok
                (lift
                  (p.encrypt key.key key.nonce plaintext (
                    message_aad s.group_id (next_message_key p s.our_leaf_position s.epoch).0.number
                      s.our_leaf_position key.counter))
                  (record s { epoch = (next_message_key p s.our_leaf_position s.epoch).0 }))
                _ _ _
                (λ ciphertext encrypted result.
                  finish u checked (next_message_key p s.our_leaf_position s.epoch).0 key
                    (taken s.our_leaf_position s.epoch _ key (
                      ap
                        (λ (x : Outcome Fault MessageKey).
                          ((next_message_key p s.our_leaf_position s.epoch).0, x))
                        given))
                    ciphertext encrypted result)))
        made
    where
      finish :
          (u : Unit {0})
          → map_err failed (check_size_limits (length plaintext) 0 0 0 0) ≡ ok u
          → (e : Epoch) (key : MessageKey)
          → (s.epoch.message_counter + 1 < 2 ^ 64)
            × ((e ≡ record s.epoch { message_counter = s.epoch.message_counter + 1 })
                × (key
                    ≡ secrets_message_key p s.epoch.secrets s.our_leaf_position
                        s.epoch.message_counter))
          → (ciphertext : List ℕ)
          → map_err failed (
              p.encrypt key.key key.nonce plaintext
                (message_aad s.group_id e.number s.our_leaf_position key.counter))
            ≡ ok ciphertext
          → ◌≡◌ {A = CocoaSession p × Outcome Fault EncryptedMessage}
              (
                record s { epoch = e },
                ok (record {
                  epoch = e.number;
                  sender_leaf_position = s.our_leaf_position;
                  counter = key.counter;
                  ciphertext = ciphertext;
                }),
              )
              (s', ok m)
          → Sealed plaintext s s' m
      finish u checked e key facts ciphertext encrypted result = record {
        checked = ok-map_err _ _ checked;
        counted = facts.0;
        moved = sym same_state ∙ ap (λ (x : Epoch). record s { epoch = x }) facts.1.0;
        of_epoch =
            sym (ap (λ (x : EncryptedMessage). x.epoch) same_message)
            ∙ ap (λ (x : Epoch). x.number) facts.1.0;
        of_sender = sym (ap (λ (x : EncryptedMessage). x.sender_leaf_position) same_message);
        numbered =
            sym (ap (λ (x : EncryptedMessage). x.counter) same_message)
            ∙ ap (λ (x : MessageKey). x.counter) facts.1.1;
        encrypted =
            subst
              (λ (k : MessageKey).
                p.encrypt k.key k.nonce plaintext
                  (message_aad s.group_id s.epoch.number s.our_leaf_position k.counter)
                ≡ ok m.ciphertext)
              facts.1.1
              (subst
                (λ (n : ℕ).
                  p.encrypt key.key key.nonce plaintext
                    (message_aad s.group_id n s.our_leaf_position key.counter)
                  ≡ ok m.ciphertext)
                (ap (λ (x : Epoch). x.number) facts.1.0)
                (ok-map_err _ _ encrypted
                  ∙ ap ok (ap (λ (x : EncryptedMessage). x.ciphertext) same_message)));
      }
        where
          same_state : record s { epoch = e } ≡ s'
          same_state = cc result

          same_message :
              ◌≡◌ {A = EncryptedMessage}
                (record {
                  epoch = e.number;
                  sender_leaf_position = s.our_leaf_position;
                  counter = key.counter;
                  ciphertext = ciphertext;
                })
                m
          same_message = cc result

  limits_passed : (n : ℕ) → check_size_limits n 0 0 0 0 ≡ ok tt → n ≤ max_message_size
  unfolding check_size_limits
  limits_passed n h = ground arith

  limits_decide :
      (n : ℕ) (r : Result (List ℕ))
      → (check_size_limits n 0 0 0 0 >> r)
        ≡ (if leb n max_message_size then r else err CryptoError.message_too_large)
  unfolding check_size_limits
  limits_decide n r = elim (Bool-cases (leb n max_message_size)) [
    | inl small ↦ ground arith
    | inr large ↦ ground arith
  ]

  opened :
      (plaintext : List ℕ) (s s' t : CocoaSession p) (m : EncryptedMessage)
      → PrimitiveLaws p
      → InEpoch s t
      → Sealed plaintext s s' m
      → decrypt p t m ≡ (
          if leb (length plaintext + 16) max_message_size
          then ok plaintext
          else err CryptoError.message_too_large)
  unfolding decrypt message_key_for_counter
  opened plaintext s s' t m laws i x = rw (
    limits_decide (length m.ciphertext) _,
    laws.length-encrypt _ _ plaintext _ m.ciphertext x.encrypted,
    x.of_epoch,
    x.of_sender,
    x.numbered,
    sym i.same_group,
    sym i.same_number,
    sym i.same_secrets,
    (==_iff s.epoch.number s.epoch.number).1 refl,
    laws.decrypt-encrypt _ _ plaintext _ m.ciphertext x.encrypted,
  )

  Sealed-IsMessage :
      (plaintext : List ℕ) (s s' : CocoaSession p) (m : EncryptedMessage)
      → PrimitiveLaws p
      → IsU64 s.epoch.number
      → IsU32 s.our_leaf_position
      → Sealed plaintext s s' m
      → IsMessage m
  Sealed-IsMessage plaintext s s' m laws he hl x = record {
    epoch_width = omega (arith, x.of_epoch);
    sender_width = omega (arith, x.of_sender);
    counter_width = omega (arith, x.numbered, x.counted);
    ciphertext_width = omega (
      arith,
      laws.length-encrypt _ _ plaintext _ m.ciphertext x.encrypted,
      limits_passed (length plaintext) x.checked,
    );
  }

  -- A member who is in the sender's epoch reads from the bytes of a message the text that was
  -- encrypted, if the text and the tag of 16 bytes together are within the size limit. A text that
  -- is within the limit by itself but not with the tag is encrypted as well; then the reader refuses
  -- the message as too large. The epoch number and the position have the widths of their types and
  -- the primitives satisfy their laws.
  pub decrypt-encrypt_group :
      (plaintext : List ℕ) (s s' t : CocoaSession p) (m : EncryptedMessage)
      → PrimitiveLaws p
      → InEpoch s t
      → IsU64 s.epoch.number
      → IsU32 s.our_leaf_position
      → encrypt p plaintext s ≡ (s', ok m)
      → (from_bytes (to_bytes m) >>= decrypt p t) ≡ (
          if leb (length plaintext + 16) max_message_size
          then ok plaintext
          else err CryptoError.message_too_large)
  decrypt-encrypt_group plaintext s s' t m laws i he hl made =
      let x = encrypt-Sealed plaintext s s' m made in
      ap (λ (r : Result EncryptedMessage). r >>= decrypt p t)
        (message_from_bytes-to_bytes_group m (Sealed-IsMessage plaintext s s' m laws he hl x))
      ∙ opened plaintext s s' t m laws i x
