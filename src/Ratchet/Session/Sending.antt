-- ===== src/Ratchet/Session/Sending.antt =====
-- What has happened when `send_message` of crates/trelis-ratchet/src/send.rs has succeeded.
use trelis.Common.{ℕ, true, ◌≡◌, refl, ap, subst, List, Option, none, some}
use trelis.Common.Outcome.{Outcome, ok, map_err, and_then, and_then-ok}
use trelis.Hybrid.Keys.{HybridKemPublicKey, HybridEncapsulation}
use trelis.Ratchet.Crypto.{Crypto}
use trelis.Ratchet.Kdf.{kdf_rk}
use trelis.Ratchet.Effects.{Fault, failed, lift, expect, draw, ok-map_err}
use trelis.Ratchet.Header
use trelis.Ratchet.Header.{RatchetMessage, MessageHeader}
use trelis.Ratchet.State.{KemRatchet, validate_can_send}
use trelis.Ratchet.Atomic.{hedged_nonce-state}
use trelis.Ratchet.Send.{SendResult, send_message, derive_hedged_nonce, sent}

-- A chain that succeeded has succeeded at each link.
module _ {S A B P : Type 0} where
  expect-ok :
      (o : Option A) (s : S) (f : A → S → S × Outcome Fault B) (t : S) (b : B)
      → ((a : A) → o ≡ some a → f a s ≡ (t, ok b) → P)
      → and_then (expect o s) f ≡ (t, ok b)
      → P
  expect-ok none s f t b k e = cc (ap (λ (r : S × Outcome Fault B). r.1) e)
  expect-ok (some a) s f t b k e = k a refl e

module _ (c : Crypto) where
  -- The values that a successful send went through.
  pub record Trace (plaintext : List ℕ) (now : ℕ) (s s' : KemRatchet c.Keypair) (r : SendResult)
      : Type 0 where
    pub valid : validate_can_send s ≡ ok tt
    pub pk : HybridKemPublicKey
    pub id : ℕ
    pub keypair : c.Keypair
    pub secret : List ℕ
    pub encapsulation : HybridEncapsulation
    pub before : c.Rng
    pub after : c.Rng
    pub knows_key : s.their_public_key ≡ some pk
    pub knows_id : s.their_key_id ≡ some id
    pub encapsulated : c.encapsulate pk before ≡ (after, ok (secret, encapsulation))
    pub header_built :
        r.message.header ≡ Header.new id (c.public_key keypair) encapsulation s.send_count
    pub encrypted :
        c.encrypt
          (kdf_rk c s.root_key secret).message_key
          r.message.nonce
          plaintext
          (Header.to_bytes r.message.header)
        ≡ ok r.message.ciphertext
    pub state_after : s' ≡ sent c keypair (kdf_rk c s.root_key secret).new_root_key now s

  built :
      {plaintext : List ℕ} {now : ℕ} {s s' : KemRatchet c.Keypair} {g' : c.Rng} {r : SendResult}
      {t : KemRatchet c.Keypair × c.Rng} (g : c.Rng) (u : Unit {0})
      → map_err failed (validate_can_send s) ≡ ok u
      → (keypair : c.Keypair) (pk : HybridKemPublicKey) → s.their_public_key ≡ some pk
      → (shared : List ℕ × HybridEncapsulation) → map_err failed (c.encapsulate pk g).1 ≡ ok shared
      → (id : ℕ) → s.their_key_id ≡ some id
      → (nonce ciphertext : List ℕ)
      → map_err failed (
          c.encrypt
            (kdf_rk c s.root_key shared.0).message_key
            nonce
            plaintext
            (Header.to_bytes (Header.new id (c.public_key keypair) shared.1 s.send_count)))
        ≡ ok ciphertext
      → t.0 ≡ s
      → ◌≡◌ {A = (KemRatchet c.Keypair × c.Rng) × Outcome Fault SendResult}
          (
            (sent c keypair (kdf_rk c s.root_key shared.0).new_root_key now t.0, t.1),
            ok (record {
              message = record {
                header = Header.new id (c.public_key keypair) shared.1 s.send_count;
                nonce = nonce;
                ciphertext = ciphertext;
              };
              state_updated = true;
            }),
          )
          ((s', g'), ok r)
      → Trace plaintext now s s' r
  built {plaintext} {now} {s} {s'} {g'} {r} {t} g u valid keypair pk knows_key shared sealed id
        knows_id nonce ciphertext encrypted kept e =
      subst (λ (r : SendResult). Trace plaintext now s s' r) same_result
        (record {
          valid = ok-map_err (validate_can_send s) tt valid;
          pk = pk;
          id = id;
          keypair = keypair;
          secret = shared.0;
          encapsulation = shared.1;
          before = g;
          after = (c.encapsulate pk g).0;
          knows_key = knows_key;
          knows_id = knows_id;
          encapsulated = ap (λ x. ((c.encapsulate pk g).0, x)) (ok-map_err _ _ sealed);
          header_built = refl;
          encrypted = ok-map_err _ _ encrypted;
          state_after = cc (e, kept);
        })
    where
      same_result :
          ◌≡◌ {A = SendResult}
            (record {
              message = record {
                header = Header.new id (c.public_key keypair) shared.1 s.send_count;
                nonce = nonce;
                ciphertext = ciphertext;
              };
              state_updated = true;
            })
            r
      same_result = cc e

  pub send_message-Trace :
      (plaintext : List ℕ) (now : ℕ) (s s' : KemRatchet c.Keypair) (g g' : c.Rng) (r : SendResult)
      → send_message c plaintext now (s, g) ≡ ((s', g'), ok r)
      → Trace plaintext now s s' r
  unfolding send_message
  send_message-Trace plaintext now s s' g g' r =
      and_then-ok (lift (validate_can_send s) (s, g)) _ _ _ (λ u valid.
        and_then-ok (draw c.generate (s, g)) _ _ _ (λ keypair made.
          expect-ok s.their_public_key (s, (c.generate g).0) _ _ _
            (λ pk knows_key.
              and_then-ok (draw (c.encapsulate pk) (s, (c.generate g).0)) _ _ _ (λ shared sealed.
                expect-ok s.their_key_id (s, (c.encapsulate pk (c.generate g).0).0) _ _ _
                  (λ id knows_id.
                    and_then-ok
                      (derive_hedged_nonce c s.send_count (kdf_rk c s.root_key shared.0).message_key
                        (s, (c.encapsulate pk (c.generate g).0).0))
                      _ _ _
                      (λ nonce mixed.
                        and_then-ok
                          (lift
                            (c.encrypt (kdf_rk c s.root_key shared.0).message_key nonce plaintext (
                              Header.to_bytes
                                (Header.new id (c.public_key keypair) shared.1 s.send_count)))
                            (derive_hedged_nonce c s.send_count
                              (kdf_rk c s.root_key shared.0).message_key
                              (s, (c.encapsulate pk (c.generate g).0).0)).0)
                          _ _ _
                          (λ ciphertext encrypted e.
                            built (c.generate g).0 u valid keypair pk knows_key shared sealed id
                              knows_id nonce ciphertext encrypted
                              (hedged_nonce-state c s s.send_count _ _) e)))))))
