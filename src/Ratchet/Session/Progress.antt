-- ===== src/Ratchet/Session/Progress.antt =====
-- When `send_message` of crates/trelis-ratchet/src/send.rs goes through, and what has then become
-- possible on the other side.
use trelis.Common.{ℕ, ◌<◌, ◌≡◌, ◌≢◌, refl, ap, subst, ◌∙◌, arith, List, Option, none, some}
use mathlib.Core.Option
use trelis.Common.Outcome.{Outcome, ok, map_err, and_then, and_then-goes}
use trelis.Hybrid.Keys.{HybridKemPublicKey, HybridEncapsulation}
use trelis.Ratchet.Crypto.{Crypto, Laws}
use trelis.Ratchet.Kdf.{kdf_rk, derive_nonce_with_random}
use trelis.Ratchet.Effects.{Fault, failed, lift, expect, draw}
use trelis.Ratchet.Header
use trelis.Ratchet.State.{
  KemRatchet, RatchetStatus, session_exhaustion_threshold, validate_can_send, check_exhaustion,
  is_none, derive_key_id,
}
use trelis.Ratchet.Send.{SendResult, send_message, derive_hedged_nonce}
use trelis.Ratchet.Receive.{receive_message}
use trelis.Ratchet.Session.{InSync}
use trelis.Ratchet.Session.Delivery.{send_message-receive_message}

-- The generator does not fail, nor does the KEM for the public key `pk` (for others it may: X448
-- refuses keys of low order), nor the AEAD for the text.
pub record IsReliable (c : Crypto) (pk : HybridKemPublicKey) (text : List ℕ) : Type 0 where
  pub generates : (g : c.Rng) → (k : c.Keypair) × ((c.generate g).1 ≡ ok k)
  pub draws : (g : c.Rng) → (bytes : List ℕ) × ((c.generate_bytes 16 g).1 ≡ ok bytes)
  pub encapsulates :
      (g : c.Rng) → (sealed : List ℕ × HybridEncapsulation) × ((c.encapsulate pk g).1 ≡ ok sealed)
  pub encrypts :
      (key nonce aad : List ℕ) → (sealed : List ℕ) × (c.encrypt key nonce text aad ≡ ok sealed)

expect-goes :
    {S A B : Type 0} (o : Option A) (s : S) (f : A → S → S × Outcome Fault B) (a : A)
    → o ≡ some a
    → (b : B) × ((f a s).1 ≡ ok b)
    → (b : B) × ((and_then (expect o s) f).1 ≡ ok b)
expect-goes none s f a h rest = cc h
expect-goes (some a') s f a h rest =
    subst (λ (x : _). (b : _) × ((f x s).1 ≡ ok b)) {x = a} {y = a'} (cc h) rest

module _ (c : Crypto) where
  can_send :
      (s : KemRatchet c.Keypair) (pk : HybridKemPublicKey) (id : ℕ)
      → s.status ≢ RatchetStatus.uninitialised
      → s.status ≢ RatchetStatus.compromised
      → s.their_public_key ≡ some pk
      → s.their_key_id ≡ some id
      → s.send_count < session_exhaustion_threshold
      → validate_can_send s ≡ ok tt
  unfolding validate_can_send check_exhaustion is_none
  can_send s pk id established trusted hp hi below = ground (arith, hp, hi)

  nonce_drawn :
      {S : Type 0} (n : ℕ) (key : List ℕ) (t : S × c.Rng) (pk : HybridKemPublicKey) (text : List ℕ)
      → IsReliable c pk text
      → (nonce : List ℕ) × ((derive_hedged_nonce c n key t).1 ≡ ok nonce)
  unfolding derive_hedged_nonce derive_nonce_with_random
  nonce_drawn n key t pk text reliable =
      let random = reliable.draws t.1 in
      and_then-goes (draw (c.generate_bytes 16) t) _ random.0 (ap (map_err failed) random.1)
        (_, refl)

  sends :
      (plaintext : List ℕ) (now : ℕ) (s : KemRatchet c.Keypair) (g : c.Rng)
      (pk : HybridKemPublicKey) (id : ℕ)
      → IsReliable c pk plaintext
      → validate_can_send s ≡ ok tt
      → s.their_public_key ≡ some pk
      → s.their_key_id ≡ some id
      → (r : SendResult) × ((send_message c plaintext now (s, g)).1 ≡ ok r)
  unfolding send_message
  sends plaintext now s g pk id reliable valid hp hi =
      let k = reliable.generates g in
      let sealed = reliable.encapsulates (c.generate g).0 in
      let key = (kdf_rk c s.root_key sealed.0.0).message_key in
      let nonce =
        nonce_drawn s.send_count key (s, (c.encapsulate pk (c.generate g).0).0) pk plaintext
          reliable in
      let header = Header.new id (c.public_key k.0) sealed.0.1 s.send_count in
      let ct = reliable.encrypts key nonce.0 (Header.to_bytes header) in
      and_then-goes (lift (validate_can_send s) (s, g)) _ tt (ap (map_err failed) valid) (
        and_then-goes (draw c.generate (s, g)) _ k.0 (ap (map_err failed) k.1) (
          expect-goes s.their_public_key (s, (c.generate g).0) _ pk hp
            (and_then-goes (draw (c.encapsulate pk) (s, (c.generate g).0)) _ sealed.0
              (ap (map_err failed) sealed.1)
              (expect-goes s.their_key_id (s, (c.encapsulate pk (c.generate g).0).0) _ id hi
                (and_then-goes
                  (derive_hedged_nonce c s.send_count key
                    (s, (c.encapsulate pk (c.generate g).0).0))
                  _ nonce.0 nonce.1
                  (and_then-goes (lift (c.encrypt key nonce.0 plaintext (Header.to_bytes header)) _)
                    _ ct.0 (ap (map_err failed) ct.1) (_, refl)))))))

  -- A synchronised session makes progress: as long as the sender knows the other side's key and its
  -- counter is below the threshold, it can send the text, the other side reads that text, and the
  -- two sides are synchronised again. The generator does not fail, nor does the KEM for the other
  -- side's key or the AEAD for the text, and they satisfy their laws.
  pub InSync-progress :
      (plaintext : List ℕ) (now now' : ℕ) (s t : KemRatchet c.Keypair) (g : c.Rng)
      (pk : HybridKemPublicKey)
      → Laws c
      → IsReliable c pk plaintext
      → InSync c s t
      → s.their_public_key ≡ some pk
      → s.send_count < session_exhaustion_threshold
      → (r : SendResult) × (s' : KemRatchet c.Keypair) × (g' : c.Rng) × (send_message c plaintext
            now
            (s, g)
          ≡ ((s', g'), ok r))
        × (t' : KemRatchet c.Keypair) × (receive_message c r.message now' t ≡ (t', ok plaintext))
        × InSync c s' t'
  InSync-progress plaintext now now' s t g pk laws reliable i hp below =
      let id = derive_key_id c pk in
      let hi = i.coherent.their_id ∙ ap (Option.map (derive_key_id c)) hp in
      let sent =
        sends plaintext now s g pk id reliable
          (can_send s pk id i.coherent.established i.coherent.trusted hp hi below) hp hi in
      let after = (send_message c plaintext now (s, g)).0 in
      let made = ap (λ (x : Outcome Fault SendResult). (after, x)) sent.1 in
      let read =
        send_message-receive_message c laws plaintext now now' s after.0 t g after.1 sent.0 i
          made in
      (sent.0, after.0, after.1, made, read.0, read.1, read.2)
