-- ===== src/Ratchet/Atomic.antt =====
-- What crates/trelis-ratchet/src/send.rs and receive.rs leave behind when they fail.
use trelis.Common.{
  ℕ, ◌≡◌, ◌≢◌, refl, subst, some_eq, sym, arith, List, Option, none, some, Option-cases, inl, inr,
  ◌==◌, not,
}
use trelis.Common.Outcome.{Outcome, ok, err, map_err, and_then, Outcome-cases, guard}
use trelis.Error.{CryptoError, Result}
use trelis.Hybrid.Keys.{HybridKemPublicKey}
use trelis.Ratchet.Crypto.{Crypto}
use trelis.Ratchet.Effects.{Fault, failed, panicked, lift, expect, draw, ok-map_err}
use trelis.Ratchet.Header
use trelis.Ratchet.Header.{RatchetMessage}
use trelis.Ratchet.State.{
  KemRatchet, validate_can_send, is_none, find_keypair, validate_can_receive,
}
use trelis.Ratchet.Kdf.{kdf_rk, derive_nonce_with_random}
use trelis.Ratchet.Send.{send_message, derive_hedged_nonce}
use trelis.Ratchet.Receive.{receive_message}

-- A failure returns an error, does not panic, and leaves the part of the state that `keep` reads.
module _ {S T : Type 0} (keep : S → T) (s : T) where
  unfoldable pub FailsSafe : {A : Type 0} → S × Outcome Fault A → Type 0
  FailsSafe r = (e : Fault) → r.1 ≡ err e → (e ≢ panicked) × (keep r.0 ≡ s)

  ok-FailsSafe : {A : Type 0} (a : A) (t : S) → FailsSafe (t, ok a)
  unfolding FailsSafe
  ok-FailsSafe a t e h = cc h

  failed-FailsSafe :
      (A : Type 0) (e : CryptoError) (t : S) → keep t ≡ s → FailsSafe {A = A} (t, err (failed e))
  unfolding FailsSafe
  failed-FailsSafe A e t k d h = ((λ p. cc (h, p)), k)

  lift-FailsSafe : {A : Type 0} (r : Result A) (t : S) → keep t ≡ s → FailsSafe (lift r t)
  lift-FailsSafe (ok a) t k = ok-FailsSafe a t
  lift-FailsSafe (err e) t k = failed-FailsSafe _ e t k

  and_then-FailsSafe :
      {A B : Type 0} (m : S × Outcome Fault A) (f : A → S → S × Outcome Fault B)
      → FailsSafe m
      → ((a : A) → m.1 ≡ ok a → FailsSafe (f a m.0))
      → FailsSafe (and_then m f)
  unfolding FailsSafe
  and_then-FailsSafe (t, ok a) f h k = k a refl
  and_then-FailsSafe (t, err d) f h k = λ e p. h e (cc p)

  expect-FailsSafe :
      {A B : Type 0} (o : Option A) (a : A) (t : S) (f : A → S → S × Outcome Fault B)
      → o ≡ some a
      → FailsSafe (f a t)
      → FailsSafe (and_then (expect o t) f)
  expect-FailsSafe none a t f e h = cc e
  expect-FailsSafe {A = A} (some b) a t f e h =
      subst (λ (x : A). FailsSafe (f x t)) (sym (some_eq e)) h

guarded :
    {A : Type 0} (o : Option A) (e : CryptoError) (u : Unit {0})
    → map_err failed (guard (not (is_none o)) e) ≡ ok u
    → (a : A) × (o ≡ some a)
unfolding is_none
guarded none e u h = cc h
guarded (some a) e u h = (a, refl)

can_send :
    {K : Type 0} (s : KemRatchet K) (u : Unit {0})
    → validate_can_send s ≡ ok u
    → ((pk : HybridKemPublicKey) × (s.their_public_key ≡ some pk))
      × ((id : ℕ) × (s.their_key_id ≡ some id))
unfolding validate_can_send is_none
can_send s u h = elim (Option-cases s.their_public_key) [
  | inl no_key ↦ ground arith
  | inr key ↦ elim (Option-cases s.their_key_id) [ inl no_id ↦ ground arith | inr id ↦ (key, id) ]
]

module _ (c : Crypto) where
  module _ (s : KemRatchet c.Keypair) where
    lift-Keeps :
        {A : Type 0} (r : Result A) (g : c.Rng)
        → FailsSafe (λ (t : KemRatchet c.Keypair × c.Rng). t.0) s (lift r (s, g))
    lift-Keeps r g = lift-FailsSafe (λ (t : KemRatchet c.Keypair × c.Rng). t.0) s r (s, g) refl

    hedged_nonce-FailsSafe :
        (counter : ℕ) (key : List ℕ) (g : c.Rng)
        → FailsSafe (λ t. t.0) s (derive_hedged_nonce c counter key (s, g))
    unfolding derive_hedged_nonce
    hedged_nonce-FailsSafe counter key g =
        and_then-FailsSafe (λ t. t.0) s (draw (c.generate_bytes 16) (s, g)) _
          (lift-Keeps (c.generate_bytes 16 g).1 (c.generate_bytes 16 g).0)
          (λ random e.
            lift-Keeps (derive_nonce_with_random c counter key random) (c.generate_bytes 16 g).0)

    pub hedged_nonce-state :
        (counter : ℕ) (key : List ℕ) (g : c.Rng)
        → (derive_hedged_nonce c counter key (s, g)).0.0 ≡ s
    unfolding derive_hedged_nonce
    hedged_nonce-state counter key g = elim (Outcome-cases (c.generate_bytes 16 g).1) [
      | inl (random, e) ↦ rw (e)
      | inr (fault, e) ↦ rw (e)
    ]

  send_message-FailsSafe :
      (plaintext : List ℕ) (now : ℕ) (s : KemRatchet c.Keypair) (g : c.Rng)
      → FailsSafe (λ t. t.0) s (send_message c plaintext now (s, g))
  unfolding send_message
  send_message-FailsSafe plaintext now s g =
      and_then-FailsSafe (λ t. t.0) s (lift (validate_can_send s) (s, g)) _
        (lift-Keeps s (validate_can_send s) g)
        (λ u valid.
          let can = can_send s u (ok-map_err (validate_can_send s) u valid) in
          let made = c.generate g in
          and_then-FailsSafe (λ t. t.0) s (draw c.generate (s, g)) _ (lift-Keeps s made.1 made.0)
            (λ keypair e1.
              expect-FailsSafe (λ t. t.0) s s.their_public_key can.0.0 (s, made.0) _ can.0.1
                (let sealed = c.encapsulate can.0.0 made.0 in
                  and_then-FailsSafe (λ t. t.0) s (draw (c.encapsulate can.0.0) (s, made.0)) _
                    (lift-Keeps s sealed.1 sealed.0)
                    (λ (secret, encapsulation) e2.
                      expect-FailsSafe (λ t. t.0) s s.their_key_id can.1.0 (s, sealed.0) _ can.1.1
                        (and_then-FailsSafe (λ t. t.0) s
                          (derive_hedged_nonce c s.send_count
                            (kdf_rk c s.root_key secret).message_key (s, sealed.0))
                          _
                          (hedged_nonce-FailsSafe s s.send_count
                            (kdf_rk c s.root_key secret).message_key sealed.0)
                          (λ nonce e3.
                            and_then-FailsSafe (λ t. t.0) s
                              (lift
                                (c.encrypt (kdf_rk c s.root_key secret).message_key nonce plaintext
                                  (Header.to_bytes (
                                    Header.new can.1.0 (c.public_key keypair) encapsulation
                                      s.send_count)))
                                (derive_hedged_nonce c s.send_count
                                  (kdf_rk c s.root_key secret).message_key (s, sealed.0)).0)
                              _
                              (lift-FailsSafe (λ t. t.0) s _ _
                                (hedged_nonce-state s s.send_count _ sealed.0))
                              (λ ciphertext e4. ok-FailsSafe (λ t. t.0) s _ _)))))))

  keeps :
      {A B : Type 0} (s : KemRatchet c.Keypair) (r : Result A)
      (f : A → KemRatchet c.Keypair → KemRatchet c.Keypair × Outcome Fault B)
      → ((a : A) → map_err failed r ≡ ok a → FailsSafe (λ t. t) s (f a s))
      → FailsSafe (λ t. t) s (and_then (lift r s) f)
  keeps s r f k = and_then-FailsSafe (λ t. t) s (lift r s) f (lift-FailsSafe (λ t. t) s r s refl) k

  receive_message-FailsSafe :
      (message : RatchetMessage) (now : ℕ) (s : KemRatchet c.Keypair)
      → FailsSafe (λ t. t) s (receive_message c message now s)
  unfolding receive_message
  receive_message-FailsSafe message now s = keeps s (validate_can_receive s) _ (λ u valid.
      keeps s ordered _ (λ u in_order. keeps s known _ (λ u is_known.
        let found = guarded (find_keypair header.recipient_key_id s) _ u is_known in
        expect-FailsSafe (λ t. t) s (find_keypair header.recipient_key_id s) found.0 s _ found.1
          (keeps s (c.decapsulate found.0 header.encapsulation) _ (λ secret e.
            keeps s
              (c.decrypt (kdf_rk c s.root_key secret).message_key message.nonce message.ciphertext
                (Header.to_bytes header))
              _ (λ plaintext e. ok-FailsSafe (λ t. t) s plaintext _))))))
    where
      open message use {header}

      ordered : Result (Unit {0})
      ordered =
          guard (header.message_number == s.recv_count)
            (CryptoError.message_order_violation s.recv_count header.message_number)

      known : Result (Unit {0})
      known =
          guard (not (is_none (find_keypair header.recipient_key_id s)))
            CryptoError.unknown_recipient_key_id

  -- Whatever the state, the text and the outcome of each primitive, a send that fails has returned an
  -- error and not panicked, and the ratchet state is the one before the call.
  pub send_message_fails :
      (plaintext : List ℕ) (now : ℕ) (s : KemRatchet c.Keypair) (g : c.Rng) (e : Fault)
      → (send_message c plaintext now (s, g)).1 ≡ err e
      → (e ≢ panicked) × ((send_message c plaintext now (s, g)).0.0 ≡ s)
  unfolding FailsSafe
  send_message_fails plaintext now s g = send_message-FailsSafe plaintext now s g

  -- Whatever the state and the message, a receive that fails has returned an error and not panicked,
  -- and the ratchet state is the one before the call: nothing of a message that is not authentic
  -- is kept.
  pub receive_message_fails :
      (message : RatchetMessage) (now : ℕ) (s : KemRatchet c.Keypair) (e : Fault)
      → (receive_message c message now s).1 ≡ err e
      → (e ≢ panicked) × ((receive_message c message now s).0 ≡ s)
  unfolding FailsSafe
  receive_message_fails message now s = receive_message-FailsSafe message now s
