-- ===== src/Cocoa/Session/Counters.antt =====
-- The epochs and message counters that a session of crates/trelis-cocoa/src/session.rs goes through.
use trelis.Common.{
  ℕ, ◌+◌, ◌≤◌, ◌<◌, ◌≡◌, ◌⊎◌, inl, inr, refl, sym, ap, subst, ◌∙◌, arith, List, [], ◌∷◌, ◌++◌, All,
  All-append, Option, none, some, length, Option-cases, Bool-cases, ltb-false, ltb,
}
use trelis.Common.Outcome.{Outcome, ok, err, Outcome-cases}
use trelis.Error.{Result}
use trelis.Primitives.Interface.{Primitives}
use trelis.Ratchet.Effects.{Fault, panicked}
use trelis.Hybrid.Kem
use trelis.Cocoa.Epoch
use trelis.Cocoa.Epoch.{Epoch, MessageKey, checked_suc, next_message_key, secrets_message_key}
use trelis.Cocoa.KeySchedule.{h5_epoch_secret}
use trelis.Cocoa.Limits.{check_size_limits}
use trelis.Cocoa.Session.{
  CocoaSession, EncryptedMessage, encrypt, set_session_counter, advance_epoch, rotate_keypair,
  message_aad,
}
use trelis.Cocoa.Session.Delivery.{Sealed, encrypt-Sealed, checked_suc-some}

-- An epoch and a counter, ordered by the epoch first.
abbrev pub AtMost : ℕ × ℕ → ℕ × ℕ → Type 0
AtMost a b = (a.0 < b.0) ⊎ ((a.0 ≡ b.0) × (a.1 ≤ b.1))

abbrev pub Before : ℕ × ℕ → ℕ × ℕ → Type 0
Before a b = AtMost (a.0, a.1 + 1) b

AtMost-trans : (a b c : ℕ × ℕ) → AtMost a b → AtMost b c → AtMost a c
AtMost-trans a b c (inl h) (inl k) = inl (omega arith)
AtMost-trans a b c (inl h) (inr k) = inl (omega (arith, k.0))
AtMost-trans a b c (inr h) (inl k) = inl (omega (arith, h.0))
AtMost-trans a b c (inr h) (inr k) = inr (h.0 ∙ k.0, omega (arith, h.1, k.1))

abbrev pub place : EncryptedMessage → ℕ × ℕ
place m = (m.epoch, m.counter)

-- Each message stands before all later ones.
abbrev pub IsAscending : List EncryptedMessage → Type 0
IsAscending [] = Unit {0}
IsAscending (m ∷ ms) = All (λ n. Before (place m) (place n)) ms × IsAscending ms

module _ (p : Primitives) where
  abbrev pub at : CocoaSession p → ℕ × ℕ
  at s = (s.epoch.number, s.epoch.message_counter)

  -- The calls that change a session's epoch, counter or keypair, with the message that the call
  -- returns, if any; errors of `encrypt` included.
  pub data Step : CocoaSession p → List EncryptedMessage → CocoaSession p → Type 0 where
    seals :
        {s s' : CocoaSession p} {m : EncryptedMessage} (plaintext : List ℕ)
        → encrypt p plaintext s ≡ (s', ok m)
        → Step s (m ∷ []) s'
    fails :
        {s s' : CocoaSession p} (plaintext : List ℕ) (f : Fault)
        → encrypt p plaintext s ≡ (s', err f)
        → Step s [] s'
    counts :
        {s s' : CocoaSession p} (n : ℕ) (r : Result (Unit {0}))
        → set_session_counter n s ≡ (s', r)
        → Step s [] s'
    advances :
        {s s' : CocoaSession p} (delta_root transcript_hash : List ℕ)
        → advance_epoch p delta_root transcript_hash s ≡ (s', ok tt)
        → Step s [] s'
    rotates :
        {s s' : CocoaSession p} (g g' : p.Rng) (r : Result (Unit {0}))
        → rotate_keypair p (s, g) ≡ ((s', g'), r)
        → Step s [] s'

  -- The messages of a run of calls, in order.
  pub data Run : CocoaSession p → List EncryptedMessage → CocoaSession p → Type 0 where
    stop : {s : CocoaSession p} → Run s [] s
    step :
        {s s' s'' : CocoaSession p} {ms ns : List EncryptedMessage}
        → Step s ms s'
        → Run s' ns s''
        → Run s (ms ++ ns) s''

  encrypt_moves :
      (plaintext : List ℕ) (s : CocoaSession p) → AtMost (at s) (at (encrypt p plaintext s).0)
  unfolding encrypt next_message_key
  encrypt_moves plaintext s = elim (Outcome-cases (check_size_limits (length plaintext) 0 0 0 0)) [
    | inr (e, refused) ↦ rw (refused) (inr (refl, omega arith))
    | inl (u, checked) ↦ elim (Option-cases (checked_suc s.epoch.message_counter)) [
      | inl over ↦ rw (checked, over) (inr (refl, omega arith))
      | inr (n, next) ↦
          elim (Outcome-cases (
            p.encrypt
              (secrets_message_key p s.epoch.secrets s.our_leaf_position
                s.epoch.message_counter).key
              (secrets_message_key p s.epoch.secrets s.our_leaf_position
                s.epoch.message_counter).nonce
              plaintext
              (message_aad s.group_id s.epoch.number s.our_leaf_position
                s.epoch.message_counter))) [
                  | inl (c, sealed) ↦
                      rw (checked, next, sealed)
                        (inr
                          (refl, omega (arith, checked_suc-some p s.epoch.message_counter n next)))
                  | inr (e, refused) ↦
                      rw (checked, next, refused)
                        (inr
                          (refl, omega (arith, checked_suc-some p s.epoch.message_counter n next)))
                ]
    ]
  ]

  -- What a step does: the session moves on or stays, and a message stands at the old place and
  -- before the new one.
  record Moves (s : CocoaSession p) (ms : List EncryptedMessage) (s' : CocoaSession p)
      : Type 0 where
    onward : AtMost (at s) (at s')
    from_here : All (λ m. AtMost (at s) (place m)) ms
    left_behind : All (λ m. Before (place m) (at s')) ms
    few : IsAscending ms

  quiet : (s s' : CocoaSession p) → AtMost (at s) (at s') → Moves s [] s'
  quiet s s' h = record { onward = h; from_here = tt; left_behind = tt; few = tt }

  Sealed-Moves :
      (plaintext : List ℕ) (s s' : CocoaSession p) (m : EncryptedMessage)
      → Sealed p plaintext s s' m
      → Moves s (m ∷ []) s'
  Sealed-Moves plaintext s s' m x = record {
    onward =
        subst (λ (t : CocoaSession p). AtMost (at s) (at t)) (sym x.moved)
          (inr (refl, omega arith));
    from_here = (inr (sym x.of_epoch, omega (arith, x.numbered)), tt);
    left_behind = (
      subst (λ (t : CocoaSession p). Before (place m) (at t)) (sym x.moved)
          (inr (x.of_epoch, omega (arith, x.numbered))),
      tt,
    );
    few = (tt, tt);
  }

  counter_moves : (n : ℕ) (s : CocoaSession p) → AtMost (at s) (at (set_session_counter n s).0)
  unfolding set_session_counter Epoch.set_message_counter
  counter_moves n s = elim (Bool-cases (ltb n s.epoch.message_counter)) [
    | inl low ↦ rw (low) (inr (refl, omega arith))
    | inr high ↦ rw (high) (inr (refl, ltb-false n s.epoch.message_counter high))
  ]

  advance_number :
      (init delta_root transcript_hash : List ℕ) (n : ℕ) (e : Epoch)
      → Epoch.advance p init delta_root transcript_hash n ≡ ok e
      → e.number ≡ n + 1
  unfolding Epoch.advance
  advance_number init delta_root transcript_hash n e made = go (checked_suc n) refl made
    where
      result : ℕ → Epoch
      result number = record {
        number = number;
        secrets = Epoch.derive_secrets p (h5_epoch_secret p init delta_root transcript_hash);
        message_counter = 0;
        transcript_hash = transcript_hash;
      }

      go :
          (o : Option ℕ)
          → checked_suc n ≡ o
          → ◌≡◌ {A = Outcome Fault Epoch}
              (elim o [ none ↦ err panicked | some number ↦ ok (result number) ])
              (ok e)
          → e.number ≡ n + 1
      go none h made = cc made
      go (some m) h made =
          sym (ap (λ (x : Epoch). x.number) {x = result m} {y = e} (cc made))
          ∙ (checked_suc-some p n m h).1

  advance_moves :
      (delta_root transcript_hash : List ℕ) (s : CocoaSession p)
      → AtMost (at s) (at (advance_epoch p delta_root transcript_hash s).0)
  unfolding advance_epoch
  advance_moves delta_root transcript_hash s =
      elim (Outcome-cases
        (Epoch.advance p s.epoch.secrets.init_secret delta_root transcript_hash s.epoch.number)) [
          | inl (e, made) ↦ rw (made) (
              inl
                (omega (arith, advance_number _ delta_root transcript_hash s.epoch.number e made)))
          | inr (f, over) ↦ rw (over) (inr (refl, omega arith))
        ]

  rotate_moves : (s : CocoaSession p) (g : p.Rng) → AtMost (at s) (at (rotate_keypair p (s, g)).0.0)
  unfolding rotate_keypair
  rotate_moves s g = elim (Outcome-cases (Kem.generate p g).1) [
    | inl (k, made) ↦ rw (made) (inr (refl, omega arith))
    | inr (e, unmade) ↦ rw (unmade) (inr (refl, omega arith))
  ]

  arrived :
      {R : Type 0} (s t s' : CocoaSession p) (r r' : R)
      → AtMost (at s) (at t)
      → ◌≡◌ {A = CocoaSession p × R} (t, r) (s', r')
      → AtMost (at s) (at s')
  arrived s t s' r r' h e =
      subst (λ (x : CocoaSession p). AtMost (at s) (at x)) {x = t} {y = s'} (cc e) h

  Step-Moves :
      (s : CocoaSession p) (ms : List EncryptedMessage) (s' : CocoaSession p)
      → Step s ms s'
      → Moves s ms s'
  Step-Moves s _ s' (seals {m = m} plaintext made) =
      Sealed-Moves plaintext s s' m (encrypt-Sealed p plaintext s s' m made)
  Step-Moves s _ s' (fails plaintext f made) =
      quiet s s' (arrived s _ s' _ _ (encrypt_moves plaintext s) made)
  Step-Moves s _ s' (counts n r made) = quiet s s' (arrived s _ s' _ _ (counter_moves n s) made)
  Step-Moves s _ s' (advances delta_root transcript_hash made) =
      quiet s s' (arrived s _ s' _ _ (advance_moves delta_root transcript_hash s) made)
  Step-Moves s _ s' (rotates g g' r made) = quiet s s' (
      subst (λ (x : CocoaSession p). AtMost (at s) (at x))
        (ap (λ (x : (CocoaSession p × p.Rng) × Result (Unit {0})). x.0.0) made) (rotate_moves s g))

  later :
      (a b : ℕ × ℕ) (ms : List EncryptedMessage)
      → AtMost a b
      → All (λ m. AtMost b (place m)) ms
      → All (λ m. AtMost a (place m)) ms
  later a b [] h k = tt
  later a b (m ∷ ms) h k = (AtMost-trans a b (place m) h k.0, later a b ms h k.1)

  IsAscending-append :
      (ms ns : List EncryptedMessage) (b : ℕ × ℕ)
      → IsAscending ms
      → All (λ m. Before (place m) b) ms
      → IsAscending ns
      → All (λ n. AtMost b (place n)) ns
      → IsAscending (ms ++ ns)
  IsAscending-append [] ns b h k h' k' = h'
  IsAscending-append (m ∷ ms) ns b h k h' k' = (
    All-append (λ (n : EncryptedMessage). Before (place m) (place n)) ms ns h.0
        (later (m.epoch, m.counter + 1) b ns k.0 k'),
    IsAscending-append ms ns b h.1 k.1 h' k',
  )

  Run-ascends :
      (s : CocoaSession p) (ms : List EncryptedMessage) (s' : CocoaSession p)
      → Run s ms s'
      → All (λ m. AtMost (at s) (place m)) ms × IsAscending ms
  Run-ascends s _ s' stop = (tt, tt)
  Run-ascends s _ s' (step {s' = t} {ms = ms} {ns = ns} first rest) =
      let moves = Step-Moves s ms t first in
      let above = Run-ascends t ns s' rest in
      (
        All-append (λ (m : EncryptedMessage). AtMost (at s) (place m)) ms ns moves.from_here
            (later (at s) (at t) ns moves.onward above.0),
        IsAscending-append ms ns (at t) moves.few moves.left_behind above.1 above.0,
      )

  -- No session ever uses a pair of epoch and counter twice: through any run of encryptions, failed
  -- encryptions, changes of the counter, new epochs and new keypairs, each message stands strictly
  -- above all earlier ones, epoch first, and none stands below where the session began.
  pub Run-IsAscending :
      (s : CocoaSession p) (ms : List EncryptedMessage) (s' : CocoaSession p)
      → Run s ms s'
      → IsAscending ms × All (λ m. AtMost (at s) (place m)) ms
  Run-IsAscending s ms s' run = let both = Run-ascends s ms s' run in (both.1, both.0)
