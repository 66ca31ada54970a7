-- ===== src/Ratchet/Session/Start.antt =====
-- A session of crates/trelis-ratchet from its start: both sides are initialised from one session
-- key, the initiator with the responder's public key.
use trelis.Common.{ℕ, ◌≡◌, refl, ap, subst, arith, List, [], some, inl, inr}
use trelis.Common.Outcome.{ok, err, ◌>>=◌}
use trelis.Error.{Result}
use trelis.Ratchet.Crypto.{Crypto, Laws}
use trelis.Ratchet.State.{KemRatchet, derive_key_id, fresh, init_initiator, init_responder}
use trelis.Ratchet.Session.{IsCoherent, InSync}
use trelis.Ratchet.Session.Conversation.{Conversation, Reachable, IsFaithful, Reachable-IsFaithful}

module _ (c : Crypto) where
  responder-IsCoherent :
      (key : List ℕ) (k : c.Keypair) (now : ℕ) → IsCoherent c (init_responder c key k now)
  unfolding init_responder
  responder-IsCoherent key k now = record {
    our_id = refl;
    their_id = refl;
    few = omega arith;
    below = omega arith;
    established = λ e. cc e;
    trusted = λ e. cc e;
  }

  begun :
      (key : List ℕ) (k k' : c.Keypair) (now now' : ℕ)
      → InSync c
          (fresh c key k' (some (c.public_key k)) (some (derive_key_id c (c.public_key k))) now)
          (init_responder c key k now')
  unfolding fresh init_responder
  begun key k k' now now' = record {
    same_root = refl;
    there = refl;
    back = refl;
    knows = inr refl;
    known = inl refl;
    coherent = record {
      our_id = refl;
      their_id = refl;
      few = omega arith;
      below = omega arith;
      established = λ e. cc e;
      trusted = λ e. cc e;
    };
    coherent' = responder-IsCoherent key k now';
  }

  -- An initiator and a responder that share the session key start synchronised, whatever their
  -- clocks say, if the initiator was given the responder's public key.
  pub init-InSync :
      (key : List ℕ) (k : c.Keypair) (now now' : ℕ) (g g' : c.Rng) (s : KemRatchet c.Keypair)
      → init_initiator c key (c.public_key k) now g ≡ (g', ok s)
      → InSync c s (init_responder c key k now')
  unfolding init_initiator
  init-InSync key k now now' g g' s e = go (c.generate g) e
    where
      start : c.Keypair → KemRatchet c.Keypair
      start k' =
          fresh c key k' (some (c.public_key k)) (some (derive_key_id c (c.public_key k))) now

      go :
          (drawn : c.Rng × Result c.Keypair)
          → ◌≡◌ {A = c.Rng × Result (KemRatchet c.Keypair)}
              (drawn.0, drawn.1 >>= λ k'. ok (start k'))
              (g', ok s)
          → InSync c s (init_responder c key k now')
      go (r, ok k') h =
          subst (λ (s : KemRatchet c.Keypair). InSync c s (init_responder c key k now')) (cc h)
            (begun key k k' now now')
      go (r, err f) h = cc (ap (λ (p : c.Rng × Result (KemRatchet c.Keypair)). p.1) h)

  -- From the start on, in every conversation in which the sides take turns, what has been read in
  -- the turn is what was sent in it, in order, and what is in flight can be read as the rest of it.
  -- One side at a time sends, any number of messages, the transport keeps their order, and the
  -- other side begins to send only when nothing is in flight; messages that cross are not covered.
  -- The initiator was given the responder's public key, and the KEM and the AEAD satisfy their laws.
  pub init-IsFaithful :
      (key : List ℕ) (k : c.Keypair) (now now' : ℕ) (g g' : c.Rng) (s : KemRatchet c.Keypair)
      (w : Conversation c)
      → Laws c
      → init_initiator c key (c.public_key k) now g ≡ (g', ok s)
      → Reachable c
          (record {
            speaker = s;
            listener = init_responder c key k now';
            in_flight = [];
            said = [];
            heard = [];
          })
          w
      → IsFaithful c w
  init-IsFaithful key k now now' g g' s w laws e =
      Reachable-IsFaithful c laws s (init_responder c key k now') w
        (init-InSync key k now now' g g' s e)
