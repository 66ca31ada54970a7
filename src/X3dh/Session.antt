-- ===== src/X3dh/Session.antt =====
-- From the handshake of crates/trelis-x3dh-pq to the ratchet of crates/trelis-ratchet: the root key of
-- the handshake is the session key that both ratchets start from.
use trelis.Common.{ℕ, ◌≡◌, sym, ap, subst, ◌∙◌, List, []}
use trelis.Common.Outcome.{ok}
use trelis.Hybrid.Identity.{HybridIdentityKeypair}
use trelis.Hybrid.Kem.{HybridKemKeypair}
use trelis.Hybrid.Kem.Agreement.{hybrid_crypto, hybrid_crypto-Laws, Certified}
use trelis.Primitives.Interface.{Primitives, PrimitiveLaws}
use trelis.Ratchet.State.{KemRatchet, init_initiator, init_responder}
use trelis.Ratchet.Session.Conversation.{Conversation, Reachable, IsFaithful}
use trelis.Ratchet.Session.Start.{init-IsFaithful}
use trelis.X3dh.Agreement.{Matches, respond_to_bytes, respond-initiate}
use trelis.X3dh.Bundle.{SignedPreKeyBundle}
use trelis.X3dh.Initiator.{InitiatorResult, initial_to_bytes, initiate}
use trelis.X3dh.SessionKeys.{SessionKeys, swap_directions}
use trelis.X3dh.Transcript.{SessionFlags}

module _ (p : Primitives) where
  -- A session from the first byte: the initiator establishes it on the responder's bundle, the
  -- responder derives its keys from the bytes of the initial message, and both start their ratchets
  -- from their root keys. Then in every conversation that follows in which the sides take turns,
  -- the initiator first, what has been read in the turn is what was sent in it, in order, and what
  -- is in flight can be read as the rest of it. One side at a time sends, any number of messages,
  -- the transport keeps their order, and the other side begins to send only when nothing is in
  -- flight; messages that cross are not covered. The bundle is the responder's, the ratchet of the
  -- initiator was given the responder's public key, and the primitives satisfy their laws.
  pub handshake-IsFaithful :
      (alice bob : HybridIdentityKeypair p) (otk : HybridKemKeypair p) (b : SignedPreKeyBundle)
      (flags : SessionFlags) (now now' : ℕ) (g h g' h' : p.Rng) (r : InitiatorResult)
      (keys : SessionKeys) (k : Certified p) (s : KemRatchet (Certified p))
      (w : Conversation (hybrid_crypto p))
      → PrimitiveLaws p
      → Matches p alice bob otk b
      → initiate p alice b now flags g ≡ (h, ok r)
      → respond_to_bytes p alice bob otk b flags (initial_to_bytes r.initial_message) ≡ ok keys
      → init_initiator (hybrid_crypto p) r.session_keys.root_key k.0.public_key now g' ≡ (h', ok s)
      → Reachable
          (hybrid_crypto p)
          (record {
            speaker = s;
            listener = init_responder (hybrid_crypto p) keys.root_key k now';
            in_flight = [];
            said = [];
            heard = [];
          })
          w
      → IsFaithful (hybrid_crypto p) w
  unfolding swap_directions
  handshake-IsFaithful alice bob otk b flags now now' g h g' h' r keys k s w laws m made read start
        run =
      init-IsFaithful (hybrid_crypto p) keys.root_key k now now' g' h' s w
        (hybrid_crypto-Laws p laws)
        (subst
          (λ (key : List ℕ).
            init_initiator (hybrid_crypto p) key k.0.public_key now g' ≡ (h', ok s))
          same_root start)
        run
    where
      same : swap_directions r.session_keys ≡ keys
      same = cc (sym (respond-initiate p alice bob otk b flags now g h r laws m made) ∙ read)

      same_root : r.session_keys.root_key ≡ keys.root_key
      same_root = ap (λ (x : SessionKeys). x.root_key) same
