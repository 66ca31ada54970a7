-- ===== src/Ratchet/Session/Conversation.antt =====
-- Conversations over crates/trelis-ratchet in which the sides take turns: one side at a time sends,
-- with any number of messages in flight, the transport keeps their order, and the other side begins
-- to send when it has read them all. The crate does not enforce this. Where both sides send before
-- they read, each derives its next root key from its own message and the root keys differ: such
-- crossing messages are no steps of these conversations.
use trelis.Common.{ℕ, ◌≡◌, refl, sym, ap, ◌∙◌, subst, List, [], ◌∷◌, ◌++◌}
use trelis.Common.Outcome.{ok}
use trelis.Ratchet.Crypto.{Crypto, Laws}
use trelis.Ratchet.Header.{RatchetMessage}
use trelis.Ratchet.State.{KemRatchet}
use trelis.Ratchet.Send.{SendResult, send_message}
use trelis.Ratchet.Receive.{receive_message}
use trelis.Ratchet.Session.{InSync, swap}
use trelis.Ratchet.Session.Delivery.{send_message-receive_message}

module _ (c : Crypto) where
  -- `t` reads the messages in order, at whatever times, as the texts, and is then in step with `s`.
  pub Reads :
      KemRatchet c.Keypair → KemRatchet c.Keypair → List RatchetMessage → List (List ℕ) → Type 0
  Reads s t [] [] = InSync c s t
  Reads s t [] (p ∷ ps) = ⊥
  Reads s t (m ∷ ms) [] = ⊥
  Reads s t (m ∷ ms) (p ∷ ps) =
      (now : ℕ)
      → (t' : KemRatchet c.Keypair) × (receive_message c m now t ≡ (t', ok p)) × Reads s t' ms ps

  -- The side whose turn it is, the other side, the messages on their way, and the texts sent and
  -- read in this turn.
  pub record Conversation : Type 0 where
    pub speaker : KemRatchet c.Keypair
    pub listener : KemRatchet c.Keypair
    pub in_flight : List RatchetMessage
    pub said : List (List ℕ)
    pub heard : List (List ℕ)

  pub data Step : Conversation → Conversation → Type 0 where
    -- The speaker sends a message.
    speak :
        {s s' t : KemRatchet c.Keypair} {ms : List RatchetMessage} {said heard : List (List ℕ)}
        (p : List ℕ) (now : ℕ) (g g' : c.Rng) (r : SendResult)
        → send_message c p now (s, g) ≡ ((s', g'), ok r)
        → Step
            (record { speaker = s; listener = t; in_flight = ms; said = said; heard = heard })
            (record {
              speaker = s';
              listener = t;
              in_flight = ms ++ (r.message ∷ []);
              said = said ++ (p ∷ []);
              heard = heard;
            })
    -- The listener reads the oldest message on its way.
    listen :
        {s t t' : KemRatchet c.Keypair} {m : RatchetMessage} {ms : List RatchetMessage}
        {said heard : List (List ℕ)} (p : List ℕ) (now : ℕ)
        → receive_message c m now t ≡ (t', ok p)
        → Step
            (record { speaker = s; listener = t; in_flight = m ∷ ms; said = said; heard = heard })
            (record {
              speaker = s;
              listener = t';
              in_flight = ms;
              said = said;
              heard = heard ++ (p ∷ []);
            })
    -- With nothing on its way the turn passes to the other side.
    turn :
        {s t : KemRatchet c.Keypair} {said heard : List (List ℕ)}
        → Step
            (record { speaker = s; listener = t; in_flight = []; said = said; heard = heard })
            (record { speaker = t; listener = s; in_flight = []; said = []; heard = [] })

  pub data Reachable : Conversation → Conversation → Type 0 where
    start : {a : Conversation} → Reachable a a
    after : {a b d : Conversation} → Reachable a b → Step b d → Reachable a d

  -- The messages in flight read as texts that complete what was heard to what was said.
  pub IsFaithful : Conversation → Type 0
  IsFaithful v =
      (ps : List (List ℕ)) × Reads v.speaker v.listener v.in_flight ps × (v.said ≡ v.heard ++ ps)

  module _ (laws : Laws c) where
    Reads-speak :
        (s s' t : KemRatchet c.Keypair) (ms : List RatchetMessage) (ps : List (List ℕ)) (p : List ℕ)
        (now : ℕ) (g g' : c.Rng) (r : SendResult)
        → send_message c p now (s, g) ≡ ((s', g'), ok r)
        → Reads s t ms ps
        → Reads s' t (ms ++ (r.message ∷ [])) (ps ++ (p ∷ []))
    unfolding Reads
    Reads-speak s s' t [] [] p now g g' r h i =
        λ now'. send_message-receive_message c laws p now now' s s' t g g' r i h
    Reads-speak s s' t [] (q ∷ qs) p now g g' r h i = absurd i
    Reads-speak s s' t (m ∷ ms) [] p now g g' r h i = absurd i
    Reads-speak s s' t (m ∷ ms) (q ∷ qs) p now g g' r h i = λ now'.
        ((i now').0, (i now').1, Reads-speak s s' (i now').0 ms qs p now g g' r h (i now').2)

    append_assoc : (xs ys zs : List (List ℕ)) → (xs ++ ys) ++ zs ≡ xs ++ (ys ++ zs)
    append_assoc [] ys zs = refl
    append_assoc (x ∷ xs) ys zs = ap (◌∷◌ x) (append_assoc xs ys zs)

    listens :
        (s t t' : KemRatchet c.Keypair) (m : RatchetMessage) (ms : List RatchetMessage)
        (said heard ps : List (List ℕ)) (p : List ℕ) (now : ℕ)
        → receive_message c m now t ≡ (t', ok p)
        → Reads s t (m ∷ ms) ps
        → said ≡ heard ++ ps
        → (qs : List (List ℕ)) × Reads s t' ms qs × (said ≡ (heard ++ (p ∷ [])) ++ qs)
    unfolding Reads
    listens s t t' m ms said heard [] p now h i e = absurd i
    listens s t t' m ms said heard (q ∷ qs) p now h i e =
        let (t'', h', more) = i now in
        let same : q ≡ p = cc (h, h') in
        let state : t'' ≡ t' = cc (h, h') in
        (
          qs,
          subst (λ (t : KemRatchet c.Keypair). Reads s t ms qs) state more,
          e ∙ ap (λ (x : List ℕ). heard ++ (x ∷ qs)) same ∙ sym (append_assoc heard (p ∷ []) qs),
        )

    turns : (s t : KemRatchet c.Keypair) (ps : List (List ℕ)) → Reads s t [] ps → Reads t s [] []
    unfolding Reads
    turns s t [] i = swap c i
    turns s t (p ∷ ps) i = absurd i

    Step-IsFaithful : {v w : Conversation} → Step v w → IsFaithful v → IsFaithful w
    unfolding IsFaithful
    Step-IsFaithful (speak {s} {s'} {t} {ms} {said} {heard} p now g g' r h) (ps, i, e) = (
      ps ++ (p ∷ []),
      Reads-speak s s' t ms ps p now g g' r h i,
      ap (λ (l : List (List ℕ)). l ++ (p ∷ [])) e ∙ append_assoc heard ps (p ∷ []),
    )
    Step-IsFaithful (listen {s} {t} {t'} {m} {ms} {said} {heard} p now h) (ps, i, e) =
        listens s t t' m ms said heard ps p now h i e
    Step-IsFaithful (turn {s} {t}) (ps, i, e) = ([], turns s t ps i, refl)

    -- However a conversation by turns between two synchronised sides runs, with any number of
    -- messages in flight from the side whose turn it is, the texts read so far are the first of the texts sent in the turn, in order, and the
    -- messages in flight can all be read, at any time, as the rest of them. The KEM and the AEAD
    -- satisfy their laws.
    pub Reachable-IsFaithful :
        (s t : KemRatchet c.Keypair) (w : Conversation)
        → InSync c s t
        → Reachable (record { speaker = s; listener = t; in_flight = []; said = []; heard = [] }) w
        → IsFaithful w
    Reachable-IsFaithful s t w i run = along run
      where
        along :
            {w : Conversation}
            → Reachable
                (record { speaker = s; listener = t; in_flight = []; said = []; heard = [] })
                w
            → IsFaithful w
        along start = unfold IsFaithful Reads in ([], i, refl)
        along (after more step) = Step-IsFaithful step (along more)
