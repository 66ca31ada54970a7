-- ===== src/Ratchet/Session/Delivery.antt =====
-- A message of crates/trelis-ratchet/src/send.rs that receive.rs handles next.
use trelis.Common.{
  ℕ, ◌+◌, ◌%◌, ◌^◌, ◌≡◌, refl, sym, ap, ◌∙◌, subst, some_eq, arith, List, some, inl, inr, ◌==◌,
}
use mathlib.Core.Option
use trelis.Common.Outcome.{ok, guard}
use trelis.Hybrid.Keys.{HybridKemPublicKey, HybridEncapsulation}
use trelis.Ratchet.Crypto.{Crypto, Laws}
use trelis.Ratchet.Kdf.{kdf_rk}
use trelis.Ratchet.Header
use trelis.Ratchet.Header.{RatchetMessage, MessageHeader}
use trelis.Ratchet.State.{
  KemRatchet, validate_can_receive, find_keypair, is_none, derive_key_id, rotate_keypair,
  set_root_key, increment_send_count, set_status, set_last_activity,
}
use trelis.Ratchet.Send.{SendResult, send_message, sent}
use trelis.Ratchet.Receive.{receive_message, received, is_changed}
use trelis.Ratchet.Session.{InSync}
use trelis.Ratchet.Session.Sending.{Trace, send_message-Trace}
use trelis.Ratchet.Session.Coherence.{
  can_receive, sent-IsCoherent, received-key, received-Advances, received-IsCoherent,
}

guard_equal : {E : Type 0} (m n : ℕ) (e : E) → m ≡ n → guard (m == n) e ≡ ok tt
guard_equal m n e h = ground arith

module _ (c : Crypto) where
  find_current :
      (s : KemRatchet c.Keypair) (id : ℕ)
      → id ≡ s.our_key_id
      → find_keypair id s ≡ some s.our_keypair
  unfolding find_keypair
  find_current s id h = ground arith

  -- A receive whose checks pass and whose decapsulation and decryption succeed.
  receive_message_ok :
      (m : RatchetMessage) (now : ℕ) (t : KemRatchet c.Keypair) (k : c.Keypair)
      (secret plaintext : List ℕ)
      → validate_can_receive t ≡ ok tt
      → m.header.message_number ≡ t.recv_count
      → find_keypair m.header.recipient_key_id t ≡ some k
      → c.decapsulate k m.header.encapsulation ≡ ok secret
      → c.decrypt
          (kdf_rk c t.root_key secret).message_key
          m.nonce
          m.ciphertext
          (Header.to_bytes m.header)
        ≡ ok plaintext
      → receive_message c m now t ≡ (
        received c
            (is_changed t.their_public_key m.header.sender_public_key)
            m
            (kdf_rk c t.root_key secret).new_root_key
            now
            t,
        ok plaintext,
      )
  unfolding receive_message is_none
  receive_message_ok m now t k secret plaintext valid order found opened text =
      rw (
        valid,
        guard_equal m.header.message_number t.recv_count _ order,
        found,
        found,
        opened,
        text,
      )

  sent-Knows :
      (keypair : c.Keypair) (root : List ℕ) (now : ℕ) (s : KemRatchet c.Keypair)
      → ((sent c keypair root now s).our_keypair ≡ keypair)
        × ((sent c keypair root now s).their_public_key ≡ s.their_public_key)
        × ((sent c keypair root now s).root_key ≡ root)
        × ((sent c keypair root now s).send_count ≡ (s.send_count + 1) % 2 ^ 64)
        × ((sent c keypair root now s).recv_count ≡ s.recv_count)
  unfolding sent rotate_keypair set_root_key increment_send_count set_status set_last_activity
  sent-Knows keypair root now s = (refl, refl, refl, refl, refl)

  new-fields :
      (id n : ℕ) (pk : HybridKemPublicKey) (e : HybridEncapsulation)
      → ((Header.new id pk e n).recipient_key_id ≡ id)
        × ((Header.new id pk e n).sender_public_key ≡ pk)
        × ((Header.new id pk e n).encapsulation ≡ e)
        × ((Header.new id pk e n).message_number ≡ n)
  unfolding Header.new
  new-fields id n pk e = (refl, refl, refl, refl)

  -- In a synchronised session the key that a message was encapsulated to is the peer's current one.
  addressed :
      {plaintext : List ℕ} {now : ℕ} {s s' t : KemRatchet c.Keypair} {r : SendResult}
      (e : Trace c plaintext now s s' r)
      → InSync c s t
      → (e.pk ≡ c.public_key t.our_keypair) × (e.id ≡ t.our_key_id)
  addressed {t = t} e i = elim i.knows [
    | inl unknown ↦ cc (e.knows_key, unknown)
    | inr key ↦
        let same : e.pk ≡ c.public_key t.our_keypair = some_eq (sym e.knows_key ∙ key) in
        (
          same,
          some_eq (
              sym e.knows_id
              ∙ i.coherent.their_id
              ∙ ap (Option.map (derive_key_id c)) e.knows_key
              ∙ ap (λ pk. some (derive_key_id c pk)) same
              ∙ ap some (sym i.coherent'.our_id)),
        )
  ]

  resynced :
      {plaintext : List ℕ} {now : ℕ} {s s' t : KemRatchet c.Keypair} {r : SendResult} (now' : ℕ)
      (e : Trace c plaintext now s s' r)
      → InSync c s t
      → InSync c s' (
          received c
            (is_changed t.their_public_key r.message.header.sender_public_key)
            r.message
            (kdf_rk c t.root_key e.secret).new_root_key
            now'
            t)
  resynced {now = now} {s = s} {t = t} {r = r} now' e i =
      let root = (kdf_rk c s.root_key e.secret).new_root_key in
      let root' = (kdf_rk c t.root_key e.secret).new_root_key in
      let to = addressed e i in
      let k = sent-Knows e.keypair root now s in
      let fields = new-fields e.id s.send_count (c.public_key e.keypair) e.encapsulation in
      let a =
        received-Advances c (is_changed t.their_public_key r.message.header.sender_public_key)
          r.message root' now' t in
      let key = received-key c r.message root' now' t i.coherent' in
      let t' =
        received c (is_changed t.their_public_key r.message.header.sender_public_key) r.message
          root' now' t in
      subst (λ (s' : KemRatchet c.Keypair). InSync c s' t') (sym e.state_after)
        (record {
          same_root =
              k.2 ∙ ap (λ root. (kdf_rk c root e.secret).new_root_key) i.same_root ∙ sym a.new_root;
          there =
              k.3
              ∙ ap (λ (n : ℕ). (n + 1) % 2 ^ 64)
                  (sym (ap (λ (h : MessageHeader). h.message_number) e.header_built ∙ fields.3))
              ∙ sym a.new_count;
          back = a.same_sends ∙ i.back ∙ sym k.4;
          knows = inr (
              k.1
              ∙ e.knows_key
              ∙ ap some to.0
              ∙ ap (λ keypair. some (c.public_key keypair)) (sym a.same_keypair));
          known = inr (
              key.0
              ∙ ap some (ap (λ (h : MessageHeader). h.sender_public_key) e.header_built ∙ fields.1)
              ∙ ap (λ keypair. some (c.public_key keypair)) (sym k.0));
          coherent = sent-IsCoherent c e.keypair root now s e.valid i.coherent;
          coherent' = received-IsCoherent c r.message root' now' t i.coherent';
        })

  module _ (laws : Laws c) where
    reads :
        {plaintext : List ℕ} {now : ℕ} {s s' t : KemRatchet c.Keypair} {r : SendResult} (now' : ℕ)
        (e : Trace c plaintext now s s' r)
        → InSync c s t
        → receive_message c r.message now' t ≡ (
          received c
              (is_changed t.their_public_key r.message.header.sender_public_key)
              r.message
              (kdf_rk c t.root_key e.secret).new_root_key
              now'
              t,
          ok plaintext,
        )
    reads {plaintext} {t = t} {r = r} now' e i =
        let to = addressed e i in
        let fields = new-fields e.id _ (c.public_key e.keypair) e.encapsulation in
        receive_message_ok r.message now' t t.our_keypair e.secret plaintext
          (can_receive t i.coherent'.established i.coherent'.trusted)
          (ap (λ (h : MessageHeader). h.message_number) e.header_built ∙ fields.3 ∙ i.there)
          (find_current t _
            (ap (λ (h : MessageHeader). h.recipient_key_id) e.header_built ∙ fields.0 ∙ to.1))
          (ap (c.decapsulate t.our_keypair)
              (ap (λ (h : MessageHeader). h.encapsulation) e.header_built ∙ fields.2)
            ∙ laws.decapsulate-encapsulate t.our_keypair e.before e.after e.secret e.encapsulation
                (ap (λ pk. c.encapsulate pk e.before) (sym to.0) ∙ e.encapsulated))
          (laws.decrypt-encrypt (kdf_rk c t.root_key e.secret).message_key r.message.nonce plaintext
            (Header.to_bytes r.message.header) r.message.ciphertext
            (ap
                (λ root.
                  c.encrypt (kdf_rk c root e.secret).message_key r.message.nonce plaintext
                    (Header.to_bytes r.message.header))
                (sym i.same_root)
              ∙ e.encrypted))

    -- In a synchronised session what one side sends, the other reads: the receive returns the text,
    -- and afterwards the two states are synchronised again. The KEM and the AEAD satisfy their laws.
    pub send_message-receive_message :
        (plaintext : List ℕ) (now now' : ℕ) (s s' t : KemRatchet c.Keypair) (g g' : c.Rng)
        (r : SendResult)
        → InSync c s t
        → send_message c plaintext now (s, g) ≡ ((s', g'), ok r)
        → (t' : KemRatchet c.Keypair) × (receive_message c r.message now' t ≡ (t', ok plaintext))
          × InSync c s' t'
    send_message-receive_message plaintext now now' s s' t g g' r i h =
        let e = send_message-Trace c plaintext now s s' g g' r h in
        (_, reads now' e i, resynced now' e i)
