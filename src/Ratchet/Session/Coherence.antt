-- ===== src/Ratchet/Session/Coherence.antt =====
-- What sending and receiving in crates/trelis-ratchet/src do to a coherent state.
use trelis.Common.{
  ℕ, ◌+◌, ◌%◌, ◌^◌, ◌≤◌, ◌<◌, ◌≡◌, ◌≢◌, refl, sym, ap, ◌∙◌, subst, arith, List, [], ◌∷◌, ◌++◌,
  Option, none, some, Bool-cases, inl, inr, leb, drop, length, length-append, length-drop, Bool,
  true, false, if◌then◌else◌,
}
use mathlib.Core.Option
use trelis.Common.Outcome.{ok}
use trelis.Hybrid.Keys.{HybridKemPublicKey, public_key_eq_sound}
use trelis.Ratchet.Crypto.{Crypto}
use trelis.Ratchet.Header.{RatchetMessage}
use trelis.Ratchet.State.{
  KemRatchet, RatchetStatus, derive_key_id, max_previous_keypairs, session_exhaustion_threshold,
  validate_can_send, check_exhaustion, rotate_keypair, set_root_key, increment_send_count,
  set_status, set_last_activity, set_their_public_key, set_recv_count, validate_can_receive,
}
use trelis.Ratchet.Send.{sent}
use trelis.Ratchet.Receive.{received, is_changed}
use trelis.Ratchet.Session.{IsCoherent}

can_count :
    {K : Type 0} (s : KemRatchet K)
    → validate_can_send s ≡ ok tt
    → s.send_count < session_exhaustion_threshold
unfolding validate_can_send check_exhaustion
can_count s h = ground arith

pub can_receive :
    {K : Type 0} (s : KemRatchet K)
    → s.status ≢ RatchetStatus.uninitialised
    → s.status ≢ RatchetStatus.compromised
    → validate_can_receive s ≡ ok tt
unfolding validate_can_receive
can_receive s h k = ground arith

rotated :
    {A : Type 0} (old : List A) (x : A)
    → length old ≤ max_previous_keypairs
    → length ((if leb max_previous_keypairs (length old) then drop 1 old else old) ++ (x ∷ []))
      ≤ max_previous_keypairs
rotated old x h = elim (Bool-cases (leb max_previous_keypairs (length old))) [
  | inl full ↦ rw (full) (omega (arith, length-append (drop 1 old) (x ∷ []), length-drop 1 old))
  | inr room ↦ rw (room) (ground (arith, length-append old (x ∷ [])))
]

unchanged :
    (o : Option HybridKemPublicKey) (pk : HybridKemPublicKey)
    → is_changed o pk ≡ false
    → o ≡ some pk
unfolding is_changed
unchanged none pk h = cc h
unchanged (some known) pk h = ap some (public_key_eq_sound known pk (ground (arith, h)))

module _ (c : Crypto) where
  pub sent-IsCoherent :
      (keypair : c.Keypair) (root : List ℕ) (now : ℕ) (s : KemRatchet c.Keypair)
      → validate_can_send s ≡ ok tt
      → IsCoherent c s
      → IsCoherent c (sent c keypair root now s)
  unfolding sent rotate_keypair set_root_key increment_send_count set_status set_last_activity
  sent-IsCoherent keypair root now s valid i = record {
    our_id = refl;
    their_id = i.their_id;
    few = rotated s.previous_keypairs (s.our_key_id, s.our_keypair) i.few;
    below = omega (arith, can_count s valid);
    established = λ e. cc e;
    trusted = λ e. cc e;
  }

  -- After an authenticated message the sender's new key is the one on record, under its id.
  pub received-key :
      (m : RatchetMessage) (root : List ℕ) (now : ℕ) (t : KemRatchet c.Keypair)
      → IsCoherent c t
      → ((received c
            (is_changed t.their_public_key m.header.sender_public_key)
            m
            root
            now
            t).their_public_key
          ≡ some m.header.sender_public_key)
        × ((received c
              (is_changed t.their_public_key m.header.sender_public_key)
              m
              root
              now
              t).their_key_id
            ≡ some (derive_key_id c m.header.sender_public_key))
  unfolding received is_changed set_root_key set_recv_count set_status set_last_activity
      set_their_public_key
  received-key m root now t i =
      elim (Bool-cases (is_changed t.their_public_key m.header.sender_public_key)) [
        | inl new ↦ rw (new) (refl, refl)
        | inr old ↦
            let same = unchanged t.their_public_key m.header.sender_public_key old in
            rw (old) (same, i.their_id ∙ ap (Option.map (derive_key_id c)) same)
      ]

  -- What an authenticated message leaves alone, and what it sets whatever the sender's key.
  pub record Advances (root : List ℕ) (number : ℕ) (t t' : KemRatchet c.Keypair) : Type 0 where
    pub same_keypair : t'.our_keypair ≡ t.our_keypair
    pub same_id : t'.our_key_id ≡ t.our_key_id
    pub same_previous : t'.previous_keypairs ≡ t.previous_keypairs
    pub same_sends : t'.send_count ≡ t.send_count
    pub new_root : t'.root_key ≡ root
    pub new_count : t'.recv_count ≡ (number + 1) % 2 ^ 64
    pub is_active : t'.status ≡ RatchetStatus.active

  pub received-Advances :
      (changed : Bool) (m : RatchetMessage) (root : List ℕ) (now : ℕ) (t : KemRatchet c.Keypair)
      → Advances root m.header.message_number t (received c changed m root now t)
  unfolding received set_root_key set_recv_count set_status set_last_activity set_their_public_key
  received-Advances true m root now t = record {
    same_keypair = refl;
    same_id = refl;
    same_previous = refl;
    same_sends = refl;
    new_root = refl;
    new_count = refl;
    is_active = refl;
  }
  received-Advances false m root now t = record {
    same_keypair = refl;
    same_id = refl;
    same_previous = refl;
    same_sends = refl;
    new_root = refl;
    new_count = refl;
    is_active = refl;
  }

  pub received-IsCoherent :
      (m : RatchetMessage) (root : List ℕ) (now : ℕ) (t : KemRatchet c.Keypair)
      → IsCoherent c t
      → IsCoherent c
          (received c (is_changed t.their_public_key m.header.sender_public_key) m root now t)
  received-IsCoherent m root now t i =
      let key = received-key m root now t i in
      let a =
        received-Advances (is_changed t.their_public_key m.header.sender_public_key) m root now t in
      record {
        our_id =
            a.same_id ∙ i.our_id ∙ ap (λ k. derive_key_id c (c.public_key k)) (sym a.same_keypair);
        their_id = key.1 ∙ ap (Option.map (derive_key_id c)) (sym key.0);
        few = subst (λ (l : List (ℕ × c.Keypair)). length l ≤ 5) (sym a.same_previous) i.few;
        below = omega (arith, a.same_sends, i.below);
        established = λ e. cc (a.is_active, e);
        trusted = λ e. cc (a.is_active, e);
      }
