-- ===== src/Ratchet/Session.antt =====
-- Two sides of a session of crates/trelis-ratchet: what each state keeps true of itself, and when
-- the states of two sides belong together.
pub mod Sending
pub mod Coherence
pub mod Delivery
pub mod Conversation
pub mod Start
pub mod Progress
use trelis.Common.{ℕ, ◌+◌, ◌-◌, ◌^◌, ◌≤◌, ◌<◌, ◌≡◌, sym, ◌≢◌, ◌⊎◌, List, Option, none, some, length}
use mathlib.Core.Option
use trelis.Ratchet.Crypto.{Crypto}
use trelis.Hybrid.Keys.{HybridKemPublicKey}
use trelis.Ratchet.State.{
  KemRatchet, RatchetStatus, derive_key_id, max_previous_keypairs, session_exhaustion_threshold,
}

module _ (c : Crypto) where
  -- Key ids are those of the keys, few old keypairs are kept, the send counter has not passed the
  -- threshold, and the session is established and not compromised.
  pub record IsCoherent (s : KemRatchet c.Keypair) : Type 0 where
    pub our_id : s.our_key_id ≡ derive_key_id c (c.public_key s.our_keypair)
    pub their_id : s.their_key_id ≡ Option.map (derive_key_id c) s.their_public_key
    pub few : length s.previous_keypairs ≤ max_previous_keypairs
    pub below : s.send_count ≤ session_exhaustion_threshold
    pub established : s.status ≢ RatchetStatus.uninitialised
    pub trusted : s.status ≢ RatchetStatus.compromised

  -- What `s` holds for its peer's key is the key of `t`, or nothing yet.
  abbrev pub Knows : KemRatchet c.Keypair → KemRatchet c.Keypair → Type 0
  Knows s t = (s.their_public_key ≡ none) ⊎ (s.their_public_key ≡ some (c.public_key t.our_keypair))

  -- The states of two sides between messages: one root key, matching counters, and each side's key
  -- for the other up to date if it has one.
  pub record InSync (s t : KemRatchet c.Keypair) : Type 0 where
    pub same_root : s.root_key ≡ t.root_key
    pub there : s.send_count ≡ t.recv_count
    pub back : t.send_count ≡ s.recv_count
    pub knows : Knows s t
    pub known : Knows t s
    pub coherent : IsCoherent s
    pub coherent' : IsCoherent t

  pub swap : {s t : KemRatchet c.Keypair} → InSync s t → InSync t s
  swap i = record {
    same_root = sym i.same_root;
    there = i.back;
    back = i.there;
    knows = i.known;
    known = i.knows;
    coherent = i.coherent';
    coherent' = i.coherent;
  }
