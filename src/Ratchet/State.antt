-- ===== src/Ratchet/State.antt =====
-- crates/trelis-ratchet/src/state.rs: the state of one side of a session and its operations. The
-- Rust methods on `&mut self` return the new state here. Writing zeros over secrets is left out:
-- it is no part of the state that the operations read.
use trelis.Common.{
  ℕ, ◌+◌, ◌-◌, ◌%◌, ◌^◌, List, [], ◌∷◌, ◌++◌, Option, none, some, Bool, true, false, ltb, leb, ◌==◌,
  length, take, drop, if◌then◌else◌,
}
use trelis.Common.Bytes.{from_le_bytes}
use trelis.Common.Outcome.{ok, err, ◌>>=◌, ◌>>◌}
use trelis.Error.{Result, CryptoError}
use trelis.Hybrid.Keys.{HybridKemPublicKey}
use trelis.Ratchet.Crypto.{Crypto}
use trelis.Ratchet.Kdf.{derive_initial_root_key}

abbrev pub max_previous_keypairs : ℕ
max_previous_keypairs = 5

-- `u64::MAX - 1_000_000`.
abbrev pub session_exhaustion_threshold : ℕ
session_exhaustion_threshold = 2 ^ 64 - 1 - 1000000

pub data RatchetStatus : Type 0 where
  uninitialised active awaiting_reply stale compromised : RatchetStatus

pub record KemRatchet (Keypair : Type 0) : Type 0 where
  pub our_keypair : Keypair
  pub our_key_id : ℕ
  -- The oldest first.
  pub previous_keypairs : List (ℕ × Keypair)
  pub their_public_key : Option HybridKemPublicKey
  pub their_key_id : Option ℕ
  pub root_key : List ℕ
  pub send_count : ℕ
  pub recv_count : ℕ
  pub status : RatchetStatus
  pub last_activity : ℕ

unfoldable pub is_none {ℓ} : {A : Type ℓ} → Option A → Bool
is_none none = true
is_none (some a) = false

module _ (c : Crypto) where
  -- The hasher is fed the two parts of the key one after the other.
  unfoldable pub derive_key_id : HybridKemPublicKey → ℕ
  derive_key_id pk = from_le_bytes (take 8 (c.hash (pk.x448 ++ pk.sntrup)))

  unfoldable pub fresh :
      List ℕ → c.Keypair → Option HybridKemPublicKey → Option ℕ → ℕ → KemRatchet c.Keypair
  unfolding derive_key_id
  fresh session_key our_keypair their_public_key their_key_id current_time = record {
    our_keypair = our_keypair;
    our_key_id = derive_key_id (c.public_key our_keypair);
    previous_keypairs = [];
    their_public_key = their_public_key;
    their_key_id = their_key_id;
    root_key = derive_initial_root_key c session_key;
    send_count = 0;
    recv_count = 0;
    status = RatchetStatus.active;
    last_activity = current_time;
  }

  unfoldable pub init_initiator :
      List ℕ → HybridKemPublicKey → ℕ → c.Rng → c.Rng × Result (KemRatchet c.Keypair)
  unfolding fresh derive_key_id
  init_initiator session_key their_public_key current_time rng =
      let drawn = c.generate rng in
      (
        drawn.0,
        drawn.1 >>= λ our_keypair. ok (
            fresh session_key our_keypair (some their_public_key)
              (some (derive_key_id their_public_key)) current_time),
      )

  unfoldable pub init_responder : List ℕ → c.Keypair → ℕ → KemRatchet c.Keypair
  unfolding fresh
  init_responder session_key our_keypair current_time =
      fresh session_key our_keypair none none current_time

  -- Evicts the oldest keypair when the list is full.
  unfoldable pub rotate_keypair : c.Keypair → KemRatchet c.Keypair → KemRatchet c.Keypair
  unfolding derive_key_id
  rotate_keypair new_keypair s =
      let kept =
        if leb max_previous_keypairs (length s.previous_keypairs)
        then drop 1 s.previous_keypairs
        else s.previous_keypairs in
      record s {
        our_keypair = new_keypair;
        our_key_id = derive_key_id (c.public_key new_keypair);
        previous_keypairs = kept ++ ((s.our_key_id, s.our_keypair) ∷ []);
      }

  unfoldable pub set_their_public_key :
      HybridKemPublicKey → KemRatchet c.Keypair → KemRatchet c.Keypair
  unfolding derive_key_id
  set_their_public_key pk s = record s {
    their_key_id = some (derive_key_id pk);
    their_public_key = some pk;
  }

module _ {K : Type 0} where
  unfoldable pub check_exhaustion : KemRatchet K → Result (Unit {0})
  check_exhaustion s =
      if leb session_exhaustion_threshold s.send_count
      then err (CryptoError.session_exhausted s.send_count session_exhaustion_threshold)
      else ok tt

  unfoldable pub validate_can_send : KemRatchet K → Result (Unit {0})
  unfolding check_exhaustion is_none
  validate_can_send s = elim s.status [
    | RatchetStatus.uninitialised ↦ err CryptoError.no_active_session
    | RatchetStatus.compromised ↦ err CryptoError.session_compromised
    | _ ↦
        check_exhaustion s
        >> (if is_none s.their_public_key
            then err CryptoError.no_recipient_key
            else if is_none s.their_key_id
            then err CryptoError.no_recipient_key
            else ok tt)
  ]

  unfoldable pub validate_can_receive : KemRatchet K → Result (Unit {0})
  validate_can_receive s = elim s.status [
    | RatchetStatus.uninitialised ↦ err CryptoError.no_active_session
    | RatchetStatus.compromised ↦ err CryptoError.session_compromised
    | _ ↦ ok tt
  ]

  unfoldable pub find_previous : ℕ → List (ℕ × K) → Option K
  find_previous key_id [] = none
  find_previous key_id ((id, k) ∷ ks) = if id == key_id then some k else find_previous key_id ks

  unfoldable pub find_keypair : ℕ → KemRatchet K → Option K
  unfolding find_previous
  find_keypair key_id s =
      if key_id == s.our_key_id
      then some s.our_keypair
      else find_previous key_id s.previous_keypairs

  unfoldable pub set_root_key : List ℕ → KemRatchet K → KemRatchet K
  set_root_key new_root_key s = record s { root_key = new_root_key }

  -- The `u64` additions of the two counters wrap in a release build.
  unfoldable pub increment_send_count : KemRatchet K → KemRatchet K
  increment_send_count s = record s { send_count = (s.send_count + 1) % 2 ^ 64 }

  unfoldable pub set_recv_count : ℕ → KemRatchet K → KemRatchet K
  set_recv_count message_number s = record s { recv_count = (message_number + 1) % 2 ^ 64 }

  unfoldable pub set_send_count : ℕ → KemRatchet K → KemRatchet K × Result (Unit {0})
  set_send_count count s =
      if ltb count s.send_count
      then (s, err CryptoError.message_counter_too_old)
      else if leb session_exhaustion_threshold count
      then (s, err (CryptoError.session_exhausted count session_exhaustion_threshold))
      else (record s { send_count = count }, ok tt)

  unfoldable pub reset_recv_count : KemRatchet K → KemRatchet K
  reset_recv_count s = record s { recv_count = 0 }

  unfoldable pub set_status : RatchetStatus → KemRatchet K → KemRatchet K
  set_status status s = record s { status = status }

  unfoldable pub set_last_activity : ℕ → KemRatchet K → KemRatchet K
  set_last_activity timestamp s = record s { last_activity = timestamp }

  unfoldable pub mark_compromised : KemRatchet K → KemRatchet K
  mark_compromised s = record s { status = RatchetStatus.compromised }
