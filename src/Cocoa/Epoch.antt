-- ===== src/Cocoa/Epoch.antt =====
-- crates/trelis-cocoa/src/epoch.rs: the secrets and the message counter of one epoch of a group.
use trelis.Common.{ℕ, ◌+◌, ◌^◌, List, Bool, Option, none, some, ltb, if◌then◌else◌}
use trelis.Common.Outcome.{Outcome, ok, err, and_then}
use trelis.Error.{Result, CryptoError}
use trelis.Hybrid.Keys.{bytes_eq}
use trelis.Primitives.Interface.{Primitives}
use trelis.Ratchet.Effects.{Fault, panicked, expect}
use trelis.Cocoa.KeySchedule.{
  derive_app_secret, derive_conf_key, derive_init_secret, derive_message_key, derive_message_nonce,
  h5_epoch_secret,
}

pub record EpochSecrets : Type 0 where
  pub epoch_secret : List ℕ
  pub app_secret : List ℕ
  pub conf_key : List ℕ
  pub init_secret : List ℕ

pub record MessageKey : Type 0 where
  pub key : List ℕ
  pub nonce : List ℕ
  pub sender_leaf_position : ℕ
  pub counter : ℕ

pub record Epoch : Type 0 where
  pub number : ℕ
  pub secrets : EpochSecrets
  pub message_counter : ℕ
  pub transcript_hash : List ℕ

-- `n.checked_add(1)` on a `u64`.
unfoldable pub checked_suc : ℕ → Option ℕ
checked_suc n = if ltb (n + 1) (2 ^ 64) then some (n + 1) else none

module _ (p : Primitives) where
  unfoldable pub derive_secrets : List ℕ → EpochSecrets
  derive_secrets epoch_secret = record {
    epoch_secret = epoch_secret;
    app_secret = derive_app_secret p epoch_secret;
    conf_key = derive_conf_key p epoch_secret;
    init_secret = derive_init_secret p epoch_secret;
  }

  -- `EpochSecrets::derive_message_key`.
  unfoldable pub secrets_message_key : EpochSecrets → ℕ → ℕ → MessageKey
  secrets_message_key s sender_leaf_position counter = record {
    key = derive_message_key p s.app_secret sender_leaf_position counter;
    nonce = derive_message_nonce p s.app_secret sender_leaf_position counter;
    sender_leaf_position = sender_leaf_position;
    counter = counter;
  }

  unfoldable pub initial : List ℕ → List ℕ → Epoch
  unfolding derive_secrets
  initial epoch_secret transcript_hash = record {
    number = 0;
    secrets = derive_secrets epoch_secret;
    message_counter = 0;
    transcript_hash = transcript_hash;
  }

  -- Panics when the epoch number overflows.
  unfoldable pub advance : List ℕ → List ℕ → List ℕ → ℕ → Outcome Fault Epoch
  unfolding derive_secrets checked_suc
  advance prev_init_secret delta_root transcript_hash prev_epoch_number =
      let epoch_secret = h5_epoch_secret p prev_init_secret delta_root transcript_hash in
      elim (checked_suc prev_epoch_number) [
        | none ↦ err panicked
        | some number ↦ ok (record {
          number = number;
          secrets = derive_secrets epoch_secret;
          message_counter = 0;
          transcript_hash = transcript_hash;
        })
      ]

  unfoldable pub restore : List ℕ → List ℕ → ℕ → Epoch
  unfolding derive_secrets
  restore epoch_secret transcript_hash number = record {
    number = number;
    secrets = derive_secrets epoch_secret;
    message_counter = 0;
    transcript_hash = transcript_hash;
  }

  -- The key is derived first; the counter is not changed when it overflows and the call panics.
  unfoldable pub next_message_key : ℕ → Epoch → Epoch × Outcome Fault MessageKey
  unfolding secrets_message_key checked_suc
  next_message_key our_leaf_position e =
      let key = secrets_message_key e.secrets our_leaf_position e.message_counter in
      and_then (expect (checked_suc e.message_counter) e)
        (λ counter e. (record e { message_counter = counter }, ok key))

  unfoldable pub message_key_for_counter : Epoch → ℕ → ℕ → MessageKey
  unfolding secrets_message_key
  message_key_for_counter e sender_leaf_position counter =
      secrets_message_key e.secrets sender_leaf_position counter

  unfoldable pub compute_confirmation_tag : Epoch → List ℕ → List ℕ
  compute_confirmation_tag e commit_content = p.keyed_hash e.secrets.conf_key commit_content

  unfoldable pub verify_confirmation_tag : Epoch → List ℕ → List ℕ → Bool
  unfolding compute_confirmation_tag bytes_eq
  verify_confirmation_tag e commit_content tag =
      bytes_eq (compute_confirmation_tag e commit_content) tag

unfoldable pub set_message_counter : ℕ → Epoch → Epoch × Result (Unit {0})
set_message_counter counter e =
    if ltb counter e.message_counter
    then (e, err CryptoError.message_counter_too_old)
    else (record e { message_counter = counter }, ok tt)
