-- ===== src/Cocoa/Watermark.antt =====
-- crates/trelis-cocoa/src/session_watermark.rs: the highest epoch and message counter that a session
-- identity has used, ordered by epoch first. `of_session` only reads two fields of a session.
pub mod Order
use trelis.Common.{
  ℕ, ◌+◌, List, [], ◌∷◌, ◌++◌, Bool, true, false, ltb, ◌==◌, if◌then◌else◌, length, slice,
}
use trelis.Common.Bytes.{to_le_bytes, from_le_bytes}
use trelis.Common.Outcome.{ok, err}
use trelis.Error.{Result, CryptoError}

pub record SessionWatermark : Type 0 where
  pub epoch_number : ℕ
  pub message_counter : ℕ

abbrev pub new : ℕ → ℕ → SessionWatermark
new epoch_number message_counter = record {
  epoch_number = epoch_number;
  message_counter = message_counter;
}

-- `<` on pairs and on the derived order: the first components decide unless they are equal.
unfoldable pub pair_lt : ℕ × ℕ → ℕ × ℕ → Bool
pair_lt a b = if a.0 == b.0 then ltb a.1 b.1 else ltb a.0 b.0

unfoldable pub check : SessionWatermark → ℕ → ℕ → Result (Unit {0})
unfolding pair_lt
check w epoch_number message_counter =
    if pair_lt (epoch_number, message_counter) (w.epoch_number, w.message_counter)
    then err CryptoError.message_counter_too_old
    else ok tt

-- `core::cmp::max` returns its second argument unless the first is greater.
unfoldable pub advanced : SessionWatermark → ℕ → ℕ → SessionWatermark
unfolding pair_lt
advanced w epoch_number message_counter =
    if pair_lt (epoch_number, message_counter) (w.epoch_number, w.message_counter)
    then w
    else new epoch_number message_counter

unfoldable pub to_bytes : SessionWatermark → List ℕ
to_bytes w = to_le_bytes 8 w.epoch_number ++ to_le_bytes 8 w.message_counter

unfoldable pub from_bytes : List ℕ → Result SessionWatermark
from_bytes bytes =
    if ltb (length bytes) 16
    then err CryptoError.malformed_message
    else ok (new (from_le_bytes (slice bytes 0 8)) (from_le_bytes (slice bytes 8 8)))
