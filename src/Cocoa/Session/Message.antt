-- ===== src/Cocoa/Session/Message.antt =====
-- `EncryptedMessage` of crates/trelis-cocoa/src/session.rs as bytes.
use trelis.Common.{
  ℕ, ◌+◌, ◌%◌, ◌^◌, ◌<◌, ◌≡◌, ap, ◌∙◌, arith, List, ◌++◌, ltb, length, slice, take, if◌then◌else◌,
  length-append, take-append_length, drop-append_length, slice-append, take_all, false,
}
use trelis.Common.Bytes.{
  IsU32, IsU64, to_le_bytes, from_le_bytes, length-to_le_bytes, from_le_bytes-to_le_bytes,
}
use trelis.Common.Outcome.{ok, err}
use trelis.Error.{Result, CryptoError}
use trelis.Cocoa.Session.{EncryptedMessage}

abbrev pub header_size : ℕ
header_size = 24

-- The length of the ciphertext is cut to 32 bits, as `as u32` does.
unfoldable pub to_bytes : EncryptedMessage → List ℕ
to_bytes m =
    to_le_bytes 8 m.epoch
    ++ (to_le_bytes 4 m.sender_leaf_position
        ++ (to_le_bytes 8 m.counter
            ++ (to_le_bytes 4 (length m.ciphertext % 2 ^ 32) ++ m.ciphertext)))

-- `24 + ct_len` does not overflow a 64-bit `usize`.
unfoldable pub from_bytes : List ℕ → Result EncryptedMessage
from_bytes bytes =
    if ltb (length bytes) header_size
    then err CryptoError.malformed_message
    else let ct_len = from_le_bytes (slice bytes 20 4) in
      if ltb (length bytes) (header_size + ct_len)
      then err CryptoError.malformed_message
      else ok (record {
        epoch = from_le_bytes (slice bytes 0 8);
        sender_leaf_position = from_le_bytes (slice bytes 8 4);
        counter = from_le_bytes (slice bytes 12 8);
        ciphertext = slice bytes header_size ct_len;
      })

-- The fields have the widths of their types, and the ciphertext less than 2^32 bytes.
pub record IsMessage (m : EncryptedMessage) : Type 0 where
  pub epoch_width : IsU64 m.epoch
  pub sender_width : IsU32 m.sender_leaf_position
  pub counter_width : IsU64 m.counter
  pub ciphertext_width : length m.ciphertext < 2 ^ 32

-- The four numbers in front of the ciphertext and what their places hold.
module _ (e l c n : ℕ) (ct : List ℕ) where
  abbrev whole : List ℕ
  whole = to_le_bytes 8 e ++ (to_le_bytes 4 l ++ (to_le_bytes 8 c ++ (to_le_bytes 4 n ++ ct)))

  length-whole : length whole ≡ 24 + length ct
  length-whole = omega (
    arith,
    length-append (to_le_bytes 8 e)
        (to_le_bytes 4 l ++ (to_le_bytes 8 c ++ (to_le_bytes 4 n ++ ct))),
    length-append (to_le_bytes 4 l) (to_le_bytes 8 c ++ (to_le_bytes 4 n ++ ct)),
    length-append (to_le_bytes 8 c) (to_le_bytes 4 n ++ ct),
    length-append (to_le_bytes 4 n) ct,
    length-to_le_bytes 8 e,
    length-to_le_bytes 4 l,
    length-to_le_bytes 8 c,
    length-to_le_bytes 4 n,
  )

  -- From behind the epoch on, from behind the sender on, from behind the counter on.
  past_epoch :
      (from k : ℕ)
      → slice whole (8 + from) k
        ≡ slice (to_le_bytes 4 l ++ (to_le_bytes 8 c ++ (to_le_bytes 4 n ++ ct))) from k
  past_epoch from k = slice-append (to_le_bytes 8 e) _ from 8 k (length-to_le_bytes 8 e)

  past_sender :
      (from k : ℕ)
      → slice whole (8 + (4 + from)) k ≡ slice (to_le_bytes 8 c ++ (to_le_bytes 4 n ++ ct)) from k
  past_sender from k =
      past_epoch (4 + from) k ∙ slice-append (to_le_bytes 4 l) _ from 4 k (length-to_le_bytes 4 l)

  past_counter :
      (from k : ℕ) → slice whole (8 + (4 + (8 + from))) k ≡ slice (to_le_bytes 4 n ++ ct) from k
  past_counter from k =
      past_sender (8 + from) k ∙ slice-append (to_le_bytes 8 c) _ from 8 k (length-to_le_bytes 8 c)

  epoch_at : slice whole 0 8 ≡ to_le_bytes 8 e
  epoch_at = take-append_length (to_le_bytes 8 e) _ 8 (length-to_le_bytes 8 e)

  sender_at : slice whole 8 4 ≡ to_le_bytes 4 l
  sender_at = past_epoch 0 4 ∙ take-append_length (to_le_bytes 4 l) _ 4 (length-to_le_bytes 4 l)

  counter_at : slice whole 12 8 ≡ to_le_bytes 8 c
  counter_at = past_sender 0 8 ∙ take-append_length (to_le_bytes 8 c) _ 8 (length-to_le_bytes 8 c)

  length_at : slice whole 20 4 ≡ to_le_bytes 4 n
  length_at = past_counter 0 4 ∙ take-append_length (to_le_bytes 4 n) _ 4 (length-to_le_bytes 4 n)

  ciphertext_at : slice whole 24 (length ct) ≡ ct
  ciphertext_at =
      past_counter 4 (length ct)
      ∙ ap (take (length ct)) (drop-append_length (to_le_bytes 4 n) ct 4 (length-to_le_bytes 4 n))
      ∙ take_all (length ct) ct (omega arith)

-- A message is read back from its bytes.
pub message_from_bytes-to_bytes_group :
    (m : EncryptedMessage) → IsMessage m → from_bytes (to_bytes m) ≡ ok m
unfolding from_bytes to_bytes
message_from_bytes-to_bytes_group m v =
    let n = length m.ciphertext % 2 ^ 32 in
    let size = length-whole m.epoch m.sender_leaf_position m.counter n m.ciphertext in
    rw (
      size,
      fits (length m.ciphertext),
      length_at m.epoch m.sender_leaf_position m.counter n m.ciphertext,
      from_le_bytes-to_le_bytes 4 n (omega arith),
      kept (length m.ciphertext) v.ciphertext_width,
      exact (length m.ciphertext),
      epoch_at m.epoch m.sender_leaf_position m.counter (length m.ciphertext) m.ciphertext,
      sender_at m.epoch m.sender_leaf_position m.counter (length m.ciphertext) m.ciphertext,
      counter_at m.epoch m.sender_leaf_position m.counter (length m.ciphertext) m.ciphertext,
      ciphertext_at m.epoch m.sender_leaf_position m.counter (length m.ciphertext) m.ciphertext,
      from_le_bytes-to_le_bytes 8 m.epoch (omega arith),
      from_le_bytes-to_le_bytes 4 m.sender_leaf_position (omega arith),
      from_le_bytes-to_le_bytes 8 m.counter (omega arith),
    )
  where
    fits : (n : ℕ) → ltb (24 + n) 24 ≡ false
    fits n = ground arith

    exact : (n : ℕ) → ltb (24 + n) (24 + n) ≡ false
    exact n = ground arith

    kept : (n : ℕ) → n < 2 ^ 32 → n % 2 ^ 32 ≡ n
    kept n h = omega arith
