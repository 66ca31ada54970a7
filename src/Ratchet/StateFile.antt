-- ===== src/Ratchet/StateFile.antt =====
-- crates/trelis-ratchet/src/serialise.rs: the header of a stored state, and numbers in big-endian
-- order.
pub mod RoundTrip
use trelis.Common.{
  ℕ, List, [], ◌∷◌, ◌++◌, Bool, true, false, ltb, ◌==◌, not, length, slice, take, if◌then◌else◌,
}
use trelis.Common.Bytes.{to_be_bytes, from_be_bytes}
use trelis.Common.Outcome.{ok, err}
use trelis.Error.{Result, CryptoError}
use trelis.Hybrid.Keys.{bytes_eq}
use Prim.Native.Nat.{bit_and}

-- "TRLS"
abbrev pub magic_bytes : List ℕ
magic_bytes = 84 ∷ 82 ∷ 76 ∷ 83 ∷ []

abbrev pub state_version : ℕ
state_version = 1

abbrev pub flag_has_peer : ℕ
flag_has_peer = 1

abbrev pub flag_has_skipped : ℕ
flag_has_skipped = 2

pub record StateHeader : Type 0 where
  pub magic : List ℕ
  pub version : ℕ
  pub flags : ℕ

abbrev pub new : ℕ → StateHeader
new flags = record { magic = magic_bytes; version = state_version; flags = flags }

unfoldable pub to_bytes : StateHeader → List ℕ
to_bytes h = h.magic ++ (to_be_bytes 2 h.version ++ to_be_bytes 2 h.flags)

unfoldable pub from_bytes : List ℕ → Result StateHeader
from_bytes bytes =
    if ltb (length bytes) 8
    then err CryptoError.malformed_message
    else if not (bytes_eq (slice bytes 0 4) magic_bytes)
    then err CryptoError.invalid_magic
    else if not (from_be_bytes (slice bytes 4 2) == state_version)
    then err CryptoError.unsupported_state_version
    else ok (record {
      magic = slice bytes 0 4;
      version = from_be_bytes (slice bytes 4 2);
      flags = from_be_bytes (slice bytes 6 2);
    })

unfoldable pub has_peer : StateHeader → Bool
has_peer h = not (bit_and h.flags flag_has_peer == 0)

unfoldable pub has_skipped : StateHeader → Bool
has_skipped h = not (bit_and h.flags flag_has_skipped == 0)

unfoldable pub encode_u64 : ℕ → List ℕ
encode_u64 value = to_be_bytes 8 value

unfoldable pub decode_u64 : List ℕ → Result ℕ
decode_u64 bytes =
    if ltb (length bytes) 8
    then err CryptoError.malformed_message
    else ok (from_be_bytes (take 8 bytes))

unfoldable pub encode_u32 : ℕ → List ℕ
encode_u32 value = to_be_bytes 4 value

unfoldable pub decode_u32 : List ℕ → Result ℕ
decode_u32 bytes =
    if ltb (length bytes) 4
    then err CryptoError.malformed_message
    else ok (from_be_bytes (take 4 bytes))
