-- ===== src/Wire/Decoder.antt =====
-- crates/trelis-wire/src/decode.rs: a cursor that reads from a buffer. A method returns the decoder
-- as the call leaves it, with the value or the error.
use trelis.Common.{
  ℕ, ◌+◌, ◌-◌, List, Bool, ltb, leb, ◌==◌, if◌then◌else◌, length, drop, slice, get_or,
}
use trelis.Common.Bytes.{from_le_bytes}
use trelis.Common.Outcome.{Outcome, ok, err, map_err, and_then}
use trelis.Error.{CryptoError}
use trelis.Wire.Header
use trelis.Wire.Header.{Header}

pub data DecoderError : Type 0 where
  unexpected_eof : DecoderError
  invalid_header : DecoderError
  unsupported_protocol_version : ℕ → DecoderError
  unsupported_cipher_suite : ℕ → DecoderError

pub record Decoder : Type 0 where
  pub buf : List ℕ
  pub pos : ℕ

abbrev pub Read : Type 0 → Type 0
Read A = Decoder × Outcome DecoderError A

unfoldable pub new : List ℕ → Decoder
new buf = record { buf = buf; pos = 0 }

unfoldable pub remaining : Decoder → ℕ
remaining d = length d.buf - d.pos

unfoldable pub has_remaining : Decoder → ℕ → Bool
unfolding remaining
has_remaining d n = leb n (remaining d)

unfoldable pub is_empty : Decoder → Bool
unfolding remaining
is_empty d = remaining d == 0

unfoldable pub read_u8 : Decoder → Read ℕ
read_u8 d =
    if leb (length d.buf) d.pos
    then (d, err unexpected_eof)
    else (record d { pos = d.pos + 1 }, ok (get_or d.buf d.pos 0))

-- The common shape of the reads of `n` bytes: refuse without a change, or take the slice.
abbrev pub take_slice : {A : Type 0} → Decoder → ℕ → (List ℕ → A) → Read A
take_slice d n f =
    if ltb (length d.buf - d.pos) n
    then (d, err unexpected_eof)
    else (record d { pos = d.pos + n }, ok (f (slice d.buf d.pos n)))

unfoldable pub read_u16 : Decoder → Read ℕ
read_u16 d = take_slice d 2 from_le_bytes

unfoldable pub read_u32 : Decoder → Read ℕ
read_u32 d = take_slice d 4 from_le_bytes

unfoldable pub read_u64 : Decoder → Read ℕ
read_u64 d = take_slice d 8 from_le_bytes

unfoldable pub read_bytes : Decoder → ℕ → Read (List ℕ)
read_bytes d len = take_slice d len (λ bytes. bytes)

unfoldable pub read_array : ℕ → Decoder → Read (List ℕ)
read_array n d = take_slice d n (λ bytes. bytes)

unfoldable pub header_error : CryptoError → DecoderError
header_error (CryptoError.unsupported_protocol_version received supported) =
    unsupported_protocol_version received
header_error (CryptoError.unsupported_cipher_suite received supported) =
    unsupported_cipher_suite received
header_error _ = invalid_header

unfoldable pub read_header : Decoder → Read Header
unfolding read_array header_error
read_header d =
    and_then (read_array 2 d) (λ bytes d'. (d', map_err header_error (Header.from_bytes bytes)))

unfoldable pub read_length_prefixed : Decoder → Read (List ℕ)
unfolding read_u32 read_bytes
read_length_prefixed d = and_then (read_u32 d) (λ len d'. read_bytes d' len)

unfoldable pub skip : Decoder → ℕ → Read (Unit {0})
skip d n = take_slice d n (λ _. tt)

unfoldable pub peek_remaining : Decoder → List ℕ
peek_remaining d = drop d.pos d.buf
