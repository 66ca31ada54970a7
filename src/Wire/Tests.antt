-- ===== src/Wire/Tests.antt =====
-- Runs of crates/trelis-wire/src, most of them its own unit tests, and the theorems at inputs.
use trelis.Common.{ℕ, ◌≡◌, refl, arith, List, [], ◌∷◌, map, some, none}
use trelis.Common.Bytes.{to_le_bytes, from_le_bytes}
use trelis.Common.Outcome.{ok, err}
use trelis.Wire.Header
use trelis.Wire.Encoder
use trelis.Wire.Encoder.{Encoder, copy_from_slice, copy_if, then_write}
use trelis.Wire.Decoder
use trelis.Wire.Decoder.{Decoder, unexpected_eof}
use trelis.Wire.Fields.{
  Field, u32, prefixed, header, kind, encoding, encodings, write_field, write_all, read_all,
}
use trelis.Wire.RoundTrip.Frame.{
  Extends, write_field-Extends, write_field_refuses, write_length_prefixed_partial,
}
use trelis.Wire.RoundTrip.Whole.{read_all-write_all}

abbrev zeros : ℕ → List ℕ
zeros n = to_le_bytes n 0

abbrev message : List Field
message = header Header.current ∷ u32 0xdeadbeef ∷ prefixed (0xaa ∷ 0xbb ∷ 0xcc ∷ []) ∷ []

encode_u32_test : to_le_bytes 4 0x01020304 ≡ 0x04 ∷ 0x03 ∷ 0x02 ∷ 0x01 ∷ []
unfolding to_le_bytes
encode_u32_test = refl

encoder_length_prefixed_test :
    (Encoder.write_length_prefixed (Encoder.new (zeros 9)) (0xaa ∷ 0xbb ∷ 0xcc ∷ [])).0
    ≡ record { buf = 3 ∷ 0 ∷ 0 ∷ 0 ∷ 0xaa ∷ 0xbb ∷ 0xcc ∷ 0 ∷ 0 ∷ []; pos = 7 }
unfolding Encoder.write_length_prefixed Encoder.new copy_from_slice to_le_bytes
encoder_length_prefixed_test = refl

decoder_invalid_suite_test :
    Decoder.read_header (Decoder.new (0x01 ∷ 0x99 ∷ []))
    ≡ (record { buf = 0x01 ∷ 0x99 ∷ []; pos = 2 }, err (Decoder.unsupported_cipher_suite 0x99))
unfolding Decoder.read_header Decoder.new Header.from_bytes
decoder_invalid_suite_test = refl

decoder_length_prefixed_underflow_test :
    (Decoder.read_length_prefixed (Decoder.new (0x64 ∷ 0 ∷ 0 ∷ 0 ∷ 0xaa ∷ []))).1
    ≡ err unexpected_eof
unfolding Decoder.read_length_prefixed Decoder.new from_le_bytes
decoder_length_prefixed_underflow_test = refl

read_all-write_all_example :
    (e : Encoder) × (write_all message (Encoder.new (zeros 16)) ≡ (e, some tt))
    × (read_all (map kind message) (Decoder.new e.buf)
        ≡ (record { buf = e.buf; pos = e.pos }, ok message))
unfolding encodings encoding to_le_bytes Header.to_bytes
read_all-write_all_example = read_all-write_all message (zeros 16) (omega arith) (omega arith)

write_field-Extends_example :
    Extends (Encoder.new (zeros 3)) (write_field (Encoder.new (zeros 3)) (u32 7)).0
unfolding Encoder.new to_le_bytes
write_field-Extends_example = write_field-Extends (Encoder.new (zeros 3)) (u32 7) (omega arith)

write_field_refuses_example : (write_field (Encoder.new (zeros 3)) (u32 7)).1 ≡ none
unfolding Encoder.new to_le_bytes encoding
write_field_refuses_example =
    write_field_refuses (Encoder.new (zeros 3)) (u32 7) (omega arith) (omega arith)

write_length_prefixed_partial_example :
    Encoder.write_length_prefixed (Encoder.new (zeros 5)) (9 ∷ 9 ∷ [])
    ≡ (copy_from_slice (Encoder.new (zeros 5)) (to_le_bytes 4 2), none)
unfolding Encoder.new to_le_bytes
write_length_prefixed_partial_example =
    write_length_prefixed_partial (Encoder.new (zeros 5)) (9 ∷ 9 ∷ []) (omega arith) (omega arith)
      (omega arith)
