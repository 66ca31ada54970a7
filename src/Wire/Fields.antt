-- ===== src/Wire/Fields.antt =====
-- What the encoder and the decoder of crates/trelis-wire/src are to agree on: the bytes of a field,
-- and runs of writes and of reads, field by field.
use trelis.Common.{ℕ, List, [], ◌∷◌, ◌++◌, some, length}
use trelis.Common.Bytes.{IsU8, IsU16, IsU32, IsU64, to_le_bytes}
use trelis.Common.Outcome.{ok, and_then}
use trelis.Wire.Header.{Header}
use trelis.Wire.Header
use trelis.Wire.Encoder
use trelis.Wire.Encoder.{Encoder, Written, then_write}
use trelis.Wire.Decoder
use trelis.Wire.Decoder.{Decoder, Read}

pub data Field : Type 0 where
  u8 u16 u32 u64 : ℕ → Field
  raw prefixed : List ℕ → Field
  header : Header → Field

-- The type of a field, which the reader knows; a raw slice has a length that is agreed on.
pub data Kind : Type 0 where
  u8 u16 u32 u64 : Kind
  raw : ℕ → Kind
  prefixed header : Kind

abbrev pub kind : Field → Kind
kind (u8 v) = Kind.u8
kind (u16 v) = Kind.u16
kind (u32 v) = Kind.u32
kind (u64 v) = Kind.u64
kind (raw bs) = Kind.raw (length bs)
kind (prefixed bs) = Kind.prefixed
kind (header h) = Kind.header

-- The value is one of the field's Rust type.
abbrev pub IsInRange : Field → Type 0
IsInRange (u8 v) = IsU8 v
IsInRange (u16 v) = IsU16 v
IsInRange (u32 v) = IsU32 v
IsInRange (u64 v) = IsU64 v
IsInRange (raw bs) = Unit {0}
IsInRange (prefixed bs) = IsU32 (length bs)
IsInRange (header h) = Unit {0}

unfoldable pub encoding : Field → List ℕ
encoding (u8 v) = v ∷ []
encoding (u16 v) = to_le_bytes 2 v
encoding (u32 v) = to_le_bytes 4 v
encoding (u64 v) = to_le_bytes 8 v
encoding (raw bs) = bs
encoding (prefixed bs) = to_le_bytes 4 (length bs) ++ bs
encoding (header h) = Header.to_bytes h

unfoldable pub encodings : List Field → List ℕ
encodings [] = []
encodings (f ∷ fs) = encoding f ++ encodings fs

unfoldable pub write_field : Encoder → Field → Written
write_field e (u8 v) = Encoder.write_u8 e v
write_field e (u16 v) = Encoder.write_u16 e v
write_field e (u32 v) = Encoder.write_u32 e v
write_field e (u64 v) = Encoder.write_u64 e v
write_field e (raw bs) = Encoder.write_bytes e bs
write_field e (prefixed bs) = Encoder.write_length_prefixed e bs
write_field e (header h) = Encoder.write_header e h

unfoldable pub write_all : List Field → Encoder → Written
write_all [] e = (e, some tt)
write_all (f ∷ fs) e = then_write (write_field e f) (λ e'. write_all fs e')

unfoldable pub read_field : Kind → Decoder → Read Field
read_field Kind.u8 d = and_then (Decoder.read_u8 d) (λ v d'. (d', ok (u8 v)))
read_field Kind.u16 d = and_then (Decoder.read_u16 d) (λ v d'. (d', ok (u16 v)))
read_field Kind.u32 d = and_then (Decoder.read_u32 d) (λ v d'. (d', ok (u32 v)))
read_field Kind.u64 d = and_then (Decoder.read_u64 d) (λ v d'. (d', ok (u64 v)))
read_field (Kind.raw n) d = and_then (Decoder.read_bytes d n) (λ bs d'. (d', ok (raw bs)))
read_field Kind.prefixed d =
    and_then (Decoder.read_length_prefixed d) (λ bs d'. (d', ok (prefixed bs)))
read_field Kind.header d = and_then (Decoder.read_header d) (λ h d'. (d', ok (header h)))

unfoldable pub read_all : List Kind → Decoder → Read (List Field)
read_all [] d = (d, ok [])
read_all (k ∷ ks) d =
    and_then (read_field k d) (λ f d'. and_then (read_all ks d') (λ fs d''. (d'', ok (f ∷ fs))))
