-- ===== src/Wire/Encoder.antt =====
-- crates/trelis-wire/src/encode.rs: a cursor that writes into a caller's buffer. A method returns
-- the encoder as the call leaves it, and `none` where the source returns `None`.
use trelis.Common.{
  ℕ, ◌+◌, ◌-◌, ◌^◌, List, [], ◌∷◌, ◌++◌, Option, none, some, Bool, ltb, leb, if◌then◌else◌, length,
  take, drop,
}
use trelis.Common.Bytes.{to_le_bytes}
use trelis.Wire.Header
use trelis.Wire.Header.{Header}

-- `buf` is the whole buffer, written part and rest.
pub record Encoder : Type 0 where
  pub buf : List ℕ
  pub pos : ℕ

abbrev pub Written : Type 0
Written = Encoder × Option (Unit {0})

unfoldable pub new : List ℕ → Encoder
new buf = record { buf = buf; pos = 0 }

unfoldable pub remaining : Encoder → ℕ
remaining e = length e.buf - e.pos

unfoldable pub has_remaining : Encoder → ℕ → Bool
unfolding remaining
has_remaining e n = leb n (remaining e)

-- `buf[pos..pos + n].copy_from_slice(bytes); pos += n`.
unfoldable pub copy_from_slice : Encoder → List ℕ → Encoder
copy_from_slice e bytes = record {
  buf = take e.pos e.buf ++ (bytes ++ drop (e.pos + length bytes) e.buf);
  pos = e.pos + length bytes;
}

-- The common shape of the fixed-width writes: refuse without a change, or copy.
abbrev pub copy_if : Encoder → Bool → List ℕ → Written
copy_if e full bytes = if full then (e, none) else (copy_from_slice e bytes, some tt)

unfoldable pub write_u8 : Encoder → ℕ → Written
write_u8 e value = copy_if e (leb (length e.buf) e.pos) (value ∷ [])

unfoldable pub write_u16 : Encoder → ℕ → Written
unfolding remaining
write_u16 e value = copy_if e (ltb (remaining e) 2) (to_le_bytes 2 value)

unfoldable pub write_u32 : Encoder → ℕ → Written
unfolding remaining
write_u32 e value = copy_if e (ltb (remaining e) 4) (to_le_bytes 4 value)

unfoldable pub write_u64 : Encoder → ℕ → Written
unfolding remaining
write_u64 e value = copy_if e (ltb (remaining e) 8) (to_le_bytes 8 value)

unfoldable pub write_bytes : Encoder → List ℕ → Written
unfolding remaining
write_bytes e bytes = copy_if e (ltb (remaining e) (length bytes)) bytes

unfoldable pub write_array : Encoder → List ℕ → Written
unfolding write_bytes
write_array = write_bytes

unfoldable pub write_header : Encoder → Header → Written
unfolding write_bytes
write_header e h = write_bytes e (Header.to_bytes h)

-- `m?` in a method that returns an option.
abbrev pub then_write : Written → (Encoder → Written) → Written
then_write (e, some _) f = f e
then_write (e, none) f = (e, none)

unfoldable pub write_length_prefixed : Encoder → List ℕ → Written
unfolding write_u32 write_bytes
write_length_prefixed e bytes =
    if ltb (length bytes) (2 ^ 32)
    then then_write (write_u32 e (length bytes)) (λ e'. write_bytes e' bytes)
    else (e, none)
