-- ===== src/Wire/RoundTrip/Writes.antt =====
-- Every write that fits is one copy of the field's encoding; a copy keeps all but its target.
use mathlib.Core.List.{append_assoc}
use trelis.Common.{
  ℕ, ◌+◌, ◌≤◌, ◌<◌, ◌^◌, ◌≡◌, refl, sym, ap, ◌∙◌, arith, List, [], ◌∷◌, ◌++◌, some, lt→ltb, length,
  take, drop, length-append, length-take, length-drop, take-append-drop, take-append_length,
  drop-append_length, drop-drop, All,
}
use trelis.Common.Bytes.{length-to_le_bytes, to_le_bytes}
use trelis.Wire.Encoder.{
  Encoder, copy_from_slice, write_u8, write_u16, write_u32, write_u64, write_bytes, write_header,
  write_length_prefixed,
}
use trelis.Wire.Fields.{
  Field, u8, u16, u32, u64, raw, prefixed, header, IsInRange, encoding, encodings, write_field,
  write_all,
}

-- The cursor stands inside the buffer.
abbrev pub IsValid : Encoder → Type 0
IsValid e = e.pos ≤ length e.buf

-- There is room for `n` more bytes.
abbrev pub Fits : Encoder → ℕ → Type 0
Fits e n = e.pos + n ≤ length e.buf

module _ (e : Encoder) (bytes : List ℕ) (fits : Fits e (length bytes)) where
  written : List ℕ
  written = take e.pos e.buf ++ bytes

  length-written : length written ≡ e.pos + length bytes
  unfolding written
  length-written = omega (arith, length-append (take e.pos e.buf) bytes, length-take e.pos e.buf)

  buf-copy : (copy_from_slice e bytes).buf ≡ written ++ drop (e.pos + length bytes) e.buf
  unfolding copy_from_slice written
  buf-copy = sym (append_assoc (take e.pos e.buf) bytes _)

  -- What stands before the new cursor is what stood before the old one, and the bytes.
  pub take-copy :
      take (e.pos + length bytes) (copy_from_slice e bytes).buf ≡ take e.pos e.buf ++ bytes
  unfolding written
  take-copy = rw buf-copy (take-append_length written _ _ length-written)

  -- What stands behind the new cursor is untouched.
  pub drop-copy :
      drop (e.pos + length bytes) (copy_from_slice e bytes).buf ≡ drop (e.pos + length bytes) e.buf
  drop-copy = rw buf-copy (drop-append_length written _ _ length-written)

  pub length-copy : length (copy_from_slice e bytes).buf ≡ length e.buf
  length-copy = rw buf-copy (
      omega (
        arith,
        length-append written (drop (e.pos + length bytes) e.buf),
        length-written,
        length-drop (e.pos + length bytes) e.buf,
      ))

encoder_eq : (a b : Encoder) → a.buf ≡ b.buf → a.pos ≡ b.pos → a ≡ b
encoder_eq a b p q = λ i. record { buf = p i; pos = q i }

copy-nil : (e : Encoder) → copy_from_slice e [] ≡ e
unfolding copy_from_slice
copy-nil e =
    encoder_eq _ e
      (ap (λ (n : ℕ). take e.pos e.buf ++ drop n e.buf) {x = e.pos + 0} {y = e.pos} (omega arith)
        ∙ take-append-drop e.pos e.buf)
      (omega arith)

pub pos-copy : (e : Encoder) (bytes : List ℕ) → (copy_from_slice e bytes).pos ≡ e.pos + length bytes
unfolding copy_from_slice
pos-copy e bytes = refl

-- A copy onto an encoder `c` that agrees with `e` but for the bytes `xs` before its cursor.
copy_onto :
    (e c : Encoder) (xs ys : List ℕ)
    → c.pos ≡ e.pos + length xs
    → take c.pos c.buf ≡ take e.pos e.buf ++ xs
    → drop c.pos c.buf ≡ drop c.pos e.buf
    → copy_from_slice c ys ≡ copy_from_slice e (xs ++ ys)
unfolding copy_from_slice
copy_onto e c xs ys at front back =
    encoder_eq _ _
      (ap (λ t. t ++ (ys ++ drop (c.pos + length ys) c.buf)) front
        ∙ append_assoc (take e.pos e.buf) xs (ys ++ drop (c.pos + length ys) c.buf)
        ∙ ap (λ t. take e.pos e.buf ++ (xs ++ (ys ++ t))) behind
        ∙ ap (λ t. take e.pos e.buf ++ t) (sym (append_assoc xs ys _)))
      (omega (arith, length-append xs ys))
  where
    behind : drop (c.pos + length ys) c.buf ≡ drop (e.pos + length (xs ++ ys)) e.buf
    behind =
        sym (drop-drop c.pos (length ys) c.buf)
        ∙ ap (drop (length ys)) back
        ∙ drop-drop c.pos (length ys) e.buf
        ∙ ap (λ (n : ℕ). drop n e.buf) (omega (arith, length-append xs ys))

-- Two copies in a row are one.
copy-copy :
    (e : Encoder) (xs ys : List ℕ)
    → Fits e (length xs)
    → copy_from_slice (copy_from_slice e xs) ys ≡ copy_from_slice e (xs ++ ys)
copy-copy e xs ys fits =
    copy_onto e (copy_from_slice e xs) xs ys (pos-copy e xs)
      (rw (pos-copy e xs) (take-copy e xs fits)) (rw (pos-copy e xs) (drop-copy e xs fits))

pub write_u32-copy :
    (e : Encoder) (v : ℕ)
    → Fits e 4
    → write_u32 e v ≡ (copy_from_slice e (to_le_bytes 4 v), some tt)
unfolding write_u32
write_u32-copy e v h = ground arith

write_bytes-copy :
    (e : Encoder) (bs : List ℕ)
    → Fits e (length bs)
    → write_bytes e bs ≡ (copy_from_slice e bs, some tt)
unfolding write_bytes
write_bytes-copy e bs h = ground arith

-- The payload is written behind the prefix, if both fit.
write_length_prefixed-copy :
    (e : Encoder) (bs : List ℕ)
    → length bs < 2 ^ 32
    → Fits e (4 + length bs)
    → write_length_prefixed e bs ≡ (copy_from_slice e (to_le_bytes 4 (length bs) ++ bs), some tt)
unfolding write_length_prefixed
write_length_prefixed-copy e bs small h =
    rw (lt→ltb _ _ small, write_u32-copy e (length bs) (omega arith))
      (write_bytes-copy e' bs room ∙ ap (λ c. (c, some tt)) (copy-copy e prefix bs prefix_fits))
  where
    prefix : List ℕ
    prefix = to_le_bytes 4 (length bs)

    e' : Encoder
    e' = copy_from_slice e prefix

    prefix_fits : Fits e (length prefix)
    prefix_fits = omega (arith, length-to_le_bytes 4 (length bs))

    room : Fits e' (length bs)
    room = omega (
      arith,
      pos-copy e prefix,
      length-copy e prefix prefix_fits,
      length-to_le_bytes 4 (length bs),
    )

-- Each single write copies the encoding if it fits.
write_field-copy :
    (e : Encoder) (f : Field)
    → IsInRange f
    → Fits e (length (encoding f))
    → write_field e f ≡ (copy_from_slice e (encoding f), some tt)
unfolding write_field encoding write_u8 write_u16 write_u32 write_u64 write_bytes write_header
write_field-copy e (u8 v) r h = ground arith
write_field-copy e (u16 v) r h = ground (arith, length-to_le_bytes 2 v)
write_field-copy e (u32 v) r h = ground (arith, length-to_le_bytes 4 v)
write_field-copy e (u64 v) r h = ground (arith, length-to_le_bytes 8 v)
write_field-copy e (raw bs) r h = ground arith
write_field-copy e (header v) r h = ground arith
write_field-copy e (prefixed bs) r h =
    write_length_prefixed-copy e bs r (
      omega (arith, length-append (to_le_bytes 4 (length bs)) bs, length-to_le_bytes 4 (length bs)))

-- A run of writes copies all the encodings, one behind the other, if they fit.
pub write_all-copy :
    (fs : List Field) (e : Encoder)
    → All IsInRange fs
    → Fits e (length (encodings fs))
    → write_all fs e ≡ (copy_from_slice e (encodings fs), some tt)
unfolding write_all encodings
write_all-copy [] e r h = ap (λ c. (c, some tt)) (sym (copy-nil e))
write_all-copy (f ∷ fs) e r h = rw (write_field-copy e f r.0 front) (
    write_all-copy fs e' r.1 room
    ∙ ap (λ c. (c, some tt)) (copy-copy e (encoding f) (encodings fs) front))
  where
    e' : Encoder
    e' = copy_from_slice e (encoding f)

    front : Fits e (length (encoding f))
    front = omega (arith, length-append (encoding f) (encodings fs))

    room : Fits e' (length (encodings fs))
    room = omega (
      arith,
      pos-copy e (encoding f),
      length-copy e (encoding f) front,
      length-append (encoding f) (encodings fs),
    )
