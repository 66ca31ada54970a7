-- ===== src/Wire/RoundTrip/Frame.antt =====
-- What any write leaves alone, and when it is refused.
use trelis.Common.{
  ℕ, ◌+◌, ◌≤◌, ◌<◌, ◌^◌, ◌≡◌, refl, sym, ap, ◌∙◌, arith, List, none, some, ltb, lt→ltb, ltb→lt,
  ltb-false, length, take, length-append, length-take, take-take, take-append_length, inl, inr,
  Bool, Bool-cases, true, false,
}
use trelis.Common.Bytes.{to_le_bytes, length-to_le_bytes}
use trelis.Wire.Header
use trelis.Wire.Encoder.{
  Encoder, Written, copy_from_slice, copy_if, then_write, write_u8, write_u16, write_u32, write_u64,
  write_bytes, write_header, write_length_prefixed,
}
use trelis.Wire.Fields.{Field, u8, u16, u32, u64, raw, prefixed, header, encoding, write_field}
use trelis.Wire.RoundTrip.Writes.{IsValid, Fits, take-copy, length-copy, pos-copy, write_u32-copy}

-- `e'` is an encoder that `e` can become: the same buffer length, a cursor inside it and no
-- further back, and nothing changed before the old cursor.
pub record Extends (e e' : Encoder) : Type 0 where
  pub same_size : length e'.buf ≡ length e.buf
  pub inside : IsValid e'
  pub forward : e.pos ≤ e'.pos
  pub kept : take e.pos e'.buf ≡ take e.pos e.buf

Extends-refl : (e : Encoder) → IsValid e → Extends e e
Extends-refl e v = record { same_size = refl; inside = v; forward = omega arith; kept = refl }

Extends-trans : {a b c : Encoder} → Extends a b → Extends b c → Extends a c
Extends-trans {a} {b} {c} f g = record {
  same_size = g.same_size ∙ f.same_size;
  inside = g.inside;
  forward = omega arith;
  kept =
      sym (take-take a.pos b.pos c.buf f.forward)
      ∙ ap (take a.pos) g.kept
      ∙ take-take a.pos b.pos b.buf f.forward
      ∙ f.kept;
}

copy-Extends : (e : Encoder) (bs : List ℕ) → Fits e (length bs) → Extends e (copy_from_slice e bs)
copy-Extends e bs h = record {
  same_size = length-copy e bs h;
  inside = omega (arith, pos-copy e bs, length-copy e bs h);
  forward = omega (arith, pos-copy e bs);
  kept =
      sym (take-take e.pos (e.pos + length bs) (copy_from_slice e bs).buf (omega arith))
      ∙ ap (take e.pos) (take-copy e bs h)
      ∙ take-append_length (take e.pos e.buf) bs e.pos (omega (arith, length-take e.pos e.buf));
}

-- The shape of every single write.
copy_if-Extends :
    (e : Encoder) (full : Bool) (bs : List ℕ)
    → IsValid e
    → (full ≡ false → Fits e (length bs))
    → Extends e (copy_if e full bs).0
copy_if-Extends e true bs v h = Extends-refl e v
copy_if-Extends e false bs v h = copy-Extends e bs (h refl)

then_write-Extends :
    (e : Encoder) (w : Written) (f : Encoder → Written)
    → Extends e w.0
    → ((e' : Encoder) → Extends e e' → Extends e (f e').0)
    → Extends e (then_write w f).0
then_write-Extends e (e', none) f h k = h
then_write-Extends e (e', some _) f h k = k e' h

write_u32-Extends : (e : Encoder) (v : ℕ) → IsValid e → Extends e (write_u32 e v).0
unfolding write_u32
write_u32-Extends e v ok =
    copy_if-Extends e _ _ ok (λ t. omega (arith, ltb-false _ _ t, length-to_le_bytes 4 v))

write_bytes-Extends : (e : Encoder) (bs : List ℕ) → IsValid e → Extends e (write_bytes e bs).0
unfolding write_bytes
write_bytes-Extends e bs ok = copy_if-Extends e _ bs ok (λ t. omega (arith, ltb-false _ _ t))

write_length_prefixed-Extends :
    (e : Encoder) (bs : List ℕ) → IsValid e → Extends e (write_length_prefixed e bs).0
unfolding write_length_prefixed
write_length_prefixed-Extends e bs ok = elim (Bool-cases (ltb (length bs) (2 ^ 32))) [
  | inr big ↦ rw big (Extends-refl e ok)
  | inl small ↦ rw small (
      then_write-Extends e _ _ (write_u32-Extends e (length bs) ok)
        (λ e' x. Extends-trans x (write_bytes-Extends e' bs x.inside)))
]

-- Whatever a write returns, the buffer keeps its length and what stood before the cursor, and the
-- cursor stays inside the buffer and does not move back.
pub write_field-Extends : (e : Encoder) (f : Field) → IsValid e → Extends e (write_field e f).0
unfolding write_field write_u8 write_u16 write_u64 write_header
write_field-Extends e (u8 v) ok = copy_if-Extends e _ _ ok (λ t. ground arith)
write_field-Extends e (u16 v) ok =
    copy_if-Extends e _ _ ok (λ t. omega (arith, ltb-false _ _ t, length-to_le_bytes 2 v))
write_field-Extends e (u32 v) ok = write_u32-Extends e v ok
write_field-Extends e (u64 v) ok =
    copy_if-Extends e _ _ ok (λ t. omega (arith, ltb-false _ _ t, length-to_le_bytes 8 v))
write_field-Extends e (raw bs) ok = write_bytes-Extends e bs ok
write_field-Extends e (prefixed bs) ok = write_length_prefixed-Extends e bs ok
write_field-Extends e (header h) ok = write_bytes-Extends e (Header.to_bytes h) ok

write_bytes_refuses :
    (e : Encoder) (bs : List ℕ)
    → IsValid e
    → length e.buf < e.pos + length bs
    → write_bytes e bs ≡ (e, none)
unfolding write_bytes
write_bytes_refuses e bs ok h = ground arith

write_u32_refuses :
    (e : Encoder) (v : ℕ) → IsValid e → length e.buf < e.pos + 4 → write_u32 e v ≡ (e, none)
unfolding write_u32
write_u32_refuses e v ok h = ground arith

-- Where the prefix fits but the payload does not, a length-prefixed write returns `none` and leaves
-- the prefix in the buffer with the cursor behind it.
pub write_length_prefixed_partial :
    (e : Encoder) (bs : List ℕ)
    → length bs < 2 ^ 32
    → Fits e 4
    → length e.buf < e.pos + 4 + length bs
    → write_length_prefixed e bs ≡ (copy_from_slice e (to_le_bytes 4 (length bs)), none)
unfolding write_length_prefixed
write_length_prefixed_partial e bs small room short =
    rw (lt→ltb _ _ small, write_u32-copy e (length bs) room)
      (write_bytes_refuses (copy_from_slice e prefix) bs
        (omega (arith, fits, pos-copy e prefix, length-copy e prefix fits))
        (omega
          (arith, pos-copy e prefix, length-copy e prefix fits, length-to_le_bytes 4 (length bs))))
  where
    prefix : List ℕ
    prefix = to_le_bytes 4 (length bs)

    fits : Fits e (length prefix)
    fits = omega (arith, length-to_le_bytes 4 (length bs))

-- A write whose encoding does not fit in the rest of the buffer returns `none`. The cursor stands
-- inside the buffer.
pub write_field_refuses :
    (e : Encoder) (f : Field)
    → IsValid e
    → length e.buf < e.pos + length (encoding f)
    → (write_field e f).1 ≡ none
unfolding write_field encoding write_u8 write_u16 write_u32 write_u64 write_bytes write_header
write_field_refuses e (u8 v) ok h = ground arith
write_field_refuses e (u16 v) ok h = ground (arith, length-to_le_bytes 2 v)
write_field_refuses e (u32 v) ok h = ground (arith, length-to_le_bytes 4 v)
write_field_refuses e (u64 v) ok h = ground (arith, length-to_le_bytes 8 v)
write_field_refuses e (raw bs) ok h = ground arith
write_field_refuses e (header v) ok h = ground arith
write_field_refuses e (prefixed bs) ok h = elim (Bool-cases (ltb (length bs) (2 ^ 32))) [
  | inr big ↦ unfold write_length_prefixed in rw big
  | inl small ↦ elim (Bool-cases (ltb (length e.buf) (e.pos + 4))) [
    | inl none_fits ↦
        unfold write_length_prefixed in ground (arith, write_u32_refuses e (length bs))
    | inr prefix_fits ↦
        ap (λ w. w.1)
          (write_length_prefixed_partial e bs (ltb→lt _ _ small) (ltb-false _ _ prefix_fits) (
            omega (
              arith,
              length-append (to_le_bytes 4 (length bs)) bs,
              length-to_le_bytes 4 (length bs),
            )))
  ]
]
