-- ===== src/Wire/RoundTrip/Reads.antt =====
-- A read splits its bytes off the front of what is left.
use trelis.Common.{
  ℕ, ◌+◌, ◌-◌, ◌≤◌, ◌<◌, ◌^◌, ◌≡◌, refl, sym, ap, subst, ◌∙◌, arith, List, [], ◌∷◌, ◌++◌, map,
  length, take, drop, get_or, get_or-drop, length-append, length-drop, take-append_length,
  drop-append_length, drop-drop, All,
}
use mathlib.Core.List.{append_assoc}
use trelis.Common.Bytes.{to_le_bytes, from_le_bytes, length-to_le_bytes, from_le_bytes-to_le_bytes}
use trelis.Common.Outcome.{ok, and_then, map_err}
use trelis.Wire.Header
use trelis.Wire.Header.{Header, ProtocolVersion, CipherSuite, v1, trelis_hybrid_v1, current}
use trelis.Wire.Decoder.{
  Decoder, take_slice, read_u8, read_u16, read_u32, read_u64, read_bytes, read_header,
  read_length_prefixed, header_error,
}
use trelis.Wire.Fields.{
  Field, kind, u8, u16, u32, u64, raw, prefixed, header, IsInRange, encoding, encodings, read_field,
  read_all,
}

-- `bytes` is what stands in front of the cursor, and `rest` what follows it.
abbrev pub Ahead : Decoder → List ℕ → List ℕ → Type 0
Ahead d bytes rest = drop d.pos d.buf ≡ bytes ++ rest

abbrev pub advance : Decoder → ℕ → Decoder
advance d n = record d { pos = d.pos + n }

Ahead-room :
    (d : Decoder) (bytes rest : List ℕ) → Ahead d bytes rest → length bytes ≤ length d.buf - d.pos
Ahead-room d bytes rest h =
    omega (arith, ap length h, length-append bytes rest, length-drop d.pos d.buf)

Ahead-advance :
    (d : Decoder) (bytes rest more : List ℕ)
    → Ahead d bytes (rest ++ more)
    → Ahead (advance d (length bytes)) rest more
Ahead-advance d bytes rest more h =
    sym (drop-drop d.pos (length bytes) d.buf)
    ∙ ap (drop (length bytes)) h
    ∙ drop-append_length bytes (rest ++ more) (length bytes) refl

take_slice-Ahead :
    {A : Type 0} (d : Decoder) (n : ℕ) (f : List ℕ → A) (bytes rest : List ℕ)
    → Ahead d bytes rest
    → length bytes ≡ n
    → take_slice d n f ≡ (advance d n, ok (f bytes))
take_slice-Ahead d n f bytes rest h e =
    ground (arith, Ahead-room d bytes rest h, ap (take n) h ∙ take-append_length bytes rest n e)

module _ (d : Decoder) (rest : List ℕ) where
  read_word :
      (n v : ℕ)
      → v < 256 ^ n
      → Ahead d (to_le_bytes n v) rest
      → take_slice d n from_le_bytes ≡ (advance d n, ok v)
  read_word n v r h =
      take_slice-Ahead d n from_le_bytes (to_le_bytes n v) rest h (length-to_le_bytes n v)
      ∙ ap (λ w. (advance d n, ok w)) (from_le_bytes-to_le_bytes n v r)

  read_u8-Ahead : (v : ℕ) → Ahead d (v ∷ []) rest → read_u8 d ≡ (advance d 1, ok v)
  unfolding read_u8
  read_u8-Ahead v h =
      ground
        (arith, Ahead-room d (v ∷ []) rest h, get_or-drop d.pos d.buf 0, ap (λ t. get_or t 0 0) h)

  read_u32-Ahead :
      (v : ℕ) → v < 2 ^ 32 → Ahead d (to_le_bytes 4 v) rest → read_u32 d ≡ (advance d 4, ok v)
  unfolding read_u32
  read_u32-Ahead v r h = read_word 4 v (omega arith) h

  read_bytes-Ahead :
      (bs : List ℕ) → Ahead d bs rest → read_bytes d (length bs) ≡ (advance d (length bs), ok bs)
  unfolding read_bytes
  read_bytes-Ahead bs h = take_slice-Ahead d (length bs) (λ b. b) bs rest h refl

  read_current-Ahead :
      Ahead d (Header.to_bytes current) rest → read_header d ≡ (advance d 2, ok current)
  unfolding read_header Header.to_bytes Header.from_bytes
  read_current-Ahead a =
      ap (λ r. and_then r (λ bytes d'. (d', map_err header_error (Header.from_bytes bytes))))
        (take_slice-Ahead d 2 (λ b. b) (1 ∷ 1 ∷ []) rest a refl)

-- The only header there is: each of its fields has one value.
header_is_current : (h : Header) → h ≡ current
header_is_current h = λ i. record { version = version_lem h.version i; suite = suite_lem h.suite i }
  where
    version_lem : (v : ProtocolVersion) → v ≡ v1
    version_lem v1 = refl

    suite_lem : (s : CipherSuite) → s ≡ trelis_hybrid_v1
    suite_lem trelis_hybrid_v1 = refl

read_header-Ahead :
    (d : Decoder) (rest : List ℕ) (h : Header)
    → Ahead d (Header.to_bytes h) rest
    → read_header d ≡ (advance d 2, ok h)
read_header-Ahead d rest h =
    subst (λ k. Ahead d (Header.to_bytes k) rest → read_header d ≡ (advance d 2, ok k))
      (sym (header_is_current h)) (read_current-Ahead d rest)

read_length_prefixed-Ahead :
    (d : Decoder) (bs rest : List ℕ)
    → length bs < 2 ^ 32
    → Ahead d (to_le_bytes 4 (length bs) ++ bs) rest
    → read_length_prefixed d ≡ (advance d (4 + length bs), ok bs)
unfolding read_length_prefixed
read_length_prefixed-Ahead d bs rest small h =
    ap (λ r. and_then r (λ len d'. read_bytes d' len))
      (read_u32-Ahead d (bs ++ rest) (length bs) small split)
    ∙ read_bytes-Ahead (advance d 4) rest bs payload
    ∙ ap (λ (n : ℕ). (record d { pos = n }, ok bs)) (omega arith)
  where
    split : Ahead d (to_le_bytes 4 (length bs)) (bs ++ rest)
    split = h ∙ append_assoc (to_le_bytes 4 (length bs)) bs rest

    payload : Ahead (advance d 4) bs rest
    payload =
        subst (λ n. Ahead (advance d n) bs rest) (length-to_le_bytes 4 (length bs))
          (Ahead-advance d (to_le_bytes 4 (length bs)) bs rest split)

-- Each read returns the field whose encoding stands ahead, and passes over it.
pub read_field-Ahead :
    (f : Field) (d : Decoder) (rest : List ℕ)
    → IsInRange f
    → Ahead d (encoding f) rest
    → read_field (kind f) d ≡ (advance d (length (encoding f)), ok f)
unfolding read_field encoding read_u16 read_u64 to_le_bytes Header.to_bytes
read_field-Ahead (u8 v) d rest r h =
    ap (λ t. and_then t (λ v d'. (d', ok (u8 v)))) (read_u8-Ahead d rest v h)
read_field-Ahead (u16 v) d rest r h =
    ap (λ t. and_then t (λ v d'. (d', ok (u16 v)))) (read_word d rest 2 v (omega arith) h)
read_field-Ahead (u32 v) d rest r h =
    ap (λ t. and_then t (λ v d'. (d', ok (u32 v)))) (read_u32-Ahead d rest v r h)
read_field-Ahead (u64 v) d rest r h =
    ap (λ t. and_then t (λ v d'. (d', ok (u64 v)))) (read_word d rest 8 v (omega arith) h)
read_field-Ahead (raw bs) d rest r h =
    ap (λ t. and_then t (λ bs d'. (d', ok (raw bs)))) (read_bytes-Ahead d rest bs h)
read_field-Ahead (prefixed bs) d rest r h =
    ap (λ t. and_then t (λ bs d'. (d', ok (prefixed bs))))
      (read_length_prefixed-Ahead d bs rest r h)
    ∙ ap (λ (n : ℕ). (advance d n, ok (prefixed bs))) (omega arith)
read_field-Ahead (header v) d rest r h =
    ap (λ t. and_then t (λ v d'. (d', ok (header v)))) (read_header-Ahead d rest v h)

-- So does a run of reads.
pub read_all-Ahead :
    (fs : List Field) (d : Decoder) (rest : List ℕ)
    → All IsInRange fs
    → Ahead d (encodings fs) rest
    → read_all (map kind fs) d ≡ (advance d (length (encodings fs)), ok fs)
unfolding read_all encodings
read_all-Ahead [] d rest r h = ap (λ (n : ℕ). (record d { pos = n }, ok [])) (omega arith)
read_all-Ahead (f ∷ fs) d rest r h =
    rw
      (
        read_field-Ahead f d (encodings fs ++ rest) r.0 first,
        read_all-Ahead fs (advance d (length (encoding f))) rest r.1
            (Ahead-advance d (encoding f) (encodings fs) rest first),
      )
      (ap (λ (n : ℕ). (record d { pos = n }, ok (f ∷ fs)))
        (omega (arith, length-append (encoding f) (encodings fs))))
  where
    first : Ahead d (encoding f) (encodings fs ++ rest)
    first = h ∙ append_assoc (encoding f) (encodings fs) rest
