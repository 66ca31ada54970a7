-- ===== src/Ratchet/Header/RoundTrip.antt =====
-- Writing and then parsing headers and messages of crates/trelis-ratchet/src/header.rs.
use trelis.Common.{
  ℕ, ◌+◌, ◌%◌, ◌^◌, ◌≤◌, ◌≡◌, refl, sym, ap, ◌∙◌, arith, List, ◌++◌, false, ltb, length, take, drop,
  get_or, slice, take-append_length, drop-append_length, drop-drop, length-append, take_all,
}
use trelis.Common.Bytes.{
  IsU32, IsU64, to_le_bytes, from_le_bytes, length-to_le_bytes, from_le_bytes-to_le_bytes,
}
use trelis.Common.Outcome.{ok}
use trelis.Hybrid.Keys.{
  HybridKemPublicKey, HybridEncapsulation, IsPublicKey, IsEncapsulation, public_key_to_bytes,
  encapsulation_to_bytes, public_key_from_bytes-to_bytes, encapsulation_from_bytes-to_bytes,
  length-public_key_to_bytes, public_key_from_bytes, encapsulation_from_bytes,
  length-encapsulation_to_bytes,
}
use trelis.Ratchet.Header.{
  MessageHeader, new, to_bytes, from_bytes, message_to_bytes, message_from_bytes,
}

drop_past : (xs ys : List ℕ) (k m : ℕ) → length xs ≡ k → drop (k + m) (xs ++ ys) ≡ drop m ys
drop_past xs ys k m h = sym (drop-drop k m (xs ++ ys)) ∙ ap (drop m) (drop-append_length xs ys k h)

parse :
    (bytes : List ℕ) (id n : ℕ) (pk : HybridKemPublicKey) (e : HybridEncapsulation)
    → length bytes ≡ 2339
    → get_or bytes 0 0 ≡ 1
    → get_or bytes 1 0 ≡ 1
    → from_le_bytes (slice bytes 6 8) ≡ id
    → public_key_from_bytes (slice bytes 18 1214) ≡ ok pk
    → encapsulation_from_bytes (slice bytes 1236 1095) ≡ ok e
    → from_le_bytes (slice bytes 2331 8) ≡ n
    → from_bytes bytes ≡ ok (new id pk e n)
unfolding from_bytes new
parse bytes id n pk e size version suite key_id key sealed number =
    rw (size, version, suite, key, sealed, key_id, number)

module _ (id n : ℕ) (pk : HybridKemPublicKey) (e : HybridEncapsulation) (hid : IsU64 id)
    (hn : IsU64 n) (hpk : IsPublicKey pk) (he : IsEncapsulation e) where
  abbrev tail7 : List ℕ
  tail7 = to_le_bytes 8 n

  abbrev tail6 : List ℕ
  tail6 = encapsulation_to_bytes e ++ tail7

  abbrev tail5 : List ℕ
  tail5 = to_le_bytes 4 1095 ++ tail6

  abbrev tail4 : List ℕ
  tail4 = public_key_to_bytes pk ++ tail5

  abbrev tail3 : List ℕ
  tail3 = to_le_bytes 4 1214 ++ tail4

  abbrev tail2 : List ℕ
  tail2 = to_le_bytes 8 id ++ tail3

  at_id : drop 6 (to_bytes (new id pk e n)) ≡ tail2
  unfolding to_bytes new
  at_id = drop-append_length (to_le_bytes 4 2339) tail2 4 (length-to_le_bytes 4 2339)

  at_key : drop 18 (to_bytes (new id pk e n)) ≡ tail4
  unfolding to_bytes new
  at_key =
      drop_past (to_le_bytes 4 2339) tail2 4 12 (length-to_le_bytes 4 2339)
      ∙ drop_past (to_le_bytes 8 id) tail3 8 4 (length-to_le_bytes 8 id)
      ∙ drop-append_length (to_le_bytes 4 1214) tail4 4 (length-to_le_bytes 4 1214)

  past_key : (m : ℕ) → drop (18 + (1214 + m)) (to_bytes (new id pk e n)) ≡ drop m tail5
  past_key m =
      sym (drop-drop 18 (1214 + m) (to_bytes (new id pk e n)))
      ∙ ap (drop (1214 + m)) at_key
      ∙ drop_past (public_key_to_bytes pk) tail5 1214 m (length-public_key_to_bytes pk hpk)

  at_encapsulation : drop 1236 (to_bytes (new id pk e n)) ≡ tail6
  at_encapsulation =
      past_key 4 ∙ drop-append_length (to_le_bytes 4 1095) tail6 4 (length-to_le_bytes 4 1095)

  at_number : drop 2331 (to_bytes (new id pk e n)) ≡ tail7
  at_number =
      past_key 1099
      ∙ drop_past (to_le_bytes 4 1095) tail6 4 1095 (length-to_le_bytes 4 1095)
      ∙ drop-append_length (encapsulation_to_bytes e) tail7 1095
          (length-encapsulation_to_bytes e he)

  length-to_bytes : length (to_bytes (new id pk e n)) ≡ 2339
  unfolding to_bytes new
  length-to_bytes = omega (
    arith,
    length-append (to_le_bytes 4 2339) tail2,
    length-append (to_le_bytes 8 id) tail3,
    length-append (to_le_bytes 4 1214) tail4,
    length-append (public_key_to_bytes pk) tail5,
    length-append (to_le_bytes 4 1095) tail6,
    length-append (encapsulation_to_bytes e) tail7,
    length-to_le_bytes 4 2339,
    length-to_le_bytes 8 id,
    length-to_le_bytes 4 1214,
    length-to_le_bytes 4 1095,
    length-to_le_bytes 8 n,
    length-public_key_to_bytes pk hpk,
    length-encapsulation_to_bytes e he,
  )

  first_bytes :
      (get_or (to_bytes (new id pk e n)) 0 0 ≡ 1) × (get_or (to_bytes (new id pk e n)) 1 0 ≡ 1)
  unfolding to_bytes new
  first_bytes = (refl, refl)

  -- A header of 64-bit numbers, a key that `from_bytes` accepts and an encapsulation is 2339 bytes
  -- long when written, and those bytes parse to the same header.
  pub header_from_bytes-to_bytes :
      (length (to_bytes (new id pk e n)) ≡ 2339)
      × (from_bytes (to_bytes (new id pk e n)) ≡ ok (new id pk e n))
  header_from_bytes-to_bytes = (
    length-to_bytes,
    parse (to_bytes (new id pk e n)) id n pk e length-to_bytes first_bytes.0 first_bytes.1
        (ap (λ l. from_le_bytes (take 8 l)) at_id
          ∙ ap from_le_bytes
              (take-append_length (to_le_bytes 8 id) tail3 8 (length-to_le_bytes 8 id))
          ∙ from_le_bytes-to_le_bytes 8 id hid)
        (ap (λ l. public_key_from_bytes (take 1214 l)) at_key
          ∙ ap public_key_from_bytes (
              take-append_length (public_key_to_bytes pk) tail5 1214
                (length-public_key_to_bytes pk hpk))
          ∙ public_key_from_bytes-to_bytes pk hpk)
        (ap (λ l. encapsulation_from_bytes (take 1095 l)) at_encapsulation
          ∙ ap encapsulation_from_bytes (
              take-append_length (encapsulation_to_bytes e) tail7 1095
                (length-encapsulation_to_bytes e he))
          ∙ encapsulation_from_bytes-to_bytes e he)
        (ap (λ l. from_le_bytes (take 8 l)) at_number
          ∙ ap from_le_bytes (take_all 8 tail7 (omega (arith, length-to_le_bytes 8 n)))
          ∙ from_le_bytes-to_le_bytes 8 n hn),
  )

not_below : (m n : ℕ) → n ≤ m → ltb m n ≡ false
not_below m n h = ground arith

parse_message :
    (bytes nonce : List ℕ) (count : ℕ) (h : MessageHeader)
    → length bytes ≡ 2367 + count
    → from_bytes (take 2339 bytes) ≡ ok h
    → slice bytes 2339 24 ≡ nonce
    → from_le_bytes (slice bytes 2363 4) ≡ count
    → message_from_bytes bytes
      ≡ ok (record { header = h; nonce = nonce; ciphertext = slice bytes 2367 count })
unfolding message_from_bytes
parse_message bytes nonce count h size header at_nonce counted = rw (
  not_below (length bytes) 2367 (omega arith),
  header,
  counted,
  not_below (length bytes) (2367 + count) (omega arith),
  at_nonce,
)

-- A message with such a header, a nonce of 24 bytes and a ciphertext whose length fits 32 bits is
-- read back as it was written.
pub message_from_bytes-to_bytes :
    (id n : ℕ) (pk : HybridKemPublicKey) (e : HybridEncapsulation) (nonce ciphertext : List ℕ)
    → IsU64 id
    → IsU64 n
    → IsPublicKey pk
    → IsEncapsulation e
    → length nonce ≡ 24
    → IsU32 (length ciphertext)
    → message_from_bytes (
        message_to_bytes
          (record { header = new id pk e n; nonce = nonce; ciphertext = ciphertext }))
      ≡ ok (record { header = new id pk e n; nonce = nonce; ciphertext = ciphertext })
unfolding message_to_bytes
message_from_bytes-to_bytes id n pk e nonce ciphertext hid hn hpk he hnonce hct =
    whole (to_bytes h) both.0 both.1
  where
    h : MessageHeader
    h = new id pk e n

    both : (length (to_bytes h) ≡ 2339) × (from_bytes (to_bytes h) ≡ ok h)
    both = header_from_bytes-to_bytes id n pk e hid hn hpk he

    count : List ℕ
    count = to_le_bytes 4 (length ciphertext % 2 ^ 32)

    whole :
        (header : List ℕ)
        → length header ≡ 2339
        → from_bytes header ≡ ok h
        → message_from_bytes (header ++ (nonce ++ (count ++ ciphertext)))
          ≡ ok (record { header = h; nonce = nonce; ciphertext = ciphertext })
    whole header size read =
        parse_message (header ++ (nonce ++ (count ++ ciphertext))) nonce (length ciphertext) h
          (omega (
            arith,
            length-append header (nonce ++ (count ++ ciphertext)),
            length-append nonce (count ++ ciphertext),
            length-append count ciphertext,
            length-to_le_bytes 4 (length ciphertext % 2 ^ 32),
          ))
          (ap from_bytes (take-append_length header (nonce ++ (count ++ ciphertext)) 2339 size)
            ∙ read)
          (ap (take 24) (drop-append_length header (nonce ++ (count ++ ciphertext)) 2339 size)
            ∙ take-append_length nonce (count ++ ciphertext) 24 hnonce)
          (ap (λ l. from_le_bytes (take 4 l))
              (drop_past header (nonce ++ (count ++ ciphertext)) 2339 24 size
                ∙ drop-append_length nonce (count ++ ciphertext) 24 hnonce)
            ∙ ap from_le_bytes (
                take-append_length count ciphertext 4
                  (length-to_le_bytes 4 (length ciphertext % 2 ^ 32)))
            ∙ from_le_bytes-to_le_bytes 4 (length ciphertext % 2 ^ 32) (omega arith)
            ∙ omega arith)
        ∙ ap (λ l. ok (record { header = h; nonce = nonce; ciphertext = l }))
            (ap (take (length ciphertext)) (
                drop_past header (nonce ++ (count ++ ciphertext)) 2339 28 size
                ∙ drop_past nonce (count ++ ciphertext) 24 4 hnonce
                ∙ drop-append_length count ciphertext 4
                    (length-to_le_bytes 4 (length ciphertext % 2 ^ 32)))
              ∙ take_all (length ciphertext) ciphertext (omega arith))
