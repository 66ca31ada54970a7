-- ===== src/Ratchet/Kdf/Inputs.antt =====
-- What the buffers of crates/trelis-ratchet/src/kdf.rs and nonce.rs hold when they are hashed.
use trelis.Common.{
  ℕ, ◌+◌, ◌≡◌, sym, arith, List, ◌++◌, leb, length, take, drop, take-append_length, length-append,
  length-drop, Bool-cases, inl, inr,
}
use trelis.Common.Bytes.{to_be_bytes, to_le_bytes, length-to_be_bytes, length-to_le_bytes}
use trelis.Common.Copy.{
  copy_at, copy_at-append, copy_at-zero, append_assoc, append_nil, drop_everything,
}
use trelis.Common.Outcome.{ok}
use trelis.Ratchet.Crypto.{Crypto}
use trelis.Ratchet.Kdf.{kdf_rk, kdf_root, kdf_message, nonce_context, derive_nonce_with_random}

two_parts :
    (xs ys buf : List ℕ)
    → length xs ≡ 32
    → take (length xs + length ys) (copy_at 32 ys (copy_at 0 xs buf)) ≡ xs ++ ys
two_parts xs ys buf h = rw (
  copy_at-zero xs buf,
  copy_at-append xs ys (drop (length xs) buf) 32 h,
  append_assoc xs ys (drop (length ys) (drop (length xs) buf)),
  take-append_length (xs ++ ys) (drop (length ys) (drop (length xs) buf)) (length xs + length ys)
      (length-append xs ys),
)

module _ (c : Crypto) where
  -- Whatever the length of the secret, on the stack or on the heap, both keys are derived from the
  -- root key followed by the shared secret, each under its own context. The root key has 32 bytes.
  pub kdf_rk_lem :
      (root_key secret : List ℕ)
      → length root_key ≡ 32
      → kdf_rk c root_key secret ≡ record {
        new_root_key = c.derive_key kdf_root (root_key ++ secret);
        message_key = c.derive_key kdf_message (root_key ++ secret);
      }
  unfolding kdf_rk
  kdf_rk_lem root_key secret h = elim (Bool-cases (leb (length root_key + length secret) 256)) [
    | inl small ↦ rw (small, two_parts root_key secret (to_le_bytes 256 0) h)
    | inr large ↦ rw (large)
  ]

three_parts :
    (xs ys zs buf : List ℕ)
    → length xs ≡ 8
    → length ys ≡ 32
    → length zs ≡ 16
    → length buf ≡ 56
    → copy_at 40 zs (copy_at 8 ys (copy_at 0 xs buf)) ≡ xs ++ (ys ++ zs)
three_parts xs ys zs buf hx hy hz hb = rw (
  copy_at-zero xs buf,
  copy_at-append xs ys (drop (length xs) buf) 8 hx,
  append_assoc xs ys (drop (length ys) (drop (length xs) buf)),
  copy_at-append (xs ++ ys) zs (drop (length ys) (drop (length xs) buf)) 40
      (omega (arith, length-append xs ys)),
  drop_everything (length zs) (drop (length ys) (drop (length xs) buf))
      (omega (arith, length-drop (length ys) (drop (length xs) buf), length-drop (length xs) buf)),
  append_nil zs,
  sym (append_assoc xs ys zs),
)

module _ (c : Crypto) where
  -- The nonce is the first 24 bytes of the key derived from the counter, the message key and the
  -- random bytes, one after the other, with no part of the array left over. The key has 32 bytes and
  -- the random part 16.
  pub derive_nonce_with_random_lem :
      (counter : ℕ) (message_key random : List ℕ)
      → length message_key ≡ 32
      → length random ≡ 16
      → derive_nonce_with_random c counter message_key random
        ≡ ok (
            take 24 (c.derive_key nonce_context (to_be_bytes 8 counter ++ (message_key ++ random))))
  unfolding derive_nonce_with_random
  derive_nonce_with_random_lem counter message_key random hk hr = rw (
      three_parts (to_be_bytes 8 counter) message_key random (to_le_bytes 56 0)
        (length-to_be_bytes 8 counter) hk hr (length-to_le_bytes 56 0))
