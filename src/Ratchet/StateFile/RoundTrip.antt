-- ===== src/Ratchet/StateFile/RoundTrip.antt =====
-- Writing and then parsing the header of crates/trelis-ratchet/src/serialise.rs.
use trelis.Common.{
  ℕ, ◌≤◌, ◌≡◌, refl, ap, ◌∙◌, arith, List, ◌++◌, true, false, ltb, length, take, drop, slice,
  take-append_length, drop-append_length, length-append,
}
use mathlib.Core.List.{append_assoc}
use trelis.Common.Bytes.{
  IsU16, to_be_bytes, from_be_bytes, length-to_be_bytes, from_be_bytes-to_be_bytes,
}
use trelis.Common.Outcome.{ok}
use trelis.Hybrid.Keys.{bytes_eq}
use trelis.Ratchet.StateFile.{new, to_bytes, from_bytes, magic_bytes}

long : (bytes : List ℕ) → 8 ≤ length bytes → ltb (length bytes) 8 ≡ false
long bytes h = ground arith

magic_eq : bytes_eq magic_bytes magic_bytes ≡ true
unfolding bytes_eq
magic_eq = refl

parse :
    (bytes : List ℕ) (flags : ℕ)
    → 8 ≤ length bytes
    → slice bytes 0 4 ≡ magic_bytes
    → from_be_bytes (slice bytes 4 2) ≡ 1
    → from_be_bytes (slice bytes 6 2) ≡ flags
    → from_bytes bytes ≡ ok (new flags)
unfolding from_bytes
parse bytes flags size magic version flagged =
    rw (long bytes size, magic, magic_eq, version, flagged)

-- The header of a stored state with 16-bit flags is 8 bytes long when written, and is read back
-- unchanged, whatever follows it.
pub state_header_round_trip :
    (flags : ℕ) (rest : List ℕ)
    → IsU16 flags
    → (length (to_bytes (new flags)) ≡ 8)
      × (from_bytes (to_bytes (new flags) ++ rest) ≡ ok (new flags))
unfolding to_bytes
state_header_round_trip flags rest h =
    let version = to_be_bytes 2 1 in
    let flagged = to_be_bytes 2 flags in
    let size : length (version ++ flagged) ≡ 4 =
      omega (
        arith,
        length-append version flagged,
        length-to_be_bytes 2 1,
        length-to_be_bytes 2 flags,
      ) in
    (
      omega (arith, size),
      parse (magic_bytes ++ ((version ++ flagged) ++ rest)) flags
          (omega (arith, length-append (version ++ flagged) rest, size)) refl
          (ap (λ l. from_be_bytes (take 2 l)) (append_assoc version flagged rest)
            ∙ ap from_be_bytes
                (take-append_length version (flagged ++ rest) 2 (length-to_be_bytes 2 1))
            ∙ from_be_bytes-to_be_bytes 2 1 (omega arith))
          (ap (λ l. from_be_bytes (take 2 (drop 2 l))) (append_assoc version flagged rest)
            ∙ ap (λ l. from_be_bytes (take 2 l))
                (drop-append_length version (flagged ++ rest) 2 (length-to_be_bytes 2 1))
            ∙ ap from_be_bytes (take-append_length flagged rest 2 (length-to_be_bytes 2 flags))
            ∙ from_be_bytes-to_be_bytes 2 flags (omega arith)),
    )
