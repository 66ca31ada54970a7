-- ===== src/Cocoa/Watermark/Order.antt =====
-- What the watermark of crates/trelis-cocoa/src/session_watermark.rs rejects after any history.
use trelis.Common.{
  ℕ, ◌<◌, ◌≤◌, ◌≡◌, arith, ◌↔◌, ◌⊎◌, List, [], ◌∷◌, ◌++◌, false, length, length-append,
  take-append_length, drop-append_length, All, ltb,
}
use mathlib.Core.List.{append_assoc}
use trelis.Common.Bytes.{IsU64, to_le_bytes, length-to_le_bytes, from_le_bytes-to_le_bytes}
use trelis.Common.Outcome.{ok}
use trelis.Cocoa.Watermark.{SessionWatermark, pair_lt, check, advanced, to_bytes, from_bytes}

-- The pair is at or above the other: a later epoch, or the same epoch and no smaller counter.
pub AtLeast : ℕ × ℕ → ℕ × ℕ → Type 0
AtLeast p q = (q.0 < p.0) ⊎ ((p.0 ≡ q.0) × (q.1 ≤ p.1))

-- The watermark after a history of emitted pairs, the first emitted first.
unfoldable pub advance_all : SessionWatermark → List (ℕ × ℕ) → SessionWatermark
advance_all w [] = w
advance_all w ((e, n) ∷ ps) = advance_all (advanced w e n) ps

check_iff :
    (w : SessionWatermark) (e n : ℕ)
    → (check w e n ≡ ok tt) ↔ AtLeast (e, n) (w.epoch_number, w.message_counter)
unfolding check pair_lt AtLeast
check_iff w e n = ground arith

AtLeast-advanced :
    (w : SessionWatermark) (e n e' n' : ℕ)
    → AtLeast (e, n) ((advanced w e' n').epoch_number, (advanced w e' n').message_counter)
      ↔ (AtLeast (e, n) (w.epoch_number, w.message_counter) × AtLeast (e, n) (e', n'))
unfolding advanced pair_lt AtLeast
AtLeast-advanced w e n e' n' = ground arith

AtLeast-All :
    (w : SessionWatermark) (ps : List (ℕ × ℕ)) (e n : ℕ)
    → AtLeast (e, n) ((advance_all w ps).epoch_number, (advance_all w ps).message_counter)
      ↔ (AtLeast (e, n) (w.epoch_number, w.message_counter) × All (AtLeast (e, n)) ps)
unfolding advance_all
AtLeast-All w [] e n = ((λ h. (h, tt)), λ h. h.0)
AtLeast-All w ((e', n') ∷ ps) e n =
    let rest = AtLeast-All (advanced w e' n') ps e n in
    let here = AtLeast-advanced w e n e' n' in
    (
      (λ h. let (below, all) = rest.0 h in let (start, one) = here.0 below in (start, (one, all))),
      λ (start, (one, all)). rest.1 (here.1 (start, one), all),
    )

-- A watermark that was advanced by each pair a session emitted accepts a restored pair exactly when
-- it is at or above the first watermark and every emitted pair; no older state gets past it.
pub check-advance_all :
    (w : SessionWatermark) (ps : List (ℕ × ℕ)) (e n : ℕ)
    → (check (advance_all w ps) e n ≡ ok tt)
      ↔ (AtLeast (e, n) (w.epoch_number, w.message_counter) × All (AtLeast (e, n)) ps)
check-advance_all w ps e n =
    let c = check_iff (advance_all w ps) e n in
    let a = AtLeast-All w ps e n in ((λ h. a.0 (c.0 h)), λ h. c.1 (a.1 h))

-- A watermark of two 64-bit numbers is 16 bytes long when written and is read back unchanged,
-- whatever follows it.
pub from_bytes-to_bytes :
    (w : SessionWatermark) (rest : List ℕ)
    → IsU64 w.epoch_number
    → IsU64 w.message_counter
    → (length (to_bytes w) ≡ 16) × (from_bytes (to_bytes w ++ rest) ≡ ok w)
unfolding from_bytes to_bytes
from_bytes-to_bytes w rest he hn =
    let first = to_le_bytes 8 w.epoch_number in
    let second = to_le_bytes 8 w.message_counter in
    let size : length (first ++ second) ≡ 16 = omega (
      arith,
      length-append first second,
      length-to_le_bytes 8 w.epoch_number,
      length-to_le_bytes 8 w.message_counter,
    ) in
    let long : ltb (length (first ++ (second ++ rest))) 16 ≡ false = ground (
      arith,
      length-append first (second ++ rest),
      length-append second rest,
      length-to_le_bytes 8 w.epoch_number,
      length-to_le_bytes 8 w.message_counter,
    ) in
    (
      size,
      rw (
        append_assoc first second rest,
        long,
        take-append_length first (second ++ rest) 8 (length-to_le_bytes 8 w.epoch_number),
        drop-append_length first (second ++ rest) 8 (length-to_le_bytes 8 w.epoch_number),
        take-append_length second rest 8 (length-to_le_bytes 8 w.message_counter),
        from_le_bytes-to_le_bytes 8 w.epoch_number (omega arith),
        from_le_bytes-to_le_bytes 8 w.message_counter (omega arith),
      ),
    )
