-- ===== src/Wire/RoundTrip/Whole.antt =====
-- A whole run of writes by crates/trelis-wire/src/encode.rs, and of reads by decode.rs.
use trelis.Common.{ℕ, ◌+◌, ◌≤◌, ◌≡◌, refl, arith, List, map, some, length, drop, All}
use trelis.Common.Outcome.{ok}
use trelis.Wire.Encoder
use trelis.Wire.Encoder.{Encoder, copy_from_slice}
use trelis.Wire.Decoder
use trelis.Wire.Fields.{Field, IsInRange, kind, encodings, write_all, read_all}
use trelis.Wire.RoundTrip.Writes.{write_all-copy}
use trelis.Wire.RoundTrip.Reads.{read_all-Ahead}

-- Fields in range that fit a buffer are written, and a decoder over that buffer which knows their
-- kinds reads the same fields and stops behind the last of them.
pub read_all-write_all :
    (fs : List Field) (buf : List ℕ)
    → All IsInRange fs
    → length (encodings fs) ≤ length buf
    → (e : Encoder) × (write_all fs (Encoder.new buf) ≡ (e, some tt))
      × (read_all (map kind fs) (Decoder.new e.buf) ≡ (record { buf = e.buf; pos = e.pos }, ok fs))
unfolding Encoder.new Decoder.new copy_from_slice
read_all-write_all fs buf r h = (
  copy_from_slice (Encoder.new buf) (encodings fs),
  write_all-copy fs (Encoder.new buf) r (omega arith),
  read_all-Ahead fs _ (drop (0 + length (encodings fs)) buf) r refl,
)
