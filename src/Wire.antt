-- ===== src/Wire.antt =====
-- crates/trelis-wire: the wire format. `Fields` is the specification that `RoundTrip` relates the
-- encoder and the decoder by.
pub mod Constants
pub mod Header
pub mod Encoder
pub mod Decoder
pub mod Fields
pub mod RoundTrip
mod Tests
