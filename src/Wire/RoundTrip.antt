-- ===== src/Wire/RoundTrip.antt =====
-- The encoder as appending, the decoder as splitting, and the round trip between them.
pub mod Writes
pub mod Frame
pub mod Reads
pub mod Whole
