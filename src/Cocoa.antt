-- ===== src/Cocoa.antt =====
-- crates/trelis-cocoa: group key agreement over a binary ratchet tree.
pub mod Tree
pub mod Watermark
pub mod Limits
pub mod KeySchedule
pub mod SeedChain
pub mod Epoch
pub mod Session
pub mod CommitSign
pub mod SeedEncrypt
mod Tests
