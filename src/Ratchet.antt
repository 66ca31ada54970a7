-- ===== src/Ratchet.antt =====
-- crates/trelis-ratchet: the pairwise ratchet with one hybrid key encapsulation per message.
pub mod Crypto
pub mod Kdf
pub mod Header
pub mod State
pub mod Effects
pub mod Send
pub mod Receive
pub mod Atomic
pub mod Session
pub mod Keyring
pub mod StateFile
mod Tests
