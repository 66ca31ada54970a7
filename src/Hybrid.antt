-- ===== src/Hybrid.antt =====
-- crates/trelis-hybrid: keys and signatures that join a classical and a post-quantum scheme.
pub mod Keys
pub mod Combiner
pub mod Kem
pub mod Signature
pub mod Identity
mod Tests
