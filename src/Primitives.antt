-- ===== src/Primitives.antt =====
-- crates/trelis-primitives: the primitives that the other crates build on.
pub mod Interface
pub mod X448
pub mod Tests
pub mod Committing
