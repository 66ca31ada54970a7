-- ===== src/Cocoa/Tree/Geometry.antt =====
-- How parent, children and sibling of crates/trelis-cocoa/src/tree/index.rs fit together.
pub mod Family
pub mod Linear
pub mod Ancestry
