-- ===== src/Cocoa/Tree.antt =====
-- crates/trelis-cocoa/src/tree: positions in the ratchet tree, paths, nodes, views and resolutions.
pub mod Index
pub mod Path
pub mod Node
pub mod View
pub mod Resolution
pub mod Geometry
