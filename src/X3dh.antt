-- ===== src/X3dh.antt =====
-- crates/trelis-x3dh-pq: the handshake that starts a session.
pub mod Bundle
pub mod Builder
pub mod Transcript
pub mod SessionKeys
pub mod Initiator
pub mod Responder
pub mod Agreement
pub mod Session
mod Tests
