-- ===== src/Lib.antt =====
-- Trelis is a library for end-to-end encrypted messaging: hybrid (classical and post-quantum)
-- primitives, a wire format, a pairwise ratchet and the group protocol CoCoA over a ratchet tree.
-- This library models the parts named below as functions on states and byte lists and proves what
-- makes them correct.
--
-- The parts, the files that model them and how they correspond (paths from the repository's root):
--   Error: crates/trelis-error/src/lib.rs, the error enum and its categories.
--   Wire: crates/trelis-wire/src. Header, Encoder and Decoder have the source's types and one
--     function per method; a method on `&mut self` returns the new value beside its result. Fields
--     names every kind of value that is written, so that the round trip speaks of any sequence.
--   Primitives: crates/trelis-primitives/src. Interface has what the crates take from libraries
--     (BLAKE3, the curve, XChaCha20-Poly1305, sntrup761, Ed448 and ML-DSA) as the record Primitives,
--     and the documented behaviour that theorems rely on as PrimitiveLaws; X448 is x448.rs and
--     Committing the committing half of aead.rs.
--   Hybrid: crates/trelis-hybrid/src. Keys and Kem are kem.rs, Combiner is combiner.rs, Signature is
--     signature.rs (its keys and bytes in Signature.Keys), Identity is identity.rs; a fixed-size array is a list, its size
--     a hypothesis. Of sntrup761/pure_rust.rs in crates/trelis-primitives/src only the checks of
--     `from_bytes` are modelled, in Keys. Kem.Agreement makes the KEM an implementation of
--     Ratchet.Crypto.
--   X3dh: crates/trelis-x3dh-pq/src. Bundle, Builder, Transcript, SessionKeys, Initiator and Responder
--     are the files of those names; the builder's type parameters are values of Marker, and
--     Builder.Calls has its calls as a relation. Agreement speaks of both sides, and Session of the
--     ratchets that start from their keys.
--   Ratchet: crates/trelis-ratchet/src. Crypto is the interface to the KEM, the AEAD, BLAKE3 and the
--     generator; Kdf is kdf.rs and nonce.rs, Header is header.rs, State is state.rs, StateFile is
--     serialise.rs, Send and Receive are send.rs and receive.rs, written with Effects, in which `?`
--     returns an error and `expect` panics with the state left as it is. Session speaks of two
--     sides: Conversation is a step relation in which the side whose turn it is sends, the other
--     side reads the oldest message in flight, and the turn passes when nothing is in flight. The
--     crate does not enforce turns; messages that cross are outside of Conversation.
--   Cocoa.Tree: crates/trelis-cocoa/src/tree. Index is index.rs, Path is path.rs, Node is node.rs and
--     View is view.rs, Resolution is resolution.rs over a lookup function for its trait `NodeLookup`;
--     the `BTreeMap` of a view is Common.Map, entries in ascending order of keys. Geometry and the
--     modules below Path, View and Resolution hold the theorems.
--   Cocoa.Limits and Cocoa.Watermark: crates/trelis-cocoa/src/limits.rs and session_watermark.rs.
--   Cocoa.KeySchedule, Cocoa.Epoch and Cocoa.Session: key_schedule.rs, epoch.rs and session.rs of
--     crates/trelis-cocoa/src. A method on `&mut self` returns the new state beside its outcome, which
--     is an error or a panic where the source returns one or panics. Session.Counters is a step
--     relation: a session encrypts, enters a new epoch or has its counter set. Session.Epochs has the
--     key schedule over a sequence of commits as a function of its own.
--   Cocoa.SeedChain, Cocoa.SeedEncrypt and Cocoa.CommitSign: the files seed_chain.rs, seed_encrypt.rs
--     and commit_sign.rs in crates/trelis-cocoa/src/operations.
--   Common: lists, bytes, maps and results that the parts share. The modules called Tests run the
--     definitions and apply the theorems at inputs.
--
-- The parts interact as the crates do: the hybrid KEM and the signatures stand on Primitives; the
-- handshake of X3dh uses both and gives the ratchet its first key; the ratchet takes its
-- cryptography from an interface that the hybrid KEM fills, its constants from Wire and its errors
-- from Error; a group session holds a keypair, an epoch and a view of the tree, which is keyed by
-- the linear indices of Index and finds its own path by Path; the limits on a group use the depth
-- that View computes.
--
-- Numbers are natural numbers with their widths written out: `% 2 ^ w` where the source's arithmetic
-- can leave the width w, a hypothesis where a value of a type is given. `usize` is 64 bits wide.
-- Additions that would panic on overflow in a debug build wrap, as in a release build.
--
-- Loops over ancestors recur on fuel, for which the depth of the node is enough: each round goes up
-- one level. A resolution recurs on the levels below its node, `none` where they run out.
-- `bit_length` recurs on the width of the word. All other recursion is structural.
--
-- Not modelled: overwriting secrets with zeros and locked memory, which no result depends on; the
-- third-party cryptography, sntrup761, Ed448 and ML-DSA, which are the parameters of
-- Primitives.Interface; the operations of crates/trelis-cocoa/src/operations that change a group's
-- tree (add, remove, update, init and path_update) and the order of path updates; certificates,
-- device bundles, recovery and safety numbers of crates/trelis-hybrid; crates/trelis-multidevice;
-- and the WebAssembly bindings.
pub mod Common
pub mod Error
pub mod Wire
pub mod Hybrid
pub mod Primitives
pub mod X3dh
pub mod Cocoa
pub mod Ratchet
