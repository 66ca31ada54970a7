-- ===== src/X3dh/Transcript.antt =====
-- crates/trelis-x3dh-pq/src/transcript.rs: what the key of a session is derived from.
pub mod Binding
mod Tests
use trelis.Common.{ℕ, ◌+◌, ◌*◌, List, [], ◌∷◌, Bool, if◌then◌else◌}
use trelis.Common.Bytes.{to_le_bytes}
use trelis.Common.Copy.{write_pieces}
use trelis.Hybrid.Signature.{HybridSigningPublicKey, signing_key_to_bytes}
use trelis.Primitives.Interface.{Primitives}
use trelis.Wire.Constants.{protocol_version, cipher_suite}
use trelis.X3dh.Bundle.{SignedPreKeyBundle, signing_data}

-- "trelis-session-v2"
abbrev pub session_v2_context : List ℕ
session_v2_context =
    116 ∷ 114 ∷ 101 ∷ 108 ∷ 105 ∷ 115 ∷ 45 ∷ 115 ∷ 101 ∷ 115 ∷ 115 ∷ 105 ∷ 111 ∷ 110 ∷ 45 ∷ 118 ∷ 50
    ∷ []

abbrev pub hash_size : ℕ
hash_size = 32

abbrev pub dh_size : ℕ
dh_size = 56

abbrev pub pq_ss_size : ℕ
pq_ss_size = 32

abbrev pub framing_size : ℕ
framing_size = 3

abbrev pub transcript_size : ℕ
transcript_size = 3 * hash_size + 3 * dh_size + pq_ss_size + framing_size

pub record SessionFlags : Type 0 where
  pub li_capable : Bool

unfoldable pub to_transcript_bytes : SessionFlags → List ℕ
to_transcript_bytes flags = (if flags.li_capable then 1 else 0) ∷ []

pub record Transcript : Type 0 where
  pub alice_identity_hash : List ℕ
  pub bob_identity_hash : List ℕ
  pub bundle_hash : List ℕ
  pub dh1 : List ℕ
  pub dh2 : List ℕ
  pub dh3 : List ℕ
  pub pq_ss : List ℕ
  pub flags : SessionFlags

-- What `to_bytes` copies, in order, each with the size by which the offset moves.
unfoldable pub pieces : Transcript → List (ℕ × List ℕ)
pieces t =
    (hash_size, t.alice_identity_hash)
    ∷ (hash_size, t.bob_identity_hash)
    ∷ (hash_size, t.bundle_hash)
    ∷ (dh_size, t.dh1)
    ∷ (dh_size, t.dh2)
    ∷ (dh_size, t.dh3)
    ∷ (pq_ss_size, t.pq_ss)
    ∷ (1, protocol_version ∷ [])
    ∷ (1, cipher_suite ∷ [])
    ∷ (1, to_transcript_bytes t.flags)
    ∷ []

unfoldable pub to_bytes : Transcript → List ℕ
to_bytes t = write_pieces 0 (pieces t) (to_le_bytes transcript_size 0)

module _ (p : Primitives) where
  unfoldable pub hash_identity : HybridSigningPublicKey → List ℕ
  hash_identity identity = p.hash (signing_key_to_bytes identity)

  unfoldable pub hash_bundle : SignedPreKeyBundle → List ℕ
  hash_bundle s = p.hash (signing_data s.bundle)

  unfoldable pub new :
      HybridSigningPublicKey
      → HybridSigningPublicKey
      → SignedPreKeyBundle
      → List ℕ
      → List ℕ
      → List ℕ
      → List ℕ
      → SessionFlags
      → Transcript
  new alice_identity bob_identity s dh1 dh2 dh3 pq_ss flags = record {
    alice_identity_hash = hash_identity alice_identity;
    bob_identity_hash = hash_identity bob_identity;
    bundle_hash = hash_bundle s;
    dh1 = dh1;
    dh2 = dh2;
    dh3 = dh3;
    pq_ss = pq_ss;
    flags = flags;
  }

  unfoldable pub derive_shared_secret : Transcript → List ℕ
  derive_shared_secret t = p.derive_key session_v2_context (to_bytes t)
