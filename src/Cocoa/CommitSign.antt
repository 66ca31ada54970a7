-- ===== src/Cocoa/CommitSign.antt =====
-- crates/trelis-cocoa/src/operations/commit_sign.rs: what a commit is signed over.
pub mod Extended
pub mod Signed
use trelis.Common.{
  ℕ, ◌+◌, ◌≡◌, refl, sym, ap, subst, ◌∙◌, arith, List, [], ◌∷◌, All, length, slice, take, drop,
  get_or, get_or-drop, if◌then◌else◌, ◌==◌, not,
}
use trelis.Common.Bytes.{
  IsU32, IsU64, to_le_bytes, from_le_bytes, to_be_bytes, from_be_bytes, length-to_le_bytes,
  length-to_be_bytes, from_le_bytes-to_le_bytes, from_be_bytes-to_be_bytes,
}
use trelis.Common.Copy.{
  IsSized, joined, write_pieces, write_pieces_lem, total_size, slice-joined, length-joined,
}
use trelis.Common.Outcome.{ok, err, ◌>>=◌}
use trelis.Error.{Result, CryptoError}
use trelis.Hybrid.Identity.{HybridIdentityKeypair, HybridIdentityPublicKey}
use trelis.Hybrid.Keys.{HybridSignature}
use trelis.Hybrid.Signature
use trelis.Hybrid.Signature.{IsSigningKeypair, HybridSigningPublicKey}
use trelis.Hybrid.Signature.Verified.{Call, sign_call, verify_call, verify_call-sign_call}
use trelis.Primitives.Interface.{Primitives, PrimitiveLaws}

-- "cocoa-sa-commit-sign-v1"
abbrev pub commit_sign_context : List ℕ
commit_sign_context =
    99 ∷ 111 ∷ 99 ∷ 111 ∷ 97 ∷ 45 ∷ 115 ∷ 97 ∷ 45 ∷ 99 ∷ 111 ∷ 109 ∷ 109 ∷ 105 ∷ 116 ∷ 45 ∷ 115
    ∷ 105 ∷ 103 ∷ 110 ∷ 45 ∷ 118 ∷ 49 ∷ []

-- "cocoa-sa-path-updates-hash-v1"
abbrev pub path_updates_hash_context : List ℕ
path_updates_hash_context =
    99 ∷ 111 ∷ 99 ∷ 111 ∷ 97 ∷ 45 ∷ 115 ∷ 97 ∷ 45 ∷ 112 ∷ 97 ∷ 116 ∷ 104 ∷ 45 ∷ 117 ∷ 112 ∷ 100 ∷ 97
    ∷ 116 ∷ 101 ∷ 115 ∷ 45 ∷ 104 ∷ 97 ∷ 115 ∷ 104 ∷ 45 ∷ 118 ∷ 49 ∷ []

pub data CommitType : Type 0 where
  add remove update : CommitType

unfoldable pub as_byte : CommitType → ℕ
as_byte add = 0x01
as_byte remove = 0x02
as_byte update = 0x03

unfoldable pub from_byte : ℕ → Result CommitType
from_byte byte =
    if byte == 0x01
    then ok add
    else if byte == 0x02
    then ok remove
    else if byte == 0x03
    then ok update
    else err CryptoError.malformed_message

pub record CommitContent : Type 0 where
  pub group_id : List ℕ
  pub epoch : ℕ
  pub commit_type : CommitType
  pub round_hash : List ℕ
  pub path_updates_hash : List ℕ
  pub committer_leaf_position : ℕ
  pub committer_user_id : List ℕ

unfoldable pub new_add : List ℕ → ℕ → List ℕ → List ℕ → ℕ → List ℕ → CommitContent
new_add group_id epoch round_hash path_updates_hash committer_leaf_position committer_user_id =
    record {
      group_id = group_id;
      epoch = epoch;
      commit_type = add;
      round_hash = round_hash;
      path_updates_hash = path_updates_hash;
      committer_leaf_position = committer_leaf_position;
      committer_user_id = committer_user_id;
    }

unfoldable pub new_remove : List ℕ → ℕ → List ℕ → List ℕ → ℕ → List ℕ → CommitContent
new_remove group_id epoch round_hash path_updates_hash committer_leaf_position committer_user_id =
    record {
      group_id = group_id;
      epoch = epoch;
      commit_type = remove;
      round_hash = round_hash;
      path_updates_hash = path_updates_hash;
      committer_leaf_position = committer_leaf_position;
      committer_user_id = committer_user_id;
    }

unfoldable pub new_update : List ℕ → ℕ → List ℕ → List ℕ → ℕ → List ℕ → CommitContent
new_update group_id epoch round_hash path_updates_hash committer_leaf_position committer_user_id =
    record {
      group_id = group_id;
      epoch = epoch;
      commit_type = update;
      round_hash = round_hash;
      path_updates_hash = path_updates_hash;
      committer_leaf_position = committer_leaf_position;
      committer_user_id = committer_user_id;
    }

abbrev pub commit_content_size : ℕ
commit_content_size = 32 + 8 + 1 + 32 + 32 + 4 + 32

-- What `to_bytes` copies, in order, each with the size by which the offset moves.
unfoldable pub content_pieces : CommitContent → List (ℕ × List ℕ)
content_pieces c =
    (32, c.group_id)
    ∷ (8, to_be_bytes 8 c.epoch)
    ∷ (1, as_byte c.commit_type ∷ [])
    ∷ (32, c.round_hash)
    ∷ (32, c.path_updates_hash)
    ∷ (4, to_le_bytes 4 c.committer_leaf_position)
    ∷ (32, c.committer_user_id)
    ∷ []

unfoldable pub content_to_bytes : CommitContent → List ℕ
content_to_bytes c = write_pieces 0 (content_pieces c) (to_le_bytes commit_content_size 0)

unfoldable pub content_from_bytes : List ℕ → Result CommitContent
unfolding from_byte
content_from_bytes bytes =
    if not (length bytes == commit_content_size)
    then err CryptoError.malformed_message
    else from_byte (get_or bytes 40 0) >>= λ commit_type. ok (record {
      group_id = slice bytes 0 32;
      epoch = from_be_bytes (slice bytes 32 8);
      commit_type = commit_type;
      round_hash = slice bytes 41 32;
      path_updates_hash = slice bytes 73 32;
      committer_leaf_position = from_le_bytes (slice bytes 105 4);
      committer_user_id = slice bytes 109 32;
    })

module _ (p : Primitives) where
  unfoldable pub sign_commit :
      HybridIdentityKeypair p → CommitContent → p.Rng → p.Rng × Result HybridSignature
  sign_commit identity content g =
      Signature.sign_with_context p identity.signing (content_to_bytes content) commit_sign_context
        g

  unfoldable pub verify_commit_signature :
      HybridIdentityPublicKey → CommitContent → HybridSignature → Result (Unit {0})
  verify_commit_signature identity_public content signature =
      Signature.verify_with_context p identity_public.signing (content_to_bytes content)
        commit_sign_context signature

  unfoldable pub hash_path_updates : List ℕ → List ℕ
  hash_path_updates path_updates_bytes = p.derive_key path_updates_hash_context path_updates_bytes
