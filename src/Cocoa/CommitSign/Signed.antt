-- ===== src/Cocoa/CommitSign/Signed.antt =====
-- The bytes of a commit of crates/trelis-cocoa/src/operations/commit_sign.rs, read back and verified.
use trelis.Common.{
  ℕ, ◌≡◌, refl, sym, ap, subst, ◌∙◌, arith, List, [], ◌∷◌, All, length, take, drop, get_or,
  get_or-drop,
}
use trelis.Common.Bytes.{
  IsU32, IsU64, to_le_bytes, to_be_bytes, length-to_le_bytes, length-to_be_bytes,
  from_le_bytes-to_le_bytes, from_be_bytes-to_be_bytes,
}
use trelis.Common.Copy.{IsSized, joined, write_pieces_lem, total_size, slice-joined, length-joined}
use trelis.Common.Outcome.{ok, ◌>>=◌}
use trelis.Error.{Result}
use trelis.Hybrid.Identity.{HybridIdentityKeypair}
use trelis.Hybrid.Keys.{HybridSignature}
use trelis.Hybrid.Signature
use trelis.Hybrid.Signature.{IsSigningKeypair, HybridSigningPublicKey}
use trelis.Hybrid.Signature.Verified.{Call, sign_call, verify_call, verify_call-sign_call}
use trelis.Primitives.Interface.{Primitives, PrimitiveLaws}
use trelis.Cocoa.CommitSign.{
  CommitType, CommitContent, add, remove, update, as_byte, from_byte, content_pieces,
  content_to_bytes, content_from_bytes, commit_sign_context, sign_commit, verify_commit_signature,
}

-- The fields have the sizes and widths of their types.
pub record IsContent (c : CommitContent) : Type 0 where
  pub group_size : length c.group_id ≡ 32
  pub epoch_width : IsU64 c.epoch
  pub round_size : length c.round_hash ≡ 32
  pub updates_size : length c.path_updates_hash ≡ 32
  pub position_width : IsU32 c.committer_leaf_position
  pub user_size : length c.committer_user_id ≡ 32

pub content_pieces-IsSized : (c : CommitContent) → IsContent c → All IsSized (content_pieces c)
unfolding content_pieces
content_pieces-IsSized c v = (
  v.group_size,
  (
    length-to_be_bytes 8 c.epoch,
    (
      refl,
      (
        v.round_size,
        (v.updates_size, (length-to_le_bytes 4 c.committer_leaf_position, (v.user_size, tt))),
      ),
    ),
  ),
)

pub content_to_bytes-joined :
    (c : CommitContent) → IsContent c → content_to_bytes c ≡ joined (content_pieces c)
unfolding content_to_bytes content_pieces total_size
content_to_bytes-joined c v =
    write_pieces_lem (content_pieces c) (to_le_bytes 141 0) (content_pieces-IsSized c v)
      (length-to_le_bytes 141 0)

from_byte-as_byte : (t : CommitType) → from_byte (as_byte t) ≡ ok t
unfolding from_byte as_byte
from_byte-as_byte add = refl
from_byte-as_byte remove = refl
from_byte-as_byte update = refl

head_of : (b : ℕ) (bytes : List ℕ) → take 1 bytes ≡ b ∷ [] → get_or bytes 0 0 ≡ b
head_of b [] h = cc h
head_of b (x ∷ xs) h = cc h

pub content_read :
    (c : CommitContent) → IsContent c → content_from_bytes (joined (content_pieces c)) ≡ ok c
unfolding content_from_bytes content_pieces total_size
content_read c v =
    let sized = content_pieces-IsSized c v in
    rw (
      length-joined (content_pieces c) sized,
      get_or-drop 40 (joined (content_pieces c)) 0,
      head_of (as_byte c.commit_type) (drop 40 (joined (content_pieces c))) (
          slice-joined ((32, c.group_id) ∷ (8, to_be_bytes 8 c.epoch) ∷ [])
            (1, as_byte c.commit_type ∷ []) _ (v.group_size, (sized.1.0, tt)) refl),
      from_byte-as_byte c.commit_type,
      slice-joined [] (32, c.group_id) _ tt v.group_size,
      slice-joined ((32, c.group_id) ∷ []) (8, to_be_bytes 8 c.epoch) _ (v.group_size, tt)
          sized.1.0,
      slice-joined
          ((32, c.group_id) ∷ (8, to_be_bytes 8 c.epoch) ∷ (1, as_byte c.commit_type ∷ []) ∷ [])
          (32, c.round_hash) _ (v.group_size, (sized.1.0, (refl, tt))) v.round_size,
      slice-joined
          ((32, c.group_id)
            ∷ (8, to_be_bytes 8 c.epoch)
            ∷ (1, as_byte c.commit_type ∷ [])
            ∷ (32, c.round_hash)
            ∷ [])
          (32, c.path_updates_hash) _ (v.group_size, (sized.1.0, (refl, (v.round_size, tt))))
          v.updates_size,
      slice-joined
          ((32, c.group_id)
            ∷ (8, to_be_bytes 8 c.epoch)
            ∷ (1, as_byte c.commit_type ∷ [])
            ∷ (32, c.round_hash)
            ∷ (32, c.path_updates_hash)
            ∷ [])
          (4, to_le_bytes 4 c.committer_leaf_position) _
          (v.group_size, (sized.1.0, (refl, (v.round_size, (v.updates_size, tt)))))
          (length-to_le_bytes 4 c.committer_leaf_position),
      slice-joined
          ((32, c.group_id)
            ∷ (8, to_be_bytes 8 c.epoch)
            ∷ (1, as_byte c.commit_type ∷ [])
            ∷ (32, c.round_hash)
            ∷ (32, c.path_updates_hash)
            ∷ (4, to_le_bytes 4 c.committer_leaf_position)
            ∷ [])
          (32, c.committer_user_id) _
          (
            v.group_size,
            (
              sized.1.0,
              (
                refl,
                (
                  v.round_size,
                  (v.updates_size, (length-to_le_bytes 4 c.committer_leaf_position, tt)),
                ),
              ),
            ),
          )
          v.user_size,
      from_be_bytes-to_be_bytes 8 c.epoch (omega arith),
      from_le_bytes-to_le_bytes 4 c.committer_leaf_position (omega arith),
    )

-- A commit is read back from the bytes that are signed, and the signature of its committer verifies
-- over what was read. The fields have the sizes and widths of their types, the committer's public
-- keys are those of its secrets, and the primitives satisfy their laws.
pub verify_commit_signature-sign_commit :
    (p : Primitives) (identity : HybridIdentityKeypair p) (content : CommitContent) (g h : p.Rng)
    (signature : HybridSignature)
    → PrimitiveLaws p
    → IsContent content
    → IsSigningKeypair p identity.signing
    → identity.public_key.signing ≡ identity.signing.public_key
    → sign_commit p identity content g ≡ (h, ok signature)
    → (content_from_bytes (content_to_bytes content) >>= λ read.
        verify_commit_signature p identity.public_key read signature)
      ≡ ok tt
unfolding sign_commit verify_commit_signature sign_call verify_call
verify_commit_signature-sign_commit p identity content g h signature laws v valid same made =
    ap
      (λ (r : Result CommitContent).
        r >>= λ read. verify_commit_signature p identity.public_key read signature)
      (ap content_from_bytes (content_to_bytes-joined content v) ∙ content_read content v)
    ∙ subst
        (λ (pk : HybridSigningPublicKey).
          Signature.verify_with_context p pk (content_to_bytes content) commit_sign_context
            signature
          ≡ ok tt)
        (sym same)
        (verify_call-sign_call p identity.signing
          (Call.in_context (content_to_bytes content) commit_sign_context) g h signature laws valid
          made)
