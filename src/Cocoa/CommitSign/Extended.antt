-- ===== src/Cocoa/CommitSign/Extended.antt =====
-- The extended commits of crates/trelis-cocoa/src/operations/commit_sign.rs, which name the member that
-- an operation adds or removes.
use trelis.Common.{ℕ, ◌≡◌, sym, ap, ◌∙◌, arith, List, [], ◌++◌, Option, none, some, length}
use trelis.Common.Bytes.{IsU32, to_be_bytes, from_be_bytes, from_be_bytes-to_be_bytes}
use trelis.Common.Copy.{append_inj, append_nil, length-joined, total_size}
use trelis.Error.{Result}
use trelis.Hybrid.Identity.{HybridIdentityKeypair, HybridIdentityPublicKey}
use trelis.Hybrid.Keys.{HybridSignature}
use trelis.Hybrid.Signature
use trelis.Primitives.Interface.{Primitives}
use trelis.Cocoa.CommitSign.{
  CommitType, CommitContent, content_to_bytes, content_from_bytes, content_pieces,
  commit_sign_context,
}
use trelis.Cocoa.CommitSign.Signed.{
  IsContent, content_to_bytes-joined, content_read, content_pieces-IsSized,
}

pub record ExtendedCommitContent : Type 0 where
  pub base : CommitContent
  pub added_member : Option (List ℕ)
  pub added_position : Option ℕ
  pub removed_member : Option (List ℕ)
  pub removed_position : Option ℕ

unfoldable pub extend_add : CommitContent → List ℕ → ℕ → ExtendedCommitContent
extend_add base added_member added_position = record {
  base = base;
  added_member = some added_member;
  added_position = some added_position;
  removed_member = none;
  removed_position = none;
}

unfoldable pub extend_remove : CommitContent → List ℕ → ℕ → ExtendedCommitContent
extend_remove base removed_member removed_position = record {
  base = base;
  added_member = none;
  added_position = none;
  removed_member = some removed_member;
  removed_position = some removed_position;
}

unfoldable pub extend_update : CommitContent → ExtendedCommitContent
extend_update base = record {
  base = base;
  added_member = none;
  added_position = none;
  removed_member = none;
  removed_position = none;
}

-- `if let (Some(member), Some(pos)) = ..`, for the added and for the removed member.
unfoldable pub member_bytes : Option (List ℕ) → Option ℕ → List ℕ
member_bytes none pos = []
member_bytes (some member) none = []
member_bytes (some member) (some pos) = member ++ to_be_bytes 4 pos

unfoldable pub extended_to_bytes : ExtendedCommitContent → List ℕ
unfolding member_bytes
extended_to_bytes c =
    content_to_bytes c.base
    ++ (member_bytes c.added_member c.added_position
        ++ member_bytes c.removed_member c.removed_position)

module _ (p : Primitives) where
  unfoldable pub sign_extended_commit :
      HybridIdentityKeypair p → ExtendedCommitContent → p.Rng → p.Rng × Result HybridSignature
  sign_extended_commit identity content g =
      Signature.sign_with_context p identity.signing (extended_to_bytes content) commit_sign_context
        g

  unfoldable pub verify_extended_commit_signature :
      HybridIdentityPublicKey → ExtendedCommitContent → HybridSignature → Result (Unit {0})
  verify_extended_commit_signature identity_public content signature =
      Signature.verify_with_context p identity_public.signing (extended_to_bytes content)
        commit_sign_context signature

-- What the three constructors make for the operation that the base names, with fields of the sizes
-- and widths of their types.
pub data IsExtended : ExtendedCommitContent → Type 0 where
  adds :
      (base : CommitContent) (member : List ℕ) (pos : ℕ)
      → IsContent base
      → base.commit_type ≡ CommitType.add
      → length member ≡ 32
      → IsU32 pos
      → IsExtended (extend_add base member pos)
  removes :
      (base : CommitContent) (member : List ℕ) (pos : ℕ)
      → IsContent base
      → base.commit_type ≡ CommitType.remove
      → length member ≡ 32
      → IsU32 pos
      → IsExtended (extend_remove base member pos)
  updates :
      (base : CommitContent)
      → IsContent base
      → base.commit_type ≡ CommitType.update
      → IsExtended (extend_update base)

IsExtended-IsContent : (c : ExtendedCommitContent) → IsExtended c → IsContent c.base
unfolding extend_add extend_remove extend_update
IsExtended-IsContent c (adds base member pos v t s w) = v
IsExtended-IsContent c (removes base member pos v t s w) = v
IsExtended-IsContent c (updates base v t) = v

content_size : (c : CommitContent) → IsContent c → length (content_to_bytes c) ≡ 141
unfolding content_pieces total_size
content_size c v =
    ap length (content_to_bytes-joined c v)
    ∙ length-joined (content_pieces c) (content_pieces-IsSized c v)

content_to_bytes_inj :
    (c d : CommitContent)
    → IsContent c
    → IsContent d
    → content_to_bytes c ≡ content_to_bytes d
    → c ≡ d
content_to_bytes_inj c d v w e = cc (
    sym (content_read c v)
    ∙ (ap content_from_bytes (sym (content_to_bytes-joined c v) ∙ (e ∙ content_to_bytes-joined d w))
        ∙ content_read d w))

same_base :
    (c d : ExtendedCommitContent)
    → IsExtended c
    → IsExtended d
    → extended_to_bytes c ≡ extended_to_bytes d
    → (c.base ≡ d.base)
      × (member_bytes c.added_member c.added_position
            ++ member_bytes c.removed_member c.removed_position
          ≡ member_bytes d.added_member d.added_position
            ++ member_bytes d.removed_member d.removed_position)
unfolding extended_to_bytes
same_base c d v w e =
    let valid_c = IsExtended-IsContent c v in
    let valid_d = IsExtended-IsContent d w in
    let split =
      append_inj (content_to_bytes c.base) (content_to_bytes d.base) _ _
        (content_size c.base valid_c ∙ sym (content_size d.base valid_d)) e in
    (content_to_bytes_inj c.base d.base valid_c valid_d split.0, split.1)

same_member :
    (m n : List ℕ) (q r : ℕ)
    → length m ≡ 32
    → length n ≡ 32
    → IsU32 q
    → IsU32 r
    → m ++ to_be_bytes 4 q ≡ n ++ to_be_bytes 4 r
    → (m ≡ n) × (q ≡ r)
same_member m n q r hm hn hq hr e =
    let split = append_inj m n (to_be_bytes 4 q) (to_be_bytes 4 r) (hm ∙ sym hn) e in
    (
      split.0,
      sym (from_be_bytes-to_be_bytes 4 q (omega arith))
          ∙ (ap from_be_bytes split.1 ∙ from_be_bytes-to_be_bytes 4 r (omega arith)),
    )

apart :
    {P : Type 0} (c d : CommitContent) (s t : CommitType)
    → (s ≡ t → P)
    → c.commit_type ≡ s
    → d.commit_type ≡ t
    → c ≡ d
    → P
apart c d s t k hc hd e = k (sym hc ∙ (ap (λ (x : CommitContent). x.commit_type) e ∙ hd))

-- The bytes that are signed determine an extended commit: the operation, the member and its
-- position, and every field of the base. Both were made by the constructor for the operation that
-- their base names, with fields of the sizes and widths of their types.
pub extended_to_bytes_inj :
    (c d : ExtendedCommitContent)
    → IsExtended c
    → IsExtended d
    → extended_to_bytes c ≡ extended_to_bytes d
    → c ≡ d
unfolding extend_add extend_remove extend_update member_bytes
extended_to_bytes_inj c d v w e = compare c d v w (same_base c d v w e)
  where
    compare :
        (c d : ExtendedCommitContent)
        → IsExtended c
        → IsExtended d
        → (c.base ≡ d.base)
          × (member_bytes c.added_member c.added_position
                ++ member_bytes c.removed_member c.removed_position
              ≡ member_bytes d.added_member d.added_position
                ++ member_bytes d.removed_member d.removed_position)
        → c ≡ d
    compare c d (adds b m q v t s w) (adds b' n r v' t' s' w') same =
        let member = same_member m n q r s s' w w' (
          sym (append_nil (m ++ to_be_bytes 4 q)) ∙ (same.1 ∙ append_nil (n ++ to_be_bytes 4 r))) in
        λ i. extend_add (same.0 i) (member.0 i) (member.1 i)
    compare c d (removes b m q v t s w) (removes b' n r v' t' s' w') same =
        let member = same_member m n q r s s' w w' same.1 in
        λ i. extend_remove (same.0 i) (member.0 i) (member.1 i)
    compare c d (updates b v t) (updates b' v' t') same = λ i. extend_update (same.0 i)
    compare c d (adds b m q v t s w) (removes b' n r v' t' s' w') same =
        apart b b' _ _ (λ x. cc x) t t' same.0
    compare c d (adds b m q v t s w) (updates b' v' t') same =
        apart b b' _ _ (λ x. cc x) t t' same.0
    compare c d (removes b m q v t s w) (adds b' n r v' t' s' w') same =
        apart b b' _ _ (λ x. cc x) t t' same.0
    compare c d (removes b m q v t s w) (updates b' v' t') same =
        apart b b' _ _ (λ x. cc x) t t' same.0
    compare c d (updates b v t) (adds b' n r v' t' s' w') same =
        apart b b' _ _ (λ x. cc x) t t' same.0
    compare c d (updates b v t) (removes b' n r v' t' s' w') same =
        apart b b' _ _ (λ x. cc x) t t' same.0
