-- ===== src/X3dh/Transcript/Binding.antt =====
-- What the transcript of crates/trelis-x3dh-pq/src/transcript.rs and the signed bytes of a bundle bind:
-- each field has its place, and different fields give different bytes.
use trelis.Common.{
  ℕ, ◌≡◌, refl, sym, ap, ◌∙◌, arith, List, [], ◌∷◌, Bool, All, length, length-append, if◌then◌else◌,
}
use trelis.Common.Bytes.{
  IsU64, to_le_bytes, from_le_bytes, length-to_le_bytes, from_le_bytes-to_le_bytes,
}
use trelis.Common.Copy.{
  IsSized, joined, write_pieces_lem, total_size, joined_inj, sizes, append_inj, append_nil,
}
use trelis.Hybrid.Keys.{
  HybridKemPublicKey, IsPublicKey, public_key_to_bytes, length-public_key_to_bytes,
}
use trelis.Hybrid.Signature.{signing_key_to_bytes}
use trelis.X3dh.Bundle.{PreKeyBundle, signing_data, bundle_domain}
use trelis.X3dh.Transcript.{Transcript, pieces, to_bytes, to_transcript_bytes}

-- The arrays of a transcript have the sizes of their types.
pub record IsTranscript (t : Transcript) : Type 0 where
  pub alice_size : length t.alice_identity_hash ≡ 32
  pub bob_size : length t.bob_identity_hash ≡ 32
  pub bundle_size : length t.bundle_hash ≡ 32
  pub dh1_size : length t.dh1 ≡ 56
  pub dh2_size : length t.dh2 ≡ 56
  pub dh3_size : length t.dh3 ≡ 56
  pub pq_ss_size : length t.pq_ss ≡ 32

pieces-IsSized : (t : Transcript) → IsTranscript t → All IsSized (pieces t)
unfolding pieces to_transcript_bytes
pieces-IsSized t v = (
  v.alice_size,
  (
    v.bob_size,
    (
      v.bundle_size,
      (v.dh1_size, (v.dh2_size, (v.dh3_size, (v.pq_ss_size, (refl, (refl, (refl, tt))))))),
    ),
  ),
)

to_bytes-joined : (t : Transcript) → IsTranscript t → to_bytes t ≡ joined (pieces t)
unfolding to_bytes pieces total_size
to_bytes-joined t v =
    write_pieces_lem (pieces t) (to_le_bytes 299 0) (pieces-IsSized t v) (length-to_le_bytes 299 0)

flag_byte : (a b : Bool) → ◌≡◌ {A = ℕ} (if a then 1 else 0) (if b then 1 else 0) → a ≡ b
flag_byte a b e = ground arith

-- Different transcripts give different bytes: no field of the handshake can be exchanged for another
-- without a change in what the session's key is derived from. The arrays have the sizes of their
-- types.
pub to_bytes_inj :
    (t t' : Transcript) → IsTranscript t → IsTranscript t' → to_bytes t ≡ to_bytes t' → t ≡ t'
unfolding pieces sizes to_transcript_bytes
to_bytes_inj t t' v v' e = cc (same, flag_byte t.flags.li_capable t'.flags.li_capable (cc same))
  where
    same : pieces t ≡ pieces t'
    same =
        joined_inj (pieces t) (pieces t') (pieces-IsSized t v) (pieces-IsSized t' v') refl
          (sym (to_bytes-joined t v) ∙ (e ∙ to_bytes-joined t' v'))

-- The fields of a bundle have the sizes of their types.
pub record IsBundle (b : PreKeyBundle) : Type 0 where
  pub ed448_size : length b.identity_signing.ed448 ≡ 57
  pub mldsa_size : length b.identity_signing.mldsa ≡ 1952
  pub identity_valid : IsPublicKey b.identity_kem
  pub otk_valid : IsPublicKey b.one_time_key
  pub id_width : IsU64 b.otk_key_id
  pub timestamp_width : IsU64 b.timestamp
  pub expiration_width : IsU64 b.expiration

abbrev fields : PreKeyBundle → List (ℕ × List ℕ)
fields b =
    (23, bundle_domain)
    ∷ (2009, signing_key_to_bytes b.identity_signing)
    ∷ (1214, public_key_to_bytes b.identity_kem)
    ∷ (1214, public_key_to_bytes b.one_time_key)
    ∷ (8, to_le_bytes 8 b.otk_key_id)
    ∷ (8, to_le_bytes 8 b.timestamp)
    ∷ (8, to_le_bytes 8 b.expiration)
    ∷ []

fields-IsSized : (b : PreKeyBundle) → IsBundle b → All IsSized (fields b)
unfolding signing_key_to_bytes
fields-IsSized b v = (
  refl,
  (
    omega (
      arith,
      length-append b.identity_signing.ed448 b.identity_signing.mldsa,
      v.ed448_size,
      v.mldsa_size,
    ),
    (
      length-public_key_to_bytes b.identity_kem v.identity_valid,
      (
        length-public_key_to_bytes b.one_time_key v.otk_valid,
        (
          length-to_le_bytes 8 b.otk_key_id,
          (length-to_le_bytes 8 b.timestamp, (length-to_le_bytes 8 b.expiration, tt)),
        ),
      ),
    ),
  ),
)

signing_data-joined : (b : PreKeyBundle) → signing_data b ≡ joined (fields b)
unfolding signing_data joined
signing_data-joined b = rw (append_nil (to_le_bytes 8 b.expiration))

to_le_bytes_inj : (a b : ℕ) → IsU64 a → IsU64 b → to_le_bytes 8 a ≡ to_le_bytes 8 b → a ≡ b
to_le_bytes_inj a b ha hb e =
    sym (from_le_bytes-to_le_bytes 8 a ha) ∙ (ap from_le_bytes e ∙ from_le_bytes-to_le_bytes 8 b hb)

public_key_inj :
    (a b : HybridKemPublicKey)
    → IsPublicKey a
    → IsPublicKey b
    → public_key_to_bytes a ≡ public_key_to_bytes b
    → a ≡ b
unfolding public_key_to_bytes
public_key_inj a b va vb e =
    let both = append_inj a.x448 b.x448 a.sntrup b.sntrup (va.x448_size ∙ sym vb.x448_size) e in
    cc (both.0, both.1)

-- The bytes that are signed determine the bundle: two bundles with the same signed bytes have the
-- same keys, the same key id, timestamp and expiration. The fields have the sizes of their types.
pub signing_data_inj :
    (a b : PreKeyBundle) → IsBundle a → IsBundle b → signing_data a ≡ signing_data b → a ≡ b
unfolding signing_key_to_bytes sizes
signing_data_inj a b va vb e = cc (
  signing.0,
  signing.1,
  public_key_inj a.identity_kem b.identity_kem va.identity_valid vb.identity_valid (cc same),
  public_key_inj a.one_time_key b.one_time_key va.otk_valid vb.otk_valid (cc same),
  to_le_bytes_inj a.otk_key_id b.otk_key_id va.id_width vb.id_width (cc same),
  to_le_bytes_inj a.timestamp b.timestamp va.timestamp_width vb.timestamp_width (cc same),
  to_le_bytes_inj a.expiration b.expiration va.expiration_width vb.expiration_width (cc same),
)
  where
    same : fields a ≡ fields b
    same =
        joined_inj (fields a) (fields b) (fields-IsSized a va) (fields-IsSized b vb) refl
          (sym (signing_data-joined a) ∙ (e ∙ signing_data-joined b))

    signing :
        (a.identity_signing.ed448 ≡ b.identity_signing.ed448)
        × (a.identity_signing.mldsa ≡ b.identity_signing.mldsa)
    signing =
        append_inj a.identity_signing.ed448 b.identity_signing.ed448 a.identity_signing.mldsa
          b.identity_signing.mldsa (va.ed448_size ∙ sym vb.ed448_size) (cc same)
