-- ===== src/X3dh/Transcript/Tests.antt =====
-- The theorems on transcripts and bundles of crates/trelis-x3dh-pq/src at inputs.
use trelis.Common.{ℕ, suc, refl, ◌≡◌, ap, arith, ◌∷◌, Bool, true}
use trelis.Common.Bytes.{to_le_bytes, length-to_le_bytes}
use trelis.Hybrid.Keys.{all_zero, IsPublicKey}
use trelis.X3dh.Bundle.{PreKeyBundle}
use trelis.X3dh.Transcript.{Transcript}
use trelis.X3dh.Transcript.Binding.{IsTranscript, IsBundle, to_bytes_inj, signing_data_inj}

abbrev zero_transcript : Bool → Transcript
zero_transcript b = record {
  alice_identity_hash = to_le_bytes 32 1;
  bob_identity_hash = to_le_bytes 32 2;
  bundle_hash = to_le_bytes 32 3;
  dh1 = to_le_bytes 56 4;
  dh2 = to_le_bytes 56 5;
  dh3 = to_le_bytes 56 6;
  pq_ss = to_le_bytes 32 7;
  flags = record { li_capable = b };
}

zero_transcript-IsTranscript : (b : Bool) → IsTranscript (zero_transcript b)
zero_transcript-IsTranscript b = record {
  alice_size = length-to_le_bytes 32 1;
  bob_size = length-to_le_bytes 32 2;
  bundle_size = length-to_le_bytes 32 3;
  dh1_size = length-to_le_bytes 56 4;
  dh2_size = length-to_le_bytes 56 5;
  dh3_size = length-to_le_bytes 56 6;
  pq_ss_size = length-to_le_bytes 32 7;
}

to_bytes_inj_example : zero_transcript true ≡ zero_transcript true
to_bytes_inj_example =
    to_bytes_inj (zero_transcript true) (zero_transcript true) (zero_transcript-IsTranscript true)
      (zero_transcript-IsTranscript true) refl

abbrev sized_bundle : PreKeyBundle
sized_bundle = record {
  identity_signing = record { ed448 = to_le_bytes 57 1; mldsa = to_le_bytes 1952 2 };
  identity_kem = record { x448 = to_le_bytes 56 3; sntrup = 1 ∷ to_le_bytes 1157 4 };
  one_time_key = record { x448 = to_le_bytes 56 5; sntrup = 1 ∷ to_le_bytes 1157 6 };
  otk_key_id = 7;
  timestamp = 8;
  expiration = 9;
}

sized_key :
    (n m : ℕ) → IsPublicKey (record { x448 = to_le_bytes 56 n; sntrup = 1 ∷ to_le_bytes 1157 m })
unfolding all_zero
sized_key n m = record {
  x448_size = length-to_le_bytes 56 n;
  sntrup_size = ap suc (length-to_le_bytes 1157 m);
  not_zero = refl;
}

sized_bundle-IsBundle : IsBundle sized_bundle
sized_bundle-IsBundle = record {
  ed448_size = length-to_le_bytes 57 1;
  mldsa_size = length-to_le_bytes 1952 2;
  identity_valid = sized_key 3 4;
  otk_valid = sized_key 5 6;
  id_width = omega arith;
  timestamp_width = omega arith;
  expiration_width = omega arith;
}

signing_data_inj_example : sized_bundle ≡ sized_bundle
signing_data_inj_example =
    signing_data_inj sized_bundle sized_bundle sized_bundle-IsBundle sized_bundle-IsBundle refl
