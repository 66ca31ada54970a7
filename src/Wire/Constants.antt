-- ===== src/Wire/Constants.antt =====
-- crates/trelis-wire/src/constants.rs: versions, sizes and bounds of the wire format.
use trelis.Common.{ℕ, ◌+◌}

abbrev pub protocol_version : ℕ
protocol_version = 0x01

abbrev pub cipher_suite : ℕ
cipher_suite = 0x01

abbrev pub header_size : ℕ
header_size = 2

abbrev pub nonce_size : ℕ
nonce_size = 24

abbrev pub tag_size : ℕ
tag_size = 16

abbrev pub x448_pk_size : ℕ
x448_pk_size = 56

abbrev pub sntrup761_pk_size : ℕ
sntrup761_pk_size = 1158

abbrev pub sntrup761_ct_size : ℕ
sntrup761_ct_size = 1039

abbrev pub hybrid_kem_pk_size : ℕ
hybrid_kem_pk_size = x448_pk_size + sntrup761_pk_size

abbrev pub hybrid_encap_size : ℕ
hybrid_encap_size = x448_pk_size + sntrup761_ct_size
