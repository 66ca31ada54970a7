-- ===== src/Wire/Header.antt =====
-- crates/trelis-wire/src/header.rs: the two bytes that every protocol message begins with.
use trelis.Common.{ℕ, List, [], ◌∷◌, ◌==◌, if◌then◌else◌, get_or}
use trelis.Common.Outcome.{ok, err, ◌>>=◌, ◌>>◌, guard}
use trelis.Error.{Result, unsupported_protocol_version, unsupported_cipher_suite}
use trelis.Wire.Constants.{protocol_version, cipher_suite}

pub data ProtocolVersion : Type 0 where
  v1 : ProtocolVersion

pub data CipherSuite : Type 0 where
  trelis_hybrid_v1 : CipherSuite

unfoldable pub version_from_byte : ℕ → Result ProtocolVersion
version_from_byte byte =
    if byte == 0x01 then ok v1 else err (unsupported_protocol_version byte protocol_version)

unfoldable pub version_as_byte : ProtocolVersion → ℕ
version_as_byte v1 = 0x01

unfoldable pub suite_from_byte : ℕ → Result CipherSuite
suite_from_byte byte =
    if byte == 0x01 then ok trelis_hybrid_v1 else err (unsupported_cipher_suite byte cipher_suite)

unfoldable pub suite_as_byte : CipherSuite → ℕ
suite_as_byte trelis_hybrid_v1 = 0x01

pub record Header : Type 0 where
  pub version : ProtocolVersion
  pub suite : CipherSuite

abbrev pub current : Header
current = record { version = v1; suite = trelis_hybrid_v1 }

unfoldable pub to_bytes : Header → List ℕ
unfolding version_as_byte suite_as_byte
to_bytes h = version_as_byte h.version ∷ suite_as_byte h.suite ∷ []

-- The argument is an array of two bytes, so both reads are in range.
unfoldable pub from_bytes : List ℕ → Result Header
unfolding version_from_byte suite_from_byte
from_bytes bytes = do
  version ← version_from_byte (get_or bytes 0 0)
  suite ← suite_from_byte (get_or bytes 1 0)
  ok (record { version = version; suite = suite })

unfoldable pub validate : Header → Result (Unit {0})
unfolding version_as_byte suite_as_byte
validate h = do
  guard (version_as_byte h.version == protocol_version)
      (unsupported_protocol_version (version_as_byte h.version) protocol_version)
  guard (suite_as_byte h.suite == cipher_suite)
      (unsupported_cipher_suite (suite_as_byte h.suite) cipher_suite)
