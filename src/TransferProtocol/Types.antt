-- ===== src/TransferProtocol/Types.antt =====
-- crates/transfer-protocol/src/types.rs: identifiers, digests and pairing codes. An identifier is its
-- 16 bytes, a `String` its bytes in UTF-8, and a socket address its octets and numbers.
use dart_udp.Base.{
  ℕ, ◌-◌, ◌≡◌, refl, ◌==◌, leb, Bool, true, not, ◌&&◌, ◌||◌, if◌then◌else◌, List, [], ◌∷◌, map,
  length, any, Result, ok, err, fail_if, ◌>>◌,
}
use dart_udp.TransferProtocol.Error.{ProtocolError, invalid_value, invalid_pairing_code}

abbrev pub id_len : ℕ
id_len = 16

abbrev pub check_token_len : ℕ
check_token_len = 32

abbrev pub digest_len : ℕ
digest_len = 32

abbrev pub pairing_code_min_len : ℕ
pairing_code_min_len = 8

abbrev pub pairing_code_max_len : ℕ
pairing_code_max_len = 10

-- "0123456789ABCDEFGHJKMNPQRSTVWXYZ"
abbrev pub crockford_alphabet : List ℕ
crockford_alphabet =
    48 ∷ 49 ∷ 50 ∷ 51 ∷ 52 ∷ 53 ∷ 54 ∷ 55 ∷ 56 ∷ 57 ∷ 65 ∷ 66 ∷ 67 ∷ 68 ∷ 69 ∷ 70 ∷ 71 ∷ 72 ∷ 74
    ∷ 75 ∷ 77 ∷ 78 ∷ 80 ∷ 81 ∷ 82 ∷ 83 ∷ 84 ∷ 86 ∷ 87 ∷ 88 ∷ 89 ∷ 90 ∷ []

pub data HashAlgorithm : Type 0 where
  blake3 : HashAlgorithm
  sha256 : HashAlgorithm

unfoldable pub hash_algorithm_code : HashAlgorithm → ℕ
hash_algorithm_code blake3 = 1
hash_algorithm_code sha256 = 2

-- `HashAlgorithm::try_from`, with the error that its one caller makes of `()`.
unfoldable pub hash_algorithm_of : ℕ → Result ProtocolError HashAlgorithm
hash_algorithm_of value =
    if value == 1
    then ok blake3
    else if value == 2
    then ok sha256
    else err (invalid_value "hash algorithm")

pub hash_algorithm_law : (a : HashAlgorithm) → hash_algorithm_of (hash_algorithm_code a) ≡ ok a
unfolding hash_algorithm_of hash_algorithm_code
hash_algorithm_law blake3 = refl
hash_algorithm_law sha256 = refl

pub record Digest : Type 0 where
  pub algorithm : HashAlgorithm
  pub bytes : List ℕ

-- `u8::to_ascii_uppercase`
unfoldable pub to_ascii_uppercase : ℕ → ℕ
to_ascii_uppercase byte = if leb 97 byte && leb byte 122 then byte - 32 else byte

all_in_alphabet : List ℕ → Bool
unfolding to_ascii_uppercase
all_in_alphabet [] = true
all_in_alphabet (b ∷ bs) =
    any (λ c. c == to_ascii_uppercase b) crockford_alphabet && all_in_alphabet bs

-- `PairingCode::parse`
unfoldable pub parse_code : List ℕ → Result ProtocolError (List ℕ)
unfolding all_in_alphabet to_ascii_uppercase
parse_code value = do
  fail_if
      (not (leb pairing_code_min_len (length value) && leb (length value) pairing_code_max_len)
        || not (all_in_alphabet value))
      invalid_pairing_code
  ok (map to_ascii_uppercase value)

pub data SocketAddr : Type 0 where
  v4 : (ip : List ℕ) (port : ℕ) → SocketAddr
  v6 : (ip : List ℕ) (port flowinfo scope_id : ℕ) → SocketAddr
