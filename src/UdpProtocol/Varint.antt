-- ===== src/UdpProtocol/Varint.antt =====
-- crates/udp-protocol/src/varint.rs: numbers below 2^62 in 1, 2, 4 or 8 bytes.
-- `output: &mut Vec<u8>` is passed and returned; `offset: &mut usize` likewise.
pub mod RoundTrip
use dart_udp.Base.{
  ℕ, ◌+◌, ◌*◌, ◌/◌, ◌%◌, ◌^◌, List, [], ◌∷◌, ◌++◌, leb, ◌==◌, if◌then◌else◌, bit_and, bit_or,
  get_elem?, get_range, Result, ok, err, ◌>>=◌, ok_or,
}
use dart_udp.Base.Words.{be_bytes, from_be_bytes, checked_add}
use dart_udp.UdpProtocol.Error.{ProtocolError, varint_overflow, invalid_varint_length, truncated}

abbrev pub max_value : ℕ
max_value = 0x3fff_ffff_ffff_ffff

unfoldable pub encoded_len : ℕ → Result ProtocolError ℕ
encoded_len value =
    if leb value 0x3f
    then ok 1
    else if leb value 0x3fff
    then ok 2
    else if leb value 0x3fff_ffff
    then ok 4
    else if leb value max_value
    then ok 8
    else err varint_overflow

-- The `match length` of `encode`.
put_as : ℕ → ℕ → List ℕ → Result ProtocolError (List ℕ)
put_as len value output =
    if len == 1
    then ok (output ++ ((value % 2 ^ 8) ∷ []))
    else if len == 2
    then ok (output ++ be_bytes 2 (bit_or (value % 2 ^ 16) 0x4000))
    else if len == 4
    then ok (output ++ be_bytes 4 (bit_or (value % 2 ^ 32) 0x8000_0000))
    else if len == 8
    then ok (output ++ be_bytes 8 (bit_or value 0xc000_0000_0000_0000))
    else err (invalid_varint_length len)

unfoldable pub encode : ℕ → List ℕ → Result ProtocolError (List ℕ)
unfolding encoded_len put_as
encode value output = do len ← encoded_len value; put_as len value output

-- The eight-byte form clears the length bits in its first byte only.
mask_first : List ℕ → List ℕ
mask_first [] = []
mask_first (b ∷ bs) = bit_and b 0x3f ∷ bs

-- The `match length` of `decode`, over a slice of `len` bytes.
strip_length : ℕ → List ℕ → Result ProtocolError ℕ
unfolding mask_first
strip_length len bytes =
    if len == 1
    then ok (bit_and (from_be_bytes bytes) 0x3f)
    else if len == 2
    then ok (bit_and (from_be_bytes bytes) 0x3fff)
    else if len == 4
    then ok (bit_and (from_be_bytes bytes) 0x3fff_ffff)
    else if len == 8
    then ok (from_be_bytes (mask_first bytes))
    else err (invalid_varint_length len)

unfoldable pub decode : List ℕ → ℕ → Result ProtocolError (ℕ × ℕ)
unfolding strip_length
decode input offset = do
  first ← ok_or (get_elem? input offset) (truncated "varint")
  let len = 2 ^ (first / 64)
  stop ← ok_or (checked_add offset len) varint_overflow
  bytes ← ok_or (get_range input offset stop) (truncated "varint")
  value ← strip_length len bytes
  ok (value, stop)
