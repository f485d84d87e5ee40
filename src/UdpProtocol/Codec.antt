-- ===== src/UdpProtocol/Codec.antt =====
-- crates/udp-protocol/src/codec.rs: packets in plain text. Writing a frame appends to the payload;
-- the fields of the header are written one after another, at the places that the source indexes.
pub mod Header
pub mod Frames
pub mod RoundTrip
pub mod Accepted
use dart_udp.Base.{
  ℕ, zero, suc, ◌+◌, ◌-◌, ◌%◌, ◌^◌, List, [], ◌∷◌, ◌++◌, ltb, ◌==◌, not, if◌then◌else◌, length,
  take, drop, is_empty, get_elem?, get_range, Result, ok, err, ok_or, fail_if, ◌>>=◌, ◌>>◌,
}
use dart_udp.Base.Words.{be_bytes, from_be_bytes, checked_add, u16_max, u64_max}
use dart_udp.UdpProtocol.Error.{
  ProtocolError, encryption_not_allowed, empty_packet, too_many_frames, frame_too_large,
  datagram_too_large, datagram_too_short, encrypted_packet_requires_keys, payload_length_mismatch,
  checksum_mismatch, truncated, invalid_value, invalid_magic, unsupported_version,
  invalid_header_length,
}
use dart_udp.UdpProtocol.Varint
use dart_udp.UdpProtocol.Frame.{Frame, fixed_header_len, max_frame_body_len}
use dart_udp.UdpProtocol.Frame.Body
use dart_udp.UdpProtocol.Checksum.{crc32c_with_zeroed_range}
use dart_udp.UdpProtocol.Packet.{
  PacketType, from_packet_type, to_packet_type, Packet, PacketHeader, magic, version, encrypted,
  flags_contain, flags_from_bits,
}

abbrev pub max_frame_count : ℕ
max_frame_count = 64

unfoldable pub validate_datagram_limit : ℕ → Result ProtocolError (Unit {0})
validate_datagram_limit max_datagram_size =
    fail_if (ltb max_datagram_size fixed_header_len) (invalid_value "max_datagram_size")

unfoldable pub ensure_datagram_size : ℕ → ℕ → Result ProtocolError (Unit {0})
ensure_datagram_size actual maximum =
    fail_if (ltb maximum actual) (datagram_too_large maximum actual)

-- The loop of `encode_frames`.
unfoldable pub encode_each : List Frame → List ℕ → Result ProtocolError (List ℕ)
encode_each [] payload = ok payload
encode_each (f ∷ fs) payload = do next ← Body.encode f payload; encode_each fs next

unfoldable pub encode_frames : Packet → Result ProtocolError (List ℕ)
encode_frames packet = do
  fail_if (is_empty packet.frames) empty_packet
  fail_if (ltb max_frame_count (length packet.frames)) (too_many_frames max_frame_count)
  payload ← encode_each packet.frames []
  fail_if (ltb u16_max (length payload)) (frame_too_large u16_max (length payload))
  ok payload

-- The header with its checksum field zero.
unfoldable pub header_bytes : PacketType → ℕ → ℕ → ℕ → ℕ → List ℕ
header_bytes packet_type flags connection_id packet_number payload_len =
    be_bytes 2 magic
    ++ (version ∷ from_packet_type packet_type ∷ [])
    ++ be_bytes 2 flags
    ++ be_bytes 2 fixed_header_len
    ++ be_bytes 8 connection_id
    ++ be_bytes 8 packet_number
    ++ be_bytes 2 (payload_len % 2 ^ 16)
    ++ (0 ∷ 0 ∷ 0 ∷ 0 ∷ [])

-- `output[26..30].copy_from_slice(&checksum.to_be_bytes())`
unfoldable pub put_checksum : List ℕ → List ℕ
put_checksum output =
    take 26 output ++ (be_bytes 4 (crc32c_with_zeroed_range output 26 30) ++ drop 30 output)

unfoldable pub encode_raw_packet : Packet → ℕ → List ℕ → ℕ → Result ProtocolError (List ℕ)
encode_raw_packet packet flags payload max_datagram_size = do
  validate_datagram_limit max_datagram_size
  total_len ←
      ok_or (checked_add fixed_header_len (length payload))
        (datagram_too_large max_datagram_size u64_max)
  ensure_datagram_size total_len max_datagram_size
  let header =
      header_bytes packet.packet_type flags packet.connection_id packet.packet_number
        (length payload)
  ok (put_checksum (header ++ payload))

unfoldable pub encode_packet : Packet → ℕ → Result ProtocolError (List ℕ)
encode_packet packet max_datagram_size = do
  fail_if (flags_contain packet.flags encrypted) encryption_not_allowed
  payload ← encode_frames packet
  encode_raw_packet packet packet.flags payload max_datagram_size

-- The big-endian number in the `n` bytes from `from` on; a header has them all.
abbrev pub field : List ℕ → ℕ → ℕ → ℕ
field bytes from n = from_be_bytes (take n (drop from bytes))

unfoldable pub decode_header : List ℕ → Result ProtocolError PacketHeader
decode_header bytes = do
  let found = field bytes 0 2
  fail_if (not (found == magic)) (invalid_magic magic found)
  let ver = field bytes 2 1
  fail_if (not (ver == version)) (unsupported_version ver)
  packet_type ← to_packet_type (field bytes 3 1)
  flags ← flags_from_bits (field bytes 4 2)
  let header_len = field bytes 6 2
  fail_if (not (header_len == fixed_header_len)) (invalid_header_length fixed_header_len header_len)
  ok (record {
    version = ver;
    packet_type = packet_type;
    flags = flags;
    header_len = header_len;
    connection_id = field bytes 8 8;
    packet_number = field bytes 16 8;
    payload_len = field bytes 24 2;
    checksum = field bytes 26 4;
  })

unfoldable pub decode_header_and_lengths : List ℕ → ℕ → Result ProtocolError PacketHeader
decode_header_and_lengths bytes max_datagram_size = do
  validate_datagram_limit max_datagram_size
  fail_if (ltb (length bytes) fixed_header_len) (datagram_too_short fixed_header_len (length bytes))
  fail_if (ltb max_datagram_size (length bytes))
      (datagram_too_large max_datagram_size (length bytes))
  header ← decode_header bytes
  let actual = length bytes - header.header_len
  fail_if (not (header.payload_len == actual)) (payload_length_mismatch header.payload_len actual)
  ok header

unfoldable pub verify_checksum : List ℕ → PacketHeader → Result ProtocolError (Unit {0})
verify_checksum bytes header =
    let expected = crc32c_with_zeroed_range bytes 26 30 in
    fail_if (not (expected == header.checksum)) (checksum_mismatch expected header.checksum)

-- One round of the loop of `decode_frames`: a frame, and the offset behind it.
unfoldable pub decode_one : List ℕ → ℕ → Result ProtocolError (Frame × ℕ)
decode_one payload offset = do
  frame_type ← ok_or (get_elem? payload offset) (truncated "frame type")
  (body_len, start) ← Varint.decode payload (offset + 1)
  fail_if (ltb max_frame_body_len body_len) (frame_too_large max_frame_body_len body_len)
  stop ← ok_or (checked_add start body_len) (truncated "frame body")
  body ← ok_or (get_range payload start stop) (truncated "frame body")
  frame ← Body.decode frame_type body
  ok (frame, stop)

-- The loop, with `MAX_FRAME_COUNT - frames.len()` for the frames that may still come.
unfoldable pub decode_each : ℕ → List ℕ → ℕ → Result ProtocolError (List Frame)
decode_each zero payload offset =
    if ltb offset (length payload) then err (too_many_frames max_frame_count) else ok []
decode_each (suc room) payload offset =
    let more =
      decode_one payload offset >>= λ r. decode_each room payload r.1 >>= λ fs. ok (r.0 ∷ fs) in
    if ltb offset (length payload) then more else ok []

unfoldable pub decode_frames : List ℕ → Result ProtocolError (List Frame)
decode_frames payload = do
  frames ← decode_each max_frame_count payload 0
  fail_if (is_empty frames) empty_packet
  ok frames

unfoldable pub decode_plain_packet : List ℕ → PacketHeader → Result ProtocolError Packet
decode_plain_packet bytes header = do
  verify_checksum bytes header
  let payload = drop header.header_len bytes
  fail_if (is_empty payload) empty_packet
  frames ← decode_frames payload
  ok (record {
    packet_type = header.packet_type;
    flags = header.flags;
    connection_id = header.connection_id;
    packet_number = header.packet_number;
    frames = frames;
  })

unfoldable pub decode_packet : List ℕ → ℕ → Result ProtocolError Packet
decode_packet bytes max_datagram_size = do
  header ← decode_header_and_lengths bytes max_datagram_size
  fail_if (flags_contain header.flags encrypted) encrypted_packet_requires_keys
  decode_plain_packet bytes header

unfoldable pub peek_connection_id : List ℕ → ℕ → Result ProtocolError ℕ
peek_connection_id bytes max_datagram_size = do
  header ← decode_header_and_lengths bytes max_datagram_size
  ok header.connection_id

unfoldable pub peek_packet_flags : List ℕ → ℕ → Result ProtocolError ℕ
peek_packet_flags bytes max_datagram_size = do
  header ← decode_header_and_lengths bytes max_datagram_size
  ok header.flags
