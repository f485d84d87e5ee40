-- ===== src/Runs/Packets.antt =====
-- crates/udp-protocol: a packet with an ACK and a PING, and its parts.
use dart_udp.Base.{ℕ, ◌≡◌, ◌↔◌, refl, arith, map, List, [], ◌∷◌, length, All, ok}
use dart_udp.Base.Words.{be_bytes}
use dart_udp.UdpProtocol.Frame.{Frame, ack, ping, type_code}
use dart_udp.UdpProtocol.Frame.RoundTrip.{on_wire, decode-encode}
use dart_udp.UdpProtocol.Frame.Body.{encode, encode_body, decode}
use dart_udp.UdpProtocol.Frame.Control.{encode_ping}
use dart_udp.UdpProtocol.Varint
use dart_udp.UdpProtocol.Varint.RoundTrip.{decode-encode_value, encode-encoded_len}
use dart_udp.UdpProtocol.Ack
use dart_udp.UdpProtocol.Ack.{
  AckRange, AckFrame, encode_ack, encode_ranges, validate, from_descending,
}
use dart_udp.UdpProtocol.Ack.Decode.{decode_ack}
use dart_udp.UdpProtocol.Ack.Normal.{IsNormal, FitsU64, from_descending_iff}
use dart_udp.UdpProtocol.Ack.RoundTrip.{in_micros, decode_ack-encode_ack}
use dart_udp.UdpProtocol.Checksum.{crc32c_with_zeroed_range, crc32c-replace}
use dart_udp.UdpProtocol.Packet.{
  Packet, data_packet, ack_eliciting, flags_contain, from_packet_type,
}
use dart_udp.UdpProtocol.Codec.{
  encode_packet, decode_packet, encode_frames, encode_each, encode_raw_packet,
  validate_datagram_limit, ensure_datagram_size, put_checksum, header_bytes,
}
use dart_udp.UdpProtocol.Codec.Accepted.{IsAccepted, decode_packet-IsAccepted}
use dart_udp.UdpProtocol.Codec.RoundTrip.{IsPacket, decode_packet-encode_packet}

abbrev two_ranges : List AckRange
two_ranges = record { start = 8; end = 9 } ∷ record { start = 2; end = 5 } ∷ []

-- A delay of 2.5 microseconds.
abbrev ack_frame : AckFrame
ack_frame = record { largest = 9; ack_delay = 2500; ranges = two_ranges }

abbrev two_frames : Packet
two_frames = record {
  packet_type = data_packet;
  flags = ack_eliciting;
  connection_id = 0x0102_0304_0506_0708;
  packet_number = 300;
  frames = ack ack_frame ∷ ping (record { nonce = 77 }) ∷ [];
}

abbrev two_frames_bytes : List ℕ
two_frames_bytes =
    0xd7 ∷ 0xf1 ∷ 2 ∷ 2 ∷ 0 ∷ 1 ∷ 0 ∷ 30 ∷ 1 ∷ 2 ∷ 3 ∷ 4 ∷ 5 ∷ 6 ∷ 7 ∷ 8 ∷ 0 ∷ 0 ∷ 0 ∷ 0 ∷ 0 ∷ 0 ∷ 1
    ∷ 44 ∷ 0 ∷ 19 ∷ 235 ∷ 168 ∷ 118 ∷ 157 ∷ 4 ∷ 7 ∷ 9 ∷ 2 ∷ 2 ∷ 8 ∷ 9 ∷ 2 ∷ 5 ∷ 10 ∷ 8 ∷ 0 ∷ 0 ∷ 0
    ∷ 0 ∷ 0 ∷ 0 ∷ 0 ∷ 77 ∷ []

encode_two_frames : encode_packet two_frames 1200 ≡ ok two_frames_bytes
unfolding encode_packet flags_contain encode_frames encode_each encode encode_body encode_ack
    validate Varint.encode encode_ranges Ack.encode_each encode_ping be_bytes encode_raw_packet
    validate_datagram_limit ensure_datagram_size put_checksum header_bytes crc32c_with_zeroed_range
    type_code from_packet_type
encode_two_frames = refl

two_ranges-IsNormal : IsNormal two_ranges
two_ranges-IsNormal = (omega arith, omega arith, (omega arith, (omega arith, omega arith, tt)))

two_frames-IsPacket : IsPacket two_frames
two_frames-IsPacket = record {
  flags = omega arith;
  connection_id = omega arith;
  packet_number = omega arith;
  frames = (two_ranges-IsNormal, (omega arith, tt));
}

decode_packet-encode_packet_example :
    decode_packet two_frames_bytes 1200
    ≡ ok (record two_frames { frames = map on_wire two_frames.frames })
decode_packet-encode_packet_example =
    decode_packet-encode_packet two_frames 1200 two_frames_bytes two_frames-IsPacket
      encode_two_frames

two_frames_back :
    decode_packet two_frames_bytes 1200
    ≡ ok (record two_frames { frames = map on_wire two_frames.frames })
two_frames_back =
    decode_packet-encode_packet two_frames 1200 two_frames_bytes two_frames-IsPacket
      encode_two_frames

decode_packet-IsAccepted_example :
    IsAccepted two_frames_bytes 1200 (record two_frames { frames = map on_wire two_frames.frames })
decode_packet-IsAccepted_example =
    decode_packet-IsAccepted two_frames_bytes 1200
      (record two_frames { frames = map on_wire two_frames.frames }) two_frames_back

-- Two bytes already in the output, two bytes behind.
encode_300 : Varint.encode 300 (7 ∷ 8 ∷ []) ≡ ok (7 ∷ 8 ∷ 0x41 ∷ 0x2c ∷ [])
unfolding Varint.encode be_bytes
encode_300 = refl

decode-encode_value_example : Varint.decode (7 ∷ 8 ∷ 0x41 ∷ 0x2c ∷ 9 ∷ 9 ∷ []) 2 ≡ ok (300, 4)
decode-encode_value_example =
    decode-encode_value 300 (7 ∷ 8 ∷ []) (7 ∷ 8 ∷ 0x41 ∷ 0x2c ∷ []) (9 ∷ 9 ∷ []) encode_300
      (omega arith)

encode-encoded_len_example :
    (bytes : List ℕ) × (Varint.encode 300 (7 ∷ []) ≡ ok (7 ∷ bytes))
    × (Varint.encoded_len 300 ≡ ok (length bytes))
encode-encoded_len_example = encode-encoded_len 300 (7 ∷ []) (omega arith)

encode_ack_frame : encode_ack ack_frame (1 ∷ []) ≡ ok (1 ∷ 9 ∷ 2 ∷ 2 ∷ 8 ∷ 9 ∷ 2 ∷ 5 ∷ [])
unfolding encode_ack validate Varint.encode encode_ranges Ack.encode_each be_bytes
encode_ack_frame = refl

decode_ack-encode_ack_example :
    decode_ack (1 ∷ 9 ∷ 2 ∷ 2 ∷ 8 ∷ 9 ∷ 2 ∷ 5 ∷ 6 ∷ []) 1 ≡ ok (in_micros ack_frame, 8)
decode_ack-encode_ack_example =
    decode_ack-encode_ack ack_frame (1 ∷ []) (1 ∷ 9 ∷ 2 ∷ 2 ∷ 8 ∷ 9 ∷ 2 ∷ 5 ∷ []) (6 ∷ [])
      two_ranges-IsNormal encode_ack_frame (omega arith)

two_ranges-FitsU64 : All FitsU64 two_ranges
two_ranges-FitsU64 = ((omega arith, omega arith), ((omega arith, omega arith), tt))

from_descending_iff_example :
    (from_descending two_ranges ≡ ok two_ranges) ↔ ((two_ranges ≡ two_ranges) × IsNormal two_ranges)
from_descending_iff_example = from_descending_iff two_ranges two_ranges two_ranges-FitsU64

crc32c-replace_example :
    crc32c_with_zeroed_range (1 ∷ 2 ∷ 3 ∷ 4 ∷ []) 1 3
    ≡ crc32c_with_zeroed_range (1 ∷ 8 ∷ 9 ∷ 4 ∷ []) 1 3
crc32c-replace_example = crc32c-replace (1 ∷ []) (2 ∷ 3 ∷ []) (8 ∷ 9 ∷ []) (4 ∷ []) refl

abbrev ping_frame : Frame
ping_frame = ping (record { nonce = 77 })

abbrev ping_body : List ℕ
ping_body = 0 ∷ 0 ∷ 0 ∷ 0 ∷ 0 ∷ 0 ∷ 0 ∷ 77 ∷ []

encode_ping_frame : encode_body ping_frame [] ≡ ok ping_body
unfolding encode_body encode_ping be_bytes
encode_ping_frame = refl

decode-encode_example : decode (type_code ping_frame) ping_body ≡ ok (on_wire ping_frame)
decode-encode_example =
    decode-encode ping_frame ping_body (omega arith) encode_ping_frame (omega arith)
