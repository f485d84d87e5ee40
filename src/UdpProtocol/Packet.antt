-- ===== src/UdpProtocol/Packet.antt =====
-- crates/udp-protocol/src/packet.rs: packet types, flags, the header and the packet. Ids and packet
-- numbers are their u64, flags their 16 bits.
use dart_udp.Base.{ℕ, List, Bool, ◌==◌, if◌then◌else◌, bit_and, Result, ok, err}
use dart_udp.UdpProtocol.Error.{ProtocolError, invalid_packet_type, invalid_flags}
use dart_udp.UdpProtocol.Frame.{Frame}

abbrev pub magic : ℕ
magic = 0xd7f1

abbrev pub version : ℕ
version = 2

pub data PacketType : Type 0 where
  initial : PacketType
  handshake : PacketType
  data_packet : PacketType
  close : PacketType
  retry_packet : PacketType

-- `packet_type as u8`
unfoldable pub from_packet_type : PacketType → ℕ
from_packet_type initial = 0
from_packet_type handshake = 1
from_packet_type data_packet = 2
from_packet_type close = 3
from_packet_type retry_packet = 4

-- `PacketType::try_from`
unfoldable pub to_packet_type : ℕ → Result ProtocolError PacketType
to_packet_type value =
    if value == 0
    then ok initial
    else if value == 1
    then ok handshake
    else if value == 2
    then ok data_packet
    else if value == 3
    then ok close
    else if value == 4
    then ok retry_packet
    else err (invalid_packet_type value)

-- The flags `ACK_ELICITING`, `ENCRYPTED`, `PROBE` and `HAS_PADDING`, and all of them.
abbrev pub ack_eliciting : ℕ
ack_eliciting = 0x0001

abbrev pub encrypted : ℕ
encrypted = 0x0002

abbrev pub probe : ℕ
probe = 0x0004

abbrev pub has_padding : ℕ
has_padding = 0x0008

abbrev pub known_bits : ℕ
known_bits = 0x000f

-- `!KNOWN_BITS` in 16 bits.
abbrev pub unknown_bits : ℕ
unknown_bits = 0xfff0

unfoldable pub flags_contain : ℕ → ℕ → Bool
flags_contain flags flag = bit_and flags flag == flag

unfoldable pub flags_from_bits : ℕ → Result ProtocolError ℕ
flags_from_bits bits = if bit_and bits unknown_bits == 0 then ok bits else err (invalid_flags bits)

pub record PacketHeader : Type 0 where
  pub version : ℕ
  pub packet_type : PacketType
  pub flags : ℕ
  pub header_len : ℕ
  pub connection_id : ℕ
  pub packet_number : ℕ
  pub payload_len : ℕ
  pub checksum : ℕ

pub record Packet : Type 0 where
  pub packet_type : PacketType
  pub flags : ℕ
  pub connection_id : ℕ
  pub packet_number : ℕ
  pub frames : List Frame
