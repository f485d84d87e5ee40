-- ===== src/UdpProtocol.antt =====
-- crates/udp-protocol: the wire format of packets and frames.
pub mod Error
pub mod Cursor
pub mod Varint
pub mod Reader
pub mod Ack
pub mod Frame
pub mod Checksum
pub mod Packet
pub mod Codec
