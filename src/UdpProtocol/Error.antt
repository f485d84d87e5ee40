-- ===== src/UdpProtocol/Error.antt =====
-- crates/udp-protocol/src/error.rs and the error types of crypto.rs.
use dart_udp.Base.{ℕ, String}

pub data ReplayError : Type 0 where
  duplicate : ReplayError
  too_old : ReplayError

pub data CryptoError : Type 0 where
  randomness_unavailable : CryptoError
  invalid_peer_public_key : CryptoError
  invalid_shared_secret : CryptoError
  key_derivation_failed : CryptoError
  authentication_failed : CryptoError
  replay : ReplayError → CryptoError
  encrypted_payload_too_short : CryptoError

pub data ProtocolError : Type 0 where
  datagram_too_short : (minimum actual : ℕ) → ProtocolError
  datagram_too_large : (maximum actual : ℕ) → ProtocolError
  invalid_magic : (expected actual : ℕ) → ProtocolError
  unsupported_version : (version : ℕ) → ProtocolError
  invalid_packet_type : (value : ℕ) → ProtocolError
  invalid_flags : (value : ℕ) → ProtocolError
  invalid_header_length : (expected actual : ℕ) → ProtocolError
  payload_length_mismatch : (declared actual : ℕ) → ProtocolError
  checksum_mismatch : (expected actual : ℕ) → ProtocolError
  empty_packet : ProtocolError
  too_many_frames : (maximum : ℕ) → ProtocolError
  unknown_frame_type : (value : ℕ) → ProtocolError
  frame_too_large : (maximum actual : ℕ) → ProtocolError
  truncated : (context : String) → ProtocolError
  varint_overflow : ProtocolError
  invalid_varint_length : (length : ℕ) → ProtocolError
  invalid_value : (field : String) → ProtocolError
  invalid_ack_ranges : ProtocolError
  ack_range_count_exceeded : (maximum : ℕ) → ProtocolError
  invalid_utf8 : (field : String) → ProtocolError
  encrypted_packet_requires_keys : ProtocolError
  encryption_not_allowed : ProtocolError
  crypto : CryptoError → ProtocolError
