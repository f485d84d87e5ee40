-- ===== src/TransferProtocol/Error.antt =====
-- crates/transfer-protocol/src/error.rs
use dart_udp.Base.{ℕ, String}

pub data ProtocolError : Type 0 where
  message_too_short : (minimum actual : ℕ) → ProtocolError
  message_too_large : (maximum actual : ℕ) → ProtocolError
  declared_length_mismatch : (declared actual : ℕ) → ProtocolError
  unsupported_version : (version : ℕ) → ProtocolError
  unknown_message_type : (value : ℕ) → ProtocolError
  invalid_flags : (value : ℕ) → ProtocolError
  truncated : (context : String) → ProtocolError
  invalid_value : (field : String) → ProtocolError
  invalid_utf8 : (field : String) → ProtocolError
  field_too_large : (field : String) (maximum actual : ℕ) → ProtocolError
  too_many_items : (field : String) (maximum actual : ℕ) → ProtocolError
  invalid_pairing_code : ProtocolError
  randomness_unavailable : ProtocolError
