-- ===== src/TransferProtocol/Enums.antt =====
-- crates/transfer-protocol/src/message.rs: the enumerations that stand for one byte.
pub mod Pairing
pub mod Transfer
use dart_udp.Base.{ℕ, ◌≡◌, Result, ok}
use dart_udp.TransferProtocol.Error.{ProtocolError}

-- `#[repr(u8)]` with `as u8`, and `TryFrom<u8>`.
pub record ByteEnum (T : Type 0) : Type 0 where
  pub code : T → ℕ
  pub of : ℕ → Result ProtocolError T
  pub of-code : (t : T) → of (code t) ≡ ok t
