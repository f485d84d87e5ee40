-- ===== src/TransferProtocol.antt =====
-- crates/transfer-protocol: the control messages of a file transfer.
pub mod Error
pub mod Types
pub mod Enums
pub mod Kind
pub mod Message
pub mod Wire
pub mod Codec
