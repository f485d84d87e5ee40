-- ===== src/ReliableCore.antt =====
-- crates/reliable-core: the transport of one connection.
pub mod Error
pub mod SendFlow
pub mod ReceiveFlow
pub mod Congestion
pub mod Rtt
pub mod SendStream
pub mod ReceiveStream
pub mod EndToEnd
pub mod Config
pub mod ReceivedPackets
pub mod StreamManager
