-- ===== src/ReliableUdp.antt =====
-- crates/reliable-udp: of the runtime around the connections, the cookies of a retry.
pub mod Retry
