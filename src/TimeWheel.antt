-- ===== src/TimeWheel.antt =====
-- crates/time-wheel: its error types and its configuration.
pub mod Error
pub mod Config
