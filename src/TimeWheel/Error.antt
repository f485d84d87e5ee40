-- ===== src/TimeWheel/Error.antt =====
-- crates/time-wheel/src/error.rs.
use dart_udp.Base.{ℕ}

pub data ConfigError : Type 0 where
  zero_tick : ConfigError
  tick_range_overflow : ConfigError
  invalid_level_count : (count max : ℕ) → ConfigError
  invalid_slot_count : (level slot_count : ℕ) → ConfigError
  slot_budget_exceeded : (total_slots max : ℕ) → ConfigError
  derived_range_overflow : (level : ℕ) → ConfigError

pub data TimerError : Type 0 where
  delay_overflow : TimerError
  elapsed_overflow : TimerError
  clock_overflow : TimerError
  deadline_overflow : TimerError
  stale_timer_id : TimerError
  invariant_violation : TimerError
