-- ===== src/TimeWheel/Config.antt =====
-- crates/time-wheel/src/config.rs: the layout of a timer wheel. A `Duration` is its nanoseconds.
use dart_udp.Base.{
  ℕ, zero, suc, ◌+◌, ◌-◌, ◌*◌, ◌/◌, ◌%◌, ◌^◌, ◌≤◌, ◌<◌, ◌≡◌, refl, arith, ap, sym, ◌∙◌, subst, ◌==◌,
  ltb, not, ◌||◌, Bool, true, false, if◌then◌else◌, Option, none, some, List, [], ◌∷◌, length,
  is_empty, Result, ok, err, ok_or, fail_if, ◌>>=◌, ◌>>◌, >>=-eq-ok, ok-injective,
  ok_pair-injective, ltb→le,
}
use native.Mathlib.Nat.{pow-suc}
use dart_udp.Base.Words.{checked_add, u64_max}
use dart_udp.TimeWheel.Error.{
  ConfigError, zero_tick, tick_range_overflow, invalid_level_count, invalid_slot_count,
  slot_budget_exceeded, derived_range_overflow,
}
pub mod Layout

abbrev pub max_levels : ℕ
max_levels = 8

abbrev pub max_level_slots : ℕ
max_level_slots = 65_536

abbrev pub max_total_slots : ℕ
max_total_slots = 300_000

pub record LevelConfig : Type 0 where
  pub unit_ticks : ℕ
  pub span_ticks : ℕ
  pub slot_count : ℕ
  pub mask : ℕ

pub record WheelConfig : Type 0 where
  pub base_tick : ℕ
  pub base_tick_nanos : ℕ
  pub levels : List LevelConfig
  pub total_slots : ℕ

-- `usize::is_power_of_two`: halved at most 63 times, what is left is 1.
unfoldable pub halves_to_one : ℕ → ℕ → Bool
halves_to_one zero n = n == 1
halves_to_one (suc fuel) n =
    let half = halves_to_one fuel (n / 2) in
    if n == 1 then true else if n % 2 == 0 then half else false

unfoldable pub is_power_of_two : ℕ → Bool
unfolding halves_to_one
is_power_of_two n = halves_to_one 63 n

unfoldable pub checked_mul : ℕ → ℕ → Option ℕ
checked_mul a b = if ltb u64_max (a * b) then none else some (a * b)

-- `slot_count < 2 || !slot_count.is_power_of_two() || slot_count > MAX_LEVEL_SLOTS`
unfoldable pub bad_slot_count : ℕ → Bool
bad_slot_count n = ltb n 2 || (not (is_power_of_two n) || ltb max_level_slots n)

-- The loop of `build` from a level on: the levels, and all slots.
unfoldable pub derive_levels : ℕ → ℕ → ℕ → List ℕ → Result ConfigError (List LevelConfig × ℕ)
unfolding bad_slot_count
derive_levels level unit_ticks total_slots [] = ok ([], total_slots)
derive_levels level unit_ticks total_slots (n ∷ ns) = do
  fail_if (bad_slot_count n) (invalid_slot_count level n)
  total ← ok_or (checked_add total_slots n) (slot_budget_exceeded u64_max max_total_slots)
  fail_if (ltb max_total_slots total) (slot_budget_exceeded total max_total_slots)
  span_ticks ← ok_or (checked_mul unit_ticks n) (derived_range_overflow level)
  derived ← derive_levels (level + 1) span_ticks total ns
  ok (
    record { unit_ticks = unit_ticks; span_ticks = span_ticks; slot_count = n; mask = n - 1 }
        ∷ derived.0,
    derived.1,
  )

-- `WheelConfigBuilder::build`
unfoldable pub build : ℕ → List ℕ → Result ConfigError WheelConfig
build base_tick levels = do
  fail_if (ltb u64_max base_tick) tick_range_overflow
  fail_if (base_tick == 0) zero_tick
  fail_if (is_empty levels || ltb max_levels (length levels))
      (invalid_level_count (length levels) max_levels)
  derived ← derive_levels 0 1 0 levels
  ok (record {
    base_tick = base_tick;
    base_tick_nanos = base_tick;
    levels = derived.0;
    total_slots = derived.1;
  })
