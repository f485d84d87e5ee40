-- ===== src/Runs/Wheel.antt =====
-- crates/time-wheel/src/config.rs at concrete layouts.
use dart_udp.Base.{◌≡◌, refl, [], ◌∷◌, ok}
use dart_udp.TimeWheel.Config.{
  WheelConfig, build, derive_levels, bad_slot_count, is_power_of_two, halves_to_one, checked_mul,
}
use dart_udp.TimeWheel.Config.Layout.{IsWheel, build-IsWheel}

-- 10 ms and the levels of `WheelConfig::default`.
abbrev default_wheel : WheelConfig
default_wheel = record {
  base_tick = 10_000_000;
  base_tick_nanos = 10_000_000;
  levels =
      record { unit_ticks = 1; span_ticks = 512; slot_count = 512; mask = 511 }
      ∷ record { unit_ticks = 512; span_ticks = 32_768; slot_count = 64; mask = 63 }
      ∷ record { unit_ticks = 32_768; span_ticks = 2_097_152; slot_count = 64; mask = 63 }
      ∷ [];
  total_slots = 640;
}

default_wheel-built : build 10_000_000 (512 ∷ 64 ∷ 64 ∷ []) ≡ ok default_wheel
unfolding build derive_levels bad_slot_count is_power_of_two halves_to_one checked_mul
default_wheel-built = refl

build-IsWheel_example : IsWheel 10_000_000 (512 ∷ 64 ∷ 64 ∷ []) default_wheel
build-IsWheel_example = build-IsWheel 10_000_000 (512 ∷ 64 ∷ 64 ∷ []) default_wheel-built
