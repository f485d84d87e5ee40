-- ===== src/TimeWheel/Config/Layout.antt =====
-- crates/time-wheel/src/config.rs: the levels that `build` derives.
use dart_udp.Base.{
  ℕ, zero, suc, ◌+◌, ◌-◌, ◌*◌, ◌/◌, ◌%◌, ◌^◌, ◌≤◌, ◌<◌, ◌≡◌, refl, arith, ap, subst, ◌==◌, ltb, not,
  ◌||◌, Bool, true, false, if◌then◌else◌, none, some, List, [], ◌∷◌, length, is_empty, ok, ok_or,
  fail_if, >>=-eq-ok, ok-injective, ok_pair-injective, ltb→le,
}
use native.Mathlib.Nat.{pow-suc}
use dart_udp.Base.Words.{checked_add, u64_max}
use dart_udp.TimeWheel.Error.{
  ConfigError, zero_tick, tick_range_overflow, invalid_level_count, invalid_slot_count,
  slot_budget_exceeded, derived_range_overflow,
}
use dart_udp.TimeWheel.Config.{
  max_levels, max_level_slots, max_total_slots, LevelConfig, WheelConfig, halves_to_one,
  is_power_of_two, checked_mul, bad_slot_count, derive_levels, build,
}

unfoldable pub sum_slots : List ℕ → ℕ
sum_slots [] = 0
sum_slots (n ∷ ns) = n + sum_slots ns

-- Every level spans its slots of the ticks below it, within a u64, with a power of two of slots.
unfoldable pub IsLayout : ℕ → List ℕ → List LevelConfig → Type 0
IsLayout unit [] [] = Unit {0}
IsLayout unit [] (l ∷ ls) = ⊥
IsLayout unit (n ∷ ns) [] = ⊥
IsLayout unit (n ∷ ns) (l ∷ ls) =
    (l ≡ record { unit_ticks = unit; span_ticks = unit * n; slot_count = n; mask = n - 1 })
    × (unit * n ≤ u64_max)
    × ((k : ℕ) × (n ≡ 2 ^ k))
    × (2 ≤ n)
    × (n ≤ max_level_slots)
    × IsLayout (unit * n) ns ls

halves_to_one-power : (fuel n : ℕ) → halves_to_one fuel n ≡ true → (k : ℕ) × (n ≡ 2 ^ k)
unfolding halves_to_one
halves_to_one-power zero n h = (0, ground (arith, h))
halves_to_one-power (suc fuel) n h =
    go (n == 1) (n % 2 == 0) refl refl h (halves_to_one-power fuel (n / 2))
  where
    go :
        (one even : Bool)
        → (n == 1) ≡ one
        → (n % 2 == 0) ≡ even
        → (if one then true else if even then halves_to_one fuel (n / 2) else false) ≡ true
        → (halves_to_one fuel (n / 2) ≡ true → (k : ℕ) × (n / 2 ≡ 2 ^ k))
        → (k : ℕ) × (n ≡ 2 ^ k)
    go true even e e' h half = (0, ground (arith, e))
    go false true e e' h half =
        let (k, same) = half h in
        let double : n ≡ n / 2 * 2 = ground (arith, e') in
        (suc k, omega (arith, double, same, pow-suc 2 k))
    go false false e e' h half = absurd (cc)

in_range :
    (p low high : Bool)
    → (low || (not p || high)) ≡ false
    → (p ≡ true) × (low ≡ false) × (high ≡ false)
in_range true false false h = (refl, refl, refl)
in_range true false true h = absurd (cc)
in_range true true high h = absurd (cc)
in_range false true high h = absurd (cc)
in_range false false high h = absurd (cc)

not_below : (a b : ℕ) → ltb a b ≡ false → b ≤ a
not_below a b h = ground (arith, h)

bad_slot_count-false :
    (n : ℕ) → bad_slot_count n ≡ false → ((k : ℕ) × (n ≡ 2 ^ k)) × (2 ≤ n) × (n ≤ max_level_slots)
unfolding bad_slot_count is_power_of_two
bad_slot_count-false n h =
    let (power, low, high) = in_range (halves_to_one 63 n) (ltb n 2) (ltb max_level_slots n) h in
    (halves_to_one-power 63 n power, not_below n 2 low, not_below max_level_slots n high)

fail_if-passed : (b : Bool) (e : ConfigError) {u : Unit {0}} → fail_if b e ≡ ok u → b ≡ false
fail_if-passed true e h = absurd (cc)
fail_if-passed false e h = refl

checked_mul-ok :
    (level unit n : ℕ) {span : ℕ}
    → ok_or (checked_mul unit n) (derived_range_overflow level) ≡ ok span
    → (span ≡ unit * n) × (unit * n ≤ u64_max)
unfolding checked_mul
checked_mul-ok level unit n {span} h = go (unit * n) h
  where
    go :
        (p : ℕ)
        → ok_or (if ltb u64_max p then none else some p) (derived_range_overflow level) ≡ ok span
        → (span ≡ p) × (p ≤ u64_max)
    go p h = ground (arith, h)

level_count :
    (slots : List ℕ)
    → (is_empty slots || ltb max_levels (length slots)) ≡ false
    → (1 ≤ length slots) × (length slots ≤ max_levels)
level_count [] h = absurd (cc)
level_count (n ∷ ns) h = ground (arith, h)

derive_levels-IsLayout :
    (level unit total : ℕ) (ns : List ℕ) {ls : List LevelConfig} {end : ℕ}
    → total ≤ max_total_slots
    → derive_levels level unit total ns ≡ ok (ls, end)
    → IsLayout unit ns ls × (end ≡ total + sum_slots ns) × (end ≤ max_total_slots)
unfolding derive_levels IsLayout sum_slots checked_mul
derive_levels-IsLayout level unit total [] {ls} {end} small h =
    let (none_left, same) = ok_pair-injective h in
    (subst (IsLayout unit []) none_left tt, omega (arith, same), omega (arith, same, small))
derive_levels-IsLayout level unit total (n ∷ ns) {ls} {end} small h =
    let (_, good, e₁) = >>=-eq-ok (fail_if (bad_slot_count n) (invalid_slot_count level n)) _ h in
    let (sum, added, e₂) =
      >>=-eq-ok (ok_or (checked_add total n) (slot_budget_exceeded u64_max max_total_slots)) _ e₁ in
    let (_, within, e₃) =
      >>=-eq-ok (fail_if (ltb max_total_slots sum) (slot_budget_exceeded sum max_total_slots)) _
        e₂ in
    let (span, product, e₄) =
      >>=-eq-ok (ok_or (checked_mul unit n) (derived_range_overflow level)) _ e₃ in
    let ((rest, last), derived, e₅) = >>=-eq-ok (derive_levels (level + 1) span sum ns) _ e₄ in
    let (levels, same) = ok_pair-injective e₅ in
    let is_sum : sum ≡ total + n = ground (arith, added) in
    let is_product : (span ≡ unit * n) × (unit * n ≤ u64_max) =
      checked_mul-ok level unit n product in
    let (power, low, high) = bad_slot_count-false n (fail_if-passed _ _ good) in
    let (layout, counted, budget) =
      derive_levels-IsLayout (level + 1) span sum ns
        (ltb→le max_total_slots sum (fail_if-passed _ _ within)) derived in
    (
      subst (IsLayout unit (n ∷ ns)) levels (
        ap (λ t. record { unit_ticks = unit; span_ticks = t; slot_count = n; mask = n - 1 })
            is_product.0,
        is_product.1,
        power,
        low,
        high,
        subst (λ t. IsLayout t ns rest) is_product.0 layout,
      ),
      omega (arith, same, counted, is_sum),
      omega (arith, same, budget),
    )

-- What `build` accepts: the tick, the number of levels, and the layout of the levels.
pub record IsWheel (base_tick : ℕ) (slots : List ℕ) (w : WheelConfig) : Type 0 where
  pub tick : (0 < w.base_tick_nanos) × (w.base_tick_nanos ≡ base_tick)
  pub layout : IsLayout 1 slots w.levels
  pub count : (1 ≤ length slots) × (length slots ≤ max_levels)
  pub budget : (w.total_slots ≡ sum_slots slots) × (w.total_slots ≤ max_total_slots)

-- A configuration that `build` returns has a tick above 0 that is the one given, 1 to 8 levels,
-- whose slots together are at most 300,000, and in each level a power of two of slots, from 2 to
-- 65,536; a slot of the first level is one tick, a slot of another level is the whole span of the
-- level below it, and every span, which is the unit times the slots, fits a u64.
pub build-IsWheel :
    (base_tick : ℕ) (slots : List ℕ) {w : WheelConfig}
    → build base_tick slots ≡ ok w
    → IsWheel base_tick slots w
unfolding build
build-IsWheel base_tick slots {w} h =
    let (_, fits, e₁) = >>=-eq-ok (fail_if (ltb u64_max base_tick) tick_range_overflow) _ h in
    let (_, some_tick, e₂) = >>=-eq-ok (fail_if (base_tick == 0) zero_tick) _ e₁ in
    let (_, few, e₃) =
      >>=-eq-ok
        (fail_if (is_empty slots || ltb max_levels (length slots))
          (invalid_level_count (length slots) max_levels))
        _ e₂ in
    let ((levels, total), derived, e₄) = >>=-eq-ok (derive_levels 0 1 0 slots) _ e₃ in
    let (layout, counted, budget) = derive_levels-IsLayout 0 1 0 slots (omega arith) derived in
    let not_zero = fail_if-passed _ _ some_tick in
    subst (IsWheel base_tick slots) (ok-injective e₄) (record {
      tick = (ground (arith, not_zero), refl);
      layout = layout;
      count = level_count slots (fail_if-passed _ _ few);
      budget = (omega (arith, counted), budget);
    })
