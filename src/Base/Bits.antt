-- ===== src/Base/Bits.antt =====
-- Bit masks as arithmetic: `|` with bits above a number, `&` with a run of low bits.
use Prim.Native.Nat.{
  ℕ, zero, suc, ◌+◌, ◌-◌, ◌*◌, ◌/◌, ◌%◌, ◌^◌, ◌≤◌, ◌<◌, min, max, bit_and, bit_or, digits,
  bit_and-bitwise, bit_or-bitwise,
}
use mathlib.Core.Path.{◌≡◌, refl, ap, ◌∙◌}
use mathlib.Core.Bool.{Bool, true, ◌&&◌}
use native.Mathlib.Omega.{arith}
use native.Mathlib.Nat.{pow-suc, one-le-pow, div-add-mod, div-div-eq-div-mul}

-- Both operations read digits from the lowest one, with the first number as fuel.
module _ (at_end : ℕ → ℕ) (join : ℕ → ℕ → ℕ) where
  fuel_free : (a b n m : ℕ) → a ≤ n → a ≤ m → digits at_end join n a b ≡ digits at_end join m a b
  fuel_free zero b zero zero low high = refl
  fuel_free zero b zero (suc m) low high = refl
  fuel_free zero b (suc n) zero low high = refl
  fuel_free zero b (suc n) (suc m) low high = refl
  fuel_free (suc a) b zero m low high = absurd (omega arith)
  fuel_free (suc a) b (suc n) zero low high = absurd (omega arith)
  fuel_free (suc a) b (suc n) (suc m) low high =
      omega (arith, fuel_free (suc a / 2) (b / 2) n m (omega arith) (omega arith))

zero-bit_or : (b : ℕ) → bit_or 0 b ≡ b
zero-bit_or b = bit_or-bitwise 0 b

pub zero-bit_and : (b : ℕ) → bit_and 0 b ≡ 0
zero-bit_and b = bit_and-bitwise 0 b

bit_or_digit : (a b : ℕ) → bit_or a b ≡ bit_or (a / 2) (b / 2) * 2 + max (a % 2) (b % 2)
bit_or_digit zero b = omega (arith, zero-bit_or b, zero-bit_or (b / 2))
bit_or_digit (suc a) b =
    let half = suc a / 2 in
    let fuel = fuel_free (λ d. d) max half (b / 2) a half (omega arith) (omega arith) in
    omega (arith, fuel, bit_or-bitwise (suc a) b, bit_or-bitwise half (b / 2))

pub bit_and_digit : (a b : ℕ) → bit_and a b ≡ bit_and (a / 2) (b / 2) * 2 + min (a % 2) (b % 2)
bit_and_digit zero b = omega (arith, zero-bit_and b, zero-bit_and (b / 2))
bit_and_digit (suc a) b =
    let half = suc a / 2 in
    let fuel = fuel_free (λ d. 0) min half (b / 2) a half (omega arith) (omega arith) in
    omega (arith, fuel, bit_and-bitwise (suc a) b, bit_and-bitwise half (b / 2))

pub twice_power : (q k : ℕ) → q * 2 ^ suc k ≡ 2 * (q * 2 ^ k)
twice_power q k = omega (arith, ap (λ (t : ℕ). q * t) (pow-suc 2 k))

-- A number of `k` bits, with bits from `k` on set beside it.
pub bit_or_above : (k low high : ℕ) → low < 2 ^ k → bit_or low (high * 2 ^ k) ≡ low + high * 2 ^ k
bit_or_above zero zero high h = omega (arith, zero-bit_or (high * 1))
bit_or_above zero (suc low) high h = absurd (omega arith)
bit_or_above (suc k) low high h = ground (
  arith,
  pow-suc 2 k,
  twice_power high k,
  bit_or_digit low (high * 2 ^ suc k),
  bit_or_above k (low / 2) high,
)

bit_and-zero : (n a : ℕ) → a ≤ n → bit_and a 0 ≡ 0
bit_and-zero zero zero h = refl
bit_and-zero zero (suc a) h = absurd (omega arith)
bit_and-zero (suc n) zero h = refl
bit_and-zero (suc n) (suc a) h =
    omega (arith, bit_and_digit (suc a) 0, bit_and-zero n (suc a / 2) (omega arith))

mod_two_pow : (k a : ℕ) → a % 2 ^ suc k ≡ a / 2 % 2 ^ k * 2 + a % 2
mod_two_pow k a =
    let q = a / 2 ^ suc k in
    omega (
      arith,
      div-add-mod a (2 ^ suc k),
      div-add-mod (a / 2) (2 ^ k),
      twice_power q k,
      same_quotient,
      ap (λ (t : ℕ). t * 2 ^ k) same_quotient,
    )
  where
    same_quotient : a / 2 / 2 ^ k ≡ a / 2 ^ suc k
    same_quotient = div-div-eq-div-mul a 2 (2 ^ k) ∙ ap (λ t. a / t) (omega (arith, pow-suc 2 k))

-- A mask of `k` low bits.
pub bit_and_below : (k a : ℕ) → bit_and a (2 ^ k - 1) ≡ a % 2 ^ k
bit_and_below zero a = omega (arith, bit_and-zero a a (omega arith))
bit_and_below (suc k) a = ground (
  arith,
  pow-suc 2 k,
  one-le-pow k 2,
  bit_and_digit a (2 ^ suc k - 1),
  bit_and_below k (a / 2),
  mod_two_pow k a,
)

-- A test that is run on every number below a bound.
unfoldable pub all_below : ℕ → (ℕ → Bool) → Bool
all_below zero test = true
all_below (suc bound) test = all_below bound test && test bound

pub all_below_sound :
    (bound : ℕ) (test : ℕ → Bool) (n : ℕ) → n < bound → all_below bound test ≡ true → test n ≡ true
unfolding all_below
all_below_sound zero test n low passed = absurd (omega arith)
all_below_sound (suc bound) test n low passed = ground (arith, all_below_sound bound test n)
