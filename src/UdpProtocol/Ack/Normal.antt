-- ===== src/UdpProtocol/Ack/Normal.antt =====
-- crates/udp-protocol/src/ack.rs: which lists of ranges `from_descending` lets through.
use dart_udp.Base.{
  ◌+◌, ◌≤◌, ◌<◌, ◌≡◌, ◌↔◌, refl, arith, List, [], ◌∷◌, length, Option, none, some, All, ok,
}
use dart_udp.Base.Words.{u64_max}
use dart_udp.UdpProtocol.Ack.{AckRange, max_ack_ranges, check_descending, from_descending}

-- Each range is in order, and ends at least two numbers below the start of the range before.
abbrev pub Descends : Option AckRange → List AckRange → Type 0
Descends p [] = Unit {0}
Descends none (r ∷ rs) = (r.start ≤ r.end) × Descends (some r) rs
Descends (some p) (r ∷ rs) = (r.start ≤ r.end) × (r.end + 1 < p.start) × Descends (some r) rs

abbrev pub IsNormal : List AckRange → Type 0
IsNormal rs = (1 ≤ length rs) × (length rs ≤ max_ack_ranges) × Descends none rs

abbrev pub FitsU64 : AckRange → Type 0
FitsU64 r = (r.start ≤ u64_max) × (r.end ≤ u64_max)

abbrev FitsBefore : Option AckRange → Type 0
FitsBefore none = Unit {0}
FitsBefore (some p) = p.start ≤ u64_max

check-Descends :
    (p : Option AckRange) (rs : List AckRange)
    → FitsBefore p
    → All FitsU64 rs
    → check_descending p rs ≡ ok tt
    → Descends p rs
unfolding check_descending
check-Descends p [] f u h = tt
check-Descends none (r ∷ rs) f u h = ground (arith, check-Descends (some r) rs)
check-Descends (some p) (r ∷ rs) f u h = ground (arith, check-Descends (some r) rs)

Descends-check :
    (p : Option AckRange) (rs : List AckRange) → Descends p rs → check_descending p rs ≡ ok tt
unfolding check_descending
Descends-check p [] h = refl
Descends-check none (r ∷ rs) h = ground (arith, Descends-check (some r) rs)
Descends-check (some p) (r ∷ rs) h = ground (arith, Descends-check (some r) rs)

-- For ranges of u64 bounds, `from_descending` returns a list exactly if it is its argument, holds
-- 1 to 32 ranges, and the ranges are in order and fall with a number at least missing between two
-- of them.
pub from_descending_iff :
    (ranges result : List AckRange)
    → All FitsU64 ranges
    → (from_descending ranges ≡ ok result) ↔ ((result ≡ ranges) × IsNormal ranges)
unfolding from_descending
from_descending_iff [] result u = (λ h. cc, λ h. absurd (omega (arith, h.1)))
from_descending_iff (r ∷ rs) result u = (
  λ h. ground (arith, check-Descends none (r ∷ rs) tt u),
  λ h. ground (arith, Descends-check none (r ∷ rs)),
)

-- The one direction that needs no bound.
pub from_descending-IsNormal :
    (ranges : List AckRange) → IsNormal ranges → from_descending ranges ≡ ok ranges
unfolding from_descending
from_descending-IsNormal [] h = absurd (omega arith)
from_descending-IsNormal (r ∷ rs) h = ground (arith, Descends-check none (r ∷ rs))
