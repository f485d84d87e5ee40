-- ===== src/ReliableCore/Rtt.antt =====
-- crates/reliable-core/src/rtt.rs: the round trip estimate and the retransmission timeout.
-- A `Duration` is its nanoseconds; the source's `*` and `+` panic past the largest `Duration`, and
-- are taken below it.
use dart_udp.Base.{
  ℕ, zero, suc, ◌+◌, ◌-◌, ◌*◌, ◌/◌, ◌^◌, ◌≤◌, ◌≡◌, arith, max, min, ltb, if◌then◌else◌, Option,
  none, some,
}
use dart_udp.Base.Bits.{twice_power}
use dart_udp.ReliableCore.Congestion.{clamp}

-- `Duration::MAX`: 2^64 - 1 seconds and 999,999,999 nanoseconds.
abbrev pub duration_max : ℕ
duration_max = 18446744073709551615999999999

pub record RttEstimator : Type 0 where
  pub srtt : Option ℕ
  pub rttvar : ℕ
  pub rto : ℕ
  pub initial_rto : ℕ
  pub min_rto : ℕ
  pub max_rto : ℕ
  pub granularity : ℕ

unfoldable pub new : ℕ → ℕ → ℕ → ℕ → RttEstimator
new initial_rto min_rto max_rto granularity = record {
  srtt = none;
  rttvar = 0;
  rto = initial_rto;
  initial_rto = initial_rto;
  min_rto = min_rto;
  max_rto = max_rto;
  granularity = granularity;
}

abbrev unwrap_or : Option ℕ → ℕ → ℕ
unwrap_or none d = d
unwrap_or (some a) d = a

unfoldable pub recalculate : RttEstimator → RttEstimator
recalculate r =
    let srtt = unwrap_or r.srtt r.initial_rto in
    let variance = max (r.rttvar * 4) r.granularity in
    record r { rto = clamp (srtt + variance) r.min_rto r.max_rto }

abbrev abs_diff : ℕ → ℕ → ℕ
abs_diff a b = (a - b) + (b - a)

-- The `match self.srtt` of `on_ack`.
smooth : RttEstimator → Option ℕ → ℕ → RttEstimator
smooth r none sample = record r { srtt = some sample; rttvar = sample / 2 }
smooth r (some srtt) sample = record r {
  rttvar = (r.rttvar * 3 + abs_diff srtt sample) / 4;
  srtt = some ((srtt * 7 + sample) / 8);
}

unfoldable pub on_ack : RttEstimator → ℕ → ℕ → RttEstimator
unfolding smooth recalculate
on_ack r sample ack_delay = recalculate (smooth r r.srtt (sample - ack_delay))

-- `rto.checked_mul(2).unwrap_or(max_rto).min(max_rto)`
unfoldable pub on_timeout : RttEstimator → RttEstimator
on_timeout r = record r {
  rto = min (if ltb duration_max (r.rto * 2) then r.max_rto else r.rto * 2) r.max_rto;
}

unfoldable pub reset_backoff : RttEstimator → RttEstimator
unfolding recalculate
reset_backoff r = elim r.srtt [ none ↦ record r { rto = r.initial_rto } | some s ↦ recalculate r ]

-- What a valid configuration gives, and the estimator keeps.
pub record InRange (r : RttEstimator) : Type 0 where
  pub low : r.min_rto ≤ r.rto
  pub high : r.rto ≤ r.max_rto
  pub initial_low : r.min_rto ≤ r.initial_rto
  pub initial_high : r.initial_rto ≤ r.max_rto
  pub max_fits : r.max_rto ≤ duration_max

pub data Event : Type 0 where
  acked : (sample ack_delay : ℕ) → Event
  timed_out : Event
  backoff_reset : Event

unfoldable pub step : RttEstimator → Event → RttEstimator
step r (acked sample ack_delay) = on_ack r sample ack_delay
step r timed_out = on_timeout r
step r backoff_reset = reset_backoff r

-- If the retransmission timeout and its first value lie between the configured bounds, and the
-- largest is a Duration, then an acknowledgement, a timeout or a reset of the backoff keeps them
-- there.
pub step-InRange : (r : RttEstimator) (e : Event) → InRange r → InRange (step r e)
unfolding step on_ack on_timeout reset_backoff
step-InRange r (acked sample ack_delay) v = ground arith
step-InRange r timed_out v = ground arith
step-InRange r backoff_reset v = ground arith

pub timeouts : ℕ → RttEstimator → RttEstimator
timeouts zero r = r
timeouts (suc n) r = on_timeout (timeouts n r)

-- For a timeout that is at most the maximum, and a maximum that is a Duration, after n timeouts
-- in a row the retransmission timeout is the first one doubled n times, capped at the maximum,
-- which stays as it is.
pub backoff_doubles :
    (n : ℕ) (r : RttEstimator)
    → r.rto ≤ r.max_rto
    → r.max_rto ≤ duration_max
    → ((timeouts n r).rto ≡ min (r.rto * 2 ^ n) r.max_rto) × ((timeouts n r).max_rto ≡ r.max_rto)
unfolding timeouts on_timeout
backoff_doubles zero r h k = omega arith
backoff_doubles (suc n) r h k = ground (arith, backoff_doubles n r h k, twice_power r.rto n)

-- With an estimate at hand, the next smoothed round trip lies between the old one and the sample
-- less the peer's delay.
pub on_ack-between :
    (r : RttEstimator) (srtt sample ack_delay : ℕ)
    → r.srtt ≡ some srtt
    → (next : ℕ) × ((on_ack r sample ack_delay).srtt ≡ some next)
      × (min srtt (sample - ack_delay) ≤ next)
      × (next ≤ max srtt (sample - ack_delay))
unfolding on_ack
on_ack-between r srtt sample ack_delay h =
    ((srtt * 7 + (sample - ack_delay)) / 8, ground arith, omega arith, omega arith)
