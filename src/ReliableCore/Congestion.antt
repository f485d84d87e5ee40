-- ===== src/ReliableCore/Congestion.antt =====
-- crates/reliable-core/src/congestion.rs: slow start, congestion avoidance and loss.
pub mod Ledger
use dart_udp.Base.{
  ℕ, ◌+◌, ◌*◌, ◌/◌, ◌≤◌, ◌<◌, ◌≡◌, refl, arith, max, min, Bool, ltb, leb, if◌then◌else◌,
}
use dart_udp.Base.Words.{saturating_add, saturating_sub, saturating_mul, u64_max}

pub record CongestionController : Type 0 where
  pub cwnd : ℕ
  pub ssthresh : ℕ
  pub bytes_in_flight : ℕ
  pub min_cwnd : ℕ
  pub max_cwnd : ℕ
  pub mss : ℕ

-- `value.clamp(low, high)`, for `low <= high`.
abbrev pub clamp : ℕ → ℕ → ℕ → ℕ
clamp value low high = if ltb value low then low else if ltb high value then high else value

unfoldable pub new : ℕ → ℕ → ℕ → ℕ → CongestionController
new initial_cwnd min_cwnd max_cwnd mss = record {
  cwnd = clamp initial_cwnd min_cwnd max_cwnd;
  ssthresh = max_cwnd;
  bytes_in_flight = 0;
  min_cwnd = min_cwnd;
  max_cwnd = max_cwnd;
  mss = max mss 1;
}

unfoldable pub can_send : CongestionController → ℕ → Bool
can_send c bytes = leb (saturating_add c.bytes_in_flight bytes) c.cwnd

unfoldable pub on_sent : CongestionController → ℕ → CongestionController
on_sent c bytes = record c { bytes_in_flight = saturating_add c.bytes_in_flight bytes }

-- `mss.saturating_mul(bytes).checked_div(cwnd.max(1)).unwrap_or(1).max(1)`; the divisor is not 0.
abbrev avoidance_increment : CongestionController → ℕ → ℕ
avoidance_increment c bytes = max (saturating_mul c.mss bytes / max c.cwnd 1) 1

unfoldable pub on_acked : CongestionController → ℕ → CongestionController
on_acked c bytes =
    let flight = saturating_sub c.bytes_in_flight bytes in
    if ltb c.cwnd c.ssthresh
    then record c { bytes_in_flight = flight; cwnd = min (saturating_add c.cwnd bytes) c.max_cwnd }
    else record c {
      bytes_in_flight = flight;
      cwnd = min (saturating_add c.cwnd (avoidance_increment c bytes)) c.max_cwnd;
    }

unfoldable pub on_loss : CongestionController → ℕ → CongestionController
on_loss c bytes =
    let threshold = max (c.cwnd / 2) c.min_cwnd in
    record c {
      bytes_in_flight = saturating_sub c.bytes_in_flight bytes;
      ssthresh = threshold;
      cwnd = threshold;
    }

-- The window and the threshold lie in the configured range.
pub record InRange (c : CongestionController) : Type 0 where
  pub cwnd_low : c.min_cwnd ≤ c.cwnd
  pub cwnd_high : c.cwnd ≤ c.max_cwnd
  pub ssthresh_low : c.min_cwnd ≤ c.ssthresh
  pub ssthresh_high : c.ssthresh ≤ c.max_cwnd
  pub max_fits : c.max_cwnd ≤ u64_max

pub new-InRange :
    (initial low high mss : ℕ) → low ≤ high → high ≤ u64_max → InRange (new initial low high mss)
unfolding new
new-InRange initial low high mss h k = ground arith

pub on_sent-InRange : (c : CongestionController) (bytes : ℕ) → InRange c → InRange (on_sent c bytes)
unfolding on_sent
on_sent-InRange c bytes r = ground arith

-- With the window and the threshold in range, an acknowledgement of at least one byte keeps the
-- window and the threshold in range, opens the window by a byte at least unless it is at its
-- maximum, and takes the bytes out of flight.
pub on_acked-grows :
    (c : CongestionController) (bytes : ℕ)
    → InRange c
    → 0 < bytes
    → InRange (on_acked c bytes)
      × (min (c.cwnd + 1) c.max_cwnd ≤ (on_acked c bytes).cwnd)
      × ((on_acked c bytes).bytes_in_flight + min bytes c.bytes_in_flight ≡ c.bytes_in_flight)
unfolding on_acked
on_acked-grows c bytes r h = ground arith

pub on_acked-InRange :
    (c : CongestionController) (bytes : ℕ) → InRange c → InRange (on_acked c bytes)
unfolding on_acked
on_acked-InRange c bytes r = ground arith

-- With the window and the threshold in range, a loss keeps them there, sets the threshold to the
-- window, and the window to at most the larger of its half and the minimum, never above what it
-- was.
pub on_loss-halves :
    (c : CongestionController) (bytes : ℕ)
    → InRange c
    → InRange (on_loss c bytes)
      × ((on_loss c bytes).cwnd ≤ max (c.cwnd / 2) c.min_cwnd)
      × ((on_loss c bytes).ssthresh ≡ (on_loss c bytes).cwnd)
      × ((on_loss c bytes).cwnd ≤ c.cwnd)
unfolding on_loss
on_loss-halves c bytes r = ground arith
