-- ===== src/ReliableCore/Congestion/Ledger.antt =====
-- crates/reliable-core/src/congestion.rs, as transport.rs uses it: each packet in flight is sent
-- once, after `can_send`, and then acknowledged or lost once.
use dart_udp.Base.{ℕ, ◌+◌, ◌≤◌, ◌<◌, ◌≡◌, refl, ap, ◌∙◌, arith, true, List, [], ◌∷◌, ◌++◌}
use dart_udp.Base.Words.{u64_max}
use dart_udp.ReliableCore.Congestion.{
  CongestionController, new, can_send, on_sent, on_acked, on_loss, InRange,
}

abbrev pub sum : List ℕ → ℕ
sum [] = 0
sum (x ∷ xs) = x + sum xs

sum-middle : (xs : List ℕ) (n : ℕ) (ys : List ℕ) → sum (xs ++ (n ∷ ys)) ≡ n + sum (xs ++ ys)
sum-middle [] n ys = refl
sum-middle (x ∷ xs) n ys = omega (arith, sum-middle xs n ys)

-- The controller with the sizes of the packets in flight.
pub data Step : CongestionController → List ℕ → CongestionController → List ℕ → Type 0 where
  sent :
      {c : CongestionController} {flight : List ℕ} (bytes : ℕ)
      → can_send c bytes ≡ true
      → Step c flight (on_sent c bytes) (bytes ∷ flight)
  acked :
      {c : CongestionController} {flight rest : List ℕ} (before : List ℕ) (bytes : ℕ)
      (after : List ℕ)
      → flight ≡ before ++ (bytes ∷ after)
      → rest ≡ before ++ after
      → Step c flight (on_acked c bytes) rest
  lost :
      {c : CongestionController} {flight rest : List ℕ} (before : List ℕ) (bytes : ℕ)
      (after : List ℕ)
      → flight ≡ before ++ (bytes ∷ after)
      → rest ≡ before ++ after
      → Step c flight (on_loss c bytes) rest

pub data Reach (start : CongestionController) : CongestionController → List ℕ → Type 0 where
  here : Reach start start []
  next :
      {c d : CongestionController} {flight rest : List ℕ}
      → Reach start c flight
      → Step c flight d rest
      → Reach start d rest

pub record Balanced (c : CongestionController) (flight : List ℕ) : Type 0 where
  pub in_range : InRange c
  pub exact : c.bytes_in_flight ≡ sum flight
  pub small : sum flight ≤ c.max_cwnd
  pub no_wrap : c.max_cwnd < u64_max

Step-Balanced :
    {c d : CongestionController} {flight rest : List ℕ}
    → Step c flight d rest
    → Balanced c flight
    → Balanced d rest × (d.max_cwnd ≡ c.max_cwnd) × (d.min_cwnd ≡ c.min_cwnd)
Step-Balanced (sent {c} {flight} bytes h) b = unfold can_send on_sent in ground (arith, b)
Step-Balanced (acked {c} {flight} {rest} before bytes after e f) b =
    unfold on_acked in ground (arith, b, sum-middle before bytes after, ap sum e, ap sum f)
Step-Balanced (lost {c} {flight} {rest} before bytes after e f) b =
    unfold on_loss in ground (arith, b, sum-middle before bytes after, ap sum e, ap sum f)

Reach-Balanced :
    (initial low high mss : ℕ) {c : CongestionController} {flight : List ℕ}
    → low ≤ high
    → high < u64_max
    → Reach (new initial low high mss) c flight
    → Balanced c flight × (c.max_cwnd ≡ high) × (c.min_cwnd ≡ low)
Reach-Balanced initial low high mss h k here = unfold new in ground arith
Reach-Balanced initial low high mss h k (next r st) =
    let (b, e, f) = Reach-Balanced initial low high mss h k r in
    let (b', e', f') = Step-Balanced st b in (b', e' ∙ e, f' ∙ f)

-- For a smallest window up to the largest and a largest below u64::MAX, after any history in
-- which packets are sent when `can_send` allows and each is acknowledged or lost once,
-- `bytes_in_flight` is the sum of the sizes in flight, that sum is at most the largest window,
-- and the window lies between its bounds.
pub Reach-in_flight :
    (initial low high mss : ℕ) {c : CongestionController} {flight : List ℕ}
    → low ≤ high
    → high < u64_max
    → Reach (new initial low high mss) c flight
    → (c.bytes_in_flight ≡ sum flight) × (sum flight ≤ high) × (low ≤ c.cwnd) × (c.cwnd ≤ high)
Reach-in_flight initial low high mss h k r =
    let (b, e, f) = Reach-Balanced initial low high mss h k r in
    (
      b.exact,
      omega (arith, b.small, e),
      omega (arith, b.in_range.cwnd_low, f),
      omega (arith, b.in_range.cwnd_high, e),
    )
