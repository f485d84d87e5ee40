-- ===== src/Runs/Paths.antt =====
-- crates/reliable-core: congestion control and the retransmission timeout.
use dart_udp.Base.{
  ◌<◌, ok, ℕ, ◌+◌, ◌*◌, ◌/◌, ◌-◌, ◌^◌, ◌≤◌, ◌≡◌, refl, arith, min, max, [], ◌∷◌, some, true,
}
use dart_udp.ReliableCore.Congestion
use dart_udp.ReliableCore.Congestion.{
  CongestionController, on_acked, on_sent, on_loss, new-InRange, on_acked-grows, on_loss-halves,
}
use dart_udp.ReliableCore.Congestion.Ledger
use dart_udp.ReliableCore.Congestion.Ledger.{sum, Reach-in_flight}
use dart_udp.ReliableCore.Rtt
use dart_udp.ReliableCore.Config.{default_config, validate, validate-InRange}
use dart_udp.ReliableCore.Rtt.{
  RttEstimator, on_ack, step, timeouts, step-InRange, backoff_doubles, on_ack-between, timed_out,
  acked,
}

abbrev controller : CongestionController
controller = Congestion.new 10 4 100 2

controller-InRange : Congestion.InRange controller
controller-InRange = new-InRange 10 4 100 2 (omega arith) (omega arith)

on_acked-grows_example :
    Congestion.InRange (on_acked controller 3)
    × (min (controller.cwnd + 1) controller.max_cwnd ≤ (on_acked controller 3).cwnd)
    × ((on_acked controller 3).bytes_in_flight + min 3 controller.bytes_in_flight
        ≡ controller.bytes_in_flight)
on_acked-grows_example = on_acked-grows controller 3 controller-InRange (omega arith)

on_loss-halves_example :
    Congestion.InRange (on_loss controller 3)
    × ((on_loss controller 3).cwnd ≤ max (controller.cwnd / 2) controller.min_cwnd)
    × ((on_loss controller 3).ssthresh ≡ (on_loss controller 3).cwnd)
    × ((on_loss controller 3).cwnd ≤ controller.cwnd)
on_loss-halves_example = on_loss-halves controller 3 controller-InRange

-- Packets of 6 and of 4 bytes are sent, and the first is acknowledged.
can_send_six : Congestion.can_send controller 6 ≡ true
unfolding Congestion.can_send Congestion.new
can_send_six = refl

can_send_four : Congestion.can_send (on_sent controller 6) 4 ≡ true
unfolding Congestion.can_send on_sent Congestion.new
can_send_four = refl

abbrev one_acked : CongestionController
one_acked = on_acked (on_sent (on_sent controller 6) 4) 6

one_acked-Reach : Ledger.Reach controller one_acked (4 ∷ [])
one_acked-Reach =
    Ledger.next
      (Ledger.next (Ledger.next Ledger.here (Ledger.sent 6 can_send_six))
        (Ledger.sent 4 can_send_four))
      (Ledger.acked (4 ∷ []) 6 [] refl refl)

Reach-in_flight_example :
    (one_acked.bytes_in_flight ≡ sum (4 ∷ []))
    × (sum (4 ∷ []) ≤ 100)
    × (4 ≤ one_acked.cwnd)
    × (one_acked.cwnd ≤ 100)
Reach-in_flight_example = Reach-in_flight 10 4 100 2 (omega arith) (omega arith) one_acked-Reach

abbrev estimator : RttEstimator
estimator = record {
  srtt = some 80;
  rttvar = 10;
  rto = 200;
  initial_rto = 200;
  min_rto = 50;
  max_rto = 1000;
  granularity = 1;
}

estimator-InRange : Rtt.InRange estimator
estimator-InRange = record {
  low = omega arith;
  high = omega arith;
  initial_low = omega arith;
  initial_high = omega arith;
  max_fits = omega arith;
}

step-InRange_example : Rtt.InRange (step estimator (acked 120 20))
step-InRange_example = step-InRange estimator (acked 120 20) estimator-InRange

backoff_doubles_example :
    ((timeouts 3 estimator).rto ≡ min (200 * 2 ^ 3) 1000) × ((timeouts 3 estimator).max_rto ≡ 1000)
backoff_doubles_example = backoff_doubles 3 estimator (omega arith) (omega arith)

on_ack-between_example :
    (next : ℕ) × ((on_ack estimator 120 20).srtt ≡ some next)
    × (min 80 (120 - 20) ≤ next)
    × (next ≤ max 80 (120 - 20))
on_ack-between_example = on_ack-between estimator 80 120 20 refl

validate_default : validate default_config ≡ ok tt
unfolding validate
validate_default = refl

validate-InRange_example :
    Congestion.InRange (Congestion.new 12000 1200 16777216 1200)
    × Rtt.InRange (Rtt.new 1000000000 200000000 60000000000 10000000)
    × (0 < 1200)
    × (0 < 200000000)
validate-InRange_example =
    validate-InRange default_config 1200 validate_default (omega arith) (omega arith)
