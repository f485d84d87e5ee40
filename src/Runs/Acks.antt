-- ===== src/Runs/Acks.antt =====
-- crates/reliable-core/src/ack.rs: packets 5, 6 and 8 arrive.
use dart_udp.Base.{ℕ, ◌≡◌, refl, arith, not, List, [], ◌∷◌, some, ok}
use dart_udp.UdpProtocol.Ack.{AckFrame, contains}
use dart_udp.ReliableCore.ReceivedPackets.{ReceivedPackets, record_packet, frame}
use dart_udp.ReliableCore.ReceivedPackets.Refines.{
  IsReceived, NumberSet, Represents, insert_number, record_all, record_packet-refines,
}
use dart_udp.ReliableCore.ReceivedPackets.Frame.{Acknowledges, frame-record_all}

abbrev two_seen : ReceivedPackets
two_seen = record { ranges = record { start = 5; end = 6 } ∷ []; largest_received_at = some 100 }

abbrev five_and_six : NumberSet
five_and_six = contains two_seen.ranges

two_seen-IsReceived : IsReceived two_seen
two_seen-IsReceived = record {
  falls = (omega arith, tt);
  ordered = ((omega arith, omega arith), tt);
  few = omega arith;
}

two_seen-Represents : Represents two_seen five_and_six
unfolding Represents
two_seen-Represents m = refl

record_packet-refines_example :
    ((record_packet two_seen 8 300).0 ≡ not (five_and_six 8))
    × Represents (record_packet two_seen 8 300).1 (insert_number five_and_six 8)
record_packet-refines_example =
    record_packet-refines two_seen 8 300 two_seen-IsReceived (omega arith) five_and_six
      (omega arith) two_seen-Represents

abbrev before_eight : List (ℕ × ℕ)
before_eight = (6, 100) ∷ (5, 90) ∷ []

frame-record_all_example :
    (f : AckFrame) × (frame (record_all ((8, 300) ∷ before_eight)) 350 25_000_000 ≡ ok (some f))
    × Acknowledges ((8, 300) ∷ before_eight) 25_000_000 f
frame-record_all_example =
    frame-record_all (8, 300) before_eight 350 25_000_000
      (omega arith, (omega arith, (omega arith, tt))) (omega arith)
