-- ===== src/ReliableCore/ReceivedPackets.antt =====
-- crates/reliable-core/src/ack.rs: the packet numbers that have arrived, in ranges.
pub mod Merge
pub mod Refines
pub mod Frame
use dart_udp.Base.{
  ℕ, ◌==◌, leb, ltb, min, max, Bool, true, false, if◌then◌else◌, any, Option, none, some, List, [],
  ◌∷◌, ◌++◌, length, take, head?, Result, ok, ◌>>=◌,
}
use dart_udp.Base.Words.{saturating_add, saturating_sub}
use dart_udp.UdpProtocol.Error.{ProtocolError}
use dart_udp.UdpProtocol.Ack.{
  AckRange, AckFrame, max_ack_ranges, contains, sort_descending, new_ranges, new_frame,
}

pub record ReceivedPackets : Type 0 where
  pub ranges : List AckRange
  pub largest_received_at : Option ℕ

abbrev pub new : ReceivedPackets
new = record { ranges = []; largest_received_at = none }

-- The loop of `merge_adjacent`, with the last range of `merged`.
unfoldable pub merge_from : AckRange → List AckRange → List AckRange
merge_from previous [] = previous ∷ []
merge_from previous (r ∷ rs) =
    if leb previous.start (saturating_add r.end 1)
    then merge_from (record { start = min previous.start r.start; end = max previous.end r.end }) rs
    else previous ∷ merge_from r rs

unfoldable pub merge_adjacent : List AckRange → List AckRange
merge_adjacent [] = []
merge_adjacent (r ∷ rs) = merge_from r rs

-- `self.ranges` after the new range is pushed, sorted in and merged.
unfoldable pub with_packet : List AckRange → ℕ → List AckRange
with_packet ranges packet_number =
    merge_adjacent
      (sort_descending (ranges ++ (record { start = packet_number; end = packet_number } ∷ [])))

-- `self.ranges.first().map(|range| range.end)`
unfoldable pub first_end : List AckRange → Option ℕ
first_end [] = none
first_end (r ∷ rs) = some r.end

unfoldable pub largest : ReceivedPackets → Option ℕ
largest s = first_end s.ranges

is_end : Option ℕ → ℕ → Bool
is_end none packet_number = false
is_end (some end) packet_number = end == packet_number

unfoldable pub record_packet : ReceivedPackets → ℕ → ℕ → Bool × ReceivedPackets
unfolding is_end
record_packet s packet_number now = if contains s.ranges packet_number then (false, s) else (
  true,
  record {
    ranges = take max_ack_ranges (with_packet s.ranges packet_number);
    largest_received_at =
        if is_end (first_end (with_packet s.ranges packet_number)) packet_number
        then some now
        else s.largest_received_at;
  },
)

-- How long the largest packet has waited, at most `ack_delay`.
unfoldable pub delay_of : Option ℕ → ℕ → ℕ → ℕ
delay_of none now ack_delay = 0
delay_of (some received_at) now ack_delay = min (saturating_sub now received_at) ack_delay

unfoldable pub frame : ReceivedPackets → ℕ → ℕ → Result ProtocolError (Option AckFrame)
frame s now ack_delay = elim (largest s) [
  | none ↦ ok none
  | some end ↦ do
    ranges ← new_ranges s.ranges
    built ← new_frame (delay_of s.largest_received_at now ack_delay) ranges
    ok (some built)
]
