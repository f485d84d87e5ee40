-- ===== src/UdpProtocol/Ack.antt =====
-- crates/udp-protocol/src/ack.rs: acknowledged ranges and the ACK frame. A packet number is its u64,
-- a `Duration` is its nanoseconds. `Decode` has the parsers.
pub mod Decode
pub mod Normal
pub mod RoundTrip
use dart_udp.Base.{
  ℕ, ◌+◌, ◌/◌, ◌%◌, ◌^◌, List, [], ◌∷◌, length, ltb, leb, ◌==◌, if◌then◌else◌, Option, none, some,
  Bool, true, false, not, ◌&&◌, ◌||◌, any, is_empty, Result, ok, err, fail_if, ◌>>=◌, ◌>>◌,
}
use dart_udp.Base.Words.{saturating_add, u64_max}
use dart_udp.UdpProtocol.Error.{
  ProtocolError, invalid_ack_ranges, ack_range_count_exceeded, invalid_value,
}
use dart_udp.UdpProtocol.Cursor.{Writer, require, ◌>=>◌}
use dart_udp.UdpProtocol.Varint

abbrev pub max_ack_ranges : ℕ
max_ack_ranges = 32

pub record AckRange : Type 0 where
  pub start : ℕ
  pub end : ℕ

unfoldable pub new_range : ℕ → ℕ → Result ProtocolError AckRange
new_range start end =
    if ltb end start then err invalid_ack_ranges else ok (record { start = start; end = end })

unfoldable pub range_contains : AckRange → ℕ → Bool
range_contains r packet_number = leb r.start packet_number && leb packet_number r.end

-- The newtype `AckRanges`.
abbrev pub AckRanges : Type 0
AckRanges = List AckRange

unfoldable pub single : ℕ → AckRanges
single packet_number = record { start = packet_number; end = packet_number } ∷ []

-- `self.0[0].end`. The source panics on no range at all, which no constructor lets through.
unfoldable pub largest : AckRanges → ℕ
largest [] = 0
largest (r ∷ rs) = r.end

unfoldable pub contains : AckRanges → ℕ → Bool
contains ranges packet_number = any (λ r. range_contains r packet_number) ranges

-- The loop of `from_descending`, with the range before.
check_descending : Option AckRange → List AckRange → Result ProtocolError (Unit {0})
check_descending previous [] = ok tt
check_descending none (r ∷ rs) =
    fail_if (ltb r.end r.start) invalid_ack_ranges >> check_descending (some r) rs
check_descending (some p) (r ∷ rs) = do
  fail_if (ltb r.end r.start) invalid_ack_ranges
  let overlaps = leb p.start r.end
  let adjacent = not (p.start == 0) && leb p.start (saturating_add r.end 1)
  fail_if (overlaps || adjacent) invalid_ack_ranges
  check_descending (some r) rs

unfoldable pub from_descending : List AckRange → Result ProtocolError AckRanges
unfolding check_descending
from_descending ranges =
    if is_empty ranges || ltb max_ack_ranges (length ranges)
    then err
        (if is_empty ranges then invalid_ack_ranges else ack_range_count_exceeded max_ack_ranges)
    else check_descending none ranges >> ok ranges

-- `sort_by`: by falling `end`, then by falling `start`; ranges that compare equal keep their order.
unfoldable pub before : AckRange → AckRange → Bool
before l r = if l.end == r.end then leb r.start l.start else ltb r.end l.end

unfoldable pub insert_sorted : AckRange → List AckRange → List AckRange
unfolding before
insert_sorted r [] = r ∷ []
insert_sorted r (s ∷ ss) = if before r s then r ∷ (s ∷ ss) else s ∷ insert_sorted r ss

unfoldable pub sort_descending : List AckRange → List AckRange
unfolding insert_sorted
sort_descending [] = []
sort_descending (r ∷ rs) = insert_sorted r (sort_descending rs)

unfoldable pub new_ranges : List AckRange → Result ProtocolError AckRanges
new_ranges ranges =
    if is_empty ranges then err invalid_ack_ranges else from_descending (sort_descending ranges)

-- The loop of `encode_into`.
unfoldable pub encode_each : List AckRange → Writer
encode_each [] output = ok output
encode_each (r ∷ rs) output =
    (Varint.encode r.start >=> Varint.encode r.end >=> encode_each rs) output

unfoldable pub encode_ranges : AckRanges → Writer
encode_ranges ranges =
    require (fail_if (ltb max_ack_ranges (length ranges)) (ack_range_count_exceeded max_ack_ranges))
    >=> Varint.encode (length ranges)
    >=> encode_each ranges

pub record AckFrame : Type 0 where
  pub largest : ℕ
  pub ack_delay : ℕ
  pub ranges : AckRanges

-- `ack_delay.as_micros()`
abbrev pub as_micros : ℕ → ℕ
as_micros nanos = nanos / 1000

unfoldable pub validate : AckFrame → Result ProtocolError (Unit {0})
unfolding largest
validate f = do
  fail_if (is_empty f.ranges || not (largest f.ranges == f.largest)) invalid_ack_ranges
  fail_if (ltb u64_max (as_micros f.ack_delay)) (invalid_value "ack_delay")

unfoldable pub new_frame : ℕ → AckRanges → Result ProtocolError AckFrame
new_frame ack_delay ranges =
    let frame : AckFrame = record {
      largest = largest ranges;
      ack_delay = ack_delay;
      ranges = ranges;
    } in
    validate frame >> ok frame

unfoldable pub encode_ack : AckFrame → Writer
encode_ack f =
    require (validate f)
    >=> Varint.encode f.largest
    >=> Varint.encode (as_micros f.ack_delay % 2 ^ 64)
    >=> encode_ranges f.ranges
