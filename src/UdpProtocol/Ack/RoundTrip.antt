-- ===== src/UdpProtocol/Ack/RoundTrip.antt =====
-- crates/udp-protocol/src/ack.rs: an ACK frame that is written is read back, its delay in whole
-- microseconds.
use dart_udp.Base.{
  ℕ, ◌*◌, ◌%◌, ◌^◌, ◌≤◌, ◌≡◌, arith, List, [], ◌∷◌, ◌++◌, length, Bool, false, fail_if, ok,
}
use dart_udp.Base.Words.{u64_max}
use dart_udp.UdpProtocol.Error.{ProtocolError}
use dart_udp.UdpProtocol.Cursor.{
  ReadsBack, ReadsBack-bind, ReadsBack-last, ReadsBack-require, Reads-pure, Reads-lift,
  Reads-lift_ok, ReadsBack-checked, ReadsBack-done, ReadsBack-between,
}
use dart_udp.UdpProtocol.Varint
use dart_udp.UdpProtocol.Varint.RoundTrip.{encode-ReadsBack}
use dart_udp.UdpProtocol.Ack.{
  AckRange, AckFrame, from_descending, validate, encode_each, encode_ranges, encode_ack, as_micros,
}
use dart_udp.UdpProtocol.Ack.Decode.{read_each, decode_ranges, decode_ack}
use dart_udp.UdpProtocol.Ack.Normal.{IsNormal, from_descending-IsNormal}

read_each-ReadsBack : (rs : List AckRange) → ReadsBack (encode_each rs) (read_each (length rs)) rs
unfolding encode_each read_each
read_each-ReadsBack [] = ReadsBack-done []
read_each-ReadsBack (r ∷ rs) =
    ReadsBack-bind Varint.decode _ (Varint.encode r.start) _ r.start (r ∷ rs)
      (encode-ReadsBack r.start)
      (ReadsBack-bind Varint.decode _ (Varint.encode r.end) _ r.end (r ∷ rs)
        (encode-ReadsBack r.end)
        (ReadsBack-last (read_each (length rs)) _ (encode_each rs) rs (r ∷ rs)
          (read_each-ReadsBack rs) (Reads-pure (r ∷ rs))))

fail_if-ok : (b : Bool) (e : ProtocolError) → b ≡ false → fail_if b e ≡ ok tt
fail_if-ok b e h = rw h

decode_ranges-ReadsBack :
    (rs : List AckRange) → IsNormal rs → ReadsBack (encode_ranges rs) decode_ranges rs
unfolding encode_ranges decode_ranges
decode_ranges-ReadsBack rs n = ReadsBack-require decode_ranges _ _ rs λ few.
    ReadsBack-bind Varint.decode _ (Varint.encode (length rs)) _ (length rs) rs
      (encode-ReadsBack (length rs))
      (ReadsBack-checked _ _ _ rs (fail_if-ok _ _ (ground (arith, n.0))) (
        ReadsBack-checked _ _ _ rs few (
          ReadsBack-last (read_each (length rs)) _ (encode_each rs) rs rs (read_each-ReadsBack rs)
            (Reads-lift_ok (from_descending rs) rs (from_descending-IsNormal rs n)))))

-- The delay as the receiver learns it: in whole microseconds.
pub in_micros : AckFrame → AckFrame
in_micros f = record f { ack_delay = as_micros f.ack_delay * 1000 }

validate-in_micros : (f : AckFrame) → validate f ≡ ok tt → validate (in_micros f) ≡ ok tt
unfolding validate in_micros
validate-in_micros f h = ground arith

micros-fit :
    (f : AckFrame) → validate f ≡ ok tt → as_micros f.ack_delay % 2 ^ 64 ≡ as_micros f.ack_delay
unfolding validate
micros-fit f h = ground arith

pub decode_ack-ReadsBack :
    (f : AckFrame) → IsNormal f.ranges → ReadsBack (encode_ack f) decode_ack (in_micros f)
unfolding encode_ack decode_ack in_micros
decode_ack-ReadsBack f n = ReadsBack-require decode_ack _ _ (in_micros f) λ valid.
    ReadsBack-bind Varint.decode _ (Varint.encode f.largest) _ f.largest _
      (encode-ReadsBack f.largest)
      (ReadsBack-bind Varint.decode _ (Varint.encode (as_micros f.ack_delay % 2 ^ 64)) _
        (as_micros f.ack_delay) _
        (rw (micros-fit f valid) (encode-ReadsBack (as_micros f.ack_delay)))
        (ReadsBack-last decode_ranges _ (encode_ranges f.ranges) f.ranges _
          (decode_ranges-ReadsBack f.ranges n) (Reads-lift _ _ (validate-in_micros f valid))))

-- An ACK frame of normal ranges that is written behind an output is read back at the place where
-- the output ended, in an input that fits the address space, its delay in whole microseconds, and
-- the offset moves behind it.
pub decode_ack-encode_ack :
    (f : AckFrame) (front output back : List ℕ)
    → IsNormal f.ranges
    → encode_ack f front ≡ ok output
    → length (output ++ back) ≤ u64_max
    → decode_ack (output ++ back) (length front) ≡ ok (in_micros f, length output)
decode_ack-encode_ack f front output back n =
    ReadsBack-between (encode_ack f) decode_ack (in_micros f) front output back
      (decode_ack-ReadsBack f n)
