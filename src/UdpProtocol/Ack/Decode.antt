-- ===== src/UdpProtocol/Ack/Decode.antt =====
-- crates/udp-protocol/src/ack.rs: `AckRanges::decode_from` and `AckFrame::decode_from`.
use dart_udp.Base.{ℕ, zero, suc, ◌*◌, List, [], ◌∷◌, ltb, ◌==◌, fail_if}
use dart_udp.UdpProtocol.Error.{invalid_ack_ranges, ack_range_count_exceeded}
use dart_udp.UdpProtocol.Cursor.{Parser, ◌>>=◌, ◌>>◌, pure, lift}
use dart_udp.UdpProtocol.Varint
use dart_udp.UdpProtocol.Ack.{
  AckRange, AckRanges, AckFrame, max_ack_ranges, from_descending, validate,
}

-- `for _ in 0..count`
unfoldable pub read_each : ℕ → Parser (List AckRange)
read_each zero = pure []
read_each (suc n) = do
  start ← Varint.decode
  end ← Varint.decode
  rest ← read_each n
  pure (record { start = start; end = end } ∷ rest)

unfoldable pub decode_ranges : Parser AckRanges
decode_ranges = do
  count ← Varint.decode
  lift (fail_if (count == 0) invalid_ack_ranges)
  lift (fail_if (ltb max_ack_ranges count) (ack_range_count_exceeded max_ack_ranges))
  ranges ← read_each count
  lift (from_descending ranges)

unfoldable pub decode_ack : Parser AckFrame
decode_ack = do
  largest ← Varint.decode
  delay_micros ← Varint.decode
  ranges ← decode_ranges
  let frame : AckFrame = record {
    largest = largest;
    ack_delay = delay_micros * 1000;
    ranges = ranges;
  }
  lift (validate frame)
  pure frame
