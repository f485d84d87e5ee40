-- ===== src/Runs/Reassembly.antt =====
-- crates/reliable-core/src/receive.rs: the second half of a stream arrives before the first.
use dart_udp.Base.{ℕ, ◌<◌, ◌≡◌, ◌↔◌, refl, List, [], ◌∷◌, length, ok, none, false}
use dart_udp.ReliableCore.ReceiveStream
use dart_udp.ReliableCore.ReceiveStream.{
  ReceiveStream, insert, insert_segment, remove_segment, segments_below,
}
use dart_udp.ReliableCore.ReceiveStream.Reassembly.{
  Reach, start, arrived, ArrivedUpTo, delivered_iff,
}

abbrev receiving : ℕ → ReceiveStream.Segments → List ℕ → ReceiveStream
receiving next_offset segments ready = record {
  stream_id = 4;
  next_offset = next_offset;
  final_offset = none;
  max_offset = 100;
  segments = segments;
  ready = ready;
}

abbrev waits : ReceiveStream
waits = receiving 0 ((2, 3 ∷ 4 ∷ []) ∷ []) []

abbrev whole : ReceiveStream
whole = receiving 4 [] (1 ∷ 2 ∷ 3 ∷ 4 ∷ [])

second_half : insert (ReceiveStream.new 4 100) 2 (3 ∷ 4 ∷ []) false ≡ ok (waits, 2)
unfolding insert insert_segment remove_segment segments_below ReceiveStream.new
second_half = refl

first_half : insert waits 0 (1 ∷ 2 ∷ []) false ≡ ok (whole, 2)
unfolding insert insert_segment remove_segment segments_below
first_half = refl

whole-Reach : Reach 4 100 whole ((0, 2) ∷ (2, 4) ∷ []) []
whole-Reach =
    arrived (arrived start 2 (3 ∷ 4 ∷ []) false 2 second_half) 0 (1 ∷ 2 ∷ []) false 2 first_half

delivered_iff_example : (3 < length whole.ready) ↔ ArrivedUpTo 3 ((0, 2) ∷ (2, 4) ∷ [])
delivered_iff_example = delivered_iff 3 whole-Reach
