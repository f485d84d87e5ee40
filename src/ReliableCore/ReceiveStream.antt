-- ===== src/ReliableCore/ReceiveStream.antt =====
-- crates/reliable-core/src/receive.rs: reassembly of a stream. The `BTreeMap` of segments is a list
-- of pairs in the order of their keys, one pair to a key.
pub mod Delivery
pub mod Settled
pub mod Gaps
pub mod Filled
pub mod Passed
pub mod Reassembly
pub mod Accepts
use dart_udp.Base.{
  ℕ, zero, suc, ◌+◌, ◌-◌, max, min, Bool, true, false, not, ◌&&◌, ltb, leb, ◌==◌, if◌then◌else◌,
  List, [], ◌∷◌, ◌++◌, length, take, drop, is_empty, get_range, Option, none, some, Result, ok, err,
  ok_or, fail_if, ◌>>=◌, ◌>>◌,
}
use dart_udp.Base.Words.{checked_add, saturating_add, saturating_sub}
use dart_udp.ReliableCore.Error.{CoreError, invalid_offset, flow_control_violation}

abbrev pub Segments : Type 0
Segments = List (ℕ × List ℕ)

pub record ReceiveStream : Type 0 where
  pub stream_id : ℕ
  pub next_offset : ℕ
  pub final_offset : Option ℕ
  pub max_offset : ℕ
  pub segments : Segments
  pub ready : List ℕ

unfoldable pub new : ℕ → ℕ → ReceiveStream
new stream_id max_offset = record {
  stream_id = stream_id;
  next_offset = 0;
  final_offset = none;
  max_offset = max_offset;
  segments = [];
  ready = [];
}

unfoldable pub set_max_offset : ReceiveStream → ℕ → ReceiveStream
set_max_offset r max_offset = record r { max_offset = max_offset }

-- `BTreeMap::insert`
unfoldable pub insert_segment : ℕ → List ℕ → Segments → Segments
insert_segment k v [] = (k, v) ∷ []
insert_segment k v ((j, w) ∷ m) =
    if ltb k j
    then (k, v) ∷ ((j, w) ∷ m)
    else if k == j
    then (k, v) ∷ m
    else (j, w) ∷ insert_segment k v m

-- `BTreeMap::remove`
unfoldable pub remove_segment : ℕ → Segments → Option (List ℕ × Segments)
remove_segment k [] = none
remove_segment k ((j, w) ∷ m) =
    let rest = remove_segment k m in
    if k == j then some (w, m) else elim rest [ none ↦ none | some (v, m') ↦ some (v, (j, w) ∷ m') ]

-- `segments.range(..end)`
unfoldable pub segments_below : ℕ → Segments → Segments
segments_below end [] = []
segments_below end ((j, w) ∷ m) = if ltb j end then (j, w) ∷ segments_below end m else []

-- The loop of `uncovered_ranges` and the push behind it: the ranges still to come.
uncovered_from : ℕ → ℕ → Segments → List (ℕ × ℕ)
uncovered_from cursor end [] = if ltb cursor end then (cursor, end) ∷ [] else []
uncovered_from cursor end ((start, bytes) ∷ m) =
    let stop = saturating_add start (length bytes) in
    let next = max cursor stop in
    let skipped = uncovered_from cursor end m in
    let later = uncovered_from next end m in
    let rest = (if leb end next then [] else later) in
    if leb stop cursor
    then skipped
    else if ltb cursor start
    then (cursor, min start end) ∷ rest
    else rest

unfoldable pub uncovered_ranges : ReceiveStream → ℕ → ℕ → List (ℕ × ℕ)
unfolding uncovered_from segments_below
uncovered_ranges r offset end =
    if offset == end
    then []
    else uncovered_from (max offset r.next_offset) end (segments_below end r.segments)

-- The loop of `insert`: the bytes counted so far and the segments.
unfoldable pub insert_ranges :
    ℕ → List ℕ → List (ℕ × ℕ) → ℕ → Segments → Result CoreError (ℕ × Segments)
insert_ranges offset bytes [] new_bytes m = ok (new_bytes, m)
insert_ranges offset bytes ((start, end) ∷ rs) new_bytes m = do
  chunk ← ok_or (get_range bytes (start - offset) (end - offset)) invalid_offset
  insert_ranges offset bytes rs (saturating_add new_bytes (length chunk))
      (insert_segment start chunk m)

-- `deliver_contiguous`: each round takes one segment, so their number is fuel enough.
unfoldable pub deliver_fuel : ℕ → ReceiveStream → Result CoreError ReceiveStream
deliver_fuel zero r = ok r
deliver_fuel (suc fuel) r = elim (remove_segment r.next_offset r.segments) [
  | none ↦ ok r
  | some (bytes, m) ↦ ok_or (checked_add r.next_offset (length bytes)) invalid_offset >>= λ next.
      deliver_fuel fuel (record r { next_offset = next; segments = m; ready = r.ready ++ bytes })
]

unfoldable pub deliver_contiguous : ReceiveStream → Result CoreError ReceiveStream
unfolding deliver_fuel
deliver_contiguous r = deliver_fuel (length r.segments) r

-- The `final_offset` after the checks of `insert`.
unfoldable pub check_final : Option ℕ → ℕ → Bool → Result CoreError (Option ℕ)
check_final none end fin = ok (if fin then some end else none)
check_final (some existing) end fin =
    if fin
    then (if existing == end then ok (some end) else err invalid_offset)
    else (if ltb existing end then err invalid_offset else ok (some existing))

unfoldable pub insert : ReceiveStream → ℕ → List ℕ → Bool → Result CoreError (ReceiveStream × ℕ)
unfolding check_final insert_ranges deliver_contiguous uncovered_ranges
insert r offset bytes fin = do
  end ← ok_or (checked_add offset (length bytes)) invalid_offset
  fail_if (ltb r.max_offset end) (flow_control_violation (some r.stream_id))
  final ← check_final r.final_offset end fin
  (new_bytes, m) ← insert_ranges offset bytes (uncovered_ranges r offset end) 0 r.segments
  delivered ← deliver_contiguous (record r { final_offset = final; segments = m })
  ok (delivered, new_bytes)

-- `try_fold` over the lengths of the ranges.
sum_ranges : List (ℕ × ℕ) → ℕ → Result CoreError ℕ
sum_ranges [] total = ok total
sum_ranges ((start, end) ∷ rs) total = do
  next ← ok_or (checked_add total (end - start)) invalid_offset
  sum_ranges rs next

unfoldable pub new_bytes : ReceiveStream → ℕ → List ℕ → Result CoreError ℕ
unfolding sum_ranges uncovered_ranges
new_bytes r offset bytes = do
  end ← ok_or (checked_add offset (length bytes)) invalid_offset
  fail_if (ltb r.max_offset end) (flow_control_violation (some r.stream_id))
  sum_ranges (uncovered_ranges r offset end) 0

-- What is read, and the stream behind it.
unfoldable pub read : ReceiveStream → ℕ → List ℕ × ReceiveStream
read r max_len =
    let amount = min max_len (length r.ready) in
    (take amount r.ready, record r { ready = drop amount r.ready })

unfoldable pub readable : ReceiveStream → Bool
readable r = not (is_empty r.ready)

unfoldable pub is_finished : ReceiveStream → Bool
is_finished r = elim r.final_offset [
  | none ↦ false
  | some final_offset ↦ (r.next_offset == final_offset) && is_empty r.ready
]

sum_lengths : Segments → ℕ
sum_lengths [] = 0
sum_lengths ((k, v) ∷ m) = length v + sum_lengths m

unfoldable pub buffered_len : ReceiveStream → ℕ
unfolding sum_lengths
buffered_len r = length r.ready + sum_lengths r.segments
