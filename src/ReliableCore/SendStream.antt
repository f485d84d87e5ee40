-- ===== src/ReliableCore/SendStream.antt =====
-- crates/reliable-core/src/send.rs: the queue of data that a stream still has to send.
pub mod Chunks
pub mod Slices
pub mod Accepts
pub mod Complete
use dart_udp.Base.{
  ℕ, zero, suc, ◌+◌, ◌-◌, max, min, Bool, true, false, not, ◌||◌, ltb, ◌==◌, if◌then◌else◌, List,
  [], ◌∷◌, ◌++◌, length, take, drop, is_empty, Option, none, some, Result, ok, err, ok_or, fail_if,
  ◌>>=◌, ◌>>◌,
}
use dart_udp.Base.Words.{checked_add, saturating_add, saturating_sub}
use dart_udp.UdpProtocol.Frame.{StreamData}
use dart_udp.ReliableCore.Error.{
  CoreError, invalid_state, send_buffer_full, invalid_offset, flow_control_violation,
}

pub record PendingData : Type 0 where
  pub offset : ℕ
  pub bytes : List ℕ
  pub fin : Bool
  pub retransmit_count : ℕ

pub record SendStream : Type 0 where
  pub stream_id : ℕ
  pub max_offset : ℕ
  pub next_offset : ℕ
  pub queued_bytes : ℕ
  pub fin_requested : Bool
  pub fin_sent : Bool
  pub queue : List PendingData

unfoldable pub new : ℕ → ℕ → SendStream
new stream_id max_offset = record {
  stream_id = stream_id;
  max_offset = max_offset;
  next_offset = 0;
  queued_bytes = 0;
  fin_requested = false;
  fin_sent = false;
  queue = [];
}

unfoldable pub has_pending_data : SendStream → Bool
has_pending_data s = not (is_empty s.queue)

-- `data.chunks(size)`; each chunk takes a byte, so the number of bytes is fuel enough.
chunks_fuel : ℕ → ℕ → List ℕ → List (List ℕ)
chunks_fuel fuel size [] = []
chunks_fuel zero size (b ∷ bs) = []
chunks_fuel (suc fuel) size (b ∷ bs) =
    take size (b ∷ bs) ∷ chunks_fuel fuel size (drop size (b ∷ bs))

unfoldable pub chunks : ℕ → List ℕ → List (List ℕ)
unfolding chunks_fuel
chunks size bytes = chunks_fuel (length bytes) size bytes

-- `for chunk in ...`: the offset behind the chunks and the queue with them.
unfoldable pub push_chunks :
    ℕ → List (List ℕ) → List PendingData → Result CoreError (ℕ × List PendingData)
push_chunks offset [] queue = ok (offset, queue)
push_chunks offset (c ∷ cs) queue = do
  chunk_end ← ok_or (checked_add offset (length c)) invalid_offset
  push_chunks chunk_end cs
      (queue ++ (record { offset = offset; bytes = c; fin = false; retransmit_count = 0 } ∷ []))

-- `if let Some(last) = queue.back_mut() { last.fin = true }`
mark_last : List PendingData → List PendingData
mark_last [] = []
mark_last (p ∷ []) = record p { fin = true } ∷ []
mark_last (p ∷ (q ∷ ps)) = p ∷ mark_last (q ∷ ps)

-- The queue after `if fin`.
queue_fin : Bool → List ℕ → ℕ → List PendingData → List PendingData
unfolding mark_last
queue_fin false bytes offset queue = queue
queue_fin true [] offset queue =
    queue ++ (record { offset = offset; bytes = []; fin = true; retransmit_count = 0 } ∷ [])
queue_fin true (b ∷ bs) offset queue = mark_last queue

unfoldable pub write : SendStream → List ℕ → Bool → ℕ → ℕ → Result CoreError (SendStream × ℕ)
unfolding push_chunks chunks queue_fin
write s bytes fin max_buffer max_chunk = do
  fail_if (s.fin_requested || s.fin_sent) (invalid_state "write after FIN")
  let available = saturating_sub max_buffer s.queued_bytes
  let accepted = min (length bytes) available
  fail_if (not (accepted == length bytes)) send_buffer_full
  let chunk_size = max max_chunk 1
  end ← ok_or (checked_add s.next_offset (length bytes)) invalid_offset
  fail_if (ltb s.max_offset end) (flow_control_violation (some s.stream_id))
  (offset, queue) ← push_chunks s.next_offset (chunks chunk_size bytes) s.queue
  ok (
    record s {
      queue = queue_fin fin bytes offset queue;
      next_offset = offset;
      queued_bytes = saturating_add s.queued_bytes accepted;
      fin_requested = fin || s.fin_requested;
    },
    accepted,
  )

-- The stream behind its front item.
abbrev pub without_front : SendStream → PendingData → List PendingData → SendStream
without_front s item rest = record s {
  queue = rest;
  queued_bytes = saturating_sub s.queued_bytes (length item.bytes);
  fin_sent = item.fin || s.fin_sent;
}

unfoldable pub pop_sendable : SendStream → Option (PendingData × SendStream)
pop_sendable s = elim s.queue [ [] ↦ none | item ∷ rest ↦ some (item, without_front s item rest) ]

unfoldable pub front_sendable : SendStream → Option PendingData
front_sendable s = elim s.queue [ [] ↦ none | item ∷ rest ↦ some item ]

unfoldable pub requeue : SendStream → StreamData → ℕ → SendStream
requeue s frame retransmit_count = record s {
  queue =
      record {
        offset = frame.offset;
        bytes = frame.bytes;
        fin = frame.fin;
        retransmit_count = retransmit_count;
      }
      ∷ s.queue;
  queued_bytes = saturating_add s.queued_bytes (length frame.bytes);
  fin_sent = if frame.fin then false else s.fin_sent;
}

unfoldable pub update_window : SendStream → ℕ → SendStream
update_window s max_offset = record s { max_offset = max s.max_offset max_offset }
