-- ===== src/ReliableCore/StreamManager/Frames.antt =====
-- crates/reliable-core/src/connection/streams.rs: what arrives for a stream, and what is to be sent.
use dart_udp.Base.{
  ℕ, ◌==◌, ltb, ◌&&◌, Bool, false, if◌then◌else◌, Option, none, some, [], ◌∷◌, length, Result, ok,
  ok_or, fail_if, ◌>>=◌, ◌>>◌,
}
use dart_udp.Base.Words.{saturating_add, saturating_sub}
use dart_udp.UdpProtocol.Frame.{StreamData}
use dart_udp.ReliableCore.Error.{CoreError, unknown_stream, receive_buffer_full}
use dart_udp.ReliableCore.SendStream
use dart_udp.ReliableCore.SendStream.{SendStream, PendingData}
use dart_udp.ReliableCore.ReceiveStream
use dart_udp.ReliableCore.StreamManager.{
  StreamManager, StreamRecord, reset_state, finished_state, Streams, is_open, find, put,
  with_stream,
}

-- The new bytes, where the buffer of the stream has room for them.
unfoldable pub new_bytes_within : StreamData → ℕ → StreamRecord → Result CoreError ℕ
new_bytes_within segment max_receive_buffer r = do
  new_bytes ← ReceiveStream.new_bytes r.recv segment.offset segment.bytes
  fail_if (ltb (saturating_sub max_receive_buffer (ReceiveStream.buffered_len r.recv)) new_bytes)
      receive_buffer_full
  ok new_bytes

unfoldable pub new_data_bytes : StreamManager → StreamData → ℕ → Result CoreError ℕ
new_data_bytes m segment max_receive_buffer =
    ok_or (find segment.stream_id m.streams) (unknown_stream segment.stream_id) >>= λ r.
    if is_open r.state then new_bytes_within segment max_receive_buffer r else ok 0

pub record StreamDataStatus : Type 0 where
  pub readable : Bool
  pub finished : Bool
  pub buffered : ℕ

unfoldable pub receive_open :
    StreamData → StreamRecord → Result CoreError (StreamRecord × StreamDataStatus)
receive_open segment r = do
  inserted ← ReceiveStream.insert r.recv segment.offset segment.bytes segment.fin
  ok (
    record r { recv = inserted.0 },
    record {
      readable = ReceiveStream.readable inserted.0;
      finished = ReceiveStream.is_finished inserted.0;
      buffered = ReceiveStream.buffered_len inserted.0;
    },
  )

-- Data for a stream that is not open is dropped.
unfoldable pub dropped_status : StreamRecord → StreamDataStatus
dropped_status r = record {
  readable = false;
  finished = false;
  buffered = ReceiveStream.buffered_len r.recv;
}

unfoldable pub insert_record :
    StreamData → StreamRecord → Result CoreError (StreamRecord × StreamDataStatus)
insert_record segment r =
    if is_open r.state then receive_open segment r else ok (r, dropped_status r)

unfoldable pub insert_data :
    StreamManager → StreamData → Result CoreError (StreamManager × StreamDataStatus)
insert_data m segment = with_stream m segment.stream_id (insert_record segment)

-- `finish` does nothing where there is no such stream.
unfoldable pub finish : StreamManager → ℕ → StreamManager
finish m stream_id = elim (find stream_id m.streams) [
  | none ↦ m
  | some r ↦ record m { streams = put stream_id (record r { state = finished_state }) m.streams }
]

unfoldable pub reset : StreamManager → ℕ → ℕ → Result CoreError (StreamManager × Unit {0})
reset m stream_id error_code =
    with_stream m stream_id λ r. ok (record r { state = reset_state error_code }, tt)

unfoldable pub update_send_window :
    StreamManager → ℕ → ℕ → Result CoreError (StreamManager × Unit {0})
update_send_window m stream_id max_offset =
    with_stream m stream_id
      λ r. ok (record r { send = SendStream.update_window r.send max_offset }, tt)

unfoldable pub requeue :
    StreamManager → StreamData → ℕ → Result CoreError (StreamManager × Unit {0})
requeue m segment retransmit_count =
    with_stream m segment.stream_id
      λ r. ok (record r { send = SendStream.requeue r.send segment retransmit_count }, tt)

-- `item.retransmit_count() == 0 && end > stream.send.max_offset()`
unfoldable pub is_blocked : SendStream → PendingData → Bool
is_blocked s item =
    (item.retransmit_count == 0)
    && ltb s.max_offset (saturating_add item.offset (length item.bytes))

-- What is taken from a stream behind the first one.
unfoldable pub prepend :
    ℕ × StreamRecord → Option ((ℕ × PendingData) × Streams) → Option ((ℕ × PendingData) × Streams)
prepend s none = none
prepend s (some (item, rest)) = some (item, s ∷ rest)

unfoldable pub pop_from : ℕ → StreamRecord → Streams → Option ((ℕ × PendingData) × Streams)
pop_from id r rest = elim (SendStream.pop_sendable r.send) [
  | none ↦ none
  | some (popped, send) ↦ some ((id, popped), (id, record r { send = send }) ∷ rest)
]

-- The turn of one stream, with its front item: `later` is what the streams behind it give.
unfoldable pub take_turn :
    ℕ
    → StreamRecord
    → Streams
    → Option ((ℕ × PendingData) × Streams)
    → Option PendingData
    → Option ((ℕ × PendingData) × Streams)
take_turn id r rest later none = later
take_turn id r rest later (some item) = if is_blocked r.send item then later else pop_from id r rest

-- `for stream_id in stream_ids`
unfoldable pub take_from : Streams → Option ((ℕ × PendingData) × Streams)
take_from [] = none
take_from ((id, r) ∷ rest) =
    take_turn id r rest (prepend (id, r) (take_from rest)) (SendStream.front_sendable r.send)

unfoldable pub take_sendable : StreamManager → Option ((ℕ × PendingData) × StreamManager)
take_sendable m = elim (take_from m.streams) [
  | none ↦ none
  | some (item, streams) ↦ some (item, record m { streams = streams })
]
