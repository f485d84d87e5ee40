-- ===== src/ReliableCore/StreamManager.antt =====
-- crates/reliable-core/src/connection/streams.rs and stream.rs: the streams of a connection. The
-- `BTreeMap` of streams is a list of pairs in the order of their keys, one pair to a key. A lookup with
-- `?` and the change of what was found are `with_stream`.
pub mod Frames
pub mod Windows
pub mod Kept
pub mod Changed
pub mod History
pub mod Sendable
use dart_udp.Base.{
  ℕ, ◌+◌, ◌%◌, ◌==◌, ltb, not, ◌&&◌, ◌||◌, Bool, true, false, if◌then◌else◌, any, Option, none,
  some, List, [], ◌∷◌, length, Result, ok, err, ok_or, fail_if, ◌>>=◌, ◌>>◌,
}
use dart_udp.Base.Words.{checked_add, saturating_add, saturating_sub}
use dart_udp.UdpProtocol.Frame.{StreamData}
use dart_udp.ReliableCore.Error.{
  CoreError, invalid_state, invalid_stream_id, unknown_stream, stream_reset, receive_buffer_full,
}
use dart_udp.ReliableCore.SendStream
use dart_udp.ReliableCore.SendStream.{SendStream, PendingData}
use dart_udp.ReliableCore.ReceiveStream
use dart_udp.ReliableCore.ReceiveStream.{ReceiveStream}
use dart_udp.ReliableCore.ReceiveFlow
use dart_udp.ReliableCore.ReceiveFlow.{ReceiveFlowControl, consume}

pub data StreamState : Type 0 where
  open_state : StreamState
  reset_state : (error_code : ℕ) → StreamState
  finished_state : StreamState

unfoldable pub is_open : StreamState → Bool
is_open open_state = true
is_open (reset_state error_code) = false
is_open finished_state = false

pub record StreamRecord : Type 0 where
  pub id : ℕ
  pub bidirectional : Bool
  pub state : StreamState
  pub send : SendStream
  pub recv : ReceiveStream
  pub recv_flow : ReceiveFlowControl

abbrev pub Streams : Type 0
Streams = List (ℕ × StreamRecord)

pub record StreamManager : Type 0 where
  pub next_stream_number : ℕ
  pub streams : Streams

unfoldable pub new : ℕ → StreamManager
new next_stream_number = record { next_stream_number = next_stream_number; streams = [] }

unfoldable pub has_pending_data : StreamManager → Bool
has_pending_data m = any (λ s. SendStream.has_pending_data s.1.send) m.streams

-- `BTreeMap::get`
unfoldable pub find : ℕ → Streams → Option StreamRecord
find id [] = none
find id ((key, r) ∷ rest) = if id == key then some r else find id rest

-- `BTreeMap::insert`
unfoldable pub put : ℕ → StreamRecord → Streams → Streams
put id s [] = (id, s) ∷ []
put id s ((key, r) ∷ rest) =
    if ltb id key
    then (id, s) ∷ ((key, r) ∷ rest)
    else if id == key
    then (id, s) ∷ rest
    else (key, r) ∷ put id s rest

unfoldable pub with_stream :
    {A : Type 0}
    → StreamManager
    → ℕ
    → (StreamRecord → Result CoreError (StreamRecord × A))
    → Result CoreError (StreamManager × A)
with_stream m id change = do
  found ← ok_or (find id m.streams) (unknown_stream id)
  changed ← change found
  ok (record m { streams = put id changed.0 m.streams }, changed.1)

unfoldable pub new_record : ℕ → Bool → ℕ → ℕ → StreamRecord
new_record stream_id bidirectional send_window receive_window = record {
  id = stream_id;
  bidirectional = bidirectional;
  state = open_state;
  send = SendStream.new stream_id send_window;
  recv = ReceiveStream.new stream_id receive_window;
  recv_flow = ReceiveFlow.new receive_window;
}

unfoldable pub insert : StreamManager → ℕ → Bool → ℕ → ℕ → ℕ → Result CoreError StreamManager
insert m stream_id bidirectional send_window expected_parity receive_window =
    elim (find stream_id m.streams) [
      | some r ↦ ok m
      | none ↦ do
        fail_if (not (stream_id % 2 == expected_parity)) (invalid_stream_id stream_id)
        ok (record m {
          streams =
              put stream_id (new_record stream_id bidirectional send_window receive_window)
                m.streams;
        })
    ]

-- The rest of `open_local`, once the number is taken.
unfoldable pub open_numbered : StreamManager → ℕ → ℕ → ℕ → ℕ → StreamManager × Result CoreError ℕ
open_numbered m stream_id parity send_window receive_window =
    elim (insert m stream_id true send_window parity receive_window) [
      | ok opened ↦ (opened, ok stream_id)
      | err e ↦ (m, err e)
    ]

-- `open_local`, with the parity of the role. The number is taken also where `insert` fails.
unfoldable pub open_local : StreamManager → ℕ → ℕ → ℕ → StreamManager × Result CoreError ℕ
open_local m parity send_window receive_window = elim (checked_add m.next_stream_number 2) [
  | none ↦ (m, err (invalid_state "allocate stream ID"))
  | some raw ↦
      open_numbered (record m { next_stream_number = raw }) m.next_stream_number parity send_window
        receive_window
]

unfoldable pub write_record :
    List ℕ → Bool → ℕ → ℕ → StreamRecord → Result CoreError (StreamRecord × ℕ)
write_record bytes fin max_buffer max_chunk r = do
  fail_if (not (is_open r.state)) (invalid_state "write closed stream")
  written ← SendStream.write r.send bytes fin max_buffer max_chunk
  ok (record r { send = written.0 }, written.1)

unfoldable pub write :
    StreamManager → ℕ → List ℕ → Bool → ℕ → ℕ → Result CoreError (StreamManager × ℕ)
write m stream_id bytes fin max_buffer max_chunk =
    with_stream m stream_id (write_record bytes fin max_buffer max_chunk)

pub record StreamRead : Type 0 where
  pub bytes : List ℕ
  pub eof : Bool
  pub window_update : Option ℕ

-- `if let Some(max_offset) = window_update`
unfoldable pub apply_update : ReceiveStream → Option ℕ → ReceiveStream
apply_update r none = r
apply_update r (some max_offset) = ReceiveStream.set_max_offset r max_offset

unfoldable pub check_reset : StreamState → ℕ → Result CoreError (Unit {0})
check_reset open_state stream_id = ok tt
check_reset (reset_state error_code) stream_id = err (stream_reset stream_id error_code)
check_reset finished_state stream_id = ok tt

unfoldable pub read_record : ℕ → ℕ → StreamRecord → Result CoreError (StreamRecord × StreamRead)
read_record stream_id max_len r = do
  check_reset r.state stream_id
  let taken = ReceiveStream.read r.recv max_len
  let consumed = consume r.recv_flow (length taken.0)
  let recv = apply_update taken.1 consumed.1
  let eof = ReceiveStream.is_finished recv
  ok (
    record r {
      state = if eof then finished_state else r.state;
      recv = recv;
      recv_flow = consumed.0;
    },
    record { bytes = taken.0; eof = eof; window_update = consumed.1 },
  )

unfoldable pub read : StreamManager → ℕ → ℕ → Result CoreError (StreamManager × StreamRead)
read m stream_id max_len = with_stream m stream_id (read_record stream_id max_len)
