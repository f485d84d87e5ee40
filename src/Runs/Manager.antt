-- ===== src/Runs/Manager.antt =====
-- crates/reliable-core/src/connection/streams.rs: two streams, the first of which is blocked.
use dart_udp.Base.{ℕ, ◌+◌, ◌≡◌, refl, arith, min, true, false, List, [], ◌∷◌, length, ok, some}
use dart_udp.Base.Words.{u64_max}
use dart_udp.UdpProtocol.Frame.{StreamData}
use dart_udp.ReliableCore.SendStream
use dart_udp.ReliableCore.SendStream.{SendStream}
use dart_udp.ReliableCore.ReceiveStream
use dart_udp.ReliableCore.ReceiveFlow
use dart_udp.ReliableCore.ReceiveFlow.{ReceiveFlowControl}
use dart_udp.ReliableCore.StreamManager
use dart_udp.ReliableCore.StreamManager.{
  StreamManager, StreamRecord, StreamRead, open_local, open_numbered, find, put, new_record, read,
  read_record, check_reset, apply_update, is_open, with_stream,
}
use dart_udp.ReliableCore.StreamManager.Frames.{
  take_sendable, insert_data, insert_record, receive_open, StreamDataStatus,
}
use dart_udp.ReliableCore.StreamManager.Sendable.{Picks, take_sendable-Picks}
use dart_udp.ReliableCore.StreamManager.History.{
  Reach, opened, arrived, taken_out, start, next, Reach-window,
}
use dart_udp.ReliableCore.StreamManager.Windows.{Accounts, note}
use dart_udp.ReliableCore.StreamManager.Kept.{after_read, new_account}

abbrev with_item : ℕ → ℕ → StreamRecord
with_item id window = record (new_record id true window 1000) {
  send = record (SendStream.new id window) {
    queue = record { offset = 0; bytes = 1 ∷ 2 ∷ 3 ∷ []; fin = false; retransmit_count = 0 } ∷ [];
  };
}

abbrev two_streams : StreamManager
two_streams = record {
  next_stream_number = 4;
  streams = (0, with_item 0 2) ∷ (2, with_item 2 8) ∷ [];
}

take_sendable-Picks_example : Picks two_streams (take_sendable two_streams)
take_sendable-Picks_example = take_sendable-Picks two_streams

-- A stream is opened, three bytes arrive, and two of them are read.
abbrev one_stream : StreamManager
one_stream = (open_local (StreamManager.new 0) 0 500 1000).0

abbrev three_bytes : StreamData
three_bytes = record { stream_id = 0; offset = 0; bytes = 7 ∷ 8 ∷ 9 ∷ []; fin = false }

abbrev with_ready : ℕ → List ℕ → ReceiveFlowControl → StreamRecord
with_ready limit ready flow = record (new_record 0 true 500 1000) {
  recv = record (ReceiveStream.new 0 limit) { next_offset = 3; ready = ready };
  recv_flow = flow;
}

abbrev managing : StreamRecord → StreamManager
managing r = record { next_stream_number = 2; streams = (0, r) ∷ [] }

three_ready :
    (status : StreamDataStatus) × (insert_data one_stream three_bytes
      ≡ ok (managing (with_ready 1000 (7 ∷ 8 ∷ 9 ∷ []) (ReceiveFlow.new 1000)), status))
unfolding insert_data with_stream insert_record receive_open open_local open_numbered
    StreamManager.insert find put StreamManager.new is_open ReceiveStream.insert
    ReceiveStream.insert_segment ReceiveStream.remove_segment ReceiveStream.segments_below
    new_record ReceiveStream.new
three_ready = (_, refl)

abbrev after_two : StreamRecord
after_two =
    with_ready 1002 (9 ∷ [])
      (record (ReceiveFlow.new 1000) { consumed = 2; advertised_offset = 1002; max_offset = 1002 })

abbrev two_read : StreamRead
two_read = record { bytes = 7 ∷ 8 ∷ []; eof = false; window_update = some 1002 }

read_two :
    read (managing (with_ready 1000 (7 ∷ 8 ∷ 9 ∷ []) (ReceiveFlow.new 1000))) 0 2
    ≡ ok (managing after_two, two_read)
unfolding read with_stream find put read_record check_reset apply_update ReceiveStream.read
    ReceiveFlow.consume ReceiveFlow.new ReceiveStream.set_max_offset ReceiveStream.is_finished
    ReceiveStream.new new_record
read_two = refl

abbrev no_accounts : Accounts
no_accounts id = new_account 0

abbrev two_accounts : Accounts
two_accounts =
    note (note no_accounts 0 (new_account 1000)) 0 (after_read (new_account 1000) two_read)

two_read-Reach : Reach 0 (managing after_two) two_accounts
unfolding find StreamManager.new
two_read-Reach =
    next
      (next (next (start {l = no_accounts}) (opened 0 500 1000 (omega arith)))
        (arrived three_bytes three_ready.1))
      (taken_out 0 2 read_two)

find_stream : find 0 (managing after_two).streams ≡ some after_two
unfolding find
find_stream = refl

Reach-window_example :
    (after_two.recv.max_offset ≡ min (1000 + 2) u64_max)
    × (1002 ≡ after_two.recv.max_offset)
    × (after_two.recv.next_offset ≡ 2 + length after_two.recv.ready)
Reach-window_example = Reach-window 0 0 two_read-Reach find_stream
