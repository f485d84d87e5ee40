-- ===== src/ReliableCore/StreamManager/Kept.antt =====
-- crates/reliable-core/src/connection/streams.rs: what one stream does keeps its window.
use dart_udp.Base.{
  ℕ, ◌+◌, ◌≤◌, ◌≡◌, refl, ap, arith, ◌∙◌, subst, not, min, Bool, true, false, if◌then◌else◌, Option,
  none, some, List, length, take, length-take, length-drop, ok, fail_if, >>=-eq-ok,
  ok_pair-injective,
}
use dart_udp.Base.Words.{u64_max}
use dart_udp.UdpProtocol.Frame.{StreamData}
use dart_udp.ReliableCore.Error.{invalid_state}
use dart_udp.ReliableCore.SendStream
use dart_udp.ReliableCore.SendStream.{PendingData}
use dart_udp.ReliableCore.ReceiveStream
use dart_udp.ReliableCore.ReceiveStream.{ReceiveStream}
use dart_udp.ReliableCore.ReceiveFlow
use dart_udp.ReliableCore.ReceiveFlow.{ReceiveFlowControl, consume}
use dart_udp.ReliableCore.ReceiveFlow.Ledger.{opening, tell, new-IsOpen, consume-IsOpen}
use dart_udp.ReliableCore.StreamManager.{
  StreamRecord, StreamRead, new_record, read_record, write_record, apply_update, check_reset,
  is_open,
}
use dart_udp.ReliableCore.StreamManager.Frames.{
  StreamDataStatus, insert_record, receive_open, dropped_status,
}
use dart_udp.ReliableCore.StreamManager.Windows.{Account, HasWindow, insert-window}

-- The limit of the receive stream follows that of the flow control.
apply_update-limit :
    (recv : ReceiveStream) (f : ReceiveFlowControl) (amount : ℕ)
    → f.advertised_offset ≡ f.max_offset
    → recv.max_offset ≡ f.max_offset
    → (apply_update recv (consume f amount).1).max_offset ≡ (consume f amount).0.max_offset
unfolding apply_update ReceiveStream.set_max_offset consume
apply_update-limit recv f amount advertised same = ground arith

apply_update-rest :
    (recv : ReceiveStream) (update : Option ℕ)
    → ((apply_update recv update).next_offset ≡ recv.next_offset)
      × ((apply_update recv update).ready ≡ recv.ready)
unfolding apply_update ReceiveStream.set_max_offset
apply_update-rest recv none = (refl, refl)
apply_update-rest recv (some n) = (refl, refl)

-- The account of a stream after a read: the bytes that were handed out, and the limit if it is told.
abbrev pub after_read : Account → StreamRead → Account
after_read a result = record a {
  ledger = record a.ledger {
    taken = a.ledger.taken + length result.bytes;
    told = tell a.ledger.told result.window_update;
  };
}

pub read_record-HasWindow :
    (stream_id max_len : ℕ) (a : Account) (r r' : StreamRecord) (result : StreamRead)
    → HasWindow a r
    → read_record stream_id max_len r ≡ ok (r', result)
    → HasWindow (after_read a result) r'
unfolding read_record ReceiveStream.read
read_record-HasWindow stream_id max_len a r r' result window h =
    let (_, _, e) = >>=-eq-ok (check_reset r.state stream_id) _ h in
    let (same, handed) = ok_pair-injective e in
    let n : ℕ = min max_len (length r.recv.ready) in
    let taken = take n r.recv.ready in
    let update = (consume r.recv_flow (length taken)).1 in
    let given : StreamRead = record {
      bytes = taken;
      eof = ReceiveStream.is_finished (apply_update (ReceiveStream.read r.recv max_len).1 update);
      window_update = update;
    } in
    let (offset, ready) = apply_update-rest (ReceiveStream.read r.recv max_len).1 update in
    subst (λ t. HasWindow (after_read a t) r') handed
      (subst (HasWindow (after_read a given)) same (record {
        flow = consume-IsOpen a.window (length taken) r.recv_flow a.ledger window.flow;
        limit =
            apply_update-limit (ReceiveStream.read r.recv max_len).1 r.recv_flow (length taken)
              window.flow.advertised window.limit;
        position = omega (
          arith,
          offset,
          ap length ready,
          window.position,
          length-take n r.recv.ready,
          length-drop n r.recv.ready,
        );
      }))

pub write_record-HasWindow :
    (bytes : List ℕ) (fin : Bool) (max_buffer max_chunk : ℕ) (a : Account) (r r' : StreamRecord)
    (n : ℕ)
    → HasWindow a r
    → write_record bytes fin max_buffer max_chunk r ≡ ok (r', n)
    → HasWindow a r'
unfolding write_record
write_record-HasWindow bytes fin max_buffer max_chunk a r r' n window h =
    let (_, _, e₁) =
      >>=-eq-ok (fail_if (not (is_open r.state)) (invalid_state "write closed stream")) _ h in
    let (written, _, e₂) =
      >>=-eq-ok (SendStream.write r.send bytes fin max_buffer max_chunk) _ e₁ in
    let (same, _) = ok_pair-injective e₂ in
    subst (HasWindow a) same
      (record { flow = window.flow; limit = window.limit; position = window.position })

receive_open-HasWindow :
    (segment : StreamData) (a : Account) (r r' : StreamRecord) (status : StreamDataStatus)
    → HasWindow a r
    → receive_open segment r ≡ ok (r', status)
    → HasWindow a r'
unfolding receive_open
receive_open-HasWindow segment a r r' status window h =
    let ((recv, n), inserted, e) =
      >>=-eq-ok (ReceiveStream.insert r.recv segment.offset segment.bytes segment.fin) _ h in
    let (same, _) = ok_pair-injective e in
    let (limit, moved) = insert-window r.recv segment.offset segment.bytes segment.fin inserted in
    subst (HasWindow a) same (record {
      flow = window.flow;
      limit = limit ∙ window.limit;
      position = omega (arith, moved, window.position);
    })

pub insert_record-HasWindow :
    (segment : StreamData) (a : Account) (r r' : StreamRecord) (status : StreamDataStatus)
    → HasWindow a r
    → insert_record segment r ≡ ok (r', status)
    → HasWindow a r'
unfolding insert_record
insert_record-HasWindow segment a r r' status window h = go (is_open r.state) h
  where
    go :
        (b : Bool)
        → (if b then receive_open segment r else ok (r, dropped_status r)) ≡ ok (r', status)
        → HasWindow a r'
    go true h = receive_open-HasWindow segment a r r' status window h
    go false h = let (same, _) = ok_pair-injective h in subst (HasWindow a) same window

abbrev pub new_account : ℕ → Account
new_account window = record { window = window; ledger = opening window }

pub new_record-HasWindow :
    (id : ℕ) (bidirectional : Bool) (send_window receive_window : ℕ)
    → receive_window ≤ u64_max
    → HasWindow
        (new_account receive_window)
        (new_record id bidirectional send_window receive_window)
unfolding new_record ReceiveStream.new
new_record-HasWindow id bidirectional send_window receive_window fits = record {
  flow = new-IsOpen receive_window fits;
  limit = unfold ReceiveFlow.new in refl;
  position = omega arith;
}
