-- ===== src/ReliableCore/StreamManager/History.antt =====
-- crates/reliable-core/src/connection/streams.rs: the windows of all streams, after any operations.
use dart_udp.Base.{
  ℕ, ◌+◌, ◌≤◌, ◌≡◌, sym, subst, min, Bool, some, List, length, Result, ok, ok_pair-injective, ◌∙◌,
}
use dart_udp.Base.Words.{u64_max}
use dart_udp.UdpProtocol.Frame.{StreamData}
use dart_udp.ReliableCore.Error.{CoreError}
use dart_udp.ReliableCore.SendStream
use dart_udp.ReliableCore.SendStream.{PendingData}
use dart_udp.ReliableCore.StreamManager.{
  StreamManager, StreamRecord, StreamRead, find, new, insert, open_local, write, read, reset_state,
}
use dart_udp.ReliableCore.StreamManager.Frames.{
  StreamDataStatus, insert_data, finish, reset, update_send_window, requeue, take_sendable,
}
use dart_udp.ReliableCore.StreamManager.Windows.{
  Account, Accounts, note, HasWindow, IsManaged, with_stream-IsManaged, note_self,
}
use dart_udp.ReliableCore.StreamManager.Changed.{
  begin, insert-IsManaged, open_local-IsManaged, take-IsManaged, finish-IsManaged,
}
use dart_udp.ReliableCore.StreamManager.Kept.{
  after_read, read_record-HasWindow, write_record-HasWindow, insert_record-HasWindow,
}

-- An operation of the connection on its streams, with the accounts before and after it.
pub data Step : StreamManager → Accounts → StreamManager → Accounts → Type 0 where
  opened :
      {m : StreamManager} {l : Accounts} (parity send_window receive_window : ℕ)
      → receive_window ≤ u64_max
      → Step m l
          (open_local m parity send_window receive_window).0
          (begin l m m.next_stream_number receive_window)
  inserted :
      {m m' : StreamManager} {l : Accounts} (id : ℕ) (bidirectional : Bool)
      (send_window parity receive_window : ℕ)
      → receive_window ≤ u64_max
      → insert m id bidirectional send_window parity receive_window ≡ ok m'
      → Step m l m' (begin l m id receive_window)
  wrote :
      {m m' : StreamManager} {l : Accounts} (id : ℕ) (bytes : List ℕ) (fin : Bool)
      (max_buffer max_chunk : ℕ) {n : ℕ}
      → write m id bytes fin max_buffer max_chunk ≡ ok (m', n)
      → Step m l m' l
  taken_out :
      {m m' : StreamManager} {l : Accounts} (id max_len : ℕ) {result : StreamRead}
      → read m id max_len ≡ ok (m', result)
      → Step m l m' (note l id (after_read (l id) result))
  arrived :
      {m m' : StreamManager} {l : Accounts} (segment : StreamData) {status : StreamDataStatus}
      → insert_data m segment ≡ ok (m', status)
      → Step m l m' l
  finished : {m : StreamManager} {l : Accounts} (id : ℕ) → Step m l (finish m id) l
  was_reset :
      {m m' : StreamManager} {l : Accounts} (id error_code : ℕ)
      → reset m id error_code ≡ ok (m', tt)
      → Step m l m' l
  widened :
      {m m' : StreamManager} {l : Accounts} (id max_offset : ℕ)
      → update_send_window m id max_offset ≡ ok (m', tt)
      → Step m l m' l
  requeued :
      {m m' : StreamManager} {l : Accounts} (segment : StreamData) (count : ℕ)
      → requeue m segment count ≡ ok (m', tt)
      → Step m l m' l
  sent :
      {m m' : StreamManager} {l : Accounts} {id : ℕ} {item : PendingData}
      → take_sendable m ≡ some ((id, item), m')
      → Step m l m' l

-- A change of one stream that leaves its receiving side alone.
sending-HasWindow :
    (a : Account) (change : StreamRecord → StreamRecord)
    → ((r : StreamRecord) → HasWindow a r → HasWindow a (change r))
    → (r r' : StreamRecord) (u : Unit {0}) → HasWindow a r
    → ◌≡◌ {A = Result CoreError (StreamRecord × Unit {0})} (ok (change r, tt)) (ok (r', u))
    → HasWindow a r'
sending-HasWindow a change keeps r r' u window h =
    let (same, _) = ok_pair-injective h in subst (HasWindow a) same (keeps r window)

Step-IsManaged :
    {m m' : StreamManager} {l l' : Accounts} → Step m l m' l' → IsManaged l m → IsManaged l' m'
unfolding write read insert_data reset update_send_window requeue
Step-IsManaged {m} {l = l} (opened parity send_window receive_window fits) managed =
    open_local-IsManaged l m parity send_window receive_window fits managed
Step-IsManaged {m} {l = l} (inserted id bidirectional send_window parity receive_window fits h)
      managed =
    insert-IsManaged l m id bidirectional send_window parity receive_window fits managed h
Step-IsManaged {m} {m'} {l} (wrote id bytes fin max_buffer max_chunk h) managed =
    note_self l id m' (
      with_stream-IsManaged l m id _ (λ _. l id)
        (write_record-HasWindow bytes fin max_buffer max_chunk (l id)) managed h)
Step-IsManaged {m} {l = l} (taken_out id max_len h) managed =
    with_stream-IsManaged l m id _ (after_read (l id)) (read_record-HasWindow id max_len (l id))
      managed h
Step-IsManaged {m} {m'} {l} (arrived segment h) managed = note_self l segment.stream_id m' (
    with_stream-IsManaged l m segment.stream_id _ (λ _. l segment.stream_id)
      (insert_record-HasWindow segment (l segment.stream_id)) managed h)
Step-IsManaged {m} {l = l} (finished id) managed = finish-IsManaged l m id managed
Step-IsManaged {m} {m'} {l} (was_reset id error_code h) managed = note_self l id m' (
    with_stream-IsManaged l m id _ (λ _. l id)
      (sending-HasWindow (l id) (λ r. record r { state = reset_state error_code })
        λ r w. record { flow = w.flow; limit = w.limit; position = w.position })
      managed h)
Step-IsManaged {m} {m'} {l} (widened id max_offset h) managed = note_self l id m' (
    with_stream-IsManaged l m id _ (λ _. l id)
      (sending-HasWindow (l id)
        (λ r. record r { send = SendStream.update_window r.send max_offset })
        λ r w. record { flow = w.flow; limit = w.limit; position = w.position })
      managed h)
Step-IsManaged {m} {m'} {l} (requeued segment count h) managed = note_self l segment.stream_id m' (
    with_stream-IsManaged l m segment.stream_id _ (λ _. l segment.stream_id)
      (sending-HasWindow (l segment.stream_id)
        (λ r. record r { send = SendStream.requeue r.send segment count })
        λ r w. record { flow = w.flow; limit = w.limit; position = w.position })
      managed h)
Step-IsManaged {m} {l = l} (sent h) managed = take-IsManaged l m managed h

-- What is reached from no streams at all.
pub data Reach (first : ℕ) : StreamManager → Accounts → Type 0 where
  start : {l : Accounts} → Reach first (new first) l
  next :
      {m m' : StreamManager} {l l' : Accounts}
      → Reach first m l
      → Step m l m' l'
      → Reach first m' l'

Reach-IsManaged : (first : ℕ) {m : StreamManager} {l : Accounts} → Reach first m l → IsManaged l m
unfolding new find
Reach-IsManaged first start = λ id r h. cc
Reach-IsManaged first (next history step) = Step-IsManaged step (Reach-IsManaged first history)

-- After any history of operations of the stream manager, with receive windows of a u64 for the
-- streams that are opened, every stream accepts the offsets up to the sum of the window that it was
-- opened with and the number of bytes that its reads have handed out, capped at u64::MAX; that is
-- the limit that the peer was told, by the window at first or by the last read that returned an
-- update; and the bytes handed out with those that are ready are the bytes up to `next_offset`.
pub Reach-window :
    (first : ℕ) {m : StreamManager} {l : Accounts} (id : ℕ) {r : StreamRecord}
    → Reach first m l
    → find id m.streams ≡ some r
    → (r.recv.max_offset ≡ min ((l id).window + (l id).ledger.taken) u64_max)
      × ((l id).ledger.told ≡ r.recv.max_offset)
      × (r.recv.next_offset ≡ (l id).ledger.taken + length r.recv.ready)
Reach-window first {l = l} id {r} history h =
    let w = Reach-IsManaged first history id r h in
    (w.limit ∙ w.flow.enforced, w.flow.known ∙ sym w.limit, w.position)
