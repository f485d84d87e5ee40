-- ===== src/Runs/Streams.antt =====
-- crates/reliable-core: a stream of five bytes whose items arrive in the wrong order.
use dart_udp.Base.{
  arith, ℕ, ◌≤◌, ◌≡◌, refl, List, [], ◌∷◌, ◌++◌, length, All, ok, some, none, true, false,
}
use dart_udp.ReliableCore.SendStream
use dart_udp.ReliableCore.SendStream.{SendStream, PendingData, write, pop_sendable, requeue}
use dart_udp.ReliableCore.SendStream.{push_chunks, chunks}
use dart_udp.ReliableCore.SendStream.Chunks.{Fits}
use dart_udp.ReliableCore.SendStream.Slices.{Follows, write-Follows, Sends, Sends-Fits, as_frame}
use dart_udp.ReliableCore.SendStream.Slices
use dart_udp.ReliableCore.ReceiveStream
use dart_udp.ReliableCore.ReceiveStream.{ReceiveStream, insert, read}
use dart_udp.ReliableCore.ReceiveStream.{deliver_contiguous, uncovered_ranges}
use dart_udp.ReliableCore.ReceiveStream.{insert_segment, remove_segment, segments_below}
use dart_udp.ReliableCore.ReceiveStream.Delivery.{Delivers, insert-Delivers, read-Delivers}
use dart_udp.ReliableCore.ReceiveStream.{is_finished}
use dart_udp.ReliableCore.SendStream.Accepts.{write-accepts}
use dart_udp.ReliableCore.SendStream.Complete
use dart_udp.ReliableCore.SendStream.Complete.{bytes_in, Drains-written}
use dart_udp.ReliableCore.EndToEnd.{Receives, taken-beginning}
use dart_udp.ReliableCore.EndToEnd

abbrev five : List ℕ
five = 1 ∷ 2 ∷ 3 ∷ 4 ∷ 5 ∷ []

abbrev item : ℕ → List ℕ → PendingData
item offset bytes = record { offset = offset; bytes = bytes; fin = false; retransmit_count = 0 }

abbrev last_item : PendingData
last_item = record (item 4 (5 ∷ [])) { fin = true }

abbrev sender : ℕ → ℕ → List PendingData → SendStream
sender next_offset queued_bytes queue = record {
  stream_id = 4;
  max_offset = 100;
  next_offset = next_offset;
  queued_bytes = queued_bytes;
  fin_requested = true;
  fin_sent = false;
  queue = queue;
}

abbrev fresh : SendStream
fresh = record (sender 0 0 []) { fin_requested = false }

abbrev written_five : SendStream
written_five = sender 5 5 (item 0 (1 ∷ 2 ∷ []) ∷ item 2 (3 ∷ 4 ∷ []) ∷ last_item ∷ [])

fresh_sender : fresh ≡ SendStream.new 4 100
unfolding SendStream.new
fresh_sender = refl

five_taken : write fresh five true 64 2 ≡ ok (written_five, 5)
unfolding write push_chunks chunks
five_taken = refl

fresh-Follows : Follows fresh []
fresh-Follows = record { position = refl; pieces = tt }

write-Follows_example :
    Follows written_five five × (5 ≡ length five) × (written_five.next_offset ≤ 100)
write-Follows_example =
    write-Follows fresh [] five true 64 2 written_five 5 fresh-Follows five_taken

abbrev sent_one : SendStream
sent_one = sender 5 3 (item 2 (3 ∷ 4 ∷ []) ∷ last_item ∷ [])

abbrev sent_two : SendStream
sent_two = sender 5 1 (last_item ∷ [])

pop_one : pop_sendable written_five ≡ some (item 0 (1 ∷ 2 ∷ []), sent_one)
unfolding pop_sendable
pop_one = refl

pop_two : pop_sendable sent_one ≡ some (item 2 (3 ∷ 4 ∷ []), sent_two)
unfolding pop_sendable
pop_two = refl

abbrev two_sent : List PendingData
two_sent = item 2 (3 ∷ 4 ∷ []) ∷ item 0 (1 ∷ 2 ∷ []) ∷ []

two_sent-Sends : Sends 4 100 sent_two five two_sent
two_sent-Sends =
    Slices.popped
      (Slices.popped (Slices.wrote (Slices.start fresh_sender) five true 64 2 5 five_taken refl)
        (item 0 (1 ∷ 2 ∷ [])) pop_one)
      (item 2 (3 ∷ 4 ∷ [])) pop_two

-- The first item is lost and goes back to the queue.
requeued-Sends : Sends 4 100 (requeue sent_two (as_frame 4 (item 0 (1 ∷ 2 ∷ []))) 1) five two_sent
requeued-Sends =
    Slices.requeued two_sent-Sends (item 2 (3 ∷ 4 ∷ []) ∷ []) (item 0 (1 ∷ 2 ∷ [])) [] 1 refl refl

Sends-Fits_example :
    Follows (requeue sent_two (as_frame 4 (item 0 (1 ∷ 2 ∷ []))) 1) five × All (Fits five) two_sent
Sends-Fits_example = Sends-Fits requeued-Sends

abbrev receiver : ℕ → List ℕ → ReceiveStream
receiver next_offset ready = record {
  stream_id = 4;
  next_offset = next_offset;
  final_offset = none;
  max_offset = 100;
  segments = [];
  ready = ready;
}

abbrev waiting : ReceiveStream
waiting = record (receiver 0 []) { segments = (2, 3 ∷ 4 ∷ []) ∷ [] }

empty_new : receiver 0 [] ≡ ReceiveStream.new 4 100
unfolding ReceiveStream.new
empty_new = refl

insert_second : insert (receiver 0 []) 2 (3 ∷ 4 ∷ []) false ≡ ok (waiting, 2)
unfolding insert deliver_contiguous uncovered_ranges insert_segment remove_segment segments_below
insert_second = refl

insert_first : insert waiting 0 (1 ∷ 2 ∷ []) false ≡ ok (receiver 4 (1 ∷ 2 ∷ 3 ∷ 4 ∷ []), 2)
unfolding insert deliver_contiguous uncovered_ranges insert_segment remove_segment segments_below
insert_first = refl

waiting-Delivers : Delivers five [] waiting
waiting-Delivers = record {
  beginning = record { front = []; back = five; parts = refl; place = refl };
  position = refl;
  pieces = (record { front = 1 ∷ 2 ∷ []; back = 5 ∷ []; parts = refl; place = refl }, tt);
}

four_ready-Delivers : Delivers five [] (receiver 4 (1 ∷ 2 ∷ 3 ∷ 4 ∷ []))
four_ready-Delivers =
    insert-Delivers five [] (1 ∷ 2 ∷ []) 0 false waiting (receiver 4 (1 ∷ 2 ∷ 3 ∷ 4 ∷ [])) 2
      waiting-Delivers (record { front = []; back = 3 ∷ 4 ∷ 5 ∷ []; parts = refl; place = refl })
      insert_first

insert-Delivers_example : Delivers five [] (receiver 4 (1 ∷ 2 ∷ 3 ∷ 4 ∷ []))
insert-Delivers_example =
    insert-Delivers five [] (1 ∷ 2 ∷ []) 0 false waiting (receiver 4 (1 ∷ 2 ∷ 3 ∷ 4 ∷ [])) 2
      waiting-Delivers (record { front = []; back = 3 ∷ 4 ∷ 5 ∷ []; parts = refl; place = refl })
      insert_first

read-Delivers_example :
    Delivers five
      ([] ++ (read (receiver 4 (1 ∷ 2 ∷ 3 ∷ 4 ∷ [])) 3).0)
      (read (receiver 4 (1 ∷ 2 ∷ 3 ∷ 4 ∷ [])) 3).1
read-Delivers_example =
    read-Delivers five [] 3 (receiver 4 (1 ∷ 2 ∷ 3 ∷ 4 ∷ [])) four_ready-Delivers

read_three : (1 ∷ 2 ∷ 3 ∷ []) ≡ [] ++ (read (receiver 4 (1 ∷ 2 ∷ 3 ∷ 4 ∷ [])) 3).0
unfolding read
read_three = refl

read_rest : receiver 4 (4 ∷ []) ≡ (read (receiver 4 (1 ∷ 2 ∷ 3 ∷ 4 ∷ [])) 3).1
unfolding read
read_rest = refl

-- The second item arrives before the first, and three bytes are read.
three_read-Receives : Receives 4 100 two_sent (receiver 4 (4 ∷ [])) (1 ∷ 2 ∷ 3 ∷ [])
three_read-Receives =
    EndToEnd.took
      (EndToEnd.arrived
        (EndToEnd.arrived (EndToEnd.start empty_new) [] (item 2 (3 ∷ 4 ∷ []))
          (item 0 (1 ∷ 2 ∷ []) ∷ []) 2 refl insert_second)
        (item 2 (3 ∷ 4 ∷ []) ∷ []) (item 0 (1 ∷ 2 ∷ [])) [] 2 refl insert_first)
      3 read_three read_rest

taken-beginning_example : (rest : List ℕ) × (five ≡ ((1 ∷ 2 ∷ 3 ∷ []) ++ (4 ∷ [])) ++ rest)
taken-beginning_example = taken-beginning requeued-Sends three_read-Receives

-- A first FIN that ends below the bytes that are delivered is accepted, and the stream never ends.
early_fin :
    insert (receiver 4 []) 0 (1 ∷ 2 ∷ []) true
    ≡ ok (record (receiver 4 []) { final_offset = some 2 }, 0)
unfolding insert deliver_contiguous uncovered_ranges insert_segment remove_segment segments_below
early_fin = refl

early_fin_open : is_finished (record (receiver 4 []) { final_offset = some 2 }) ≡ false
unfolding is_finished
early_fin_open = refl

write-accepts_example : (s' : SendStream) × (write fresh five true 64 2 ≡ ok (s', 5))
write-accepts_example =
    write-accepts fresh five true 64 2 refl refl (omega arith) (omega arith) (omega arith)

four_sent-Drains : Complete.Drains 4 100 sent_two five (1 ∷ 2 ∷ 3 ∷ 4 ∷ [])
four_sent-Drains =
    Complete.popped
      (Complete.popped
        (Complete.wrote (Complete.start fresh_sender) five true 64 2 5 five_taken refl)
        (item 0 (1 ∷ 2 ∷ [])) pop_one refl)
      (item 2 (3 ∷ 4 ∷ [])) pop_two refl

Drains-written_example : (1 ∷ 2 ∷ 3 ∷ 4 ∷ []) ++ bytes_in sent_two.queue ≡ five
Drains-written_example = Drains-written four_sent-Drains
