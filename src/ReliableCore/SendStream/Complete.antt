-- ===== src/ReliableCore/SendStream/Complete.antt =====
-- crates/reliable-core/src/send.rs: no byte that is written is lost from the queue.
use dart_udp.Base.{
  ℕ, ◌≡◌, refl, sym, ap, ◌∙◌, arith, max, min, Bool, true, false, not, ◌||◌, ltb, ◌==◌, List, [],
  ◌∷◌, ◌++◌, length, some, ok, ok_or, fail_if, >>=-eq-ok, ok_pair-injective, some_pair-injective,
  List-cases, inl, inr,
}
use mathlib.Core.List.{append_assoc, append-nil}
use dart_udp.Base.Words.{checked_add, saturating_sub}
use dart_udp.ReliableCore.Error.{
  invalid_offset, invalid_state, send_buffer_full, flow_control_violation,
}
use dart_udp.ReliableCore.SendStream.{
  SendStream, PendingData, new, push_chunks, chunks, mark_last, queue_fin, write, pop_sendable,
}
use dart_udp.ReliableCore.SendStream.Chunks.{concat, concat-chunks}

-- The bytes of the items, one item after the other.
abbrev pub bytes_in : List PendingData → List ℕ
bytes_in [] = []
bytes_in (p ∷ ps) = p.bytes ++ bytes_in ps

bytes_in-append : (ps qs : List PendingData) → bytes_in (ps ++ qs) ≡ bytes_in ps ++ bytes_in qs
bytes_in-append [] qs = refl
bytes_in-append (p ∷ ps) qs =
    ap (λ t. p.bytes ++ t) (bytes_in-append ps qs)
    ∙ sym (append_assoc p.bytes (bytes_in ps) (bytes_in qs))

push_chunks-bytes_in :
    (cs : List (List ℕ)) (offset end : ℕ) (queue queue' : List PendingData)
    → push_chunks offset cs queue ≡ ok (end, queue')
    → bytes_in queue' ≡ bytes_in queue ++ concat cs
unfolding push_chunks
push_chunks-bytes_in [] offset end queue queue' h =
    ap bytes_in (sym (ok_pair-injective h).1) ∙ sym (append-nil (bytes_in queue))
push_chunks-bytes_in (c ∷ cs) offset end queue queue' h =
    let (next, h₁, h₂) = >>=-eq-ok (ok_or (checked_add offset (length c)) invalid_offset) _ h in
    push_chunks-bytes_in cs next end _ queue' h₂
    ∙ ap (λ t. t ++ concat cs)
        (bytes_in-append queue _ ∙ ap (λ t. bytes_in queue ++ t) (append-nil c))
    ∙ append_assoc (bytes_in queue) c (concat cs)

mark_last-bytes_in : (queue : List PendingData) → bytes_in (mark_last queue) ≡ bytes_in queue
unfolding mark_last
mark_last-bytes_in [] = refl
mark_last-bytes_in (p ∷ []) = refl
mark_last-bytes_in (p ∷ (q ∷ ps)) = ap (λ t. p.bytes ++ t) (mark_last-bytes_in (q ∷ ps))

queue_fin-bytes_in :
    (fin : Bool) (bytes : List ℕ) (offset : ℕ) (queue : List PendingData)
    → bytes_in (queue_fin fin bytes offset queue) ≡ bytes_in queue
unfolding queue_fin
queue_fin-bytes_in false bytes offset queue = refl
queue_fin-bytes_in true [] offset queue = bytes_in-append queue _ ∙ append-nil (bytes_in queue)
queue_fin-bytes_in true (b ∷ bs) offset queue = mark_last-bytes_in queue

write-bytes_in :
    (s : SendStream) (bytes : List ℕ) (fin : Bool) (max_buffer max_chunk : ℕ) (s' : SendStream)
    (n : ℕ)
    → write s bytes fin max_buffer max_chunk ≡ ok (s', n)
    → bytes_in s'.queue ≡ bytes_in s.queue ++ bytes
unfolding write
write-bytes_in s bytes fin max_buffer max_chunk s' n h =
    let (u, h₁, k₁) =
      >>=-eq-ok (fail_if (s.fin_requested || s.fin_sent) (invalid_state "write after FIN")) _ h in
    let accepted = min (length bytes) (saturating_sub max_buffer s.queued_bytes) in
    let (v, h₂, k₂) = >>=-eq-ok (fail_if (not (accepted == length bytes)) send_buffer_full) _ k₁ in
    let (end, h₃, k₃) =
      >>=-eq-ok (ok_or (checked_add s.next_offset (length bytes)) invalid_offset) _ k₂ in
    let (w, h₄, k₄) =
      >>=-eq-ok (fail_if (ltb s.max_offset end) (flow_control_violation (some s.stream_id))) _ k₃ in
    let ((offset, queue), h₅, k₅) =
      >>=-eq-ok (push_chunks s.next_offset (chunks (max max_chunk 1) bytes) s.queue) _ k₄ in
    let cut = concat-chunks (max max_chunk 1) bytes (omega arith) in
    sym (ap (λ t. bytes_in (SendStream.queue t)) (ok_pair-injective k₅).0)
    ∙ queue_fin-bytes_in fin bytes offset queue
    ∙ push_chunks-bytes_in (chunks (max max_chunk 1) bytes) s.next_offset offset s.queue queue h₅
    ∙ ap (λ t. bytes_in s.queue ++ t) cut

pop-bytes_in :
    (s s' : SendStream) (item : PendingData)
    → pop_sendable s ≡ some (item, s')
    → bytes_in s.queue ≡ item.bytes ++ bytes_in s'.queue
unfolding pop_sendable
pop-bytes_in s s' item h = elim (List-cases s.queue) [
  | inl e ↦ cc (h, e)
  | inr (x, rest, e) ↦
      let popped : some (x, after x rest) ≡ some (item, s') = rw (e, pop_sendable) at h in
      let (same, next) = some_pair-injective popped in
      ap bytes_in e
      ∙ ap (λ t. PendingData.bytes t ++ bytes_in rest) same
      ∙ ap (λ t. item.bytes ++ bytes_in (SendStream.queue t)) next
]
  where
    after : PendingData → List PendingData → SendStream
    after x rest = record s {
      queue = rest;
      queued_bytes = saturating_sub s.queued_bytes (length x.bytes);
      fin_sent = x.fin || s.fin_sent;
    }

-- A stream without losses: the bytes that were written, and those that were sent, in order.
pub data Drains (stream_id window : ℕ) : SendStream → List ℕ → List ℕ → Type 0 where
  start : {s : SendStream} → s ≡ new stream_id window → Drains stream_id window s [] []
  wrote :
      {s s' : SendStream} {written written' sent : List ℕ}
      → Drains stream_id window s written sent
      → (bytes : List ℕ) (fin : Bool) (max_buffer max_chunk n : ℕ)
      → write s bytes fin max_buffer max_chunk ≡ ok (s', n)
      → written' ≡ written ++ bytes
      → Drains stream_id window s' written' sent
  popped :
      {s s' : SendStream} {written sent sent' : List ℕ}
      → Drains stream_id window s written sent
      → (item : PendingData) → pop_sendable s ≡ some (item, s')
      → sent' ≡ sent ++ item.bytes
      → Drains stream_id window s' written sent'

-- After any history of writes and pops of a new stream, the bytes of the items that were popped,
-- in order, followed by those of the items in the queue, are the bytes that were written.
pub Drains-written :
    {stream_id window : ℕ} {s : SendStream} {written sent : List ℕ}
    → Drains stream_id window s written sent
    → sent ++ bytes_in s.queue ≡ written
unfolding new
Drains-written (start e) = rw e refl
Drains-written (wrote {s} {s'} {written} {written'} {sent} r bytes fin mb mc n h e) =
    ap (λ t. sent ++ t) (write-bytes_in s bytes fin mb mc s' n h)
    ∙ sym (append_assoc sent (bytes_in s.queue) bytes)
    ∙ ap (λ t. t ++ bytes) (Drains-written r)
    ∙ sym e
Drains-written (popped {s} {s'} {written} {sent} {sent'} r item h e) =
    ap (λ t. t ++ bytes_in s'.queue) e
    ∙ append_assoc sent item.bytes (bytes_in s'.queue)
    ∙ ap (λ t. sent ++ t) (sym (pop-bytes_in s s' item h))
    ∙ Drains-written r
