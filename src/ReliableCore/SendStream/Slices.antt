-- ===== src/ReliableCore/SendStream/Slices.antt =====
-- crates/reliable-core/src/send.rs: whatever is sent or sent again is a piece of what was written, at
-- its own offset.
use dart_udp.Base.{
  ℕ, ◌+◌, ◌≤◌, ◌≡◌, refl, sym, ap, subst, max, min, arith, Bool, true, false, List, [], ◌∷◌, ◌++◌,
  length, length-append, All, All-append, List-cases, some_pair-injective, inl, inr, some, ok,
  ok_or, >>=-eq-ok, ok_pair-injective, not, ◌||◌, ltb, ◌==◌, fail_if,
}
use dart_udp.Base.Words.{checked_add, saturating_sub}
use dart_udp.Base.Slices.{IsSlice, IsSlice-split, IsSlice-end, IsSlice-empty}
use dart_udp.UdpProtocol.Frame.{StreamData}
use dart_udp.ReliableCore.Error.{
  invalid_offset, invalid_state, send_buffer_full, flow_control_violation,
}
use dart_udp.ReliableCore.SendStream.{
  PendingData, SendStream, new, chunks, push_chunks, mark_last, queue_fin, write, pop_sendable,
  requeue, update_window,
}
use dart_udp.ReliableCore.SendStream.Chunks.{concat, concat-chunks, Fits, All-Fits-append}

push_chunks-Fits :
    (whole : List ℕ) (cs : List (List ℕ)) (offset offset' : ℕ) (queue queue' : List PendingData)
    → push_chunks offset cs queue ≡ ok (offset', queue')
    → IsSlice whole offset (concat cs)
    → All (Fits whole) queue
    → All (Fits whole) queue' × (offset' ≡ offset + length (concat cs))
unfolding push_chunks
push_chunks-Fits whole [] offset offset' queue queue' h s fits =
    let e : queue ≡ queue' = cc in
    let o : offset ≡ offset' = cc in (subst (All (Fits whole)) e fits, omega (arith, o))
push_chunks-Fits whole (c ∷ cs) offset offset' queue queue' h s fits =
    let (chunk_end, h₁, h₂) =
      >>=-eq-ok (ok_or (checked_add offset (length c)) invalid_offset) _ h in
    let (here, later) = IsSlice-split whole c (concat cs) offset s in
    let at : chunk_end ≡ offset + length c = ground (arith, h₁) in
    let (all, e) =
      push_chunks-Fits whole cs chunk_end offset' _ queue' h₂
        (subst (λ o. IsSlice whole o (concat cs)) (sym at) later)
        (All-append (Fits whole) queue _ fits (here, tt)) in
    (all, omega (arith, e, at, length-append c (concat cs)))

mark_last-Fits :
    (whole : List ℕ) (queue : List PendingData)
    → All (Fits whole) queue
    → All (Fits whole) (mark_last queue)
unfolding mark_last
mark_last-Fits whole [] h = tt
mark_last-Fits whole (p ∷ []) h = h
mark_last-Fits whole (p ∷ (q ∷ ps)) (h, hs) = (h, mark_last-Fits whole (q ∷ ps) hs)

queue_fin-Fits :
    (whole : List ℕ) (fin : Bool) (bytes : List ℕ) (offset : ℕ) (queue : List PendingData)
    → IsSlice whole offset []
    → All (Fits whole) queue
    → All (Fits whole) (queue_fin fin bytes offset queue)
unfolding queue_fin
queue_fin-Fits whole false bytes offset queue s h = h
queue_fin-Fits whole true [] offset queue s h = All-append (Fits whole) queue _ h (s, tt)
queue_fin-Fits whole true (b ∷ bs) offset queue s h = mark_last-Fits whole queue h

-- The stream with the bytes that the application has written.
pub record Follows (s : SendStream) (written : List ℕ) : Type 0 where
  pub position : s.next_offset ≡ length written
  pub pieces : All (Fits written) s.queue

-- If the queue holds pieces of what was written and `next_offset` is its end, a `write` that
-- returns a count has taken all of the bytes, does not pass the peer's window, and leaves a queue
-- of pieces of the longer stream with `next_offset` at its end.
pub write-Follows :
    (s : SendStream) (written bytes : List ℕ) (fin : Bool) (max_buffer max_chunk : ℕ)
    (s' : SendStream) (n : ℕ)
    → Follows s written
    → write s bytes fin max_buffer max_chunk ≡ ok (s', n)
    → Follows s' (written ++ bytes) × (n ≡ length bytes) × (s'.next_offset ≤ s.max_offset)
unfolding write
write-Follows s written bytes fin max_buffer max_chunk s' n f h =
    let (u, h₁, k₁) =
      >>=-eq-ok (fail_if (s.fin_requested || s.fin_sent) (invalid_state "write after FIN")) _ h in
    let accepted = min (length bytes) (saturating_sub max_buffer s.queued_bytes) in
    let (v, h₂, k₂) = >>=-eq-ok (fail_if (not (accepted == length bytes)) send_buffer_full) _ k₁ in
    let (end, h₃, k₃) =
      >>=-eq-ok (ok_or (checked_add s.next_offset (length bytes)) invalid_offset) _ k₂ in
    let (w, h₄, k₄) =
      >>=-eq-ok (fail_if (ltb s.max_offset end) (flow_control_violation (some s.stream_id))) _ k₃ in
    let ((offset, queue), h₅, k₅) =
      >>=-eq-ok (push_chunks s.next_offset (chunks (max max_chunk 1) bytes) s.queue) _ k₄ in
    let taken : accepted ≡ length bytes = ground (arith, h₂) in
    let ending : end ≡ s.next_offset + length bytes = ground (arith, h₃) in
    let below : end ≤ s.max_offset = ground (arith, h₄) in
    let (same, count) = ok_pair-injective k₅ in
    let (pieces, e) =
      push_chunks-Fits (written ++ bytes) (chunks (max max_chunk 1) bytes) s.next_offset offset
        s.queue queue h₅ added (All-Fits-append written bytes s.queue f.pieces) in
    let all : length (concat (chunks (max max_chunk 1) bytes)) ≡ length bytes = ap length cut in
    let total : offset ≡ length (written ++ bytes) =
      omega (arith, e, all, length-append written bytes, f.position) in
    (
      subst (λ t. Follows t (written ++ bytes)) same
          (record {
            position = total;
            pieces =
                queue_fin-Fits (written ++ bytes) fin bytes offset queue
                  (subst (λ o. IsSlice (written ++ bytes) o []) (sym total)
                    (IsSlice-empty (written ++ bytes)))
                  pieces;
          }),
      omega (arith, count, taken),
      omega (arith, ap (λ t. SendStream.next_offset t) same, e, all, ending, below),
    )
  where
    cut : concat (chunks (max max_chunk 1) bytes) ≡ bytes
    cut = concat-chunks (max max_chunk 1) bytes (omega arith)

    added : IsSlice (written ++ bytes) s.next_offset (concat (chunks (max max_chunk 1) bytes))
    added = rw (cut, f.position) (IsSlice-end written bytes)

-- `Frame::StreamData` of an item, as `take_sendable` builds it.
abbrev pub as_frame : ℕ → PendingData → StreamData
as_frame stream_id item = record {
  stream_id = stream_id;
  offset = item.offset;
  fin = item.fin;
  bytes = item.bytes;
}

-- A history of a stream: the bytes that were written, and the items that were sent, the last one
-- first. A lost item goes back to the queue; the peer may widen the window at any time.
pub data Sends (stream_id window : ℕ) : SendStream → List ℕ → List PendingData → Type 0 where
  start : {s : SendStream} → s ≡ new stream_id window → Sends stream_id window s [] []
  wrote :
      {s s' : SendStream} {written written' : List ℕ} {sent : List PendingData}
      → Sends stream_id window s written sent
      → (bytes : List ℕ) (fin : Bool) (max_buffer max_chunk n : ℕ)
      → write s bytes fin max_buffer max_chunk ≡ ok (s', n)
      → written' ≡ written ++ bytes
      → Sends stream_id window s' written' sent
  popped :
      {s s' : SendStream} {written : List ℕ} {sent : List PendingData}
      → Sends stream_id window s written sent
      → (item : PendingData) → pop_sendable s ≡ some (item, s')
      → Sends stream_id window s' written (item ∷ sent)
  requeued :
      {s s' : SendStream} {written : List ℕ} {sent : List PendingData}
      → Sends stream_id window s written sent
      → (before : List PendingData) (item : PendingData) (after : List PendingData) (count : ℕ)
      → sent ≡ before ++ (item ∷ after)
      → s' ≡ requeue s (as_frame stream_id item) count
      → Sends stream_id window s' written sent
  widened :
      {s s' : SendStream} {written : List ℕ} {sent : List PendingData}
      → Sends stream_id window s written sent
      → (max_offset : ℕ) → s' ≡ update_window s max_offset
      → Sends stream_id window s' written sent

pub All-middle {ℓ κ} :
    {A : Type ℓ} (P : A → Type κ) (xs : List A) (y : A) (zs : List A) → All P (xs ++ (y ∷ zs)) → P y
All-middle P [] y zs (h, hs) = h
All-middle P (x ∷ xs) y zs (h, hs) = All-middle P xs y zs hs

popped-Follows :
    (s s' : SendStream) (written : List ℕ) (item : PendingData)
    → Follows s written
    → pop_sendable s ≡ some (item, s')
    → Follows s' written × Fits written item
unfolding pop_sendable
popped-Follows s s' written item f h = elim (List-cases s.queue) [
  | inl e ↦ cc (h, e)
  | inr (x, rest, e) ↦
      let popped : some (x, after x rest) ≡ some (item, s') = rw (e, pop_sendable) at h in
      let (fit, pieces) = subst (All (Fits written)) e f.pieces in
      let (same, next) = some_pair-injective popped in
      (
        subst (λ t. Follows t written) next (record { position = f.position; pieces = pieces }),
        subst (Fits written) same fit,
      )
]
  where
    after : PendingData → List PendingData → SendStream
    after x rest = record s {
      queue = rest;
      queued_bytes = saturating_sub s.queued_bytes (length x.bytes);
      fin_sent = x.fin || s.fin_sent;
    }

-- After any history of writes, pops, requeues and window updates of a new stream, `next_offset`
-- is the number of bytes written, and every item in the queue and every item sent is a piece of
-- those bytes at its own offset.
pub Sends-Fits :
    {stream_id window : ℕ} {s : SendStream} {written : List ℕ} {sent : List PendingData}
    → Sends stream_id window s written sent
    → Follows s written × All (Fits written) sent
unfolding new requeue update_window
Sends-Fits (start e) = (rw e (record { position = refl; pieces = tt }), tt)
Sends-Fits (wrote {s} {s'} {written} {written'} {sent} r bytes fin mb mc n h e) =
    let (f, a) = Sends-Fits r in
    let (f', _, _) = write-Follows s written bytes fin mb mc s' n f h in
    rw e (f', All-Fits-append written bytes sent a)
Sends-Fits (popped {s} {s'} {written} {sent} r item h) =
    let (f, a) = Sends-Fits r in
    let (f', fit) = popped-Follows s s' written item f h in (f', (fit, a))
Sends-Fits (requeued {s} {s'} {written} {sent} r before item after count e k) =
    let (f, a) = Sends-Fits r in
    let fit = All-middle (Fits written) before item after (subst (All (Fits written)) e a) in
    (rw k (record { position = f.position; pieces = (fit, f.pieces) }), a)
Sends-Fits (widened {s} {s'} {written} {sent} r m k) =
    let (f, a) = Sends-Fits r in (rw k (record { position = f.position; pieces = f.pieces }), a)
