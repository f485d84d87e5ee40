-- ===== src/ReliableCore/SendStream/Accepts.antt =====
-- crates/reliable-core/src/send.rs: when `write` takes the data.
use dart_udp.Base.{
  ℕ, ◌+◌, ◌≤◌, ◌≡◌, refl, ap, arith, max, min, Bool, false, ◌||◌, ltb, List, [], ◌∷◌, length,
  length-append, some, ok, ==_refl,
}
use dart_udp.Base.Words.{checked_add, saturating_add, saturating_sub, u64_max}
use dart_udp.ReliableCore.SendStream.{
  SendStream, PendingData, push_chunks, chunks, queue_fin, write,
}
use dart_udp.ReliableCore.SendStream.Chunks.{concat, concat-chunks}

checked_add-fits : (a b : ℕ) → a + b ≤ u64_max → checked_add a b ≡ some (a + b)
checked_add-fits a b h = ground arith

push_chunks-ok :
    (offset : ℕ) (cs : List (List ℕ)) (queue : List PendingData)
    → offset + length (concat cs) ≤ u64_max
    → (r : ℕ × List PendingData) × (push_chunks offset cs queue ≡ ok r)
unfolding push_chunks
push_chunks-ok offset [] queue h = ((offset, queue), refl)
push_chunks-ok offset (c ∷ cs) queue h =
    let total = length-append c (concat cs) in
    rw (checked_add-fits offset (length c) (omega (arith, total)))
      (push_chunks-ok (offset + length c) cs _ (omega (arith, total)))

-- A stream that has no FIN, with room in the buffer for the bytes and a window, of a u64, that
-- reaches behind them, takes a `write` of all of the bytes, whatever the size of a chunk.
pub write-accepts :
    (s : SendStream) (bytes : List ℕ) (fin : Bool) (max_buffer max_chunk : ℕ)
    → s.fin_requested ≡ false
    → s.fin_sent ≡ false
    → s.queued_bytes + length bytes ≤ max_buffer
    → s.next_offset + length bytes ≤ s.max_offset
    → s.max_offset ≤ u64_max
    → (s' : SendStream) × (write s bytes fin max_buffer max_chunk ≡ ok (s', length bytes))
unfolding write
write-accepts s bytes fin max_buffer max_chunk unfinished unsent room window wide =
    let cut = ap length (concat-chunks (max max_chunk 1) bytes (omega arith)) in
    let (r, h) =
      push_chunks-ok s.next_offset (chunks (max max_chunk 1) bytes) s.queue (omega (arith, cut)) in
    let taken : min (length bytes) (saturating_sub max_buffer s.queued_bytes) ≡ length bytes =
      ground arith in
    let inside : ltb s.max_offset (s.next_offset + length bytes) ≡ false = ground arith in
    (
      record s {
        queue = queue_fin fin bytes r.0 r.1;
        next_offset = r.0;
        queued_bytes = saturating_add s.queued_bytes (length bytes);
        fin_requested = fin || s.fin_requested;
      },
      rw (
        unfinished,
        unsent,
        taken,
        ==_refl (length bytes),
        checked_add-fits s.next_offset (length bytes) (omega arith),
        inside,
        h,
      ),
    )
