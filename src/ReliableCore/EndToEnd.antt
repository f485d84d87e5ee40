-- ===== src/ReliableCore/EndToEnd.antt =====
-- crates/reliable-core/src/send.rs and receive.rs over a network that loses, repeats and reorders.
use dart_udp.Base.{ℕ, ◌≡◌, refl, ap, ◌∙◌, List, [], ◌∷◌, ◌++◌, All, ok, subst}
use dart_udp.ReliableCore.SendStream.{SendStream, PendingData}
use dart_udp.ReliableCore.SendStream.Chunks.{Fits}
use dart_udp.ReliableCore.SendStream.Slices.{Sends, Sends-Fits, All-middle}
use dart_udp.ReliableCore.ReceiveStream.{ReceiveStream, new, insert, read, set_max_offset}
use dart_udp.ReliableCore.ReceiveStream.Delivery.{
  Delivers, insert-Delivers, read-Delivers, length-eq-zero,
}

-- A history of the receiver: the bytes that the application has taken. Any item that was sent may
-- arrive at any time and any number of times.
pub data Receives (stream_id window : ℕ) (sent : List PendingData)
    : ReceiveStream → List ℕ → Type 0 where
  start : {r : ReceiveStream} → r ≡ new stream_id window → Receives stream_id window sent r []
  arrived :
      {r r' : ReceiveStream} {taken : List ℕ}
      → Receives stream_id window sent r taken
      → (before : List PendingData) (item : PendingData) (after : List PendingData) (n : ℕ)
      → sent ≡ before ++ (item ∷ after)
      → insert r item.offset item.bytes item.fin ≡ ok (r', n)
      → Receives stream_id window sent r' taken
  took :
      {r r' : ReceiveStream} {taken taken' : List ℕ}
      → Receives stream_id window sent r taken
      → (max_len : ℕ) → taken' ≡ taken ++ (read r max_len).0
      → r' ≡ (read r max_len).1
      → Receives stream_id window sent r' taken'
  widened :
      {r r' : ReceiveStream} {taken : List ℕ}
      → Receives stream_id window sent r taken
      → (max_offset : ℕ) → r' ≡ set_max_offset r max_offset
      → Receives stream_id window sent r' taken

Receives-Delivers :
    (whole : List ℕ) {stream_id window : ℕ} {sent : List PendingData} {r : ReceiveStream}
    {taken : List ℕ}
    → All (Fits whole) sent
    → Receives stream_id window sent r taken
    → Delivers whole taken r
unfolding new set_max_offset
Receives-Delivers whole a (start e) = rw e (record {
  beginning = record { front = []; back = whole; parts = refl; place = refl };
  position = refl;
  pieces = tt;
})
Receives-Delivers whole {sent = sent} a (arrived {r} {r'} {taken} h before item after n e k) =
    insert-Delivers whole taken item.bytes item.offset item.fin r r' n (Receives-Delivers whole a h)
      (All-middle (Fits whole) before item after (subst (All (Fits whole)) e a)) k
Receives-Delivers whole a (took {r} {r'} {taken} {taken'} h max_len e k) =
    rw (e, k) (read-Delivers whole taken max_len r (Receives-Delivers whole a h))
Receives-Delivers whole a (widened {r} {r'} {taken} h max_offset k) =
    let d = Receives-Delivers whole a h in
    rw k (record { beginning = d.beginning; position = d.position; pieces = d.pieces })

-- Whatever the network does to the items that a sender's stream sends, lose, repeat or reorder
-- them, the bytes that the receiver's application has taken, followed by those ready for it, are
-- a beginning of the bytes that the sender's application wrote.
pub taken-beginning :
    {stream_id window window' : ℕ} {s : SendStream} {r : ReceiveStream} {written taken : List ℕ}
    {sent : List PendingData}
    → Sends stream_id window s written sent
    → Receives stream_id window' sent r taken
    → (rest : List ℕ) × (written ≡ (taken ++ r.ready) ++ rest)
taken-beginning {r = r} {written} {taken} h k =
    let d = Receives-Delivers written (Sends-Fits h).1 k in
    let b = d.beginning in
    (
      b.back,
      b.parts ∙ ap (λ t. t ++ ((taken ++ r.ready) ++ b.back)) (length-eq-zero b.front b.place),
    )
