-- ===== src/ReliableCore/StreamManager/Windows.antt =====
-- crates/reliable-core/src/connection/streams.rs: the window of every stream after any history.
use dart_udp.Base.{
  ℕ, ◌+◌, ◌≡◌, refl, arith, sym, subst, ltb, ◌==◌, ==_iff, Bool, true, false, if◌then◌else◌, some,
  List, [], ◌∷◌, length, length-append, Result, ok, ok_or, fail_if, >>=-eq-ok, ok_pair-injective,
  ok-injective, zero, suc, ok_or-some, inl, inr, Option-cases,
}
use dart_udp.Base.Words.{checked_add}
use dart_udp.ReliableCore.Error.{CoreError, unknown_stream, invalid_offset, flow_control_violation}
use dart_udp.ReliableCore.ReceiveStream
use dart_udp.ReliableCore.ReceiveStream.{ReceiveStream, remove_segment}
use dart_udp.ReliableCore.ReceiveFlow.Ledger.{Ledger, IsOpen}
use dart_udp.ReliableCore.StreamManager.{
  StreamManager, StreamRecord, Streams, find, put, with_stream,
}

-- What the application and the peer know of a stream: the window that it was opened with, the bytes
-- that the application has read, and the limit that the peer was told.
pub record Account : Type 0 where
  pub window : ℕ
  pub ledger : Ledger

abbrev pub Accounts : Type 0
Accounts = ℕ → Account

abbrev pub note : Accounts → ℕ → Account → Accounts
note l id a = λ j. if j == id then a else l j

-- What the stream accepts is what its flow control has advertised, and that is as the account has it;
-- the bytes that were read and those that are ready are the bytes up to `next_offset`.
pub record HasWindow (a : Account) (r : StreamRecord) : Type 0 where
  pub flow : IsOpen a.window r.recv_flow a.ledger
  pub limit : r.recv.max_offset ≡ r.recv_flow.max_offset
  pub position : r.recv.next_offset ≡ a.ledger.taken + length r.recv.ready

abbrev pub IsManaged : Accounts → StreamManager → Type 0
IsManaged l m = (id : ℕ) (r : StreamRecord) → find id m.streams ≡ some r → HasWindow (l id) r

pub find-put :
    (j id : ℕ) (r : StreamRecord) (streams : Streams)
    → find j (put id r streams) ≡ (if j == id then some r else find j streams)
unfolding find put
find-put j id r [] = refl
find-put j id r ((key, s) ∷ rest) = ground (arith, find-put j id r rest)

-- One stream is put in its place, and only its account changes.
pub put-IsManaged :
    (l : Accounts) (m : StreamManager) (id : ℕ) (a : Account) (r : StreamRecord)
    → HasWindow a r
    → IsManaged l m
    → IsManaged (note l id a) (record m { streams = put id r m.streams })
put-IsManaged l m id a r w managed j s h = go (j == id) (find-put j id r m.streams)
  where
    go :
        (b : Bool)
        → find j (put id r m.streams) ≡ (if b then some r else find j m.streams)
        → HasWindow (if b then a else l j) s
    go true e = let same : r ≡ s = cc (e, h) in subst (HasWindow a) same w
    go false e = managed j s (cc (e, h))

pub with_stream-IsManaged :
    {A : Type 0} (l : Accounts) (m : StreamManager) (id : ℕ)
    (change : StreamRecord → Result CoreError (StreamRecord × A)) (after : A → Account)
    {m' : StreamManager} {b : A}
    → ((r r' : StreamRecord) (c : A)
        → HasWindow (l id) r
        → change r ≡ ok (r', c)
        → HasWindow (after c) r')
    → IsManaged l m
    → with_stream m id change ≡ ok (m', b)
    → IsManaged (note l id (after b)) m'
unfolding with_stream
with_stream-IsManaged l m id change after {m'} {b} keeps managed h =
    let (r, found, e₁) = >>=-eq-ok (ok_or (find id m.streams) (unknown_stream id)) _ h in
    let ((r', c), changed, e₂) = >>=-eq-ok (change r) _ e₁ in
    let (same, result) = ok_pair-injective e₂ in
    subst (λ d. IsManaged (note l id (after d)) m') result
      (subst (IsManaged (note l id (after c))) same (
        put-IsManaged l m id (after c) r'
          (keeps r r' c (managed id r (ok_or-some _ _ found)) changed) managed))

-- A note of what stands in the accounts already.
pub note_self :
    (l : Accounts) (id : ℕ) (m : StreamManager) → IsManaged (note l id (l id)) m → IsManaged l m
note_self l id m managed j s h = go (j == id) ((==_iff j id).0) (managed j s h)
  where
    go :
        (b : Bool) → (b ≡ true → j ≡ id) → HasWindow (if b then l id else l j) s → HasWindow (l j) s
    go true same w = subst (λ k. HasWindow (l k) s) (sym (same refl)) w
    go false same w = w

-- Delivery does not change the limit of a receive stream, and moves `next_offset` as many bytes as
-- become ready.
record IsDelivery (r r' : ReceiveStream) : Type 0 where
  limit : r'.max_offset ≡ r.max_offset
  moved : r'.next_offset + length r.ready ≡ r.next_offset + length r'.ready

deliver-IsDelivery :
    (fuel : ℕ) (r : ReceiveStream) {r' : ReceiveStream}
    → ReceiveStream.deliver_fuel fuel r ≡ ok r'
    → IsDelivery r r'
unfolding ReceiveStream.deliver_fuel
deliver-IsDelivery zero r h = subst (IsDelivery r) (ok-injective h) (omega arith)
deliver-IsDelivery (suc fuel) r {r'} h =
    elim (Option-cases (remove_segment r.next_offset r.segments)) [
      | inl e ↦ let same : r ≡ r' = cc (h, e) in subst (IsDelivery r) same (omega arith)
      | inr ((bytes, m), e) ↦
          let (next, h₁, h₂) =
            >>=-eq-ok (ok_or (checked_add r.next_offset (length bytes)) invalid_offset) _
              (rw (e, ReceiveStream.deliver_fuel) at h) in
          let at : next ≡ r.next_offset + length bytes = ground (arith, h₁) in
          let later = deliver-IsDelivery fuel _ h₂ in
          record {
            limit = later.limit;
            moved = omega (arith, at, later.moved, length-append r.ready bytes);
          }
    ]

pub insert-window :
    (r : ReceiveStream) (offset : ℕ) (bytes : List ℕ) (fin : Bool) {r' : ReceiveStream} {n : ℕ}
    → ReceiveStream.insert r offset bytes fin ≡ ok (r', n)
    → (r'.max_offset ≡ r.max_offset)
      × (r'.next_offset + length r.ready ≡ r.next_offset + length r'.ready)
unfolding ReceiveStream.insert ReceiveStream.deliver_contiguous
insert-window r offset bytes fin {r'} {n} h =
    let (end, _, e₁) = >>=-eq-ok (ok_or (checked_add offset (length bytes)) invalid_offset) _ h in
    let (_, _, e₂) =
      >>=-eq-ok (fail_if (ltb r.max_offset end) (flow_control_violation (some r.stream_id))) _ e₁ in
    let (final, _, e₃) = >>=-eq-ok (ReceiveStream.check_final r.final_offset end fin) _ e₂ in
    let ((new_bytes, m), _, e₄) =
      >>=-eq-ok
        (ReceiveStream.insert_ranges offset bytes (ReceiveStream.uncovered_ranges r offset end) 0
          r.segments)
        _ e₃ in
    let (delivered, d, e₅) =
      >>=-eq-ok (ReceiveStream.deliver_contiguous (record r { final_offset = final; segments = m }))
        _ e₄ in
    let (same, _) = ok_pair-injective e₅ in
    let made =
      subst (IsDelivery (record r { final_offset = final; segments = m })) same
        (deliver-IsDelivery (length m) (record r { final_offset = final; segments = m }) d) in
    (made.limit, made.moved)
