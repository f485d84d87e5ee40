-- ===== src/ReliableCore/ReceivedPackets/Frame.antt =====
-- crates/reliable-core/src/ack.rs: the ACK frame of what has arrived.
use dart_udp.Base.{
  ℕ, ◌/◌, ◌≤◌, ◌<◌, ◌≡◌, refl, arith, true, false, Option, none, some, List, [], ◌∷◌, length,
  is_empty, ok,
}
use dart_udp.Base.Words.{u64_max}
use dart_udp.UdpProtocol.Ack.{
  AckRange, AckFrame, contains, max_ack_ranges, before, insert_sorted, sort_descending, new_ranges,
  new_frame, validate, from_descending,
}
use dart_udp.UdpProtocol.Ack
use dart_udp.UdpProtocol.Ack.Normal.{Descends, IsNormal, from_descending-IsNormal}
use dart_udp.ReliableCore.ReceivedPackets.{frame, delay_of, largest, first_end}
use dart_udp.ReliableCore.ReceivedPackets.Refines.{
  IsReceived, record_all, record_all-IsReceived, record_all-arrived, record_all-not_empty, arrived,
  FitU64,
}

-- Ranges that fall are sorted already.
before-above : (r q : AckRange) → q.end < r.end → before r q ≡ true
unfolding before
before-above r q above = ground (arith, above)

insert_sorted-above :
    (r : AckRange) (rs : List AckRange)
    → r.start ≤ r.end
    → Descends (some r) rs
    → insert_sorted r rs ≡ r ∷ rs
unfolding insert_sorted
insert_sorted-above r [] order falls = refl
insert_sorted-above r (q ∷ qs) order (q_order, gap, rest) =
    rw (before-above r q (omega (arith, order, gap))) refl

sort_descending-below :
    (r : AckRange) (rs : List AckRange) → Descends (some r) rs → sort_descending rs ≡ rs
unfolding sort_descending
sort_descending-below r [] falls = refl
sort_descending-below r (q ∷ qs) (order, gap, rest) =
    rw (sort_descending-below q qs rest) (insert_sorted-above q qs order rest)

sort_descending-Descends : (rs : List AckRange) → Descends none rs → sort_descending rs ≡ rs
unfolding sort_descending
sort_descending-Descends [] falls = refl
sort_descending-Descends (r ∷ rs) (order, rest) =
    rw (sort_descending-below r rs rest) (insert_sorted-above r rs order rest)

delay_of-most : (o : Option ℕ) (now ack_delay : ℕ) → delay_of o now ack_delay ≤ ack_delay
unfolding delay_of
delay_of-most none now ack_delay = omega arith
delay_of-most (some t) now ack_delay = omega arith

new_ranges-Descends :
    (r : AckRange) (rs : List AckRange)
    → Descends none (r ∷ rs)
    → length (r ∷ rs) ≤ max_ack_ranges
    → new_ranges (r ∷ rs) ≡ ok (r ∷ rs)
unfolding new_ranges
new_ranges-Descends r rs falls few =
    rw (sort_descending-Descends (r ∷ rs) falls)
      (from_descending-IsNormal (r ∷ rs) (omega arith, few, falls))

new_frame-ok :
    (r : AckRange) (rs : List AckRange) (delay : ℕ)
    → delay / 1000 ≤ u64_max
    → new_frame delay (r ∷ rs) ≡ ok (record { largest = r.end; ack_delay = delay; ranges = r ∷ rs })
unfolding new_frame validate Ack.largest
new_frame-ok r rs delay small = ground (arith, small)

frame-ranges :
    (r : AckRange) (rs : List AckRange) (received_at : Option ℕ) (now ack_delay : ℕ)
    → Descends none (r ∷ rs)
    → length (r ∷ rs) ≤ max_ack_ranges
    → ack_delay / 1000 ≤ u64_max
    → frame (record { ranges = r ∷ rs; largest_received_at = received_at }) now ack_delay
      ≡ ok (
          some (record {
            largest = r.end;
            ack_delay = delay_of received_at now ack_delay;
            ranges = r ∷ rs;
          }))
unfolding frame largest first_end
frame-ranges r rs received_at now ack_delay falls few small =
    let delay = delay_of received_at now ack_delay in
    let short : delay / 1000 ≤ u64_max =
      omega (arith, delay_of-most received_at now ack_delay, small) in
    rw (new_ranges-Descends r rs falls few, new_frame-ok r rs delay short) refl

-- The frame names nothing but what has arrived, and claims no longer a delay than is allowed.
pub record Acknowledges (packets : List (ℕ × ℕ)) (ack_delay : ℕ) (f : AckFrame) : Type 0 where
  pub arrived_all : (m : ℕ) → contains f.ranges m ≡ true → arrived packets m ≡ true
  pub delay : f.ack_delay ≤ ack_delay
  pub normal : IsNormal f.ranges

-- After any history of at least one packet number of a u64, with a largest delay whose
-- microseconds fit a u64, `frame` returns an ACK frame: its ranges hold only packet numbers that
-- have arrived, are 1 to 32 and fall with a gap between two of them, and its delay is at most the
-- largest.
pub frame-record_all :
    (packet : ℕ × ℕ) (packets : List (ℕ × ℕ)) (now ack_delay : ℕ)
    → FitU64 (packet ∷ packets)
    → ack_delay / 1000 ≤ u64_max
    → (f : AckFrame) × (frame (record_all (packet ∷ packets)) now ack_delay ≡ ok (some f))
      × Acknowledges (packet ∷ packets) ack_delay f
frame-record_all packet packets now ack_delay fits small =
    let all = packet ∷ packets in
    go (record_all all).ranges (record_all all).largest_received_at (record_all-IsReceived all fits)
      (λ m. record_all-arrived all m fits) (record_all-not_empty packet packets fits)
  where
    go :
        (rs : List AckRange) (received_at : Option ℕ)
        → IsReceived (record { ranges = rs; largest_received_at = received_at })
        → ((m : ℕ) → contains rs m ≡ true → arrived (packet ∷ packets) m ≡ true)
        → is_empty rs ≡ false
        → (f : AckFrame) × (frame
              (record { ranges = rs; largest_received_at = received_at })
              now
              ack_delay
            ≡ ok (some f))
          × Acknowledges (packet ∷ packets) ack_delay f
    go [] received_at received names some_range = absurd (cc)
    go (r ∷ rs) received_at received names some_range = (
      record { largest = r.end; ack_delay = delay_of received_at now ack_delay; ranges = r ∷ rs },
      frame-ranges r rs received_at now ack_delay received.falls received.few small,
      record {
        arrived_all = names;
        delay = delay_of-most received_at now ack_delay;
        normal = (omega arith, received.few, received.falls);
      },
    )
