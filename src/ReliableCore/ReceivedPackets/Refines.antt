-- ===== src/ReliableCore/ReceivedPackets/Refines.antt =====
-- crates/reliable-core/src/ack.rs: `record` against a set of packet numbers.
use dart_udp.Base.{
  ℕ, zero, suc, ◌+◌, ◌≤◌, ◌<◌, ◌≡◌, refl, arith, ap, ◌∙◌, sym, leb, ◌==◌, not, Bool, true, false,
  ◌||◌, ◌&&◌, any, Option, none, some, List, [], ◌∷◌, ◌++◌, length, length-append, take,
  length-take, All, All-append, Bool-cases, inl, inr, ◌⊎◌, ==_iff, ==_refl, is_empty,
}
use dart_udp.Base.Words.{u64_max}
use dart_udp.UdpProtocol.Ack.{AckRange, range_contains, contains, max_ack_ranges, sort_descending}
use dart_udp.UdpProtocol.Ack.Normal.{Descends}
use dart_udp.ReliableCore.ReceivedPackets.{ReceivedPackets, new, with_packet, record_packet}
use dart_udp.ReliableCore.ReceivedPackets.Merge.{
  Below, InOrder, sort_descending-Below, sort_descending-contains, sort_descending-length,
  merge_adjacent-contains, merge_adjacent-Descends, merge_adjacent-InOrder, merge_adjacent-length,
}

-- At most 32 ranges of u64 bounds, which fall with a gap between two of them.
pub record IsReceived (s : ReceivedPackets) : Type 0 where
  pub falls : Descends none s.ranges
  pub ordered : All InOrder s.ranges
  pub few : length s.ranges ≤ max_ack_ranges

-- A set of packet numbers, and what `record` means for it.
abbrev pub NumberSet : Type 0
NumberSet = ℕ → Bool

unfoldable pub insert_number : NumberSet → ℕ → NumberSet
insert_number set n m = (n == m) || set m

-- The ranges hold exactly the numbers of the set.
unfoldable pub Represents : ReceivedPackets → NumberSet → Type 0
Represents s set = (m : ℕ) → contains s.ranges m ≡ set m

contains-last :
    (rs : List AckRange) (n m : ℕ)
    → contains (rs ++ (record { start = n; end = n } ∷ [])) m ≡ ((n == m) || contains rs m)
unfolding contains range_contains
contains-last [] n m = ground arith
contains-last (r ∷ rs) n m =
    ap (λ b. (leb r.start m && leb m r.end) || b) (contains-last rs n m)
    ∙ swap (leb r.start m && leb m r.end) (n == m) _
  where
    swap : (a b c : Bool) → (a || (b || c)) ≡ (b || (a || c))
    swap true true c = refl
    swap true false c = refl
    swap false b c = refl

Descends-take :
    (k : ℕ) (top : Option AckRange) (rs : List AckRange)
    → Descends top rs
    → Descends top (take k rs)
Descends-take zero top rs falls = tt
Descends-take (suc k) top [] falls = tt
Descends-take (suc k) none (r ∷ rs) (order, rest) = (order, Descends-take k (some r) rs rest)
Descends-take (suc k) (some t) (r ∷ rs) (order, gap, rest) =
    (order, gap, Descends-take k (some r) rs rest)

All-take : {A : Type 0} (P : A → Type 0) (k : ℕ) (xs : List A) → All P xs → All P (take k xs)
All-take P zero xs all = tt
All-take P (suc k) [] all = tt
All-take P (suc k) (x ∷ xs) (p, all) = (p, All-take P k xs all)

take-all : {A : Type 0} (k : ℕ) (xs : List A) → length xs ≤ k → take k xs ≡ xs
take-all zero [] h = refl
take-all zero (x ∷ xs) h = absurd (omega arith)
take-all (suc k) [] h = refl
take-all (suc k) (x ∷ xs) h = ap (◌∷◌ x) (take-all k xs (omega arith))

contains-take :
    (k : ℕ) (rs : List AckRange) (m : ℕ) → contains (take k rs) m ≡ true → contains rs m ≡ true
unfolding contains
contains-take zero rs m h = cc
contains-take (suc k) [] m h = h
contains-take (suc k) (r ∷ rs) m h = go (range_contains r m) h (contains-take k rs m)
  where
    go :
        (b : Bool)
        → (b || contains (take k rs) m) ≡ true
        → (contains (take k rs) m ≡ true → contains rs m ≡ true)
        → (b || contains rs m) ≡ true
    go true h rest = refl
    go false h rest = rest h

-- The ranges after a packet number is sorted in and merged.
module _ (s : ReceivedPackets) (n : ℕ) (received : IsReceived s) (fits : n ≤ u64_max) where
  sorted-Below : Below u64_max (sort_descending (s.ranges ++ (record { start = n; end = n } ∷ [])))
  sorted-Below =
      sort_descending-Below _
        (All-append InOrder s.ranges _ received.ordered ((omega arith, fits), tt))

  with_packet-Descends : Descends none (with_packet s.ranges n)
  unfolding with_packet
  with_packet-Descends = merge_adjacent-Descends _ sorted-Below

  with_packet-InOrder : All InOrder (with_packet s.ranges n)
  unfolding with_packet
  with_packet-InOrder = merge_adjacent-InOrder _ sorted-Below

  with_packet-contains :
      (m : ℕ) → contains (with_packet s.ranges n) m ≡ ((n == m) || contains s.ranges m)
  unfolding with_packet
  with_packet-contains m =
      merge_adjacent-contains m _ u64_max sorted-Below
      ∙ sort_descending-contains _ m
      ∙ contains-last s.ranges n m

  with_packet-length : length (with_packet s.ranges n) ≤ length s.ranges + 1
  unfolding with_packet
  with_packet-length =
      let pushed = s.ranges ++ (record { start = n; end = n } ∷ []) in
      omega (
        arith,
        merge_adjacent-length (sort_descending pushed),
        sort_descending-length pushed,
        length-append s.ranges (record { start = n; end = n } ∷ []),
      )

module _ (s : ReceivedPackets) (n now : ℕ) (received : IsReceived s) (fits : n ≤ u64_max) where
  pub record_packet-IsReceived : IsReceived (record_packet s n now).1
  unfolding record_packet
  record_packet-IsReceived = elim (Bool-cases (contains s.ranges n)) [
    | inl known ↦ rw known received
    | inr fresh ↦ rw fresh (record {
      falls = Descends-take max_ack_ranges none _ (with_packet-Descends s n received fits);
      ordered = All-take InOrder max_ack_ranges _ (with_packet-InOrder s n received fits);
      few = omega (arith, length-take max_ack_ranges (with_packet s.ranges n));
    })
  ]

-- While fewer than 32 ranges are held, which fall with a gap between two of them, recording a
-- packet number of a u64 refines adding it to the set of numbers that the ranges hold: `record`
-- returns whether the number is new to the set, and the ranges then hold the set with the number.
pub record_packet-refines :
    (s : ReceivedPackets) (n now : ℕ)
    → IsReceived s
    → n ≤ u64_max
    → (set : NumberSet) → length s.ranges < max_ack_ranges
    → Represents s set
    → ((record_packet s n now).0 ≡ not (set n))
      × Represents (record_packet s n now).1 (insert_number set n)
unfolding record_packet Represents insert_number
record_packet-refines s n now received fits set room represents =
    elim (Bool-cases (contains s.ranges n)) [
      | inl known ↦
          rw known (ap not (sym known ∙ represents n), λ m. member m (Bool-cases (n == m)) known)
      | inr fresh ↦ rw fresh (
        ap not (sym fresh ∙ represents n),
        λ m.
            ap (λ rs. contains rs m)
              (take-all max_ack_ranges _
                (omega (arith, room, with_packet-length s n received fits)))
            ∙ with_packet-contains s n received fits m
            ∙ ap (λ b. (n == m) || b) (represents m),
      )
    ]
  where
    member :
        (m : ℕ)
        → ((n == m) ≡ true) ⊎ ((n == m) ≡ false)
        → contains s.ranges n ≡ true
        → contains s.ranges m ≡ ((n == m) || set m)
    member m (inl same) known = rw same (ap (contains s.ranges) (sym ((==_iff n m).0 same)) ∙ known)
    member m (inr other) known = rw other (represents m)

-- Nothing but the packet and what was held before is held.
record_packet-contains :
    (s : ReceivedPackets) (n now : ℕ)
    → IsReceived s
    → n ≤ u64_max
    → (m : ℕ) → contains (record_packet s n now).1.ranges m ≡ true
    → ((n == m) || contains s.ranges m) ≡ true
unfolding record_packet
record_packet-contains s n now received fits m = elim (Bool-cases (contains s.ranges n)) [
  | inl known ↦ rw known λ h. or_right (n == m) h
  | inr fresh ↦ rw fresh λ h.
      sym (with_packet-contains s n received fits m)
      ∙ contains-take max_ack_ranges (with_packet s.ranges n) m h
]
  where
    or_right : (a : Bool) {b : Bool} → b ≡ true → (a || b) ≡ true
    or_right true h = refl
    or_right false h = h

contains-not_empty : (rs : List AckRange) (m : ℕ) → contains rs m ≡ true → is_empty rs ≡ false
unfolding contains
contains-not_empty [] m h = cc
contains-not_empty (r ∷ rs) m h = refl

take-not_empty :
    {A : Type 0} (k : ℕ) (xs : List A) → is_empty xs ≡ false → is_empty (take (suc k) xs) ≡ false
take-not_empty k [] h = h
take-not_empty k (x ∷ xs) h = refl

record_packet-not_empty :
    (s : ReceivedPackets) (n now : ℕ)
    → IsReceived s
    → n ≤ u64_max
    → is_empty (record_packet s n now).1.ranges ≡ false
unfolding record_packet
record_packet-not_empty s n now received fits = elim (Bool-cases (contains s.ranges n)) [
  | inl known ↦ rw known (contains-not_empty s.ranges n known)
  | inr fresh ↦
      let here : contains (with_packet s.ranges n) n ≡ true =
        rw (with_packet-contains s n received fits n, ==_refl n) refl in
      rw fresh (take-not_empty 31 (with_packet s.ranges n) (contains-not_empty _ n here))
]

-- A history of packets with the times at which they came, the latest first.
unfoldable pub record_all : List (ℕ × ℕ) → ReceivedPackets
record_all [] = new
record_all ((n, now) ∷ packets) = (record_packet (record_all packets) n now).1

unfoldable pub arrived : List (ℕ × ℕ) → ℕ → Bool
arrived packets m = any (λ p. p.0 == m) packets

abbrev pub FitU64 : List (ℕ × ℕ) → Type 0
FitU64 packets = All (λ p. p.0 ≤ u64_max) packets

pub record_all-IsReceived :
    (packets : List (ℕ × ℕ)) → FitU64 packets → IsReceived (record_all packets)
unfolding record_all
record_all-IsReceived [] fits = record { falls = tt; ordered = tt; few = omega arith }
record_all-IsReceived ((n, now) ∷ packets) (fit, fits) =
    record_packet-IsReceived (record_all packets) n now (record_all-IsReceived packets fits) fit

pub record_all-arrived :
    (packets : List (ℕ × ℕ)) (m : ℕ)
    → FitU64 packets
    → contains (record_all packets).ranges m ≡ true
    → arrived packets m ≡ true
unfolding record_all arrived contains
record_all-arrived [] m fits h = h
record_all-arrived ((n, now) ∷ packets) m (fit, fits) h =
    later (n == m)
      (record_packet-contains (record_all packets) n now (record_all-IsReceived packets fits) fit m
        h)
      (record_all-arrived packets m fits)
  where
    later : (a : Bool) {b c : Bool} → (a || b) ≡ true → (b ≡ true → c ≡ true) → (a || c) ≡ true
    later true h imp = refl
    later false h imp = imp h

pub record_all-not_empty :
    (packet : ℕ × ℕ) (packets : List (ℕ × ℕ))
    → FitU64 (packet ∷ packets)
    → is_empty (record_all (packet ∷ packets)).ranges ≡ false
unfolding record_all
record_all-not_empty (n, now) packets (fit, fits) =
    record_packet-not_empty (record_all packets) n now (record_all-IsReceived packets fits) fit
