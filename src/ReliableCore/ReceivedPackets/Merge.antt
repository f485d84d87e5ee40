-- ===== src/ReliableCore/ReceivedPackets/Merge.antt =====
-- crates/reliable-core/src/ack.rs: sorting and merging keep the packet numbers, and leave ranges that
-- fall with a gap between two of them.
use dart_udp.Base.{
  ℕ, suc, ◌+◌, ◌≤◌, ◌<◌, ◌≡◌, refl, arith, ap, ◌∙◌, leb, min, max, Bool, true, false, ◌||◌, Option,
  none, some, List, [], ◌∷◌, length, All, leb→le, Bool-cases, inl, inr,
}
use dart_udp.Base.Words.{saturating_add, u64_max}
use dart_udp.UdpProtocol.Ack.{
  AckRange, range_contains, contains, before, insert_sorted, sort_descending,
}
use dart_udp.UdpProtocol.Ack.Normal.{Descends}
use dart_udp.ReliableCore.ReceivedPackets.{merge_from, merge_adjacent, first_end}

-- Ranges in order that end at `bound` or below, by falling end.
abbrev pub Below : ℕ → List AckRange → Type 0
Below bound [] = Unit {0}
Below bound (r ∷ rs) = (r.start ≤ r.end) × (r.end ≤ bound) × Below r.end rs

Below-higher : (a b : ℕ) (rs : List AckRange) → a ≤ b → Below a rs → Below b rs
Below-higher a b [] le below = tt
Below-higher a b (r ∷ rs) le (order, high, rest) = (order, omega arith, rest)

before-true : (l r : AckRange) → before l r ≡ true → r.end ≤ l.end
unfolding before
before-true l r h = ground (arith, h)

before-false : (l r : AckRange) → before l r ≡ false → l.end ≤ r.end
unfolding before
before-false l r h = ground (arith, h)

insert_sorted-Below :
    (bound : ℕ) (r : AckRange) (rs : List AckRange)
    → r.start ≤ r.end
    → r.end ≤ bound
    → Below bound rs
    → Below bound (insert_sorted r rs)
unfolding insert_sorted before
insert_sorted-Below bound r [] order high below = (order, high, tt)
insert_sorted-Below bound r (s ∷ ss) order high (s_order, s_high, rest) =
    elim (Bool-cases (before r s)) [
      | inl first ↦ rw first (order, high, (s_order, before-true r s first, rest))
      | inr later ↦
          rw later
            (s_order, s_high, insert_sorted-Below s.end r ss order (before-false r s later) rest)
    ]

-- Ranges in order within a u64.
abbrev pub InOrder : AckRange → Type 0
InOrder r = (r.start ≤ r.end) × (r.end ≤ u64_max)

pub sort_descending-Below :
    (rs : List AckRange) → All InOrder rs → Below u64_max (sort_descending rs)
unfolding sort_descending
sort_descending-Below [] ordered = tt
sort_descending-Below (r ∷ rs) (order, ordered) =
    insert_sorted-Below u64_max r _ order.0 order.1 (sort_descending-Below rs ordered)

or_swap : (a b c : Bool) → (a || (b || c)) ≡ (b || (a || c))
or_swap true true c = refl
or_swap true false c = refl
or_swap false true c = refl
or_swap false false c = refl

insert_sorted-contains :
    (r : AckRange) (rs : List AckRange) (n : ℕ)
    → contains (insert_sorted r rs) n ≡ (range_contains r n || contains rs n)
unfolding insert_sorted contains
insert_sorted-contains r [] n = refl
insert_sorted-contains r (s ∷ ss) n = elim (Bool-cases (before r s)) [
  | inl first ↦ rw first refl
  | inr later ↦
      rw (later, insert_sorted-contains r ss n)
        (or_swap (range_contains s n) (range_contains r n) (contains ss n))
]

pub sort_descending-contains :
    (rs : List AckRange) (n : ℕ) → contains (sort_descending rs) n ≡ contains rs n
unfolding sort_descending contains
sort_descending-contains [] n = refl
sort_descending-contains (r ∷ rs) n =
    insert_sorted-contains r (sort_descending rs) n
    ∙ ap (λ b. range_contains r n || b) (sort_descending-contains rs n)

-- Two ranges that touch or overlap cover what their union covers.
union-contains :
    (p r : AckRange) (n : ℕ)
    → p.start ≤ p.end
    → r.start ≤ r.end
    → r.end ≤ p.end
    → p.start ≤ r.end + 1
    → range_contains (record { start = min p.start r.start; end = max p.end r.end }) n
      ≡ (range_contains p n || range_contains r n)
unfolding range_contains
union-contains p r n p_order r_order falls touch = ground arith

or_assoc : (a b c : Bool) → ((a || b) || c) ≡ (a || (b || c))
or_assoc true b c = refl
or_assoc false b c = refl

module _ (n : ℕ) where
  merge_from-contains :
      (p : AckRange) (rs : List AckRange)
      → p.start ≤ p.end
      → Below p.end rs
      → contains (merge_from p rs) n ≡ contains (p ∷ rs) n
  unfolding merge_from contains
  merge_from-contains p [] order below = refl
  merge_from-contains p (r ∷ rs) order (r_order, falls, rest) =
      let touching = leb p.start (saturating_add r.end 1) in
      let union : AckRange = record { start = min p.start r.start; end = max p.end r.end } in
      elim (Bool-cases touching) [
        | inl touch ↦ rw touch (
            merge_from-contains union rs (omega (arith, order))
              (Below-higher r.end union.end rs (omega arith) rest)
            ∙ ap (λ b. b || contains rs n)
                (union-contains p r n order r_order falls (omega (arith, leb→le _ _ touch)))
            ∙ or_assoc (range_contains p n) (range_contains r n) (contains rs n))
        | inr apart ↦
            rw apart (ap (λ b. range_contains p n || b) (merge_from-contains r rs r_order rest))
      ]

  pub merge_adjacent-contains :
      (rs : List AckRange) (bound : ℕ)
      → Below bound rs
      → contains (merge_adjacent rs) n ≡ contains rs n
  unfolding merge_adjacent
  merge_adjacent-contains [] bound below = refl
  merge_adjacent-contains (r ∷ rs) bound (order, high, rest) = merge_from-contains r rs order rest

-- The range lies below the one before, with a gap.
abbrev Gap : Option AckRange → AckRange → Type 0
Gap none p = Unit {0}
Gap (some t) p = p.end + 1 < t.start

Descends-cons :
    (top : Option AckRange) (p : AckRange) (rs : List AckRange)
    → p.start ≤ p.end
    → Gap top p
    → Descends (some p) rs
    → Descends top (p ∷ rs)
Descends-cons none p rs order gap rest = (order, rest)
Descends-cons (some t) p rs order gap rest = (order, gap, rest)

Gap-union :
    (top : Option AckRange) (p : AckRange) (start end : ℕ)
    → end ≤ p.end
    → Gap top p
    → Gap top (record { start = start; end = max p.end end })
Gap-union none p start end falls gap = tt
Gap-union (some t) p start end falls gap = omega arith

merge_from-Descends :
    (top : Option AckRange) (p : AckRange) (rs : List AckRange)
    → p.start ≤ p.end
    → p.end ≤ u64_max
    → Gap top p
    → Below p.end rs
    → Descends top (merge_from p rs)
unfolding merge_from
merge_from-Descends top p [] order fits gap below = Descends-cons top p [] order gap tt
merge_from-Descends top p (r ∷ rs) order fits gap (r_order, falls, rest) =
    let touching = leb p.start (saturating_add r.end 1) in
    let union : AckRange = record { start = min p.start r.start; end = max p.end r.end } in
    elim (Bool-cases touching) [
      | inl touch ↦ rw touch (
          merge_from-Descends top union rs (omega (arith, order)) (omega (arith, fits, falls))
            (Gap-union top p (min p.start r.start) r.end falls gap)
            (Below-higher r.end union.end rs (omega arith) rest))
      | inr apart ↦ rw apart (
          Descends-cons top p (merge_from r rs) order gap (
            merge_from-Descends (some p) r rs r_order (omega (arith, fits, falls))
              (ground (arith, apart)) rest))
    ]

pub merge_adjacent-Descends :
    (rs : List AckRange) → Below u64_max rs → Descends none (merge_adjacent rs)
unfolding merge_adjacent
merge_adjacent-Descends [] below = tt
merge_adjacent-Descends (r ∷ rs) (order, high, rest) =
    merge_from-Descends none r rs order high tt rest

-- The first of the merged ranges ends where the first range does.
merge_from-first :
    (p : AckRange) (rs : List AckRange) → Below p.end rs → first_end (merge_from p rs) ≡ some p.end
unfolding merge_from first_end
merge_from-first p [] below = refl
merge_from-first p (r ∷ rs) (r_order, falls, rest) =
    let union : AckRange = record { start = min p.start r.start; end = max p.end r.end } in
    let same : max p.end r.end ≡ p.end = omega (arith, falls) in
    elim (Bool-cases (leb p.start (saturating_add r.end 1))) [
      | inl touch ↦ rw touch (
          merge_from-first union rs (Below-higher r.end union.end rs (omega arith) rest)
          ∙ ap some same)
      | inr apart ↦ rw apart refl
    ]

InOrder-after :
    (p : AckRange) (rs : List AckRange) → InOrder p → Descends (some p) rs → All InOrder rs
InOrder-after p [] ordered falls = tt
InOrder-after p (r ∷ rs) (order, fits) (r_order, gap, rest) =
    let r_ordered : InOrder r = (r_order, omega (arith, order, fits, gap)) in
    (r_ordered, InOrder-after r rs r_ordered rest)

All-InOrder :
    (rs : List AckRange) (end : ℕ)
    → first_end rs ≡ some end
    → end ≤ u64_max
    → Descends none rs
    → All InOrder rs
unfolding first_end
All-InOrder [] end first fits falls = tt
All-InOrder (r ∷ rs) end first fits (order, rest) =
    let ordered : InOrder r = (order, ground (arith, first)) in
    (ordered, InOrder-after r rs ordered rest)

pub merge_adjacent-InOrder :
    (rs : List AckRange) → Below u64_max rs → All InOrder (merge_adjacent rs)
unfolding merge_adjacent
merge_adjacent-InOrder [] below = tt
merge_adjacent-InOrder (r ∷ rs) (order, high, rest) =
    All-InOrder _ r.end (merge_from-first r rs rest) high
      (merge_from-Descends none r rs order high tt rest)

insert_sorted-length :
    (r : AckRange) (rs : List AckRange) → length (insert_sorted r rs) ≡ suc (length rs)
unfolding insert_sorted
insert_sorted-length r [] = refl
insert_sorted-length r (s ∷ ss) = elim (Bool-cases (before r s)) [
  | inl first ↦ rw first refl
  | inr later ↦ rw (later, insert_sorted-length r ss) refl
]

pub sort_descending-length : (rs : List AckRange) → length (sort_descending rs) ≡ length rs
unfolding sort_descending
sort_descending-length [] = refl
sort_descending-length (r ∷ rs) =
    insert_sorted-length r (sort_descending rs) ∙ ap suc (sort_descending-length rs)

merge_from-length : (p : AckRange) (rs : List AckRange) → length (merge_from p rs) ≤ suc (length rs)
unfolding merge_from
merge_from-length p [] = omega arith
merge_from-length p (r ∷ rs) =
    let union : AckRange = record { start = min p.start r.start; end = max p.end r.end } in
    elim (Bool-cases (leb p.start (saturating_add r.end 1))) [
      | inl touch ↦ rw touch (omega (arith, merge_from-length union rs))
      | inr apart ↦ rw apart (omega (arith, merge_from-length r rs))
    ]

pub merge_adjacent-length : (rs : List AckRange) → length (merge_adjacent rs) ≤ length rs
unfolding merge_adjacent
merge_adjacent-length [] = omega arith
merge_adjacent-length (r ∷ rs) = merge_from-length r rs
