-- ===== src/ReliableCore/ReceiveStream/Gaps.antt =====
-- crates/reliable-core/src/receive.rs: the ranges that `uncovered_ranges` finds are the gaps between
-- the waiting segments.
use dart_udp.Base.{
  ℕ, ◌+◌, ◌≤◌, ◌<◌, ◌≡◌, arith, max, min, ltb, leb, ◌==◌, ==_iff, if◌then◌else◌, Bool-cases, List,
  [], ◌∷◌, length, All, ◌⊎◌, inl, inr,
}
use dart_udp.Base.Words.{saturating_add, u64_max}
use dart_udp.ReliableCore.ReceiveStream.{
  ReceiveStream, Segments, segments_below, uncovered_from, uncovered_ranges,
}

abbrev pub Ranges : Type 0
Ranges = List (ℕ × ℕ)

-- The segments are in order from `low` on, do not meet, and none is empty.
abbrev pub Ordered : ℕ → Segments → Type 0
Ordered low [] = Unit {0}
Ordered low ((k, v) ∷ m) =
    (low ≤ k) × (0 < length v) × (k + length v ≤ u64_max) × Ordered (k + length v) m

-- The position stands in one of the segments.
abbrev pub Covers : ℕ → Segments → Type 0
Covers p [] = ⊥
Covers p ((k, v) ∷ m) = ((k ≤ p) × (p < k + length v)) ⊎ Covers p m

-- The position stands in one of the ranges.
abbrev pub Within : ℕ → Ranges → Type 0
Within p [] = ⊥
Within p ((start, end) ∷ rs) = ((start ≤ p) × (p < end)) ⊎ Within p rs

-- The ranges are in order from `low` to `high`, do not meet, and none is empty.
abbrev pub Apart : ℕ → ℕ → Ranges → Type 0
Apart low high [] = Unit {0}
Apart low high ((start, end) ∷ rs) =
    (low ≤ start) × (start < end) × (end ≤ high) × Apart end high rs

-- The range meets no segment.
abbrev pub Free : ℕ → ℕ → Segments → Type 0
Free start end [] = Unit {0}
Free start end ((k, v) ∷ m) = ((end ≤ k) ⊎ (k + length v ≤ start)) × Free start end m

abbrev pub AllFree : Ranges → Segments → Type 0
AllFree rs m = All (λ r. Free r.0 r.1 m) rs

Ordered-Free : (low start end : ℕ) (m : Segments) → end ≤ low → Ordered low m → Free start end m
Ordered-Free low start end [] h o = tt
Ordered-Free low start end ((k, v) ∷ m) h (a, b, c, o) =
    (inl (omega arith), Ordered-Free (k + length v) start end m (omega arith) o)

Apart-mono : (low low' high : ℕ) (rs : Ranges) → low ≤ low' → Apart low' high rs → Apart low high rs
Apart-mono low low' high [] h a = tt
Apart-mono low low' high ((s, e) ∷ rs) h (a, b, c, d) = (omega arith, b, c, d)

pub Within-bounds :
    (p low high : ℕ) (rs : Ranges) → Apart low high rs → Within p rs → (low ≤ p) × (p < high)
Within-bounds p low high [] a w = absurd w
Within-bounds p low high ((s, e) ∷ rs) (a, b, c, d) (inl w) = omega arith
Within-bounds p low high ((s, e) ∷ rs) (a, b, c, d) (inr w) =
    omega (arith, Within-bounds p e high rs d w)

pub Covers-low : (p low : ℕ) (m : Segments) → Ordered low m → Covers p m → low ≤ p
Covers-low p low [] o c = absurd c
Covers-low p low ((k, v) ∷ m) (a, b, d, o) (inl c) = omega arith
Covers-low p low ((k, v) ∷ m) (a, b, d, o) (inr c) =
    omega (arith, Covers-low p (k + length v) m o c)

-- The ranges are the gaps between the segments, from `cursor` to `end`.
pub record Gaps (cursor end : ℕ) (m : Segments) (rs : Ranges) : Type 0 where
  pub apart : Apart cursor end rs
  pub free : AllFree rs m
  pub whole : (p : ℕ) → cursor ≤ p → p < end → Within p rs ⊎ Covers p m

pub empty-Gaps : (cursor end : ℕ) (m : Segments) → end ≤ cursor → Gaps cursor end m []
empty-Gaps cursor end m h = record { apart = tt; free = tt; whole = λ p a b. absurd (omega arith) }

gap_to_end :
    (cursor end : ℕ) (m : Segments)
    → Ordered end m
    → Gaps cursor end m (if ltb cursor end then (cursor, end) ∷ [] else [])
gap_to_end cursor end m o = elim (Bool-cases (ltb cursor end)) [
  | inl low ↦ rw low (record {
    apart = (omega arith, ground arith, omega arith, tt);
    free = (Ordered-Free end cursor end m (omega arith) o, tt);
    whole = λ p a b. inl (inl (a, b));
  })
  | inr high ↦ rw high (empty-Gaps cursor end m (ground arith))
]

AllFree-behind :
    (low high k : ℕ) (v : List ℕ) (rs : Ranges) (m : Segments)
    → k + length v ≤ low
    → Apart low high rs
    → AllFree rs m
    → AllFree rs ((k, v) ∷ m)
AllFree-behind low high k v [] m h a f = tt
AllFree-behind low high k v ((s, e) ∷ rs) m h (a, b, c, d) (f, g) =
    ((inr (omega arith), f), AllFree-behind e high k v rs m (omega arith) d g)

-- A segment that ends at the cursor or before it.
Gaps-behind :
    (cursor end k : ℕ) (v : List ℕ) (m : Segments) (rs : Ranges)
    → k + length v ≤ cursor
    → Gaps cursor end m rs
    → Gaps cursor end ((k, v) ∷ m) rs
Gaps-behind cursor end k v m rs h g = record {
  apart = g.apart;
  free = AllFree-behind cursor end k v rs m h g.apart g.free;
  whole = λ p a b. right p (g.whole p a b);
}
  where
    right : (p : ℕ) → Within p rs ⊎ Covers p m → Within p rs ⊎ Covers p ((k, v) ∷ m)
    right p (inl w) = inl w
    right p (inr c) = inr (inr c)

-- A segment that begins at the cursor or before it and ends behind it.
Gaps-under :
    (cursor end k : ℕ) (v : List ℕ) (m : Segments) (rs : Ranges)
    → k ≤ cursor
    → Gaps (max cursor (k + length v)) end ((k, v) ∷ m) rs
    → Gaps cursor end ((k, v) ∷ m) rs
Gaps-under cursor end k v m rs h g = record {
  apart = Apart-mono cursor (max cursor (k + length v)) end rs (omega arith) g.apart;
  free = g.free;
  whole = λ p a b. elim (Bool-cases (ltb p (k + length v))) [
    | inl low ↦ inr (inl (omega arith, ground arith))
    | inr high ↦ g.whole p (ground arith) b
  ];
}

-- A segment behind the cursor, with the gap before it.
Gaps-before :
    (cursor end k : ℕ) (v : List ℕ) (m : Segments) (rs : Ranges)
    → cursor < k
    → k < end
    → Ordered (k + length v) m
    → Gaps (max cursor (k + length v)) end ((k, v) ∷ m) rs
    → Gaps cursor end ((k, v) ∷ m) ((cursor, min k end) ∷ rs)
Gaps-before cursor end k v m rs h low o g = record {
  apart = (
    omega arith,
    omega arith,
    omega arith,
    Apart-mono (min k end) (max cursor (k + length v)) end rs (omega arith) g.apart,
  );
  free = (
    (inl (omega arith), Ordered-Free (k + length v) cursor (min k end) m (omega arith) o),
    g.free,
  );
  whole = λ p a b. elim (Bool-cases (ltb p k)) [
    | inl before ↦ inl (inl (a, ground arith))
    | inr behind ↦ elim (Bool-cases (ltb p (k + length v))) [
      | inl inside ↦ inr (inl (ground arith, ground arith))
      | inr later ↦ next p (g.whole p (ground arith) b)
    ]
  ];
}
  where
    next :
        (p : ℕ)
        → Within p rs ⊎ Covers p ((k, v) ∷ m)
        → Within p ((cursor, min k end) ∷ rs) ⊎ Covers p ((k, v) ∷ m)
    next p (inl w) = inl (inr w)
    next p (inr c) = inr c

uncovered_from-Gaps :
    (low cursor end : ℕ) (m : Segments)
    → Ordered low m
    → Gaps cursor end m (uncovered_from cursor end (segments_below end m))
unfolding uncovered_from segments_below
uncovered_from-Gaps low cursor end [] o = gap_to_end cursor end [] tt
uncovered_from-Gaps low cursor end ((k, v) ∷ m) (a, b, c, o) = elim (Bool-cases (ltb k end)) [
  | inr far ↦ rw far (gap_to_end cursor end ((k, v) ∷ m) (ground arith, b, c, o))
  | inl near ↦
      let stop : ℕ = k + length v in
      let full : saturating_add k (length v) ≡ stop = omega arith in
      let skipped = uncovered_from-Gaps stop cursor end m o in
      let later = uncovered_from-Gaps stop (max cursor stop) end m o in
      rw (near, full)
        (elim (Bool-cases (leb stop cursor)) [
          | inl behind ↦ rw behind (Gaps-behind cursor end k v m _ (ground arith) skipped)
          | inr ahead ↦
              let rest = Gaps-behind (max cursor stop) end k v m _ (omega arith) (
                cut (max cursor stop) (uncovered_from (max cursor stop) end (segments_below end m))
                  later) in
              rw ahead (elim (Bool-cases (ltb cursor k)) [
                | inl before ↦
                    rw before (Gaps-before cursor end k v m _ (ground arith) (ground arith) o rest)
                | inr under ↦ rw under (Gaps-under cursor end k v m _ (ground arith) rest)
              ])
        ])
]
  where
    cut :
        (next : ℕ) (rs : Ranges)
        → Gaps next end m rs
        → Gaps next end m (if leb end next then [] else rs)
    cut next rs g = elim (Bool-cases (leb end next)) [
      | inl done ↦ rw done (empty-Gaps next end m (ground arith))
      | inr more ↦ rw more g
    ]

pub uncovered_ranges-Gaps :
    (low : ℕ) (r : ReceiveStream) (offset end : ℕ)
    → Ordered low r.segments
    → Gaps (max offset r.next_offset) end r.segments (uncovered_ranges r offset end)
unfolding uncovered_ranges
uncovered_ranges-Gaps low r offset end o = elim (Bool-cases (offset == end)) [
  | inl same ↦ rw same (
      empty-Gaps (max offset r.next_offset) end r.segments
        (let e : offset ≡ end = (==_iff offset end).0 same in omega arith))
  | inr other ↦ rw other (uncovered_from-Gaps low (max offset r.next_offset) end r.segments o)
]
