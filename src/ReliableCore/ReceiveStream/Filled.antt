-- ===== src/ReliableCore/ReceiveStream/Filled.antt =====
-- crates/reliable-core/src/receive.rs: what `insert` puts into the gaps between the waiting segments.
use dart_udp.Base.{
  ℕ, ◌+◌, ◌-◌, ◌≤◌, ◌<◌, ◌≡◌, ◌↔◌, arith, subst, ltb, ltb→lt, ltb→le, ◌==◌, ==_iff, some,
  Bool-cases, List, [], ◌∷◌, length, ◌⊎◌, inl, inr, get_range, ok, ok_or, ok_or-some, >>=-eq-ok,
  ok_pair-injective,
}
use dart_udp.Base.Words.{u64_max}
use dart_udp.Base.Slices.{get_range-IsSlice}
use dart_udp.ReliableCore.Error.{invalid_offset}
use dart_udp.ReliableCore.ReceiveStream.{Segments, insert_segment, insert_ranges}
use dart_udp.ReliableCore.ReceiveStream.Gaps.{Ranges, Ordered, Covers, Within, Apart, Free, AllFree}

-- A segment in the place of a free range.
insert_segment-Ordered :
    (low k end : ℕ) (v : List ℕ) (m : Segments)
    → low ≤ k
    → k < end
    → end ≤ u64_max
    → k + length v ≡ end
    → Free k end m
    → Ordered low m
    → Ordered low (insert_segment k v m)
unfolding insert_segment
insert_segment-Ordered low k end v [] a b c e f o = (a, omega arith, omega arith, tt)
insert_segment-Ordered low k end v ((j, w) ∷ m) a b c e (f, g) (o₁, o₂, o₃, o) =
    elim (Bool-cases (ltb k j)) [
      | inl before ↦ rw before (a, omega arith, omega arith, (at f (ltb→lt k j before), o₂, o₃, o))
      | inr behind ↦ elim (Bool-cases (k == j)) [
        | inl same ↦ absurd (apart f ((==_iff k j).0 same))
        | inr other ↦
            rw (behind, other)
              (
                o₁,
                o₂,
                o₃,
                insert_segment-Ordered (j + length w) k end v m (after f (ltb→le k j behind)) b c e
                    g o,
              )
      ]
    ]
  where
    at : (end ≤ j) ⊎ (j + length w ≤ k) → k < j → k + length v ≤ j
    at f near = ground arith

    apart : (end ≤ j) ⊎ (j + length w ≤ k) → k ≡ j → ⊥
    apart f same = ground arith

    after : (end ≤ j) ⊎ (j + length w ≤ k) → j ≤ k → j + length w ≤ k
    after f far = ground arith

insert_segment-Free :
    (start end k : ℕ) (v : List ℕ) (m : Segments)
    → k + length v ≤ start
    → Free start end m
    → Free start end (insert_segment k v m)
unfolding insert_segment
insert_segment-Free start end k v [] h f = (inr h, tt)
insert_segment-Free start end k v ((j, w) ∷ m) h (f, g) = elim (Bool-cases (ltb k j)) [
  | inl before ↦ rw before (inr h, (f, g))
  | inr behind ↦ elim (Bool-cases (k == j)) [
    | inl same ↦ rw (behind, same) (inr h, g)
    | inr other ↦ rw (behind, other) (f, insert_segment-Free start end k v m h g)
  ]
]

insert_segment-AllFree :
    (k high : ℕ) (v : List ℕ) (rs : Ranges) (m : Segments)
    → Apart (k + length v) high rs
    → AllFree rs m
    → AllFree rs (insert_segment k v m)
insert_segment-AllFree k high v rs m = go (k + length v) rs (omega arith)
  where
    go :
        (low : ℕ) (rs : Ranges)
        → k + length v ≤ low
        → Apart low high rs
        → AllFree rs m
        → AllFree rs (insert_segment k v m)
    go low [] h a f = tt
    go low ((s, e) ∷ rs) h (a₁, a₂, a₃, a) (f, g) =
        (insert_segment-Free s e k v m (omega arith) f, go e rs (omega arith) a g)

insert_segment-Covers :
    (p low k end : ℕ) (v : List ℕ) (m : Segments)
    → k < end
    → k + length v ≡ end
    → Free k end m
    → Ordered low m
    → ((k ≤ p) × (p < end)) ⊎ Covers p m
    → Covers p (insert_segment k v m)
unfolding insert_segment
insert_segment-Covers p low k end v [] b e f o (inl c) = inl (omega arith)
insert_segment-Covers p low k end v [] b e f o (inr c) = absurd c
insert_segment-Covers p low k end v ((j, w) ∷ m) b e (f, g) (o₁, o₂, o₃, o) c =
    elim (Bool-cases (ltb k j)) [
      | inl before ↦ rw before (front c)
      | inr behind ↦ elim (Bool-cases (k == j)) [
        | inl same ↦ absurd (apart f ((==_iff k j).0 same))
        | inr other ↦
            rw (behind, other) (later c (insert_segment-Covers p (j + length w) k end v m b e g o))
      ]
    ]
  where
    apart : (end ≤ j) ⊎ (j + length w ≤ k) → k ≡ j → ⊥
    apart f same = ground arith

    front :
        ((k ≤ p) × (p < end)) ⊎ Covers p ((j, w) ∷ m)
        → ((k ≤ p) × (p < k + length v)) ⊎ Covers p ((j, w) ∷ m)
    front (inl c) = inl (omega arith)
    front (inr c) = inr c

    later :
        ((k ≤ p) × (p < end)) ⊎ Covers p ((j, w) ∷ m)
        → (((k ≤ p) × (p < end)) ⊎ Covers p m → Covers p (insert_segment k v m))
        → ((j ≤ p) × (p < j + length w)) ⊎ Covers p (insert_segment k v m)
    later (inl c) next = inr (next (inl c))
    later (inr (inl c)) next = inl c
    later (inr (inr c)) next = inr (next (inr c))

insert_segment-only :
    (p k end : ℕ) (v : List ℕ) (m : Segments)
    → k + length v ≡ end
    → Covers p (insert_segment k v m)
    → ((k ≤ p) × (p < end)) ⊎ Covers p m
unfolding insert_segment
insert_segment-only p k end v [] e (inl c) = inl (omega arith)
insert_segment-only p k end v [] e (inr c) = absurd c
insert_segment-only p k end v ((j, w) ∷ m) e c = elim (Bool-cases (ltb k j)) [
  | inl before ↦ front (rw before at c)
  | inr behind ↦ elim (Bool-cases (k == j)) [
    | inl same ↦ replaced (rw (behind, same) at c)
    | inr other ↦ later (rw (behind, other) at c) (insert_segment-only p k end v m e)
  ]
]
  where
    front :
        ((k ≤ p) × (p < k + length v)) ⊎ Covers p ((j, w) ∷ m)
        → ((k ≤ p) × (p < end)) ⊎ Covers p ((j, w) ∷ m)
    front (inl c) = inl (omega arith)
    front (inr c) = inr c

    replaced :
        ((k ≤ p) × (p < k + length v)) ⊎ Covers p m → ((k ≤ p) × (p < end)) ⊎ Covers p ((j, w) ∷ m)
    replaced (inl c) = inl (omega arith)
    replaced (inr c) = inr (inr c)

    later :
        ((j ≤ p) × (p < j + length w)) ⊎ Covers p (insert_segment k v m)
        → (Covers p (insert_segment k v m) → ((k ≤ p) × (p < end)) ⊎ Covers p m)
        → ((k ≤ p) × (p < end)) ⊎ Covers p ((j, w) ∷ m)
    later (inl c) next = inr (inl c)
    later (inr c) next = back (next c)
      where
        back : ((k ≤ p) × (p < end)) ⊎ Covers p m → ((k ≤ p) × (p < end)) ⊎ Covers p ((j, w) ∷ m)
        back (inl c) = inl c
        back (inr c) = inr (inr c)

-- The segments with the ranges filled hold the positions of both, and no other.
pub record Fills (low : ℕ) (rs : Ranges) (m m' : Segments) : Type 0 where
  pub ordered : Ordered low m'
  pub exact : (p : ℕ) → (Within p rs ⊎ Covers p m) ↔ Covers p m'

pub insert_ranges-Fills :
    (low from high offset : ℕ) (bytes : List ℕ) (rs : Ranges) (count count' : ℕ) (m m' : Segments)
    → low ≤ from
    → offset ≤ from
    → high ≤ u64_max
    → Apart from high rs
    → AllFree rs m
    → Ordered low m
    → insert_ranges offset bytes rs count m ≡ ok (count', m')
    → Fills low rs m m'
unfolding insert_ranges
insert_ranges-Fills low from high offset bytes [] count count' m m' l h u a f o e =
    subst (Fills low [] m) (ok_pair-injective e).1
      (record { ordered = o; exact = λ p. (only p, λ c. inr c) })
  where
    only : (p : ℕ) → ⊥ ⊎ Covers p m → Covers p m
    only p (inl w) = absurd w
    only p (inr c) = c
insert_ranges-Fills low from high offset bytes ((start, end) ∷ rs) count count' m m' l h u
      (a₁, a₂, a₃, a) (f, g) o e =
    let (chunk, h₁, h₂) =
      >>=-eq-ok (ok_or (get_range bytes (start - offset) (end - offset)) invalid_offset) _ e in
    let found : get_range bytes (start - offset) (end - offset) ≡ some chunk = ok_or-some _ _ h₁ in
    let (_, size) = get_range-IsSlice bytes (start - offset) (end - offset) chunk found in
    let full : start + length chunk ≡ end = omega (arith, size) in
    let made =
      insert_segment-Ordered low start end chunk m (omega arith) a₂ (omega arith) full f o in
    let rest =
      insert_ranges-Fills low end high offset bytes rs _ count' (insert_segment start chunk m) m'
        (omega arith) (omega arith) u a
        (insert_segment-AllFree start high chunk rs m
          (subst (λ t. Apart t high rs) (omega (arith, full)) a) g)
        made h₂ in
    record {
      ordered = rest.ordered;
      exact = λ p. (
        (λ c.
            (rest.exact p).0
              (into p chunk c (insert_segment-Covers p low start end chunk m a₂ full f o))),
        λ c. out p chunk ((rest.exact p).1 c) (insert_segment-only p start end chunk m full),
      );
    }
  where
    into :
        (p : ℕ) (chunk : List ℕ)
        → Within p ((start, end) ∷ rs) ⊎ Covers p m
        → (((start ≤ p) × (p < end)) ⊎ Covers p m → Covers p (insert_segment start chunk m))
        → Within p rs ⊎ Covers p (insert_segment start chunk m)
    into p chunk (inl (inl c)) next = inr (next (inl c))
    into p chunk (inl (inr w)) next = inl w
    into p chunk (inr c) next = inr (next (inr c))

    out :
        (p : ℕ) (chunk : List ℕ)
        → Within p rs ⊎ Covers p (insert_segment start chunk m)
        → (Covers p (insert_segment start chunk m) → ((start ≤ p) × (p < end)) ⊎ Covers p m)
        → Within p ((start, end) ∷ rs) ⊎ Covers p m
    out p chunk (inl w) next = inl (inr w)
    out p chunk (inr c) next = back (next c)
      where
        back : ((start ≤ p) × (p < end)) ⊎ Covers p m → Within p ((start, end) ∷ rs) ⊎ Covers p m
        back (inl c) = inl (inl c)
        back (inr c) = inr c
