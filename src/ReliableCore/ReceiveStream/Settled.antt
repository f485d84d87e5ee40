-- ===== src/ReliableCore/ReceiveStream/Settled.antt =====
-- crates/reliable-core/src/receive.rs: `deliver_contiguous` runs to its end.
use dart_udp.Base.{
  ℕ, zero, suc, ◌+◌, ◌≤◌, ◌≡◌, refl, sym, ap, arith, subst, List, [], ◌∷◌, length, ◌==◌, none, some,
  inl, inr, Bool-cases, Option-cases, some_pair-injective, ◌⊎◌, ◌∙◌, ◌<◌, ==_iff, ok, ok_or,
  >>=-eq-ok,
}
use dart_udp.Base.Words.{checked_add}
use dart_udp.ReliableCore.Error.{invalid_offset}
use dart_udp.ReliableCore.ReceiveStream.{ReceiveStream, Segments, remove_segment, deliver_fuel}
use dart_udp.ReliableCore.ReceiveStream.Gaps.{Ordered, Covers, Covers-low}

remove_segment-length :
    (k : ℕ) (m : Segments) (v : List ℕ) (m' : Segments)
    → remove_segment k m ≡ some (v, m')
    → suc (length m') ≡ length m
unfolding remove_segment
remove_segment-length k [] v m' h = cc
remove_segment-length k ((j, w) ∷ m) v m' h = elim (Bool-cases (k == j)) [
  | inl b ↦ ap (λ t. suc (length t)) (sym (some_pair-injective (rw b at h)).1)
  | inr b ↦ elim (Option-cases (remove_segment k m)) [
    | inl none_left ↦ cc (h, b, none_left)
    | inr ((u, n), found) ↦
        let rest = ap length (some_pair-injective (rw (b, found) at h)).1 in
        omega (arith, remove_segment-length k m u n found, rest)
  ]
]

remove_segment-none :
    (k low : ℕ) (m : Segments) → k < low → Ordered low m → remove_segment k m ≡ none
unfolding remove_segment
remove_segment-none k low [] h o = refl
remove_segment-none k low ((j, w) ∷ m) h (a, b, c, o) = elim (Bool-cases (k == j)) [
  | inl same ↦ absurd (omega (arith, (==_iff k j).0 same))
  | inr other ↦ rw (other, remove_segment-none k (j + length w) m (omega arith) o) refl
]

-- Nothing that waits continues what is delivered.
abbrev pub IsSettled : ReceiveStream → Type 0
IsSettled r = remove_segment r.next_offset r.segments ≡ none

no_segments : (k : ℕ) (m : Segments) → length m ≤ 0 → remove_segment k m ≡ none
unfolding remove_segment
no_segments k [] h = refl
no_segments k (s ∷ m) h = absurd (omega arith)

pub deliver_fuel-IsSettled :
    (fuel : ℕ) (r r' : ReceiveStream)
    → length r.segments ≤ fuel
    → deliver_fuel fuel r ≡ ok r'
    → IsSettled r' × (r.next_offset ≤ r'.next_offset)
unfolding deliver_fuel
deliver_fuel-IsSettled zero r r' enough h =
    let same : r ≡ r' = cc in
    (
      subst IsSettled same (no_segments r.next_offset r.segments enough),
      omega (arith, ap (λ t. ReceiveStream.next_offset t) same),
    )
deliver_fuel-IsSettled (suc fuel) r r' enough h =
    elim (Option-cases (remove_segment r.next_offset r.segments)) [
      | inl none_left ↦
          let same : r ≡ r' = cc (h, none_left) in
          (
            subst IsSettled same none_left,
            omega (arith, ap (λ t. ReceiveStream.next_offset t) same),
          )
      | inr ((bytes, m), found) ↦
          let (next, h₁, h₂) =
            >>=-eq-ok (ok_or (checked_add r.next_offset (length bytes)) invalid_offset) _
              (rw (found, deliver_fuel) at h) in
          let at : next ≡ r.next_offset + length bytes = ground (arith, h₁) in
          let shorter = remove_segment-length r.next_offset r.segments bytes m found in
          let (settled, grown) =
            deliver_fuel-IsSettled fuel _ r' (omega (arith, shorter, enough)) h₂ in
          (settled, omega (arith, grown, at))
    ]

-- The first segment, where it is the one that is removed; else nothing stands at that place.
pub remove_segment-first :
    (low : ℕ) (m m' : Segments) (v : List ℕ)
    → Ordered low m
    → remove_segment low m ≡ some (v, m')
    → Ordered (low + length v) m' × (m ≡ (low, v) ∷ m')
unfolding remove_segment
remove_segment-first low [] m' v o h = cc
remove_segment-first low ((k, w) ∷ m) m' v (a, b, c, o) h = elim (Bool-cases (low == k)) [
  | inl same ↦
      let (e, f) = some_pair-injective (rw same at h) in
      let here : low ≡ k = (==_iff low k).0 same in
      (
        subst (Ordered (low + length v)) f
            (subst (λ n. Ordered n m) (omega (arith, here, ap length e)) o),
        ap (λ t. (t, w) ∷ m) (sym here) ∙ ap (λ t. (low, t) ∷ m) e ∙ ap (λ t. (low, v) ∷ t) f,
      )
  | inr other ↦
      let late : low < k + length w = omega arith in
      cc (h, other, remove_segment-none low (k + length w) m late o)
]

-- Where nothing waits for delivery, the place that delivery has come to is not there.
pub settled-not-covered :
    (low : ℕ) (m : Segments) → Ordered low m → remove_segment low m ≡ none → Covers low m → ⊥
unfolding remove_segment
settled-not-covered low [] o h c = absurd c
settled-not-covered low ((k, w) ∷ m) (a, b, d, o) h c = elim (Bool-cases (low == k)) [
  | inl same ↦ cc (h, same)
  | inr other ↦ go c (λ e. cc (other, (==_iff low k).1 e)) (Covers-low low (k + length w) m o)
]
  where
    go :
        ((k ≤ low) × (low < k + length w)) ⊎ Covers low m
        → (low ≡ k → ⊥)
        → (Covers low m → k + length w ≤ low)
        → ⊥
    go (inl (p, q)) apart later = apart (omega arith)
    go (inr c) apart later = absurd (omega (arith, later c))
