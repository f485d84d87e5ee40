-- ===== src/ReliableCore/ReceiveStream/Passed.antt =====
-- crates/reliable-core/src/receive.rs: `deliver_contiguous` keeps every position.
use dart_udp.Base.{
  ℕ, zero, suc, ◌+◌, ◌≤◌, ◌<◌, ◌≡◌, ◌↔◌, refl, arith, subst, ltb, Bool-cases, List, ◌∷◌, length,
  length-append, ◌⊎◌, inl, inr, ok, ok_or, ok-injective, >>=-eq-ok, Option-cases,
}
use dart_udp.Base.Words.{checked_add}
use dart_udp.ReliableCore.Error.{invalid_offset}
use dart_udp.ReliableCore.ReceiveStream.{ReceiveStream, remove_segment, deliver_fuel}
use dart_udp.ReliableCore.ReceiveStream.Gaps.{Ordered, Covers}
use dart_udp.ReliableCore.ReceiveStream.Settled.{remove_segment-first}

-- The position has been delivered or waits in a segment.
abbrev pub Has : ReceiveStream → ℕ → Type 0
Has r p = (p < r.next_offset) ⊎ Covers p r.segments

-- Delivery keeps the order of the segments and every position, and makes ready what it passes.
pub record IsDelivery (r r' : ReceiveStream) : Type 0 where
  pub ordered : Ordered r'.next_offset r'.segments
  pub exact : (p : ℕ) → Has r p ↔ Has r' p
  pub moved : r'.next_offset + length r.ready ≡ r.next_offset + length r'.ready

-- One segment is passed, the first.
pass-Has :
    (p next len : ℕ) (v : List ℕ) (m m' : List (ℕ × List ℕ))
    → m ≡ (next, v) ∷ m'
    → len ≡ next + length v
    → ((p < next) ⊎ Covers p m) ↔ ((p < len) ⊎ Covers p m')
pass-Has p next len v m m' e f = rw e (there, back)
  where
    there :
        (p < next) ⊎ (((next ≤ p) × (p < next + length v)) ⊎ Covers p m') → (p < len) ⊎ Covers p m'
    there (inl c) = inl (omega arith)
    there (inr (inl c)) = inl (omega arith)
    there (inr (inr c)) = inr c

    back :
        (p < len) ⊎ Covers p m' → (p < next) ⊎ (((next ≤ p) × (p < next + length v)) ⊎ Covers p m')
    back (inl c) = elim (Bool-cases (ltb p next)) [
      | inl low ↦ inl (ground arith)
      | inr high ↦ inr (inl (ground arith))
    ]
    back (inr c) = inr (inr c)

pub deliver_fuel-IsDelivery :
    (fuel : ℕ) (r r' : ReceiveStream)
    → Ordered r.next_offset r.segments
    → deliver_fuel fuel r ≡ ok r'
    → IsDelivery r r'
unfolding deliver_fuel
deliver_fuel-IsDelivery zero r r' o h =
    subst (IsDelivery r) (ok-injective h)
      (record { ordered = o; exact = λ p. ((λ c. c), λ c. c); moved = refl })
deliver_fuel-IsDelivery (suc fuel) r r' o h =
    elim (Option-cases (remove_segment r.next_offset r.segments)) [
      | inl e ↦
          let same : r ≡ r' = cc (h, e) in
          subst (IsDelivery r) same
            (record { ordered = o; exact = λ p. ((λ c. c), λ c. c); moved = refl })
      | inr ((bytes, m), e) ↦
          let (next, h₁, h₂) =
            >>=-eq-ok (ok_or (checked_add r.next_offset (length bytes)) invalid_offset) _
              (rw (e, deliver_fuel) at h) in
          let at : next ≡ r.next_offset + length bytes = ground (arith, h₁) in
          let (left, parts) = remove_segment-first r.next_offset r.segments m bytes o e in
          let later =
            deliver_fuel-IsDelivery fuel _ r' (subst (λ n. Ordered n m) (omega (arith, at)) left)
              h₂ in
          record {
            ordered = later.ordered;
            exact = λ p.
                let passed = pass-Has p r.next_offset next bytes r.segments m parts at in
                ((λ c. (later.exact p).0 (passed.0 c)), λ c. passed.1 ((later.exact p).1 c));
            moved = omega (arith, at, later.moved, length-append r.ready bytes);
          }
    ]
