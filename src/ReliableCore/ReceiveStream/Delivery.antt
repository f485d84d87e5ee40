-- ===== src/ReliableCore/ReceiveStream/Delivery.antt =====
-- crates/reliable-core/src/receive.rs: what is delivered is the beginning of the sender's stream,
-- whatever the order, overlap or repetition of its pieces.
use dart_udp.Base.{
  ℕ, zero, suc, ◌+◌, ◌-◌, ◌≤◌, ◌≡◌, refl, sym, ap, ◌∙◌, subst, max, min, arith, Bool, true, false,
  List, [], ◌∷◌, ◌++◌, length, length-append, take, drop, take-append-drop, ok_or-some,
  take-length-append, get_range, ltb, leb, ◌==◌, ==_iff, if◌then◌else◌, Bool-cases, inl, inr, some,
  Option-cases, ok, ok_or, >>=-eq-ok, ok_pair-injective, some_pair-injective, fail_if,
}
use mathlib.Core.List.{append_assoc}
use dart_udp.Base.Words.{checked_add, saturating_add}
use dart_udp.Base.Slices.{IsSlice, IsSlice-trans, get_range-IsSlice}
use dart_udp.ReliableCore.Error.{invalid_offset, flow_control_violation}
use dart_udp.ReliableCore.ReceiveStream.{
  ReceiveStream, Segments, insert_segment, remove_segment, segments_below, uncovered_from,
  uncovered_ranges, insert_ranges, deliver_fuel, deliver_contiguous, check_final, insert, read,
}

-- Each segment is a piece of the stream at its key.
abbrev pub Pieces : List ℕ → Segments → Type 0
Pieces whole [] = Unit {0}
Pieces whole ((k, v) ∷ m) = IsSlice whole k v × Pieces whole m

insert_segment-Pieces :
    (whole : List ℕ) (k : ℕ) (v : List ℕ) (m : Segments)
    → IsSlice whole k v
    → Pieces whole m
    → Pieces whole (insert_segment k v m)
unfolding insert_segment
insert_segment-Pieces whole k v [] s p = (s, tt)
insert_segment-Pieces whole k v ((j, w) ∷ m) s (q, p) = elim (Bool-cases (ltb k j)) [
  | inl a ↦ rw a (s, (q, p))
  | inr a ↦ elim (Bool-cases (k == j)) [
    | inl b ↦ rw (a, b) (s, p)
    | inr b ↦ rw (a, b) (q, insert_segment-Pieces whole k v m s p)
  ]
]

remove_segment-Pieces :
    (whole : List ℕ) (k : ℕ) (m : Segments) (v : List ℕ) (m' : Segments)
    → remove_segment k m ≡ some (v, m')
    → Pieces whole m
    → IsSlice whole k v × Pieces whole m'
unfolding remove_segment
remove_segment-Pieces whole k [] v m' h p = cc
remove_segment-Pieces whole k ((j, w) ∷ m) v m' h (q, p) = elim (Bool-cases (k == j)) [
  | inl b ↦
      let (e, f) = some_pair-injective (rw b at h) in
      (
        subst (λ t. IsSlice whole t v) (sym ((==_iff k j).0 b)) (subst (IsSlice whole j) e q),
        subst (Pieces whole) f p,
      )
  | inr b ↦ elim (Option-cases (remove_segment k m)) [
    | inl none_left ↦ cc (h, b, none_left)
    | inr ((u, n), found) ↦
        let (e, f) = some_pair-injective (rw (b, found) at h) in
        let (piece, left) = remove_segment-Pieces whole k m u n found p in
        (subst (IsSlice whole k) e piece, subst (Pieces whole) f (q, left))
  ]
]

pub length-eq-zero : (xs : List ℕ) → length xs ≡ 0 → xs ≡ []
length-eq-zero [] h = refl
length-eq-zero (x ∷ xs) h = absurd (omega arith)

-- Two pieces in a row at the beginning.
prefix-extends :
    (whole start more : List ℕ)
    → IsSlice whole 0 start
    → IsSlice whole (length start) more
    → IsSlice whole 0 (start ++ more)
prefix-extends whole start more s t = record {
  front = [];
  back = t.back;
  parts = t.parts ∙ ap (λ f. f ++ (more ++ t.back)) same ∙ sym (append_assoc start more t.back);
  place = refl;
}
  where
    first : take (length start) whole ≡ start
    first =
        ap (take (length start))
          (s.parts ∙ ap (λ f. f ++ (start ++ s.back)) (length-eq-zero s.front s.place))
        ∙ take-length-append start s.back

    same : t.front ≡ start
    same =
        sym (take-length-append t.front (more ++ t.back))
        ∙ ap (take (length t.front)) (sym t.parts)
        ∙ ap (λ n. take n whole) t.place
        ∙ first

-- What was read before and what is ready is the stream up to `next_offset`, and all that waits are
-- pieces of it.
pub record Delivers (whole taken : List ℕ) (r : ReceiveStream) : Type 0 where
  pub beginning : IsSlice whole 0 (taken ++ r.ready)
  pub position : r.next_offset ≡ length (taken ++ r.ready)
  pub pieces : Pieces whole r.segments

deliver_fuel-Delivers :
    (whole taken : List ℕ) (fuel : ℕ) (r r' : ReceiveStream)
    → Delivers whole taken r
    → deliver_fuel fuel r ≡ ok r'
    → Delivers whole taken r'
unfolding deliver_fuel
deliver_fuel-Delivers whole taken zero r r' d h =
    let same : r ≡ r' = cc in subst (Delivers whole taken) same d
deliver_fuel-Delivers whole taken (suc fuel) r r' d h =
    elim (Option-cases (remove_segment r.next_offset r.segments)) [
      | inl e ↦ let same : r ≡ r' = cc (h, e) in subst (Delivers whole taken) same d
      | inr ((bytes, m), e) ↦
          let (next, h₁, h₂) =
            >>=-eq-ok (ok_or (checked_add r.next_offset (length bytes)) invalid_offset) _
              (rw (e, deliver_fuel) at h) in
          let at : next ≡ r.next_offset + length bytes = ground (arith, h₁) in
          let (piece, left) =
            remove_segment-Pieces whole r.next_offset r.segments bytes m e d.pieces in
          deliver_fuel-Delivers whole taken fuel _ r'
            (record {
              beginning = subst (IsSlice whole 0) (append_assoc taken r.ready bytes) (
                  prefix-extends whole (taken ++ r.ready) bytes d.beginning
                    (subst (λ o. IsSlice whole o bytes) d.position piece));
              position = omega (
                arith,
                at,
                d.position,
                ap length (append_assoc taken r.ready bytes),
                length-append (taken ++ r.ready) bytes,
              );
              pieces = left;
            })
            h₂
    ]

-- Every range begins at the cursor or behind it.
abbrev From : ℕ → List (ℕ × ℕ) → Type 0
From low [] = Unit {0}
From low ((start, end) ∷ rs) = (low ≤ start) × From low rs

From-mono : (low low' : ℕ) (rs : List (ℕ × ℕ)) → low ≤ low' → From low' rs → From low rs
From-mono low low' [] h f = tt
From-mono low low' ((s, e) ∷ rs) h (p, f) = (omega arith, From-mono low low' rs h f)

From-if :
    (low : ℕ) (b : Bool) (rs ss : List (ℕ × ℕ))
    → From low rs
    → From low ss
    → From low (if b then rs else ss)
From-if low true rs ss p q = p
From-if low false rs ss p q = q

uncovered_from-From : (cursor end : ℕ) (m : Segments) → From cursor (uncovered_from cursor end m)
unfolding uncovered_from
uncovered_from-From cursor end [] = From-if cursor (ltb cursor end) _ [] (omega arith, tt) tt
uncovered_from-From cursor end ((start, bytes) ∷ m) =
    let next : ℕ = max cursor (saturating_add start (length bytes)) in
    let later =
      From-if cursor (leb end next) [] (uncovered_from next end m) tt
        (From-mono cursor next _ (omega arith) (uncovered_from-From next end m)) in
    From-if cursor (leb (saturating_add start (length bytes)) cursor) _ _
      (uncovered_from-From cursor end m)
      (From-if cursor (ltb cursor start) _ _ (omega arith, later) later)

insert_ranges-Pieces :
    (whole bytes : List ℕ) (offset : ℕ) (rs : List (ℕ × ℕ)) (count count' : ℕ) (m m' : Segments)
    → IsSlice whole offset bytes
    → From offset rs
    → Pieces whole m
    → insert_ranges offset bytes rs count m ≡ ok (count', m')
    → Pieces whole m'
unfolding insert_ranges
insert_ranges-Pieces whole bytes offset [] count count' m m' s f p h =
    subst (Pieces whole) (ok_pair-injective h).1 p
insert_ranges-Pieces whole bytes offset ((start, end) ∷ rs) count count' m m' s (low, f) p h =
    let (chunk, h₁, h₂) =
      >>=-eq-ok (ok_or (get_range bytes (start - offset) (end - offset)) invalid_offset) _ h in
    let found : get_range bytes (start - offset) (end - offset) ≡ some chunk = ok_or-some _ _ h₁ in
    let (inner, size) = get_range-IsSlice bytes (start - offset) (end - offset) chunk found in
    let piece =
      subst (λ o. IsSlice whole o chunk) (omega (arith, low))
        (IsSlice-trans whole bytes chunk offset (start - offset) s inner) in
    insert_ranges-Pieces whole bytes offset rs _ count' _ m' s f
      (insert_segment-Pieces whole start chunk m piece p) h₂

uncovered_ranges-From :
    (r : ReceiveStream) (offset end : ℕ) → From offset (uncovered_ranges r offset end)
unfolding uncovered_ranges
uncovered_ranges-From r offset end = From-if offset (offset == end) [] _ tt (
    From-mono offset (max offset r.next_offset) _ (omega arith)
      (uncovered_from-From (max offset r.next_offset) end (segments_below end r.segments)))

-- If what was taken and what is ready is the beginning of the sender's stream and the waiting
-- segments are pieces of it, then an accepted `insert` of a piece of that stream, at any place,
-- keeps it so.
pub insert-Delivers :
    (whole taken bytes : List ℕ) (offset : ℕ) (fin : Bool) (r r' : ReceiveStream) (n : ℕ)
    → Delivers whole taken r
    → IsSlice whole offset bytes
    → insert r offset bytes fin ≡ ok (r', n)
    → Delivers whole taken r'
unfolding insert deliver_contiguous
insert-Delivers whole taken bytes offset fin r r' n d s h =
    let (end, h₁, k₁) = >>=-eq-ok (ok_or (checked_add offset (length bytes)) invalid_offset) _ h in
    let (u, h₂, k₂) =
      >>=-eq-ok (fail_if (ltb r.max_offset end) (flow_control_violation (some r.stream_id))) _ k₁ in
    let (final, h₃, k₃) = >>=-eq-ok (check_final r.final_offset end fin) _ k₂ in
    let ((count, m), h₄, k₄) =
      >>=-eq-ok (insert_ranges offset bytes (uncovered_ranges r offset end) 0 r.segments) _ k₃ in
    let (delivered, h₅, k₅) =
      >>=-eq-ok (deliver_fuel (length m) (record r { final_offset = final; segments = m })) _ k₄ in
    let kept =
      insert_ranges-Pieces whole bytes offset _ 0 count r.segments m s
        (uncovered_ranges-From r offset end) d.pieces h₄ in
    subst (Delivers whole taken) (ok_pair-injective k₅).0 (
      deliver_fuel-Delivers whole taken (length m) _ delivered
        (record { beginning = d.beginning; position = d.position; pieces = kept }) h₅)

-- If what was taken and what is ready is the beginning of the sender's stream and the waiting
-- segments are pieces of it, then it is so after `read`, with the bytes that were read among
-- those taken.
pub read-Delivers :
    (whole taken : List ℕ) (max_len : ℕ) (r : ReceiveStream)
    → Delivers whole taken r
    → Delivers whole (taken ++ (read r max_len).0) (read r max_len).1
unfolding read
read-Delivers whole taken max_len r d =
    let n : ℕ = min max_len (length r.ready) in
    let same : (taken ++ take n r.ready) ++ drop n r.ready ≡ taken ++ r.ready =
      append_assoc taken (take n r.ready) (drop n r.ready)
      ∙ ap (λ t. taken ++ t) (take-append-drop n r.ready) in
    record {
      beginning = subst (IsSlice whole 0) (sym same) d.beginning;
      position = d.position ∙ ap length (sym same);
      pieces = d.pieces;
    }
