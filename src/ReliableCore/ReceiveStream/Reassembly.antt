-- ===== src/ReliableCore/ReceiveStream/Reassembly.antt =====
-- crates/reliable-core/src/receive.rs: a receive stream against the pieces that have arrived.
use dart_udp.Base.{
  ℕ, ◌+◌, ◌≤◌, ◌<◌, ◌≡◌, ◌↔◌, refl, arith, subst, max, ltb, ltb→le, Bool-cases, List, [], ◌∷◌, ◌++◌,
  length, length-append, length-take, length-drop, min, Bool, ◌⊎◌, inl, inr, some, ok, ok_or,
  fail_if, ok_pair-injective, >>=-eq-ok,
}
use dart_udp.Base.Words.{checked_add, u64_max}
use dart_udp.ReliableCore.Error.{invalid_offset, flow_control_violation}
use dart_udp.ReliableCore.ReceiveStream.{
  ReceiveStream, new, set_max_offset, read, insert, insert_ranges, uncovered_ranges, check_final,
  remove_segment, deliver_fuel, deliver_contiguous,
}
use dart_udp.ReliableCore.ReceiveStream.Gaps.{
  Ranges, Ordered, Covers, Within, Within-bounds, Gaps, uncovered_ranges-Gaps,
}
use dart_udp.ReliableCore.ReceiveStream.Filled.{Fills, insert_ranges-Fills}
use dart_udp.ReliableCore.ReceiveStream.Settled.{
  IsSettled, deliver_fuel-IsSettled, settled-not-covered,
}
use dart_udp.ReliableCore.ReceiveStream.Passed.{Has, deliver_fuel-IsDelivery}

-- The stream has the positions of the pieces that arrived, as ranges, and no other, and has handed out
-- or made ready all of them that can be.
record Reassembles (pieces : Ranges) (taken : List ℕ) (r : ReceiveStream) : Type 0 where
  ordered : Ordered r.next_offset r.segments
  settled : IsSettled r
  exact : (p : ℕ) → Within p pieces ↔ Has r p
  position : r.next_offset ≡ length taken + length r.ready

-- The gaps from the cursor on and what is there already make up the piece.
filled-Has :
    (p offset end next : ℕ) (pieces rs : Ranges) (m m' : List (ℕ × List ℕ))
    → Gaps (max offset next) end m rs
    → Fills next rs m m'
    → (Within p pieces ↔ ((p < next) ⊎ Covers p m))
    → Within p ((offset, end) ∷ pieces) ↔ ((p < next) ⊎ Covers p m')
filled-Has p offset end next pieces rs m m' g f known = (into, out)
  where
    hold : (p < next) ⊎ Covers p m → (p < next) ⊎ Covers p m'
    hold (inl c) = inl c
    hold (inr c) = inr ((f.exact p).0 (inr c))

    into : Within p ((offset, end) ∷ pieces) → (p < next) ⊎ Covers p m'
    into (inl (a, b)) = elim (Bool-cases (ltb p next)) [
      | inl low ↦ inl (ground arith)
      | inr high ↦ inr ((f.exact p).0 (g.whole p (ground arith) b))
    ]
    into (inr w) = hold (known.0 w)

    back : Within p rs ⊎ Covers p m → Within p ((offset, end) ∷ pieces)
    back (inl w) =
        let (a, b) = Within-bounds p (max offset next) end rs g.apart w in inl (omega arith, b)
    back (inr c) = inr (known.1 (inr c))

    out : (p < next) ⊎ Covers p m' → Within p ((offset, end) ∷ pieces)
    out (inl c) = inr (known.1 (inl c))
    out (inr c) = back ((f.exact p).1 c)

insert-Reassembles :
    (pieces : Ranges) (taken bytes : List ℕ) (offset : ℕ) (fin : Bool) (r r' : ReceiveStream)
    (n : ℕ)
    → Reassembles pieces taken r
    → insert r offset bytes fin ≡ ok (r', n)
    → Reassembles ((offset, offset + length bytes) ∷ pieces) taken r'
unfolding insert deliver_contiguous
insert-Reassembles pieces taken bytes offset fin r r' n s h =
    let (end, h₁, k₁) = >>=-eq-ok (ok_or (checked_add offset (length bytes)) invalid_offset) _ h in
    let (u, h₂, k₂) =
      >>=-eq-ok (fail_if (ltb r.max_offset end) (flow_control_violation (some r.stream_id))) _ k₁ in
    let (final, h₃, k₃) = >>=-eq-ok (check_final r.final_offset end fin) _ k₂ in
    let ((count, m), h₄, k₄) =
      >>=-eq-ok (insert_ranges offset bytes (uncovered_ranges r offset end) 0 r.segments) _ k₃ in
    let (delivered, h₅, k₅) =
      >>=-eq-ok (deliver_fuel (length m) (record r { final_offset = final; segments = m })) _ k₄ in
    let at : end ≡ offset + length bytes = ground (arith, h₁) in
    let small : end ≤ u64_max = ground (arith, h₁) in
    let ranges : Ranges = uncovered_ranges r offset end in
    let gaps = uncovered_ranges-Gaps r.next_offset r offset end s.ordered in
    let fills =
      insert_ranges-Fills r.next_offset (max offset r.next_offset) end offset bytes ranges 0 count
        r.segments m (omega arith) (omega arith) small gaps.apart gaps.free s.ordered h₄ in
    let (settled, _) = deliver_fuel-IsSettled (length m) _ delivered (omega arith) h₅ in
    let made = deliver_fuel-IsDelivery (length m) _ delivered fills.ordered h₅ in
    subst (Reassembles ((offset, offset + length bytes) ∷ pieces) taken) (ok_pair-injective k₅).0
      (record {
        ordered = made.ordered;
        settled = settled;
        exact = λ p.
            let filled =
              filled-Has p offset (offset + length bytes) r.next_offset pieces ranges r.segments m
                (subst (λ e. Gaps (max offset r.next_offset) e r.segments ranges) at gaps) fills
                (s.exact p) in
            ((λ w. (made.exact p).0 (filled.0 w)), λ c. filled.1 ((made.exact p).1 c));
        position = omega (arith, made.moved, s.position);
      })

-- A history of a receive stream: any pieces that `insert` accepts, in any order, reads, and new
-- limits.
pub data Reach (stream_id window : ℕ) : ReceiveStream → Ranges → List ℕ → Type 0 where
  start : Reach stream_id window (new stream_id window) [] []
  arrived :
      {r r' : ReceiveStream} {pieces : Ranges} {taken : List ℕ}
      → Reach stream_id window r pieces taken
      → (offset : ℕ) (bytes : List ℕ) (fin : Bool) (n : ℕ) → insert r offset bytes fin ≡ ok (r', n)
      → Reach stream_id window r' ((offset, offset + length bytes) ∷ pieces) taken
  took :
      {r : ReceiveStream} {pieces : Ranges} {taken : List ℕ}
      → Reach stream_id window r pieces taken
      → (max_len : ℕ)
      → Reach stream_id window (read r max_len).1 pieces (taken ++ (read r max_len).0)
  widened :
      {r : ReceiveStream} {pieces : Ranges} {taken : List ℕ}
      → Reach stream_id window r pieces taken
      → (max_offset : ℕ) → Reach stream_id window (set_max_offset r max_offset) pieces taken

new-Reassembles : (stream_id window : ℕ) → Reassembles [] [] (new stream_id window)
unfolding new remove_segment
new-Reassembles stream_id window = record {
  ordered = tt;
  settled = refl;
  exact = λ p. ((λ w. absurd w), nothing p);
  position = refl;
}
  where
    nothing : (p : ℕ) → (p < 0) ⊎ ⊥ → ⊥
    nothing p (inl c) = absurd (omega arith)
    nothing p (inr c) = c

read-Reassembles :
    (pieces : Ranges) (taken : List ℕ) (r : ReceiveStream) (max_len : ℕ)
    → Reassembles pieces taken r
    → Reassembles pieces (taken ++ (read r max_len).0) (read r max_len).1
unfolding read
read-Reassembles pieces taken r max_len s =
    let n : ℕ = min max_len (length r.ready) in
    record {
      ordered = s.ordered;
      settled = s.settled;
      exact = s.exact;
      position = omega (
        arith,
        s.position,
        length-append taken (read r max_len).0,
        length-take n r.ready,
        length-drop n r.ready,
      );
    }

Reach-Reassembles :
    {stream_id window : ℕ} {r : ReceiveStream} {pieces : Ranges} {taken : List ℕ}
    → Reach stream_id window r pieces taken
    → Reassembles pieces taken r
unfolding set_max_offset
Reach-Reassembles {stream_id} {window} start = new-Reassembles stream_id window
Reach-Reassembles (arrived {r} {r'} {pieces} {taken} h offset bytes fin n e) =
    insert-Reassembles pieces taken bytes offset fin r r' n (Reach-Reassembles h) e
Reach-Reassembles (took {r} {pieces} {taken} h max_len) =
    read-Reassembles pieces taken r max_len (Reach-Reassembles h)
Reach-Reassembles (widened {r} {pieces} {taken} h max_offset) =
    let s = Reach-Reassembles h in
    record { ordered = s.ordered; settled = s.settled; exact = s.exact; position = s.position }

pub Reach-Ordered :
    {stream_id window : ℕ} {r : ReceiveStream} {pieces : Ranges} {taken : List ℕ}
    → Reach stream_id window r pieces taken
    → Ordered r.next_offset r.segments
Reach-Ordered h = let s = Reach-Reassembles h in s.ordered

-- Every position from the start of the stream to `p` stands in a piece.
abbrev pub ArrivedUpTo : ℕ → Ranges → Type 0
ArrivedUpTo p pieces = (q : ℕ) → q ≤ p → Within q pieces

-- After any history of a new stream, of pieces that `insert` accepts in any order, with overlaps and
-- repetitions, reads and new limits: the position `p` is among the bytes that were taken and those
-- that are ready, counted from the start of the stream, exactly if every position up to `p` stands
-- in a piece that has arrived.
pub delivered_iff :
    {stream_id window : ℕ} {r : ReceiveStream} {pieces : Ranges} {taken : List ℕ} (p : ℕ)
    → Reach stream_id window r pieces taken
    → (p < length taken + length r.ready) ↔ ArrivedUpTo p pieces
delivered_iff {r = r} {pieces} {taken} p h = let s = Reach-Reassembles h in (all s, some_missing s)
  where
    all : Reassembles pieces taken r → p < length taken + length r.ready → ArrivedUpTo p pieces
    all s low q before = (s.exact q).1 (inl (omega (arith, s.position)))

    missing : Reassembles pieces taken r → Has r r.next_offset → ⊥
    missing s (inl c) = absurd (omega arith)
    missing s (inr c) = settled-not-covered r.next_offset r.segments s.ordered s.settled c

    some_missing :
        Reassembles pieces taken r → ArrivedUpTo p pieces → p < length taken + length r.ready
    some_missing s up_to = elim (Bool-cases (ltb p (length taken + length r.ready))) [
      | inl low ↦ ground arith
      | inr high ↦ absurd (
          missing s (
            (s.exact r.next_offset).0
              (up_to r.next_offset (omega (arith, s.position, ltb→le _ _ high)))))
    ]
