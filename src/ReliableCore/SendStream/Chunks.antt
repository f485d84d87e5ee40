-- ===== src/ReliableCore/SendStream/Chunks.antt =====
-- crates/reliable-core/src/send.rs: what `write` puts into the queue.
use dart_udp.Base.{
  ℕ, zero, suc, ◌≤◌, ◌<◌, ◌≡◌, refl, ap, ◌∙◌, arith, List, [], ◌∷◌, ◌++◌, length, length-drop, take,
  drop, take-append-drop, All,
}
use dart_udp.Base.Slices.{IsSlice, IsSlice-append}
use dart_udp.ReliableCore.SendStream.{PendingData, chunks_fuel, chunks}

abbrev pub concat : List (List ℕ) → List ℕ
concat [] = []
concat (c ∷ cs) = c ++ concat cs

concat-chunks_fuel :
    (fuel size : ℕ) (bytes : List ℕ)
    → 0 < size
    → length bytes ≤ fuel
    → concat (chunks_fuel fuel size bytes) ≡ bytes
unfolding chunks_fuel
concat-chunks_fuel fuel size [] h k = refl
concat-chunks_fuel zero size (b ∷ bs) h k = absurd (omega arith)
concat-chunks_fuel (suc fuel) zero (b ∷ bs) h k = absurd (omega arith)
concat-chunks_fuel (suc fuel) (suc n) (b ∷ bs) h k =
    ap (λ t. b ∷ (take n bs ++ t))
      (concat-chunks_fuel fuel (suc n) (drop n bs) h (omega (arith, length-drop n bs)))
    ∙ ap (λ t. b ∷ t) (take-append-drop n bs)

-- The chunks are the bytes, cut.
pub concat-chunks : (size : ℕ) (bytes : List ℕ) → 0 < size → concat (chunks size bytes) ≡ bytes
unfolding chunks
concat-chunks size bytes h = concat-chunks_fuel (length bytes) size bytes h (omega arith)

-- The item's bytes stand in the stream at its offset.
abbrev pub Fits : List ℕ → PendingData → Type 0
Fits written p = IsSlice written p.offset p.bytes

pub All-Fits-append :
    (written more : List ℕ) (queue : List PendingData)
    → All (Fits written) queue
    → All (Fits (written ++ more)) queue
All-Fits-append written more [] h = tt
All-Fits-append written more (p ∷ ps) (h, hs) =
    (IsSlice-append written more p.offset p.bytes h, All-Fits-append written more ps hs)
