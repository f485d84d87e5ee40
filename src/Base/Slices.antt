-- ===== src/Base/Slices.antt =====
-- Pieces of a sequence at their offsets.
use Prim.Native.Nat.{ℕ, ◌+◌, ◌-◌, ◌≤◌}
use mathlib.Core.Path.{◌≡◌, refl, sym, ap, ◌∙◌}
use mathlib.Core.Logic.{inl, inr}
use mathlib.Core.Option.{some}
use mathlib.Core.List.{List, [], ◌++◌, append_assoc, append-nil}
use native.Mathlib.Omega.{arith}
use dart_udp.Base.Tests.{leb, leb→le, Bool-cases}
use dart_udp.Base.Lists.{
  length, length-append, take, drop, get_range, length-take, length-drop, take-append-drop,
}

-- `bytes` stands in `whole` from `offset` on.
pub record IsSlice {ℓ} {A : Type ℓ} (whole : List A) (offset : ℕ) (bytes : List A) : Type ℓ where
  pub front : List A
  pub back : List A
  pub parts : whole ≡ front ++ (bytes ++ back)
  pub place : length front ≡ offset

module _ {ℓ} {A : Type ℓ} where
  pub IsSlice-append :
      (whole more : List A) (offset : ℕ) (bytes : List A)
      → IsSlice whole offset bytes
      → IsSlice (whole ++ more) offset bytes
  IsSlice-append whole more offset bytes s = record {
    front = s.front;
    back = s.back ++ more;
    parts =
        ap (λ t. t ++ more) s.parts
        ∙ append_assoc s.front (bytes ++ s.back) more
        ∙ ap (λ t. s.front ++ t) (append_assoc bytes s.back more);
    place = s.place;
  }

  -- A slice of a slice.
  pub IsSlice-trans :
      (whole outer inner : List A) (offset within : ℕ)
      → IsSlice whole offset outer
      → IsSlice outer within inner
      → IsSlice whole (offset + within) inner
  IsSlice-trans whole outer inner offset within s t = record {
    front = s.front ++ t.front;
    back = t.back ++ s.back;
    parts =
        s.parts
        ∙ ap (λ u. s.front ++ (u ++ s.back)) t.parts
        ∙ ap (λ u. s.front ++ u)
            (append_assoc t.front (inner ++ t.back) s.back
              ∙ ap (λ u. t.front ++ u) (append_assoc inner t.back s.back))
        ∙ sym (append_assoc s.front t.front (inner ++ (t.back ++ s.back)));
    place = omega (arith, length-append s.front t.front, s.place, t.place);
  }

  IsSlice-take-drop :
      (xs : List A) (start n : ℕ) → start ≤ length xs → IsSlice xs start (take n (drop start xs))
  IsSlice-take-drop xs start n h = record {
    front = take start xs;
    back = drop n (drop start xs);
    parts =
        sym (take-append-drop start xs)
        ∙ ap (λ t. take start xs ++ t) (sym (take-append-drop n (drop start xs)));
    place = omega (arith, length-take start xs);
  }

  -- What `get_range` returns is a slice, of the length of the range.
  pub get_range-IsSlice :
      (xs : List A) (start stop : ℕ) (bytes : List A)
      → get_range xs start stop ≡ some bytes
      → IsSlice xs start bytes × (length bytes + start ≡ stop)
  get_range-IsSlice xs start stop bytes h = elim (Bool-cases (leb start stop)) [
    | inl a ↦ elim (Bool-cases (leb stop (length xs))) [
      | inl b ↦
          let same : take (stop - start) (drop start xs) ≡ bytes = cc (h, a, b) in
          rw (← same) (
            IsSlice-take-drop xs start (stop - start) (omega (arith, leb→le _ _ a, leb→le _ _ b)),
            omega (
              arith,
              leb→le _ _ a,
              leb→le _ _ b,
              length-take (stop - start) (drop start xs),
              length-drop start xs,
            ),
          )
      | inr b ↦ cc (h, a, b)
    ]
    | inr a ↦ cc (h, a)
  ]

  pub IsSlice-split :
      (whole first rest : List A) (offset : ℕ)
      → IsSlice whole offset (first ++ rest)
      → IsSlice whole offset first × IsSlice whole (offset + length first) rest
  IsSlice-split whole first rest offset s = (
    record {
      front = s.front;
      back = rest ++ s.back;
      parts = s.parts ∙ ap (λ t. s.front ++ t) (append_assoc first rest s.back);
      place = s.place;
    },
    record {
      front = s.front ++ first;
      back = s.back;
      parts =
          s.parts
          ∙ ap (λ t. s.front ++ t) (append_assoc first rest s.back)
          ∙ sym (append_assoc s.front first (rest ++ s.back));
      place = omega (arith, length-append s.front first, s.place);
    },
  )

  -- The end of a longer sequence.
  pub IsSlice-end : (whole bytes : List A) → IsSlice (whole ++ bytes) (length whole) bytes
  IsSlice-end whole bytes = record {
    front = whole;
    back = [];
    parts = ap (λ t. whole ++ t) (sym (append-nil bytes));
    place = refl;
  }

  pub IsSlice-empty : (whole : List A) → IsSlice whole (length whole) []
  IsSlice-empty whole = record {
    front = whole;
    back = [];
    parts = sym (append-nil whole);
    place = refl;
  }
