-- ===== src/Base/Cursor.antt =====
-- Reading with `input: &[u8]` and `offset: &mut usize`, and what it means that bytes are read back.
-- A parser is given the input and the offset, and returns a value with the new offset; a writer is
-- given the output so far, and returns the longer output.
use Prim.Native.Nat.{ℕ, ◌+◌, ◌≤◌}
use mathlib.Core.Path.{◌≡◌, refl, sym, ap, ◌∙◌, subst}
use mathlib.Core.List.{List, [], ◌++◌, append-nil, append_assoc}
use native.Mathlib.Omega.{arith}
use dart_udp.Base.Lists.{length, length-append}
use dart_udp.Base.Results.{Result, ok, err}
use dart_udp.Base.Words.{u64_max}

abbrev pub Parser : Type 0 → Type 0 → Type 0
Parser E A = List ℕ → ℕ → Result E (A × ℕ)

abbrev pub Writer : Type 0 → Type 0
Writer E = List ℕ → Result E (List ℕ)

infixl 5 ◌>>=◌ ◌>>◌
abbrev pub ◌>>=◌ : {E A B : Type 0} → Parser E A → (A → Parser E B) → Parser E B
◌>>=◌ m f input offset = elim (m input offset) [ ok (a, next) ↦ f a input next | err e ↦ err e ]

abbrev pub ◌>>◌ : {E B : Type 0} → Parser E (Unit {0}) → Parser E B → Parser E B
m >> k = m >>= λ _. k

abbrev pub pure : {E A : Type 0} → A → Parser E A
pure a input offset = ok (a, offset)

-- A result that does not depend on the input.
abbrev pub lift : {E A : Type 0} → Result E A → Parser E A
lift (ok a) input offset = ok (a, offset)
lift (err e) input offset = err e

-- One writer after another, as `first(output)?; second(output)`.
infixr 5 ◌>=>◌
abbrev pub ◌>=>◌ : {E : Type 0} → Writer E → Writer E → Writer E
◌>=>◌ w v output = elim (w output) [ ok next ↦ v next | err e ↦ err e ]

-- `check?;` before or between writes.
abbrev pub require : {E : Type 0} → Result E (Unit {0}) → Writer E
require (ok u) output = ok output
require (err e) output = err e

-- `output.extend_from_slice(&bytes)`
abbrev pub extend : {E : Type 0} → List ℕ → Writer E
extend bytes output = ok (output ++ bytes)

-- Wherever `bytes` stands in an input that fits the address space, the parser returns `a` and
-- stops behind `bytes`.
abbrev pub Reads : {E A : Type 0} → Parser E A → List ℕ → A → Type 0
Reads p bytes a =
    (input front back : List ℕ) (offset : ℕ)
    → length input ≤ u64_max
    → input ≡ front ++ (bytes ++ back)
    → offset ≡ length front
    → p input offset ≡ ok (a, offset + length bytes)

-- What the writer appends is read back as `a`.
abbrev pub ReadsBack : {E A : Type 0} → Writer E → Parser E A → A → Type 0
ReadsBack w p a =
    (output output' : List ℕ)
    → w output ≡ ok output'
    → (bytes : List ℕ) × (output' ≡ output ++ bytes) × Reads p bytes a

pub >=>-eq-ok :
    {E : Type 0} (w v : Writer E) (output : List ℕ) {output' : List ℕ}
    → (w >=> v) output ≡ ok output'
    → (mid : List ℕ) × (w output ≡ ok mid) × (v mid ≡ ok output')
>=>-eq-ok {E} w v output {output'} h = go (w output) refl h
  where
    go :
        (r : Result E (List ℕ))
        → w output ≡ r
        → (elim r [ ok next ↦ v next | err e ↦ err e ]) ≡ ok output'
        → (mid : List ℕ) × (w output ≡ ok mid) × (v mid ≡ ok output')
    go (ok mid) e h = (mid, e, h)
    go (err x) e h = cc

pub Reads-pure : {E A : Type 0} (a : A) → Reads {E = E} (pure a) [] a
Reads-pure a input front back offset fits e o = ap (λ n. ok (a, n)) (omega arith)

module _ {E A B : Type 0} (p : Parser E A) (f : A → Parser E B) where
  pub Reads-bind :
      (bytes more : List ℕ) (a : A) (b : B)
      → Reads p bytes a
      → Reads (f a) more b
      → Reads (p >>= f) (bytes ++ more) b
  Reads-bind bytes more a b first second input front back offset fits e o =
      rw (first input front (more ++ back) offset fits (e ∙ regroup) o, ◌>>=◌)
        (second input (front ++ bytes) back (offset + length bytes) fits
            (e ∙ regroup ∙ sym (append_assoc front bytes (more ++ back)))
            (omega (arith, length-append front bytes))
          ∙ ap (λ n. ok (b, n)) (omega (arith, length-append bytes more)))
    where
      regroup : front ++ ((bytes ++ more) ++ back) ≡ front ++ (bytes ++ (more ++ back))
      regroup = ap (◌++◌ front) (append_assoc bytes more back)

  pub ReadsBack-bind :
      (w v : Writer E) (a : A) (b : B)
      → ReadsBack w p a
      → ReadsBack v (f a) b
      → ReadsBack (w >=> v) (p >>= f) b
  ReadsBack-bind w v a b first second output output' h =
      let (mid, h₁, h₂) = >=>-eq-ok w v output h in
      let (bytes, e₁, r₁) = first output mid h₁ in
      let (more, e₂, r₂) = second mid output' h₂ in
      (
        bytes ++ more,
        e₂ ∙ ap (λ t. t ++ more) e₁ ∙ append_assoc output bytes more,
        Reads-bind bytes more a b r₁ r₂,
      )

  -- The last writer, and a parser that goes on without reading.
  pub ReadsBack-last :
      (w : Writer E) (a : A) (b : B) → ReadsBack w p a → Reads (f a) [] b → ReadsBack w (p >>= f) b
  ReadsBack-last w a b first second output output' h =
      let (bytes, e, r) = first output output' h in
      (
        bytes,
        e,
        subst (λ t. Reads (p >>= f) t b) (append-nil bytes) (Reads-bind bytes [] a b r second),
      )

module _ {E A : Type 0} (p : Parser E A) where
  pub ReadsBack-require :
      (check : Result E (Unit {0})) (w : Writer E) (a : A)
      → (check ≡ ok tt → ReadsBack w p a)
      → ReadsBack (require check >=> w) p a
  ReadsBack-require (ok u) w a back output output' h = back refl output output' h
  ReadsBack-require (err e) w a back output output' h = cc

pub Reads-lift :
    {E A : Type 0} (check : Result E (Unit {0})) (a : A)
    → check ≡ ok tt
    → Reads (lift check >> pure a) [] a
Reads-lift (ok u) a passed = Reads-pure a
Reads-lift (err e) a passed = cc

pub Reads-lift_ok : {E A : Type 0} (r : Result E A) (a : A) → r ≡ ok a → Reads (lift r) [] a
Reads-lift_ok (ok b) a e input front back offset fits _ o = ground (arith, e)
Reads-lift_ok (err x) a e input front back offset fits _ o = cc

-- A check between two reads.
pub Reads-checked :
    {E A : Type 0} (check : Result E (Unit {0})) (p : Parser E A) (bytes : List ℕ) (a : A)
    → check ≡ ok tt
    → Reads p bytes a
    → Reads (lift check >> p) bytes a
Reads-checked (ok u) p bytes a passed r = r
Reads-checked (err e) p bytes a passed r = cc

pub ReadsBack-checked :
    {E A : Type 0} (check : Result E (Unit {0})) (w : Writer E) (p : Parser E A) (a : A)
    → check ≡ ok tt
    → ReadsBack w p a
    → ReadsBack w (lift check >> p) a
ReadsBack-checked (ok u) w p a passed r = r
ReadsBack-checked (err e) w p a passed r = cc

pub ReadsBack-done : {E A : Type 0} (a : A) → ReadsBack {E = E} (λ output. ok output) (pure a) a
ReadsBack-done a output output' h = ([], ground (arith, append-nil output), Reads-pure a)

-- Reading from where the writer began, with anything behind what it wrote.
pub ReadsBack-between :
    {E A : Type 0} (w : Writer E) (p : Parser E A) (a : A) (front output back : List ℕ)
    → ReadsBack w p a
    → w front ≡ ok output
    → length (output ++ back) ≤ u64_max
    → p (output ++ back) (length front) ≡ ok (a, length output)
ReadsBack-between w p a front output back r h fits =
    let (bytes, e, read) = r front output h in
    let parts : output ++ back ≡ front ++ (bytes ++ back) =
      ap (λ t. t ++ back) e ∙ append_assoc front bytes back in
    let end : length front + length bytes ≡ length output =
      omega (arith, ap length e, length-append front bytes) in
    read (output ++ back) front back (length front) fits parts refl ∙ ap (λ n. ok (a, n)) end

-- A result that is known goes on with its value.
module _ {E A B : Type 0} (f : A → Parser E B) (a : A) (b : B) where
  pub Reads-known :
      (r : Result E A) (bytes : List ℕ)
      → r ≡ ok a
      → Reads (f a) bytes b
      → Reads (lift r >>= f) bytes b
  Reads-known (ok c) bytes e read =
      let same : a ≡ c = cc in subst (λ t. Reads (f t) bytes b) same read
  Reads-known (err x) bytes e read = cc

  pub ReadsBack-known :
      (r : Result E A) (w : Writer E)
      → r ≡ ok a
      → ReadsBack w (f a) b
      → ReadsBack w (lift r >>= f) b
  ReadsBack-known (ok c) w e back =
      let same : a ≡ c = cc in subst (λ t. ReadsBack w (f t) b) same back
  ReadsBack-known (err x) w e back = cc
