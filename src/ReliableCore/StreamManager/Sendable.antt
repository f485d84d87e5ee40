-- ===== src/ReliableCore/StreamManager/Sendable.antt =====
-- crates/reliable-core/src/connection/streams.rs: which item `take_sendable` takes.
use dart_udp.Base.{
  ℕ, ◌≡◌, refl, ap, sym, ◌∙◌, subst, true, false, Option, none, some, List, [], ◌∷◌, ◌++◌, All,
  some_pair-injective, Bool-cases, inl, inr,
}
use dart_udp.ReliableCore.SendStream
use dart_udp.ReliableCore.SendStream.{SendStream, PendingData}
use dart_udp.ReliableCore.StreamManager.{StreamManager, StreamRecord, Streams}
use dart_udp.ReliableCore.StreamManager.Frames.{
  is_blocked, prepend, pop_from, take_turn, take_from, take_sendable,
}

-- The stream has nothing that it may send: no item, or new data behind the window of the peer.
unfoldable pub IsQuiet : StreamRecord → Type 0
IsQuiet r =
    (item : PendingData)
    → SendStream.front_sendable r.send ≡ some item
    → is_blocked r.send item ≡ true

-- The item is the front one of a stream that may send it, and the streams before that one are quiet.
pub record Taken (streams : Streams) (id : ℕ) (item : PendingData) (streams' : Streams)
    : Type 0 where
  pub before : Streams
  pub after : Streams
  pub from : StreamRecord
  pub rest : SendStream
  pub parts : streams ≡ before ++ ((id, from) ∷ after)
  pub quiet : All (λ s. IsQuiet s.1) before
  pub allowed : is_blocked from.send item ≡ false
  pub popped : SendStream.pop_sendable from.send ≡ some (item, rest)
  pub result : streams' ≡ before ++ ((id, record from { send = rest }) ∷ after)

pop-front :
    (s : SendStream) {item : PendingData} {rest : SendStream}
    → SendStream.pop_sendable s ≡ some (item, rest)
    → SendStream.front_sendable s ≡ some item
unfolding SendStream.pop_sendable SendStream.front_sendable
pop-front s {item} {rest} h = go s.queue (SendStream.without_front s) h
  where
    go :
        (queue : List PendingData) (send : PendingData → List PendingData → SendStream)
        → ◌≡◌ {A = Option (PendingData × SendStream)}
            (elim queue [ [] ↦ none | first ∷ ps ↦ some (first, send first ps) ])
            (some (item, rest))
        → ◌≡◌ {A = Option PendingData}
            (elim queue [ [] ↦ none | first ∷ ps ↦ some first ])
            (some item)
    go [] send h = absurd (cc)
    go (first ∷ ps) send h = let (same, _) = some_pair-injective h in ap some same

none-some : {A : Type 0} {a : A} → none ≡ some a → ⊥
none-some h = cc

pop_sendable-none :
    (s : SendStream) {item : PendingData}
    → SendStream.pop_sendable s ≡ none
    → SendStream.front_sendable s ≡ some item
    → ⊥
unfolding SendStream.pop_sendable SendStream.front_sendable
pop_sendable-none s {item} h front = go s.queue (SendStream.without_front s) h front
  where
    go :
        (queue : List PendingData) (send : PendingData → List PendingData → SendStream)
        → ◌≡◌ {A = Option (PendingData × SendStream)}
            (elim queue [ [] ↦ none | first ∷ ps ↦ some (first, send first ps) ])
            none
        → ◌≡◌ {A = Option PendingData}
            (elim queue [ [] ↦ none | first ∷ ps ↦ some first ])
            (some item)
        → ⊥
    go [] send h front = cc
    go (first ∷ ps) send h front = cc

some-injective : {A : Type 0} {a b : A} → some a ≡ some b → a ≡ b
some-injective h = cc

-- Longer by a quiet stream in front.
Taken-cons :
    (key : ℕ) (r : StreamRecord) (rest : Streams) {id : ℕ} {item : PendingData} {rest' : Streams}
    → IsQuiet r
    → Taken rest id item rest'
    → Taken ((key, r) ∷ rest) id item ((key, r) ∷ rest')
Taken-cons key r rest quiet t = record {
  before = (key, r) ∷ t.before;
  after = t.after;
  from = t.from;
  rest = t.rest;
  parts = ap (◌∷◌ (key, r)) t.parts;
  quiet = (quiet, t.quiet);
  allowed = t.allowed;
  popped = t.popped;
  result = ap (◌∷◌ (key, r)) t.result;
}

unfoldable pub IsPicked : Streams → Option ((ℕ × PendingData) × Streams) → Type 0
IsPicked streams none = All (λ s. IsQuiet s.1) streams
IsPicked streams (some ((id, item), streams')) = Taken streams id item streams'

module _ (key : ℕ) (r : StreamRecord) (rest : Streams) where
  prepend-IsPicked :
      (later : Option ((ℕ × PendingData) × Streams))
      → IsQuiet r
      → IsPicked rest later
      → IsPicked ((key, r) ∷ rest) (prepend (key, r) later)
  unfolding prepend IsPicked
  prepend-IsPicked none quiet picked = (quiet, picked)
  prepend-IsPicked (some ((id, item), streams)) quiet picked = Taken-cons key r rest quiet picked

  pop_from-IsPicked :
      (item : PendingData)
      → SendStream.front_sendable r.send ≡ some item
      → is_blocked r.send item ≡ false
      → IsPicked ((key, r) ∷ rest) (pop_from key r rest)
  unfolding pop_from IsPicked
  pop_from-IsPicked item front allowed = go (SendStream.pop_sendable r.send) refl
    where
      go :
          (popped : Option (PendingData × SendStream))
          → SendStream.pop_sendable r.send ≡ popped
          → IsPicked ((key, r) ∷ rest) (elim popped [
            | none ↦ none
            | some (first, send) ↦ some ((key, first), (key, record r { send = send }) ∷ rest)
          ])
      go none e = absurd (pop_sendable-none r.send e front)
      go (some (first, send)) e =
          let same : item ≡ first = some-injective (sym front ∙ pop-front r.send e) in
          record {
            before = [];
            after = rest;
            from = r;
            rest = send;
            parts = refl;
            quiet = tt;
            allowed = subst (λ i. is_blocked r.send i ≡ false) same allowed;
            popped = e;
            result = refl;
          }

  take_turn-IsPicked :
      (later : Option ((ℕ × PendingData) × Streams))
      → IsPicked rest later
      → IsPicked
          ((key, r) ∷ rest)
          (take_turn key r rest (prepend (key, r) later) (SendStream.front_sendable r.send))
  unfolding take_turn IsQuiet
  take_turn-IsPicked later picked = go (SendStream.front_sendable r.send) refl
    where
      go :
          (front : Option PendingData)
          → SendStream.front_sendable r.send ≡ front
          → IsPicked ((key, r) ∷ rest) (take_turn key r rest (prepend (key, r) later) front)
      go none e = prepend-IsPicked later (λ item front. absurd (none-some (sym e ∙ front))) picked
      go (some item) e = elim (Bool-cases (is_blocked r.send item)) [
        | inl blocked ↦ rw blocked (
            prepend-IsPicked later
              (λ other front.
                subst (λ i. is_blocked r.send i ≡ true) (some-injective (sym e ∙ front)) blocked)
              picked)
        | inr allowed ↦ rw allowed (pop_from-IsPicked item e allowed)
      ]

pub take_from-IsPicked : (streams : Streams) → IsPicked streams (take_from streams)
unfolding take_from IsPicked
take_from-IsPicked [] = tt
take_from-IsPicked ((key, r) ∷ rest) =
    take_turn-IsPicked key r rest (take_from rest) (take_from-IsPicked rest)

-- None: every stream is quiet. An item: it is `Taken`.
unfoldable pub Picks : StreamManager → Option ((ℕ × PendingData) × StreamManager) → Type 0
Picks m none = All (λ s. IsQuiet s.1) m.streams
Picks m (some ((id, item), m')) = Taken m.streams id item m'.streams

-- If `take_sendable` gives no item, then the front item of every stream, if there is one, is new
-- data that ends past the window of the peer; if it gives one, then that is the front item of a
-- stream that may send it, removed from the front of that stream with the rest left as it was,
-- and all streams before that one have no such item.
pub take_sendable-Picks : (m : StreamManager) → Picks m (take_sendable m)
unfolding take_sendable Picks IsPicked
take_sendable-Picks m = go (take_from m.streams) (take_from-IsPicked m.streams)
  where
    go :
        (picked : Option ((ℕ × PendingData) × Streams))
        → IsPicked m.streams picked
        → Picks m (elim picked [
          | none ↦ none
          | some (item, streams) ↦ some (item, record m { streams = streams })
        ])
    go none h = h
    go (some ((id, item), streams)) h = h
