-- ===== src/ReliableCore/StreamManager/Changed.antt =====
-- crates/reliable-core/src/connection/streams.rs: what changes the map of streams keeps their windows.
use dart_udp.Base.{
  ℕ, ◌≤◌, ◌≡◌, refl, sym, subst, not, ◌==◌, ==_iff, ◌%◌, Bool, true, false, Option, none, some,
  if◌then◌else◌, [], ◌∷◌, ◌>>◌, ◌++◌, Result, ok, err, fail_if, >>=-eq-ok, ok-injective, inl, inr,
  Option-cases, ◌∙◌, ap,
}
use dart_udp.Base.Words.{u64_max, checked_add}
use dart_udp.ReliableCore.Error.{CoreError, invalid_stream_id}
use dart_udp.ReliableCore.SendStream.{PendingData}
use dart_udp.ReliableCore.StreamManager.{
  StreamManager, StreamRecord, Streams, find, put, new_record, insert, open_local, open_numbered,
  finished_state,
}
use dart_udp.ReliableCore.StreamManager.Frames.{finish, take_sendable}
use dart_udp.ReliableCore.StreamManager.Sendable.{Picks, Taken, take_sendable-Picks}
use dart_udp.ReliableCore.StreamManager.Windows.{
  Account, Accounts, note, HasWindow, IsManaged, put-IsManaged, note_self,
}
use dart_udp.ReliableCore.StreamManager.Kept.{new_account, new_record-HasWindow}

-- A stream that is opened begins its account; one that is there already keeps its own.
abbrev pub begin : Accounts → StreamManager → ℕ → ℕ → Accounts
begin l m id window = elim (find id m.streams) [
  | some r ↦ l
  | none ↦ note l id (new_account window)
]

-- The account of a number that no stream has says nothing.
note-absent :
    (l : Accounts) (m : StreamManager) (id : ℕ) (a : Account)
    → find id m.streams ≡ none
    → IsManaged l m
    → IsManaged (note l id a) m
note-absent l m id a e managed j s h = go (j == id) ((==_iff j id).0)
  where
    go : (b : Bool) → (b ≡ true → j ≡ id) → HasWindow (if b then a else l j) s
    go true same = cc (same refl, e, h)
    go false same = managed j s h

begin-IsManaged :
    (l : Accounts) (m : StreamManager) (id window : ℕ)
    → IsManaged l m
    → IsManaged (begin l m id window) m
begin-IsManaged l m id window managed = go (find id m.streams) refl
  where
    go :
        (found : Option StreamRecord)
        → find id m.streams ≡ found
        → IsManaged (elim found [ some r ↦ l | none ↦ note l id (new_account window) ]) m
    go (some r) e = managed
    go none e = note-absent l m id (new_account window) e managed

pub insert-IsManaged :
    (l : Accounts) (m : StreamManager) (id : ℕ) (bidirectional : Bool)
    (send_window parity receive_window : ℕ) {m' : StreamManager}
    → receive_window ≤ u64_max
    → IsManaged l m
    → insert m id bidirectional send_window parity receive_window ≡ ok m'
    → IsManaged (begin l m id receive_window) m'
unfolding insert
insert-IsManaged l m id bidirectional send_window parity receive_window {m'} fits managed h =
    go (find id m.streams) h
  where
    opened : StreamManager
    opened = record m {
      streams = put id (new_record id bidirectional send_window receive_window) m.streams;
    }

    go :
        (found : Option StreamRecord)
        → (elim found [
          | some r ↦ ok m
          | none ↦ fail_if (not (id % 2 == parity)) (invalid_stream_id id) >> ok opened
        ])
          ≡ ok m'
        → IsManaged (elim found [ some r ↦ l | none ↦ note l id (new_account receive_window) ]) m'
    go (some r) h = subst (IsManaged l) (ok-injective h) managed
    go none h =
        let (_, _, e) = >>=-eq-ok (fail_if (not (id % 2 == parity)) (invalid_stream_id id)) _ h in
        subst (IsManaged (note l id (new_account receive_window))) (ok-injective e) (
          put-IsManaged l m id (new_account receive_window) _
            (new_record-HasWindow id bidirectional send_window receive_window fits) managed)

find-replace :
    (P : StreamRecord → Type 0) (j id : ℕ) (before after : Streams) (r s : StreamRecord)
    → (P r → P s)
    → ((t : StreamRecord) → find j (before ++ ((id, r) ∷ after)) ≡ some t → P t)
    → (t : StreamRecord) → find j (before ++ ((id, s) ∷ after)) ≡ some t
    → P t
unfolding find
find-replace P j id [] after r s keeps all t h = go (j == id) all h
  where
    go :
        (b : Bool)
        → ((u : StreamRecord) → (if b then some r else find j after) ≡ some u → P u)
        → (if b then some s else find j after) ≡ some t
        → P t
    go true all h = let same : s ≡ t = cc in subst P same (keeps (all r refl))
    go false all h = all t h
find-replace P j id ((key, v) ∷ before) after r s keeps all t h =
    go (j == key) all h (find-replace P j id before after r s keeps)
  where
    go :
        (b : Bool)
        → ((u : StreamRecord)
            → (if b then some v else find j (before ++ ((id, r) ∷ after))) ≡ some u
            → P u)
        → (if b then some v else find j (before ++ ((id, s) ∷ after))) ≡ some t
        → (((u : StreamRecord) → find j (before ++ ((id, r) ∷ after)) ≡ some u → P u)
            → (u : StreamRecord) → find j (before ++ ((id, s) ∷ after)) ≡ some u
            → P u)
        → P t
    go true all h later = all t h
    go false all h later = later all t h

pub take-IsManaged :
    (l : Accounts) (m : StreamManager) {id : ℕ} {item : PendingData} {m' : StreamManager}
    → IsManaged l m
    → take_sendable m ≡ some ((id, item), m')
    → IsManaged l m'
unfolding Picks
take-IsManaged l m {id} {item} {m'} managed h j t found =
    let taken : Taken m.streams id item m'.streams = subst (Picks m) h (take_sendable-Picks m) in
    find-replace (HasWindow (l j)) j id taken.before taken.after taken.from
      (record taken.from { send = taken.rest })
      (λ w. record { flow = w.flow; limit = w.limit; position = w.position })
      (λ u e. managed j u (ap (find j) taken.parts ∙ e)) t (ap (find j) (sym taken.result) ∙ found)

pub finish-IsManaged :
    (l : Accounts) (m : StreamManager) (id : ℕ) → IsManaged l m → IsManaged l (finish m id)
unfolding finish
finish-IsManaged l m id managed = go (find id m.streams) refl
  where
    go :
        (found : Option StreamRecord)
        → find id m.streams ≡ found
        → IsManaged l (elim found [
          | none ↦ m
          | some r ↦ record m { streams = put id (record r { state = finished_state }) m.streams }
        ])
    go none e = managed
    go (some r) e =
        let w = managed id r e in
        note_self l id
          (record m { streams = put id (record r { state = finished_state }) m.streams })
          (put-IsManaged l m id (l id) (record r { state = finished_state })
            (record { flow = w.flow; limit = w.limit; position = w.position }) managed)

open_numbered-IsManaged :
    (l : Accounts) (m : StreamManager) (id parity send_window receive_window : ℕ)
    → receive_window ≤ u64_max
    → IsManaged l m
    → IsManaged
        (begin l m id receive_window)
        (open_numbered m id parity send_window receive_window).0
unfolding open_numbered
open_numbered-IsManaged l m id parity send_window receive_window fits managed =
    go (insert m id true send_window parity receive_window)
      (λ m' e. insert-IsManaged l m id true send_window parity receive_window fits managed e)
  where
    outcome : Result CoreError StreamManager → StreamManager × Result CoreError ℕ
    outcome (ok made) = (made, ok id)
    outcome (err e) = (m, err e)

    go :
        (made : Result CoreError StreamManager)
        → ((m' : StreamManager) → made ≡ ok m' → IsManaged (begin l m id receive_window) m')
        → IsManaged (begin l m id receive_window) (outcome made).0
    go (ok made) keeps = keeps made refl
    go (err e) keeps = begin-IsManaged l m id receive_window managed

pub open_local-IsManaged :
    (l : Accounts) (m : StreamManager) (parity send_window receive_window : ℕ)
    → receive_window ≤ u64_max
    → IsManaged l m
    → IsManaged
        (begin l m m.next_stream_number receive_window)
        (open_local m parity send_window receive_window).0
unfolding open_local
open_local-IsManaged l m parity send_window receive_window fits managed =
    elim (Option-cases (checked_add m.next_stream_number 2)) [
      | inl full ↦
          rw (open_local, full) (begin-IsManaged l m m.next_stream_number receive_window managed)
      | inr (raw, taken) ↦
          rw (open_local, taken)
            (open_numbered-IsManaged l (record m { next_stream_number = raw }) m.next_stream_number
              parity send_window receive_window fits managed)
    ]
