-- ===== src/ReliableCore/ReceiveFlow/Ledger.antt =====
-- crates/reliable-core/src/flow_control.rs: a window for receiving, against a ledger of the bytes that
-- were received and consumed and of the limit that the peer was told.
use dart_udp.Base.{ℕ, ◌+◌, ◌≤◌, ◌≡◌, ◌↔◌, arith, min, Option, none, some, ok}
use dart_udp.Base.Words.{u64_max}
use dart_udp.ReliableCore.ReceiveFlow.{ReceiveFlowControl, new, check, account, consume}

-- `received` is the sum of what was accounted, `taken` the sum of what was consumed, and `told` the
-- limit that the peer knows: the window it began with, or the last one that `consume` returned.
pub record Ledger : Type 0 where
  pub received : ℕ
  pub taken : ℕ
  pub told : ℕ

abbrev pub opening : ℕ → Ledger
opening window = record { received = 0; taken = 0; told = window }

abbrev pub tell : ℕ → Option ℕ → ℕ
tell told none = told
tell told (some limit) = limit

-- The window as the ledger has it.
pub record IsOpen (window : ℕ) (r : ReceiveFlowControl) (l : Ledger) : Type 0 where
  pub enforced : r.max_offset ≡ min (window + l.taken) u64_max
  pub advertised : r.advertised_offset ≡ r.max_offset
  pub known : l.told ≡ r.max_offset
  pub counted : r.consumed ≡ min l.taken u64_max
  pub size : r.window_size ≡ window
  pub received : r.unique_received ≡ l.received

pub new-IsOpen : (window : ℕ) → window ≤ u64_max → IsOpen window (new window) (opening window)
unfolding new
new-IsOpen window h = ground arith

pub consume-IsOpen :
    (window amount : ℕ) (r : ReceiveFlowControl) (l : Ledger)
    → IsOpen window r l
    → IsOpen window
        (consume r amount).0
        (record l { taken = l.taken + amount; told = tell l.told (consume r amount).1 })
unfolding consume
consume-IsOpen window amount r l o = ground arith

account-IsOpen :
    (window amount : ℕ) (stream_id : Option ℕ) (r r' : ReceiveFlowControl) (l : Ledger)
    → account r stream_id amount ≡ ok r'
    → IsOpen window r l
    → IsOpen window r' (record l { received = l.received + amount })
unfolding account
account-IsOpen window amount stream_id r r' l h o = ground arith

pub data Reach (window : ℕ) : ReceiveFlowControl → Ledger → Type 0 where
  here : Reach window (new window) (opening window)
  accounted :
      {r r' : ReceiveFlowControl} {l : Ledger}
      → Reach window r l
      → (stream_id : Option ℕ) (amount : ℕ) → account r stream_id amount ≡ ok r'
      → Reach window r' (record l { received = l.received + amount })
  consumed :
      {r : ReceiveFlowControl} {l : Ledger}
      → Reach window r l
      → (amount : ℕ)
      → Reach window
          (consume r amount).0
          (record l { taken = l.taken + amount; told = tell l.told (consume r amount).1 })

Reach-IsOpen :
    (window : ℕ) {r : ReceiveFlowControl} {l : Ledger}
    → window ≤ u64_max
    → Reach window r l
    → IsOpen window r l
Reach-IsOpen window h here = new-IsOpen window h
Reach-IsOpen window h (accounted {r} {r'} {l} k stream_id amount e) =
    account-IsOpen window amount stream_id r r' l e (Reach-IsOpen window h k)
Reach-IsOpen window h (consumed {r} {l} k amount) =
    consume-IsOpen window amount r l (Reach-IsOpen window h k)

-- From a new window of a u64, after any history of `account` and `consume`, the limit that is
-- enforced is the first window and the sum of the amounts consumed, capped at u64::MAX; it is the
-- limit that the peer was told, at first or by the last `consume` that returned one; and `check`
-- passes data exactly if its end is at most that limit, and its new bytes with the sum of the amounts
-- accounted fit a u64.
pub Reach-told :
    (window : ℕ) {r : ReceiveFlowControl} {l : Ledger} (stream_id : Option ℕ) (end new_bytes : ℕ)
    → window ≤ u64_max
    → Reach window r l
    → (r.max_offset ≡ min (window + l.taken) u64_max)
      × (l.told ≡ r.max_offset)
      × ((check r stream_id end new_bytes ≡ ok tt)
          ↔ ((end ≤ l.told) × (l.received + new_bytes ≤ u64_max)))
unfolding check
Reach-told window stream_id end new_bytes h k =
    let o = Reach-IsOpen window h k in
    (o.enforced, o.known, ((λ e. ground (arith, e, o)), λ e. ground (arith, e, o)))
