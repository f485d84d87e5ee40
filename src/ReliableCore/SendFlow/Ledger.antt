-- ===== src/ReliableCore/SendFlow/Ledger.antt =====
-- crates/reliable-core/src/flow_control.rs, as the connection uses its window for sending: against a
-- ledger of the bytes that went out and of the limits that the peer gave.
use dart_udp.Base.{ℕ, ◌+◌, ◌≤◌, ◌≡◌, ◌↔◌, arith, max, min, true, false}
use dart_udp.Base.Words.{u64_max}
use dart_udp.ReliableCore.SendFlow.{
  SendFlowControl, new, can_send, account_new_data, update, set_max_offset,
}

-- `sent` is the sum of the lengths of new data, `limit` the peer's limit in force, and `highest` the
-- largest limit that was in force so far.
pub record Ledger : Type 0 where
  pub sent : ℕ
  pub limit : ℕ
  pub highest : ℕ

-- New data of `len` bytes goes out only after `can_send`, a retransmission is not accounted, the
-- peer's window updates arrive in any order, and a hello of the handshake sets the limit anew.
pub data Step : SendFlowControl → Ledger → SendFlowControl → Ledger → Type 0 where
  send_new :
      {s : SendFlowControl} {l : Ledger} (len : ℕ)
      → can_send s len false ≡ true
      → Step s l (account_new_data s len) (record l { sent = l.sent + len })
  send_again :
      {s : SendFlowControl} {l : Ledger} (len : ℕ) → can_send s len true ≡ true → Step s l s l
  window_update :
      {s : SendFlowControl} {l : Ledger} (max_offset : ℕ)
      → Step s l
          (update s max_offset)
          (record l { limit = max l.limit max_offset; highest = max l.highest max_offset })
  negotiated :
      {s : SendFlowControl} {l : Ledger} (max_offset : ℕ)
      → Step s l
          (set_max_offset s max_offset)
          (record l { limit = max_offset; highest = max l.highest max_offset })

abbrev pub opening : ℕ → Ledger
opening window = record { sent = 0; limit = window; highest = window }

pub data Reach (window : ℕ) : SendFlowControl → Ledger → Type 0 where
  here : Reach window (new window) (opening window)
  next : {s t : SendFlowControl} {l k : Ledger} → Reach window s l → Step s l t k → Reach window t k

record Agrees (s : SendFlowControl) (l : Ledger) : Type 0 where
  exact : s.connection_sent_offset ≡ l.sent
  in_force : s.connection_max_offset ≡ l.limit
  bounded : l.sent ≤ l.highest
  above : l.limit ≤ l.highest

Step-Agrees : {s t : SendFlowControl} {l k : Ledger} → Step s l t k → Agrees s l → Agrees t k
unfolding can_send account_new_data update set_max_offset
Step-Agrees (send_new len h) a = ground arith
Step-Agrees (send_again len h) a = a
Step-Agrees (window_update m) a = ground arith
Step-Agrees (negotiated m) a = ground arith

Reach-Agrees : (window : ℕ) {s : SendFlowControl} {l : Ledger} → Reach window s l → Agrees s l
unfolding new
Reach-Agrees window here = omega arith
Reach-Agrees window (next r st) = Step-Agrees st (Reach-Agrees window r)

-- After any history of new data that `can_send` allows, retransmissions, window updates and limits
-- set by the handshake, the sum of the lengths of the new data is at most the largest limit that has
-- been in force, the first window included; and `can_send` allows `len` bytes of new data exactly if
-- that sum with `len` is at most the limit in force and fits a u64.
pub Reach-sent :
    (window : ℕ) {s : SendFlowControl} {l : Ledger} (len : ℕ)
    → Reach window s l
    → (l.sent ≤ l.highest) × ((can_send s len false ≡ true) ↔ (l.sent + len ≤ min l.limit u64_max))
unfolding can_send
Reach-sent window len r =
    let a = Reach-Agrees window r in (a.bounded, ((λ h. ground (arith, a)), λ h. ground (arith, a)))
