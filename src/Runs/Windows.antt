-- ===== src/Runs/Windows.antt =====
-- crates/reliable-core/src/flow_control.rs: both windows over a few operations.
use dart_udp.Base.{◌+◌, ◌≤◌, ◌≡◌, ◌↔◌, refl, arith, min, ok, none, true, false}
use dart_udp.Base.Words.{u64_max}
use dart_udp.ReliableCore.SendFlow
use dart_udp.ReliableCore.SendFlow.{
  SendFlowControl, account_new_data, update, set_max_offset, can_send,
}
use dart_udp.ReliableCore.SendFlow.Ledger
use dart_udp.ReliableCore.SendFlow.Ledger.{Reach-sent}
use dart_udp.ReliableCore.ReceiveFlow
use dart_udp.ReliableCore.ReceiveFlow.{ReceiveFlowControl, check, account, consume}
use dart_udp.ReliableCore.ReceiveFlow.Ledger as Received
use dart_udp.ReliableCore.ReceiveFlow.Ledger.{Reach-told}

-- The handshake sets the limit to 16, ten bytes go out, and the window grows to 32.
abbrev agreed : SendFlowControl
agreed = set_max_offset (SendFlow.new 64) 16

can_send_ten : can_send agreed 10 false ≡ true
unfolding can_send set_max_offset SendFlow.new
can_send_ten = refl

abbrev ten_sent : SendFlowControl
ten_sent = update (account_new_data agreed 10) 32

abbrev ten_ledger : Ledger.Ledger
ten_ledger = record { sent = 10; limit = 32; highest = 64 }

ten_sent-Reach : Ledger.Reach 64 ten_sent ten_ledger
ten_sent-Reach =
    Ledger.next
      (Ledger.next (Ledger.next Ledger.here (Ledger.negotiated 16))
        (Ledger.send_new 10 can_send_ten))
      (Ledger.window_update 32)

Reach-sent_example : (10 ≤ 64) × ((can_send ten_sent 22 false ≡ true) ↔ (10 + 22 ≤ min 32 u64_max))
Reach-sent_example = Reach-sent 64 22 ten_sent-Reach

-- Twelve bytes are received, and ten of them are consumed.
abbrev twelve_received : ReceiveFlowControl
twelve_received = record (ReceiveFlow.new 64) { unique_received = 12 }

account_twelve : account (ReceiveFlow.new 64) none 12 ≡ ok twelve_received
unfolding account ReceiveFlow.new
account_twelve = refl

abbrev ten_consumed : Received.Ledger
ten_consumed = record { received = 12; taken = 10; told = 74 }

ten_consumed-Reach : Received.Reach 64 (consume twelve_received 10).0 ten_consumed
unfolding consume ReceiveFlow.new
ten_consumed-Reach = Received.consumed (Received.accounted Received.here none 12 account_twelve) 10

Reach-told_example :
    ((consume twelve_received 10).0.max_offset ≡ min (64 + 10) u64_max)
    × (74 ≡ (consume twelve_received 10).0.max_offset)
    × ((check (consume twelve_received 10).0 none 70 8 ≡ ok tt) ↔ ((70 ≤ 74) × (12 + 8 ≤ u64_max)))
Reach-told_example = Reach-told 64 none 70 8 (omega arith) ten_consumed-Reach
