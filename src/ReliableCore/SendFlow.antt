-- ===== src/ReliableCore/SendFlow.antt =====
-- crates/reliable-core/src/flow_control.rs: the connection's window for sending.
pub mod Ledger
use dart_udp.Base.{ℕ, max, Bool, false, ◌||◌, leb, Option, none, some}
use dart_udp.Base.Words.{checked_add, saturating_add}

pub record SendFlowControl : Type 0 where
  pub connection_max_offset : ℕ
  pub connection_sent_offset : ℕ

unfoldable pub new : ℕ → SendFlowControl
new max_offset = record { connection_max_offset = max_offset; connection_sent_offset = 0 }

unfoldable pub update : SendFlowControl → ℕ → SendFlowControl
update s max_offset = record s { connection_max_offset = max s.connection_max_offset max_offset }

unfoldable pub set_max_offset : SendFlowControl → ℕ → SendFlowControl
set_max_offset s max_offset = record s { connection_max_offset = max_offset }

abbrev is_some_and : Option ℕ → (ℕ → Bool) → Bool
is_some_and none p = false
is_some_and (some a) p = p a

unfoldable pub can_send : SendFlowControl → ℕ → Bool → Bool
can_send s len retransmission =
    retransmission
    || is_some_and (checked_add s.connection_sent_offset len)
        (λ end. leb end s.connection_max_offset)

unfoldable pub account_new_data : SendFlowControl → ℕ → SendFlowControl
account_new_data s len = record s {
  connection_sent_offset = saturating_add s.connection_sent_offset len;
}
