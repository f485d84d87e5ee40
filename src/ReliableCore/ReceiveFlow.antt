-- ===== src/ReliableCore/ReceiveFlow.antt =====
-- crates/reliable-core/src/flow_control.rs: a window for receiving, of the connection or a stream.
pub mod Ledger
use dart_udp.Base.{
  ℕ, ltb, if◌then◌else◌, Option, none, some, Result, ok, ok_or, fail_if, ◌>>=◌, ◌>>◌,
}
use dart_udp.Base.Words.{checked_add, saturating_add}
use dart_udp.ReliableCore.Error.{CoreError, flow_control_violation}

pub record ReceiveFlowControl : Type 0 where
  pub max_offset : ℕ
  pub unique_received : ℕ
  pub consumed : ℕ
  pub window_size : ℕ
  pub advertised_offset : ℕ

unfoldable pub new : ℕ → ReceiveFlowControl
new window_size = record {
  max_offset = window_size;
  unique_received = 0;
  consumed = 0;
  window_size = window_size;
  advertised_offset = window_size;
}

unfoldable pub check : ReceiveFlowControl → Option ℕ → ℕ → ℕ → Result CoreError (Unit {0})
check r stream_id end new_bytes = do
  fail_if (ltb r.max_offset end) (flow_control_violation stream_id)
  total ← ok_or (checked_add r.unique_received new_bytes) (flow_control_violation stream_id)
  ok tt

unfoldable pub account : ReceiveFlowControl → Option ℕ → ℕ → Result CoreError ReceiveFlowControl
account r stream_id new_bytes = do
  total ← ok_or (checked_add r.unique_received new_bytes) (flow_control_violation stream_id)
  ok (record r { unique_received = total })

-- The new state, and the offset to advertise if there is one.
unfoldable pub consume : ReceiveFlowControl → ℕ → ReceiveFlowControl × Option ℕ
consume r amount =
    let consumed = saturating_add r.consumed amount in
    let desired = saturating_add consumed r.window_size in
    if ltb r.advertised_offset desired
    then (
      record r { consumed = consumed; advertised_offset = desired; max_offset = desired },
      some desired,
    )
    else (record r { consumed = consumed }, none)
