-- ===== src/TransferProtocol/Enums/Pairing.antt =====
-- crates/transfer-protocol/src/message.rs: the enumerations of the pairing messages.
use dart_udp.Base.{ℕ, ◌≡◌, refl, ◌==◌, if◌then◌else◌, Result, ok, err}
use dart_udp.TransferProtocol.Error.{ProtocolError, invalid_value}
use dart_udp.TransferProtocol.Enums.{ByteEnum}

pub data TransferRole : Type 0 where
  offerer : TransferRole
  accepter : TransferRole

pub transfer_role_code : TransferRole → ℕ
transfer_role_code TransferRole.offerer = 1
transfer_role_code TransferRole.accepter = 2

pub transfer_role_of : ℕ → Result ProtocolError TransferRole
transfer_role_of value =
    if value == 1
    then ok TransferRole.offerer
    else if value == 2
    then ok TransferRole.accepter
    else err (invalid_value "transfer role")

pub transfer_role_law : (t : TransferRole) → transfer_role_of (transfer_role_code t) ≡ ok t
unfolding transfer_role_of transfer_role_code
transfer_role_law TransferRole.offerer = refl
transfer_role_law TransferRole.accepter = refl

instance unfoldable pub transfer_role_enum : ByteEnum TransferRole
unfolding transfer_role_code transfer_role_of
transfer_role_enum = record {
  code = transfer_role_code;
  of = transfer_role_of;
  of-code = transfer_role_law;
}

pub data Capability : Type 0 where
  upload : Capability

pub capability_code : Capability → ℕ
capability_code Capability.upload = 1

pub capability_of : ℕ → Result ProtocolError Capability
capability_of value = if value == 1 then ok Capability.upload else err (invalid_value "capability")

pub capability_law : (t : Capability) → capability_of (capability_code t) ≡ ok t
unfolding capability_of capability_code
capability_law Capability.upload = refl

instance unfoldable pub capability_enum : ByteEnum Capability
unfolding capability_code capability_of
capability_enum = record { code = capability_code; of = capability_of; of-code = capability_law }

pub data AcceptDecision : Type 0 where
  accept : AcceptDecision
  reject : AcceptDecision

pub accept_decision_code : AcceptDecision → ℕ
accept_decision_code AcceptDecision.accept = 1
accept_decision_code AcceptDecision.reject = 2

pub accept_decision_of : ℕ → Result ProtocolError AcceptDecision
accept_decision_of value =
    if value == 1
    then ok AcceptDecision.accept
    else if value == 2
    then ok AcceptDecision.reject
    else err (invalid_value "decision")

pub accept_decision_law : (t : AcceptDecision) → accept_decision_of (accept_decision_code t) ≡ ok t
unfolding accept_decision_of accept_decision_code
accept_decision_law AcceptDecision.accept = refl
accept_decision_law AcceptDecision.reject = refl

instance unfoldable pub accept_decision_enum : ByteEnum AcceptDecision
unfolding accept_decision_code accept_decision_of
accept_decision_enum = record {
  code = accept_decision_code;
  of = accept_decision_of;
  of-code = accept_decision_law;
}

pub data CandidateKind : Type 0 where
  host : CandidateKind
  routed_lan : CandidateKind
  server_reflexive : CandidateKind
  peer_reflexive : CandidateKind
  relay : CandidateKind

pub candidate_kind_code : CandidateKind → ℕ
candidate_kind_code CandidateKind.host = 1
candidate_kind_code CandidateKind.routed_lan = 2
candidate_kind_code CandidateKind.server_reflexive = 3
candidate_kind_code CandidateKind.peer_reflexive = 4
candidate_kind_code CandidateKind.relay = 5

pub candidate_kind_of : ℕ → Result ProtocolError CandidateKind
candidate_kind_of value =
    if value == 1
    then ok CandidateKind.host
    else if value == 2
    then ok CandidateKind.routed_lan
    else if value == 3
    then ok CandidateKind.server_reflexive
    else if value == 4
    then ok CandidateKind.peer_reflexive
    else if value == 5
    then ok CandidateKind.relay
    else err (invalid_value "candidate kind")

pub candidate_kind_law : (t : CandidateKind) → candidate_kind_of (candidate_kind_code t) ≡ ok t
unfolding candidate_kind_of candidate_kind_code
candidate_kind_law CandidateKind.host = refl
candidate_kind_law CandidateKind.routed_lan = refl
candidate_kind_law CandidateKind.server_reflexive = refl
candidate_kind_law CandidateKind.peer_reflexive = refl
candidate_kind_law CandidateKind.relay = refl

instance unfoldable pub candidate_kind_enum : ByteEnum CandidateKind
unfolding candidate_kind_code candidate_kind_of
candidate_kind_enum = record {
  code = candidate_kind_code;
  of = candidate_kind_of;
  of-code = candidate_kind_law;
}

pub data PathKind : Type 0 where
  host : PathKind
  routed_lan : PathKind
  reflexive_direct : PathKind
  relay : PathKind

pub path_kind_code : PathKind → ℕ
path_kind_code PathKind.host = 1
path_kind_code PathKind.routed_lan = 2
path_kind_code PathKind.reflexive_direct = 3
path_kind_code PathKind.relay = 4

pub path_kind_of : ℕ → Result ProtocolError PathKind
path_kind_of value =
    if value == 1
    then ok PathKind.host
    else if value == 2
    then ok PathKind.routed_lan
    else if value == 3
    then ok PathKind.reflexive_direct
    else if value == 4
    then ok PathKind.relay
    else err (invalid_value "path kind")

pub path_kind_law : (t : PathKind) → path_kind_of (path_kind_code t) ≡ ok t
unfolding path_kind_of path_kind_code
path_kind_law PathKind.host = refl
path_kind_law PathKind.routed_lan = refl
path_kind_law PathKind.reflexive_direct = refl
path_kind_law PathKind.relay = refl

instance unfoldable pub path_kind_enum : ByteEnum PathKind
unfolding path_kind_code path_kind_of
path_kind_enum = record { code = path_kind_code; of = path_kind_of; of-code = path_kind_law }

pub data RelayCloseReason : Type 0 where
  complete : RelayCloseReason
  cancelled : RelayCloseReason
  failed : RelayCloseReason
  expired : RelayCloseReason

pub relay_close_reason_code : RelayCloseReason → ℕ
relay_close_reason_code RelayCloseReason.complete = 1
relay_close_reason_code RelayCloseReason.cancelled = 2
relay_close_reason_code RelayCloseReason.failed = 3
relay_close_reason_code RelayCloseReason.expired = 4

pub relay_close_reason_of : ℕ → Result ProtocolError RelayCloseReason
relay_close_reason_of value =
    if value == 1
    then ok RelayCloseReason.complete
    else if value == 2
    then ok RelayCloseReason.cancelled
    else if value == 3
    then ok RelayCloseReason.failed
    else if value == 4
    then ok RelayCloseReason.expired
    else err (invalid_value "relay close reason")

pub relay_close_reason_law :
    (t : RelayCloseReason) → relay_close_reason_of (relay_close_reason_code t) ≡ ok t
unfolding relay_close_reason_of relay_close_reason_code
relay_close_reason_law RelayCloseReason.complete = refl
relay_close_reason_law RelayCloseReason.cancelled = refl
relay_close_reason_law RelayCloseReason.failed = refl
relay_close_reason_law RelayCloseReason.expired = refl

instance unfoldable pub relay_close_reason_enum : ByteEnum RelayCloseReason
unfolding relay_close_reason_code relay_close_reason_of
relay_close_reason_enum = record {
  code = relay_close_reason_code;
  of = relay_close_reason_of;
  of-code = relay_close_reason_law;
}
