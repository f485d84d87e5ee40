-- ===== src/TransferProtocol/Message.antt =====
-- crates/transfer-protocol/src/message.rs: the messages. A `Vec<u8>`, an array or a `String` is its
-- bytes (a `String` those of its UTF-8), and an i64 is the u64 with the same bits.
pub mod Validate
pub mod Typed
use dart_udp.Base.{ℕ, Bool, Option, List}
use dart_udp.TransferProtocol.Types.{Digest, SocketAddr}
use dart_udp.TransferProtocol.Kind.{MessageType}
use dart_udp.TransferProtocol.Enums.Pairing.{
  Capability, AcceptDecision, CandidateKind, PathKind, RelayCloseReason, TransferRole,
}
use dart_udp.TransferProtocol.Enums.Transfer.{
  CryptoSuite, OverwritePolicy, FileRejectReason, TransferErrorScope,
}

abbrev pub max_candidates : ℕ
max_candidates = 64

abbrev pub max_manifest_files : ℕ
max_manifest_files = 1_000_000

abbrev pub max_path_len : ℕ
max_path_len = 4096

abbrev pub max_display_name_len : ℕ
max_display_name_len = 256

abbrev pub max_identity_hint_len : ℕ
max_identity_hint_len = 256

abbrev pub max_root_label_len : ℕ
max_root_label_len = 256

abbrev pub max_ticket_len : ℕ
max_ticket_len = 4096

abbrev pub max_transfer_error_message_len : ℕ
max_transfer_error_message_len = 1024

abbrev pub Bytes : Type 0
Bytes = List ℕ

pub record Candidate : Type 0 where
  pub id : Bytes
  pub kind : CandidateKind
  pub address : Option SocketAddr
  pub priority : ℕ
  pub interface_index : Option ℕ

pub record FileMetadata : Type 0 where
  pub modified_time_unix_seconds : Option ℕ
  pub mode : Option ℕ

pub data PairingControl : Type 0 where
  create_pairing :
      (client_instance_id : Bytes) (capability : Capability) (requested_ttl : ℕ)
      (client_ephemeral_key : Bytes)
      → PairingControl
  pairing_created : (pairing_id code : Bytes) (expires_at : ℕ) (ticket : Bytes) → PairingControl
  join_pairing : (code client_instance_id client_ephemeral_key : Bytes) → PairingControl
  pairing_joined : (pairing_id offerer_hint accepter_hint ticket : Bytes) → PairingControl
  offer_ready :
      (transfer_id : Bytes) (manifest_digest : Digest) (file_count total_size : ℕ)
      (display_name : Bytes)
      → PairingControl
  accept_offer : (transfer_id : Bytes) (decision : AcceptDecision) (policy : Bytes) → PairingControl
  candidate_list :
      (transfer_id : Bytes) (candidates : List Candidate) (candidate_digest : Digest)
      → PairingControl
  path_check_authorization : (transfer_id check_token : Bytes) (expires_at : ℕ) → PairingControl
  path_selected :
      (transfer_id path_id : Bytes) (kind : PathKind) (rtt_millis mtu : ℕ) → PairingControl
  relay_open : (transfer_id relay_id ticket : Bytes) → PairingControl
  relay_closed : (transfer_id : Bytes) (reason : RelayCloseReason) → PairingControl
  cancel : (transfer_id : Bytes) (reason_code : ℕ) → PairingControl
  resume_ticket :
      (pairing_id transfer_id : Bytes) (role : TransferRole) (manifest_digest : Digest)
      (expires_at : ℕ) (ticket : Bytes)
      → PairingControl
  resume_transfer :
      (pairing_id transfer_id : Bytes) (role : TransferRole) (client_instance_id ticket : Bytes)
      → PairingControl
  resume_accepted :
      (pairing_id transfer_id : Bytes) (role : TransferRole) (manifest_digest : Digest)
      (expires_at : ℕ)
      → PairingControl
  peer_reconnected : (transfer_id : Bytes) (role : TransferRole) → PairingControl

pub data TransferControl : Type 0 where
  session_hello :
      (transfer_id : Bytes) (protocol_version : ℕ) (suite : CryptoSuite) (manifest_digest : Digest)
      (resume_namespace : Bytes)
      → TransferControl
  manifest_begin : (file_count total_size : ℕ) (manifest_digest : Digest) → TransferControl
  manifest_item :
      (file_id relative_path : Bytes) (size : ℕ) (content_hash : Digest) (metadata : FileMetadata)
      → TransferControl
  manifest_end : (manifest_digest : Digest) → TransferControl
  receive_decision :
      (accepted : Bool) (overwrite : OverwritePolicy) (target_root_label : Bytes) → TransferControl
  resume_query : (file_id : Bytes) (content_hash : Digest) (size : ℕ) → TransferControl
  resume_state :
      (file_id : Bytes) (durable_offset checkpoint_id : ℕ) (state_hash : Digest) → TransferControl
  file_begin :
      (file_id : Bytes) (data_stream_id base_offset remaining_size : ℕ) (content_hash : Digest)
      → TransferControl
  checkpoint : (file_id : Bytes) (durable_offset checkpoint_id : ℕ) → TransferControl
  file_complete : (file_id : Bytes) (final_size : ℕ) (content_hash : Digest) → TransferControl
  file_rejected : (file_id : Bytes) (reason : FileRejectReason) → TransferControl
  transfer_complete : (transfer_id : Bytes) (completed_files total_size : ℕ) → TransferControl
  transfer_error :
      (scope : TransferErrorScope) (code : ℕ) (retryable : Bool) (message : Bytes) → TransferControl

pub data PathCheck : Type 0 where
  request :
      (transfer_id transaction_id check_token candidate_id : Bytes) (send_timestamp_millis : ℕ)
      → PathCheck
  response :
      (transfer_id transaction_id check_token candidate_id : Bytes) (observed_address : SocketAddr)
      (receive_timestamp_millis : ℕ)
      → PathCheck

pub data Message : Type 0 where
  pairing : PairingControl → Message
  transfer : TransferControl → Message
  path : PathCheck → Message

-- `PairingControl::message_type`
unfoldable pub pairing_type : PairingControl → MessageType
pairing_type (PairingControl.create_pairing _ _ _ _) = MessageType.create_pairing
pairing_type (PairingControl.pairing_created _ _ _ _) = MessageType.pairing_created
pairing_type (PairingControl.join_pairing _ _ _) = MessageType.join_pairing
pairing_type (PairingControl.pairing_joined _ _ _ _) = MessageType.pairing_joined
pairing_type (PairingControl.offer_ready _ _ _ _ _) = MessageType.offer_ready
pairing_type (PairingControl.accept_offer _ _ _) = MessageType.accept_offer
pairing_type (PairingControl.candidate_list _ _ _) = MessageType.candidate_list
pairing_type (PairingControl.path_check_authorization _ _ _) = MessageType.path_check_authorization
pairing_type (PairingControl.path_selected _ _ _ _ _) = MessageType.path_selected
pairing_type (PairingControl.relay_open _ _ _) = MessageType.relay_open
pairing_type (PairingControl.relay_closed _ _) = MessageType.relay_closed
pairing_type (PairingControl.cancel _ _) = MessageType.cancel
pairing_type (PairingControl.resume_ticket _ _ _ _ _ _) = MessageType.resume_ticket
pairing_type (PairingControl.resume_transfer _ _ _ _ _) = MessageType.resume_transfer
pairing_type (PairingControl.resume_accepted _ _ _ _ _) = MessageType.resume_accepted
pairing_type (PairingControl.peer_reconnected _ _) = MessageType.peer_reconnected

-- `TransferControl::message_type`
unfoldable pub transfer_type : TransferControl → MessageType
transfer_type (TransferControl.session_hello _ _ _ _ _) = MessageType.session_hello
transfer_type (TransferControl.manifest_begin _ _ _) = MessageType.manifest_begin
transfer_type (TransferControl.manifest_item _ _ _ _ _) = MessageType.manifest_item
transfer_type (TransferControl.manifest_end _) = MessageType.manifest_end
transfer_type (TransferControl.receive_decision _ _ _) = MessageType.receive_decision
transfer_type (TransferControl.resume_query _ _ _) = MessageType.resume_query
transfer_type (TransferControl.resume_state _ _ _ _) = MessageType.resume_state
transfer_type (TransferControl.file_begin _ _ _ _ _) = MessageType.file_begin
transfer_type (TransferControl.checkpoint _ _ _) = MessageType.checkpoint
transfer_type (TransferControl.file_complete _ _ _) = MessageType.file_complete
transfer_type (TransferControl.file_rejected _ _) = MessageType.file_rejected
transfer_type (TransferControl.transfer_complete _ _ _) = MessageType.transfer_complete
transfer_type (TransferControl.transfer_error _ _ _ _) = MessageType.transfer_error

-- `PathCheck::message_type`
unfoldable pub path_type : PathCheck → MessageType
path_type (PathCheck.request _ _ _ _ _) = MessageType.path_check_request
path_type (PathCheck.response _ _ _ _ _ _) = MessageType.path_check_response

unfoldable pub message_type : Message → MessageType
message_type (pairing m) = pairing_type m
message_type (transfer m) = transfer_type m
message_type (path m) = path_type m
