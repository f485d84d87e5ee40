-- ===== src/TransferProtocol/Kind.antt =====
-- crates/transfer-protocol/src/message.rs: `MessageType`.
use dart_udp.Base.{ℕ, ◌≡◌, refl, ◌==◌, if◌then◌else◌, Result, ok, err}
use dart_udp.TransferProtocol.Error.{ProtocolError, unknown_message_type}

pub data MessageType : Type 0 where
  create_pairing : MessageType
  pairing_created : MessageType
  join_pairing : MessageType
  pairing_joined : MessageType
  offer_ready : MessageType
  accept_offer : MessageType
  candidate_list : MessageType
  path_check_authorization : MessageType
  path_selected : MessageType
  relay_open : MessageType
  relay_closed : MessageType
  cancel : MessageType
  resume_ticket : MessageType
  resume_transfer : MessageType
  resume_accepted : MessageType
  peer_reconnected : MessageType
  session_hello : MessageType
  manifest_begin : MessageType
  manifest_item : MessageType
  manifest_end : MessageType
  receive_decision : MessageType
  resume_query : MessageType
  resume_state : MessageType
  file_begin : MessageType
  checkpoint : MessageType
  file_complete : MessageType
  file_rejected : MessageType
  transfer_complete : MessageType
  transfer_error : MessageType
  path_check_request : MessageType
  path_check_response : MessageType

-- `message_type as u8`
unfoldable pub message_type_code : MessageType → ℕ
message_type_code MessageType.create_pairing = 1
message_type_code MessageType.pairing_created = 2
message_type_code MessageType.join_pairing = 3
message_type_code MessageType.pairing_joined = 4
message_type_code MessageType.offer_ready = 5
message_type_code MessageType.accept_offer = 6
message_type_code MessageType.candidate_list = 7
message_type_code MessageType.path_check_authorization = 8
message_type_code MessageType.path_selected = 9
message_type_code MessageType.relay_open = 10
message_type_code MessageType.relay_closed = 11
message_type_code MessageType.cancel = 12
message_type_code MessageType.resume_ticket = 13
message_type_code MessageType.resume_transfer = 14
message_type_code MessageType.resume_accepted = 15
message_type_code MessageType.peer_reconnected = 16
message_type_code MessageType.session_hello = 20
message_type_code MessageType.manifest_begin = 21
message_type_code MessageType.manifest_item = 22
message_type_code MessageType.manifest_end = 23
message_type_code MessageType.receive_decision = 24
message_type_code MessageType.resume_query = 25
message_type_code MessageType.resume_state = 26
message_type_code MessageType.file_begin = 27
message_type_code MessageType.checkpoint = 28
message_type_code MessageType.file_complete = 29
message_type_code MessageType.file_rejected = 30
message_type_code MessageType.transfer_complete = 31
message_type_code MessageType.transfer_error = 32
message_type_code MessageType.path_check_request = 40
message_type_code MessageType.path_check_response = 41

-- `MessageType::try_from`
unfoldable pub message_type_of : ℕ → Result ProtocolError MessageType
message_type_of value =
    if value == 1
    then ok MessageType.create_pairing
    else if value == 2
    then ok MessageType.pairing_created
    else if value == 3
    then ok MessageType.join_pairing
    else if value == 4
    then ok MessageType.pairing_joined
    else if value == 5
    then ok MessageType.offer_ready
    else if value == 6
    then ok MessageType.accept_offer
    else if value == 7
    then ok MessageType.candidate_list
    else if value == 8
    then ok MessageType.path_check_authorization
    else if value == 9
    then ok MessageType.path_selected
    else if value == 10
    then ok MessageType.relay_open
    else if value == 11
    then ok MessageType.relay_closed
    else if value == 12
    then ok MessageType.cancel
    else if value == 13
    then ok MessageType.resume_ticket
    else if value == 14
    then ok MessageType.resume_transfer
    else if value == 15
    then ok MessageType.resume_accepted
    else if value == 16
    then ok MessageType.peer_reconnected
    else if value == 20
    then ok MessageType.session_hello
    else if value == 21
    then ok MessageType.manifest_begin
    else if value == 22
    then ok MessageType.manifest_item
    else if value == 23
    then ok MessageType.manifest_end
    else if value == 24
    then ok MessageType.receive_decision
    else if value == 25
    then ok MessageType.resume_query
    else if value == 26
    then ok MessageType.resume_state
    else if value == 27
    then ok MessageType.file_begin
    else if value == 28
    then ok MessageType.checkpoint
    else if value == 29
    then ok MessageType.file_complete
    else if value == 30
    then ok MessageType.file_rejected
    else if value == 31
    then ok MessageType.transfer_complete
    else if value == 32
    then ok MessageType.transfer_error
    else if value == 40
    then ok MessageType.path_check_request
    else if value == 41
    then ok MessageType.path_check_response
    else err (unknown_message_type value)

pub message_type_of-message_type_code :
    (t : MessageType) → message_type_of (message_type_code t) ≡ ok t
unfolding message_type_of message_type_code
message_type_of-message_type_code MessageType.create_pairing = refl
message_type_of-message_type_code _ = refl
