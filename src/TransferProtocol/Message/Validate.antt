-- ===== src/TransferProtocol/Message/Validate.antt =====
-- crates/transfer-protocol/src/message.rs: the `validate` functions.
use dart_udp.Base.{
  ℕ, ◌==◌, leb, ltb, min, Bool, true, false, ◌&&◌, ◌||◌, Option, none, some, List, [], ◌∷◌, length,
  is_empty, String, Result, ok, err, fail_if, ◌>>=◌, ◌>>◌,
}
use dart_udp.Base.Words.{u16_max}
use dart_udp.TransferProtocol.Error.{ProtocolError, too_many_items, field_too_large, invalid_value}
use dart_udp.TransferProtocol.Types.{SocketAddr, v4, v6, parse_code}
use dart_udp.TransferProtocol.Enums.Pairing.{CandidateKind}
use dart_udp.TransferProtocol.Message.{
  Bytes, Candidate, PairingControl, TransferControl, PathCheck, Message, pairing, transfer, path,
  max_candidates, max_manifest_files, max_path_len, max_display_name_len, max_identity_hint_len,
  max_root_label_len, max_ticket_len, max_transfer_error_message_len,
}

all_zero : Bytes → Bool
all_zero [] = true
all_zero (b ∷ bs) = b == 0 && all_zero bs

-- The first byte of a multicast address.
starts_in : ℕ → ℕ → Bytes → Bool
starts_in lo hi [] = false
starts_in lo hi (b ∷ bs) = leb lo b && leb b hi

-- `address.ip().is_unspecified() || address.ip().is_multicast() || address.port() == 0`
unfoldable pub unusable : SocketAddr → Bool
unfolding all_zero starts_in
unusable (v4 ip port) = all_zero ip || starts_in 224 239 ip || port == 0
unusable (v6 ip port flowinfo scope_id) = all_zero ip || starts_in 0xff 0xff ip || port == 0

-- The address of a candidate that is not relayed.
validate_address : Option SocketAddr → Result ProtocolError (Unit {0})
unfolding unusable
validate_address none = err (invalid_value "candidate address")
validate_address (some address) = fail_if (unusable address) (invalid_value "candidate address")

no_address : Option SocketAddr → Result ProtocolError (Unit {0})
no_address none = ok tt
no_address (some address) = err (invalid_value "relay candidate address")

-- `Candidate::validate`
unfoldable pub validate_candidate : Candidate → Result ProtocolError (Unit {0})
unfolding validate_address no_address
validate_candidate c = elim c.kind [
  | CandidateKind.relay ↦ no_address c.address
  | CandidateKind.host ↦ validate_address c.address
  | CandidateKind.routed_lan ↦ validate_address c.address
  | CandidateKind.server_reflexive ↦ validate_address c.address
  | CandidateKind.peer_reflexive ↦ validate_address c.address
]

unfoldable pub validate_each : List Candidate → Result ProtocolError (Unit {0})
unfolding validate_candidate
validate_each [] = ok tt
validate_each (c ∷ cs) = do validate_candidate c; validate_each cs

unfoldable pub validate_candidates : List Candidate → Result ProtocolError (Unit {0})
unfolding validate_each
validate_candidates candidates = do
  fail_if (ltb max_candidates (length candidates))
      (too_many_items "candidates" max_candidates (length candidates))
  validate_each candidates

unfoldable pub validate_code : Bytes → Result ProtocolError (Unit {0})
unfolding parse_code
validate_code code = do parsed ← parse_code code; ok tt

unfoldable pub validate_ticket : Bytes → Result ProtocolError (Unit {0})
validate_ticket ticket =
    fail_if (ltb max_ticket_len (length ticket))
      (field_too_large "session ticket" max_ticket_len (length ticket))

unfoldable pub validate_non_empty_ticket : Bytes → Result ProtocolError (Unit {0})
unfolding validate_ticket
validate_non_empty_ticket ticket = do
  validate_ticket ticket
  fail_if (is_empty ticket) (invalid_value "resume ticket")

unfoldable pub validate_string : Bytes → ℕ → String → Result ProtocolError (Unit {0})
validate_string value maximum field =
    fail_if (ltb maximum (length value) || ltb u16_max (length value))
      (field_too_large field (min maximum u16_max) (length value))

validate_file_count : ℕ → Result ProtocolError (Unit {0})
validate_file_count count =
    fail_if (ltb max_manifest_files count) (too_many_items "file_count" max_manifest_files count)

-- `PairingControl::validate`
unfoldable pub validate_pairing : PairingControl → Result ProtocolError (Unit {0})
unfolding validate_candidates validate_code validate_ticket validate_non_empty_ticket
    validate_string validate_file_count
validate_pairing (PairingControl.create_pairing _ _ _ _) = ok tt
validate_pairing (PairingControl.pairing_created _ code _ ticket) = do
  validate_ticket ticket
  validate_code code
validate_pairing (PairingControl.join_pairing _ _ _) = ok tt
validate_pairing (PairingControl.pairing_joined _ offerer accepter ticket) = do
  validate_string offerer max_identity_hint_len "offerer identity"
  validate_string accepter max_identity_hint_len "accepter identity"
  validate_ticket ticket
validate_pairing (PairingControl.offer_ready _ _ file_count _ display_name) = do
  validate_file_count file_count
  validate_string display_name max_display_name_len "sender display name"
validate_pairing (PairingControl.accept_offer _ _ policy) =
    validate_string policy max_root_label_len "receiver root policy"
validate_pairing (PairingControl.candidate_list _ candidates _) = validate_candidates candidates
validate_pairing (PairingControl.path_check_authorization _ _ _) = ok tt
validate_pairing (PairingControl.path_selected _ _ _ _ _) = ok tt
validate_pairing (PairingControl.relay_open _ _ ticket) = validate_ticket ticket
validate_pairing (PairingControl.relay_closed _ _) = ok tt
validate_pairing (PairingControl.cancel _ _) = ok tt
validate_pairing (PairingControl.resume_ticket _ _ _ _ _ ticket) = validate_non_empty_ticket ticket
validate_pairing (PairingControl.resume_transfer _ _ _ _ ticket) = validate_non_empty_ticket ticket
validate_pairing (PairingControl.resume_accepted _ _ _ _ _) = ok tt
validate_pairing (PairingControl.peer_reconnected _ _) = ok tt

-- `TransferControl::validate`
unfoldable pub validate_transfer : TransferControl → Result ProtocolError (Unit {0})
unfolding validate_string validate_file_count
validate_transfer (TransferControl.manifest_begin file_count _ _) = validate_file_count file_count
validate_transfer (TransferControl.manifest_item _ relative_path _ _ _) =
    validate_string relative_path max_path_len "relative path"
validate_transfer (TransferControl.receive_decision _ _ label) =
    validate_string label max_root_label_len "target root label"
validate_transfer (TransferControl.transfer_error _ _ _ message) =
    validate_string message max_transfer_error_message_len "transfer error message"
validate_transfer _ = ok tt

-- `PathCheck::validate`
unfoldable pub validate_path : PathCheck → Result ProtocolError (Unit {0})
unfolding unusable
validate_path (PathCheck.request _ _ _ _ _) = ok tt
validate_path (PathCheck.response _ _ _ _ observed_address _) =
    fail_if (unusable observed_address) (invalid_value "path check observed address")

-- `Message::validate`
unfoldable pub validate : Message → Result ProtocolError (Unit {0})
unfolding validate_pairing validate_transfer validate_path
validate (pairing m) = validate_pairing m
validate (transfer m) = validate_transfer m
validate (path m) = validate_path m
