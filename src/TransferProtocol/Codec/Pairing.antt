-- ===== src/TransferProtocol/Codec/Pairing.antt =====
-- crates/transfer-protocol/src/codec.rs: `encode_pairing`, `decode_pairing` and candidates.
use dart_udp.Base.{
  ℕ, zero, suc, ◌==◌, if◌then◌else◌, Option, none, some, List, [], ◌∷◌, length, err,
}
use dart_udp.Base.Words.{u32_max}
use dart_udp.TransferProtocol.Error.{invalid_value}
use dart_udp.TransferProtocol.Types.{check_token_len}
use dart_udp.TransferProtocol.Kind.{MessageType}
use dart_udp.TransferProtocol.Message.{
  Candidate, PairingControl, max_root_label_len, max_ticket_len,
}
use dart_udp.TransferProtocol.Message.Validate.{validate_candidate, validate_pairing}
use dart_udp.TransferProtocol.Enums.Pairing.{
  transfer_role_enum, capability_enum, accept_decision_enum, candidate_kind_enum, path_kind_enum,
  relay_close_reason_enum,
}
use dart_udp.TransferProtocol.Codec.{CodecLimits, check_file_count, check_candidates}
use dart_udp.TransferProtocol.Wire.{Parser, Writer, ◌>>=◌, ◌>>◌, pure, lift, ◌>=>◌, require, done}
use dart_udp.TransferProtocol.Wire.Write.{
  id, u16, u32, u64, bytes_fixed, blob, string, pairing_code, digest, enum, socket_addr_option,
}
use dart_udp.TransferProtocol.Wire.Read.{
  read_id, read_array, read_u16, read_u32, read_u64, read_blob, read_string, read_pairing_code,
  read_digest, read_enum, read_socket_addr_option,
}

-- `interface_index.unwrap_or(u32::MAX)`
unfoldable pub index_word : Option ℕ → ℕ
index_word none = u32_max
index_word (some v) = v

-- `match reader.u32()? { u32::MAX => None, value => Some(value) }`
unfoldable pub word_index : ℕ → Option ℕ
word_index v = if v == u32_max then none else some v

unfoldable pub encode_candidate : Candidate → Writer
encode_candidate c =
    require (validate_candidate c)
    >=> id c.id
    >=> enum c.kind
    >=> socket_addr_option c.address
    >=> u16 c.priority
    >=> u32 (index_word c.interface_index)
    >=> done

unfoldable pub decode_candidate : Parser Candidate
decode_candidate = do
  candidate_id ← read_id "candidate id"
  kind ← read_enum "candidate kind"
  address ← read_socket_addr_option
  priority ← read_u16
  word ← read_u32
  lift (
      validate_candidate (record {
        id = candidate_id;
        kind = kind;
        address = address;
        priority = priority;
        interface_index = word_index word;
      }))
  pure (record {
    id = candidate_id;
    kind = kind;
    address = address;
    priority = priority;
    interface_index = word_index word;
  })

-- `for candidate in candidates`
unfoldable pub encode_candidates : List Candidate → Writer
encode_candidates [] = done
encode_candidates (c ∷ cs) = encode_candidate c >=> encode_candidates cs

-- `for _ in 0..count`
unfoldable pub decode_candidates : ℕ → Parser (List Candidate)
decode_candidates zero = pure []
decode_candidates (suc n) = do
  candidate ← decode_candidate
  candidates ← decode_candidates n
  pure (candidate ∷ candidates)

unfoldable pub encode_pairing : CodecLimits → PairingControl → Writer
encode_pairing limits (PairingControl.create_pairing client capability ttl key) =
    id client >=> enum capability >=> u32 ttl >=> bytes_fixed key >=> done
encode_pairing limits (PairingControl.pairing_created pairing_id code expires_at ticket) =
    id pairing_id >=> pairing_code code >=> u64 expires_at >=> blob ticket max_ticket_len >=> done
encode_pairing limits (PairingControl.join_pairing code client key) =
    pairing_code code >=> id client >=> bytes_fixed key >=> done
encode_pairing limits (PairingControl.pairing_joined pairing_id offerer accepter ticket) =
    id pairing_id
    >=> string offerer 256 "offerer identity"
    >=> string accepter 256 "accepter identity"
    >=> blob ticket max_ticket_len
    >=> done
encode_pairing limits (PairingControl.offer_ready transfer_id hash file_count total_size name) =
    require (check_file_count limits file_count)
    >=> id transfer_id
    >=> digest hash
    >=> u64 file_count
    >=> u64 total_size
    >=> string name 256 "sender display name"
    >=> done
encode_pairing limits (PairingControl.accept_offer transfer_id decision policy) =
    id transfer_id
    >=> enum decision
    >=> string policy max_root_label_len "receiver root policy"
    >=> done
encode_pairing limits (PairingControl.candidate_list transfer_id candidates hash) =
    require (check_candidates limits (length candidates))
    >=> id transfer_id
    >=> u16 (length candidates)
    >=> encode_candidates candidates
    >=> digest hash
    >=> done
encode_pairing limits (PairingControl.path_check_authorization transfer_id token expires_at) =
    id transfer_id >=> bytes_fixed token >=> u64 expires_at >=> done
encode_pairing limits (PairingControl.path_selected transfer_id path_id kind rtt mtu) =
    id transfer_id >=> id path_id >=> enum kind >=> u64 rtt >=> u16 mtu >=> done
encode_pairing limits (PairingControl.relay_open transfer_id relay_id ticket) =
    id transfer_id >=> id relay_id >=> blob ticket max_ticket_len >=> done
encode_pairing limits (PairingControl.relay_closed transfer_id reason) =
    id transfer_id >=> enum reason >=> done
encode_pairing limits (PairingControl.cancel transfer_id reason_code) =
    id transfer_id >=> u16 reason_code >=> done
encode_pairing limits
      (PairingControl.resume_ticket pairing_id transfer_id role hash expires_at ticket) =
    id pairing_id
    >=> id transfer_id
    >=> enum role
    >=> digest hash
    >=> u64 expires_at
    >=> blob ticket max_ticket_len
    >=> done
encode_pairing limits (PairingControl.resume_transfer pairing_id transfer_id role client ticket) =
    id pairing_id
    >=> id transfer_id
    >=> enum role
    >=> id client
    >=> blob ticket max_ticket_len
    >=> done
encode_pairing limits (PairingControl.resume_accepted pairing_id transfer_id role hash expires_at) =
    id pairing_id >=> id transfer_id >=> enum role >=> digest hash >=> u64 expires_at >=> done
encode_pairing limits (PairingControl.peer_reconnected transfer_id role) =
    id transfer_id >=> enum role >=> done

-- The fields of a message, before `message.validate()?`.
unfoldable pub pairing_fields : MessageType → CodecLimits → Parser PairingControl
pairing_fields MessageType.create_pairing limits = do
  client ← read_id "client instance id"
  capability ← read_enum "capability"
  ttl ← read_u32
  key ← read_array 32 "client ephemeral key"
  pure (PairingControl.create_pairing client capability ttl key)
pairing_fields MessageType.pairing_created limits = do
  pairing_id ← read_id "pairing id"
  code ← read_pairing_code
  expires_at ← read_u64
  ticket ← read_blob max_ticket_len "session ticket"
  pure (PairingControl.pairing_created pairing_id code expires_at ticket)
pairing_fields MessageType.join_pairing limits = do
  code ← read_pairing_code
  client ← read_id "client instance id"
  key ← read_array 32 "client ephemeral key"
  pure (PairingControl.join_pairing code client key)
pairing_fields MessageType.pairing_joined limits = do
  pairing_id ← read_id "pairing id"
  offerer ← read_string 256 "offerer identity"
  accepter ← read_string 256 "accepter identity"
  ticket ← read_blob max_ticket_len "session ticket"
  pure (PairingControl.pairing_joined pairing_id offerer accepter ticket)
pairing_fields MessageType.offer_ready limits = do
  transfer_id ← read_id "transfer id"
  hash ← read_digest
  file_count ← read_u64
  lift (check_file_count limits file_count)
  total_size ← read_u64
  name ← read_string 256 "sender display name"
  pure (PairingControl.offer_ready transfer_id hash file_count total_size name)
pairing_fields MessageType.accept_offer limits = do
  transfer_id ← read_id "transfer id"
  decision ← read_enum "decision"
  policy ← read_string max_root_label_len "receiver root policy"
  pure (PairingControl.accept_offer transfer_id decision policy)
pairing_fields MessageType.candidate_list limits = do
  transfer_id ← read_id "transfer id"
  count ← read_u16
  lift (check_candidates limits count)
  candidates ← decode_candidates count
  hash ← read_digest
  pure (PairingControl.candidate_list transfer_id candidates hash)
pairing_fields MessageType.path_check_authorization limits = do
  transfer_id ← read_id "transfer id"
  token ← read_array check_token_len "check token"
  expires_at ← read_u64
  pure (PairingControl.path_check_authorization transfer_id token expires_at)
pairing_fields MessageType.path_selected limits = do
  transfer_id ← read_id "transfer id"
  path_id ← read_id "path id"
  kind ← read_enum "path kind"
  rtt ← read_u64
  mtu ← read_u16
  pure (PairingControl.path_selected transfer_id path_id kind rtt mtu)
pairing_fields MessageType.relay_open limits = do
  transfer_id ← read_id "transfer id"
  relay_id ← read_id "relay id"
  ticket ← read_blob max_ticket_len "relay ticket"
  pure (PairingControl.relay_open transfer_id relay_id ticket)
pairing_fields MessageType.relay_closed limits = do
  transfer_id ← read_id "transfer id"
  reason ← read_enum "relay close reason"
  pure (PairingControl.relay_closed transfer_id reason)
pairing_fields MessageType.cancel limits = do
  transfer_id ← read_id "transfer id"
  reason_code ← read_u16
  pure (PairingControl.cancel transfer_id reason_code)
pairing_fields MessageType.resume_ticket limits = do
  pairing_id ← read_id "pairing id"
  transfer_id ← read_id "transfer id"
  role ← read_enum "transfer role"
  hash ← read_digest
  expires_at ← read_u64
  ticket ← read_blob max_ticket_len "resume ticket"
  pure (PairingControl.resume_ticket pairing_id transfer_id role hash expires_at ticket)
pairing_fields MessageType.resume_transfer limits = do
  pairing_id ← read_id "pairing id"
  transfer_id ← read_id "transfer id"
  role ← read_enum "transfer role"
  client ← read_id "client instance id"
  ticket ← read_blob max_ticket_len "resume ticket"
  pure (PairingControl.resume_transfer pairing_id transfer_id role client ticket)
pairing_fields MessageType.resume_accepted limits = do
  pairing_id ← read_id "pairing id"
  transfer_id ← read_id "transfer id"
  role ← read_enum "transfer role"
  hash ← read_digest
  expires_at ← read_u64
  pure (PairingControl.resume_accepted pairing_id transfer_id role hash expires_at)
pairing_fields MessageType.peer_reconnected limits = do
  transfer_id ← read_id "transfer id"
  role ← read_enum "transfer role"
  pure (PairingControl.peer_reconnected transfer_id role)
pairing_fields _ limits = lift (err (invalid_value "pairing message type"))

unfoldable pub decode_pairing : MessageType → CodecLimits → Parser PairingControl
decode_pairing kind limits = do
  message ← pairing_fields kind limits
  lift (validate_pairing message)
  pure message
