-- ===== src/TransferProtocol/Codec/Path.antt =====
-- crates/transfer-protocol/src/codec.rs: `encode_path` and `decode_path`.
use dart_udp.Base.{err}
use dart_udp.TransferProtocol.Error.{invalid_value}
use dart_udp.TransferProtocol.Types.{check_token_len}
use dart_udp.TransferProtocol.Kind.{MessageType}
use dart_udp.TransferProtocol.Message.{PathCheck}
use dart_udp.TransferProtocol.Wire.{Parser, Writer, ◌>>=◌, pure, lift, ◌>=>◌, done}
use dart_udp.TransferProtocol.Wire.Write.{id, u64, bytes_fixed, socket_addr}
use dart_udp.TransferProtocol.Wire.Read.{read_id, read_array, read_u64, read_socket_addr}

unfoldable pub encode_path : PathCheck → Writer
encode_path (PathCheck.request transfer_id transaction_id check_token candidate_id sent) =
    id transfer_id
    >=> id transaction_id
    >=> bytes_fixed check_token
    >=> id candidate_id
    >=> u64 sent
    >=> done
encode_path
      (PathCheck.response transfer_id transaction_id check_token candidate_id observed received) =
    id transfer_id
    >=> id transaction_id
    >=> bytes_fixed check_token
    >=> id candidate_id
    >=> socket_addr observed
    >=> u64 received
    >=> done

unfoldable pub decode_path : MessageType → Parser PathCheck
decode_path MessageType.path_check_request = do
  transfer_id ← read_id "transfer id"
  transaction_id ← read_id "transaction id"
  check_token ← read_array check_token_len "check token"
  candidate_id ← read_id "candidate id"
  sent ← read_u64
  pure (PathCheck.request transfer_id transaction_id check_token candidate_id sent)
decode_path MessageType.path_check_response = do
  transfer_id ← read_id "transfer id"
  transaction_id ← read_id "transaction id"
  check_token ← read_array check_token_len "check token"
  candidate_id ← read_id "candidate id"
  observed ← read_socket_addr
  received ← read_u64
  pure (PathCheck.response transfer_id transaction_id check_token candidate_id observed received)
decode_path _ = lift (err (invalid_value "path message type"))
