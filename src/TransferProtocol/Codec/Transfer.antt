-- ===== src/TransferProtocol/Codec/Transfer.antt =====
-- crates/transfer-protocol/src/codec.rs: `encode_transfer`, `decode_transfer` and file metadata.
use dart_udp.Base.{
  ℕ, ◌==◌, not, bit_and, bit_or, Bool, true, false, Option, none, some, err, fail_if,
}
use dart_udp.TransferProtocol.Error.{invalid_value}
use dart_udp.TransferProtocol.Kind.{MessageType}
use dart_udp.TransferProtocol.Message.{
  FileMetadata, TransferControl, max_path_len, max_root_label_len, max_transfer_error_message_len,
}
use dart_udp.TransferProtocol.Message.Validate.{validate_transfer}
use dart_udp.TransferProtocol.Enums.Transfer.{
  crypto_suite_enum, overwrite_policy_enum, file_reject_reason_enum, transfer_error_scope_enum,
}
use dart_udp.TransferProtocol.Codec.{CodecLimits, check_file_count}
use dart_udp.TransferProtocol.Wire.{Parser, Writer, ◌>>=◌, ◌>>◌, pure, lift, ◌>=>◌, require, done}
use dart_udp.TransferProtocol.Wire.Write.{id, u8, u32, u64, bytes_fixed, string, digest, enum, flag}
use dart_udp.TransferProtocol.Wire.Read.{
  read_id, read_array, read_u8, read_u32, read_u64, read_i64, read_string, read_digest, read_enum,
  read_bool,
}

unfoldable pub flag_bit : Option ℕ → ℕ → ℕ
flag_bit none bit = 0
flag_bit (some v) bit = bit

unfoldable pub metadata_flags : FileMetadata → ℕ
metadata_flags m = bit_or (flag_bit m.modified_time_unix_seconds 1) (flag_bit m.mode 2)

-- `if let Some(value) = value { writer.write(value); }`
unfoldable pub write_some : (ℕ → Writer) → Option ℕ → Writer
write_some write none = done
write_some write (some v) = write v

unfoldable pub encode_metadata : FileMetadata → Writer
encode_metadata m =
    u8 (metadata_flags m)
    >=> write_some u64 m.modified_time_unix_seconds
    >=> write_some u32 m.mode
    >=> done

-- `present.then(|| reader.read()).transpose()?`
unfoldable pub read_some : Bool → Parser ℕ → Parser (Option ℕ)
read_some false p = pure none
read_some true p = do v ← p; pure (some v)

unfoldable pub decode_metadata : Parser FileMetadata
decode_metadata = do
  flags ← read_u8
  lift (fail_if (not (bit_and flags 252 == 0)) (invalid_value "file metadata"))
  modified ← read_some (not (bit_and flags 1 == 0)) read_i64
  mode ← read_some (not (bit_and flags 2 == 0)) read_u32
  pure (record { modified_time_unix_seconds = modified; mode = mode })

unfoldable pub encode_transfer : CodecLimits → TransferControl → Writer
encode_transfer limits (TransferControl.session_hello transfer_id version suite hash namespace) =
    id transfer_id >=> u8 version >=> enum suite >=> digest hash >=> bytes_fixed namespace >=> done
encode_transfer limits (TransferControl.manifest_begin file_count total_size hash) =
    require (check_file_count limits file_count)
    >=> u64 file_count
    >=> u64 total_size
    >=> digest hash
    >=> done
encode_transfer limits (TransferControl.manifest_item file_id relative_path size hash metadata) =
    id file_id
    >=> string relative_path max_path_len "relative path"
    >=> u64 size
    >=> digest hash
    >=> encode_metadata metadata
    >=> done
encode_transfer limits (TransferControl.manifest_end hash) = digest hash >=> done
encode_transfer limits (TransferControl.receive_decision accepted overwrite label) =
    flag accepted
    >=> enum overwrite
    >=> string label max_root_label_len "target root label"
    >=> done
encode_transfer limits (TransferControl.resume_query file_id hash size) =
    id file_id >=> digest hash >=> u64 size >=> done
encode_transfer limits (TransferControl.resume_state file_id offset checkpoint_id hash) =
    id file_id >=> u64 offset >=> u64 checkpoint_id >=> digest hash >=> done
encode_transfer limits (TransferControl.file_begin file_id stream base remaining hash) =
    id file_id >=> u64 stream >=> u64 base >=> u64 remaining >=> digest hash >=> done
encode_transfer limits (TransferControl.checkpoint file_id offset checkpoint_id) =
    id file_id >=> u64 offset >=> u64 checkpoint_id >=> done
encode_transfer limits (TransferControl.file_complete file_id size hash) =
    id file_id >=> u64 size >=> digest hash >=> done
encode_transfer limits (TransferControl.file_rejected file_id reason) =
    id file_id >=> enum reason >=> done
encode_transfer limits (TransferControl.transfer_complete transfer_id files size) =
    id transfer_id >=> u64 files >=> u64 size >=> done
encode_transfer limits (TransferControl.transfer_error scope code retryable message) =
    enum scope
    >=> u32 code
    >=> flag retryable
    >=> string message max_transfer_error_message_len "transfer error message"
    >=> done

-- The fields of a message, before `message.validate()?`.
unfoldable pub transfer_fields : MessageType → CodecLimits → Parser TransferControl
transfer_fields MessageType.session_hello limits = do
  transfer_id ← read_id "transfer id"
  version ← read_u8
  suite ← read_enum "crypto suite"
  hash ← read_digest
  namespace ← read_array 16 "resume namespace"
  pure (TransferControl.session_hello transfer_id version suite hash namespace)
transfer_fields MessageType.manifest_begin limits = do
  file_count ← read_u64
  lift (check_file_count limits file_count)
  total_size ← read_u64
  hash ← read_digest
  pure (TransferControl.manifest_begin file_count total_size hash)
transfer_fields MessageType.manifest_item limits = do
  file_id ← read_id "file id"
  relative_path ← read_string max_path_len "relative path"
  size ← read_u64
  hash ← read_digest
  metadata ← decode_metadata
  pure (TransferControl.manifest_item file_id relative_path size hash metadata)
transfer_fields MessageType.manifest_end limits = do
  hash ← read_digest
  pure (TransferControl.manifest_end hash)
transfer_fields MessageType.receive_decision limits = do
  accepted ← read_bool "accepted"
  overwrite ← read_enum "overwrite policy"
  label ← read_string max_root_label_len "target root label"
  pure (TransferControl.receive_decision accepted overwrite label)
transfer_fields MessageType.resume_query limits = do
  file_id ← read_id "file id"
  hash ← read_digest
  size ← read_u64
  pure (TransferControl.resume_query file_id hash size)
transfer_fields MessageType.resume_state limits = do
  file_id ← read_id "file id"
  offset ← read_u64
  checkpoint_id ← read_u64
  hash ← read_digest
  pure (TransferControl.resume_state file_id offset checkpoint_id hash)
transfer_fields MessageType.file_begin limits = do
  file_id ← read_id "file id"
  stream ← read_u64
  base ← read_u64
  remaining ← read_u64
  hash ← read_digest
  pure (TransferControl.file_begin file_id stream base remaining hash)
transfer_fields MessageType.checkpoint limits = do
  file_id ← read_id "file id"
  offset ← read_u64
  checkpoint_id ← read_u64
  pure (TransferControl.checkpoint file_id offset checkpoint_id)
transfer_fields MessageType.file_complete limits = do
  file_id ← read_id "file id"
  size ← read_u64
  hash ← read_digest
  pure (TransferControl.file_complete file_id size hash)
transfer_fields MessageType.file_rejected limits = do
  file_id ← read_id "file id"
  reason ← read_enum "file reject reason"
  pure (TransferControl.file_rejected file_id reason)
transfer_fields MessageType.transfer_complete limits = do
  transfer_id ← read_id "transfer id"
  files ← read_u64
  size ← read_u64
  pure (TransferControl.transfer_complete transfer_id files size)
transfer_fields MessageType.transfer_error limits = do
  scope ← read_enum "transfer error scope"
  code ← read_u32
  retryable ← read_bool "retryable"
  message ← read_string max_transfer_error_message_len "transfer error message"
  pure (TransferControl.transfer_error scope code retryable message)
transfer_fields _ limits = lift (err (invalid_value "transfer message type"))

unfoldable pub decode_transfer : MessageType → CodecLimits → Parser TransferControl
decode_transfer kind limits = do
  message ← transfer_fields kind limits
  lift (validate_transfer message)
  pure message
