-- ===== src/TransferProtocol/Codec.antt =====
-- crates/transfer-protocol/src/codec.rs: the limits, candidates, and the three kinds of message.
pub mod Pairing
pub mod Transfer
pub mod Path
pub mod RoundTrip
pub mod Decoded
pub mod Envelope
use dart_udp.Base.{ℕ, ltb, ◌||◌, Result, ok, fail_if, ◌>>=◌, ◌>>◌}
use dart_udp.TransferProtocol.Error.{ProtocolError, too_many_items, invalid_value}
use dart_udp.TransferProtocol.Message.{max_candidates, max_manifest_files}

abbrev pub envelope_len : ℕ
envelope_len = 16

abbrev pub max_control_message_len : ℕ
max_control_message_len = 1_048_576

abbrev pub max_manifest_item_len : ℕ
max_manifest_item_len = 16_384

pub record CodecLimits : Type 0 where
  pub max_message_len : ℕ
  pub candidates : ℕ
  pub manifest_files : ℕ

-- `CodecLimits::default`
abbrev pub default_limits : CodecLimits
default_limits = record {
  max_message_len = max_control_message_len;
  candidates = max_candidates;
  manifest_files = max_manifest_files;
}

unfoldable pub validate_limits : CodecLimits → Result ProtocolError (Unit {0})
validate_limits limits = do
  fail_if
      (ltb limits.max_message_len envelope_len
        || ltb max_control_message_len limits.max_message_len)
      (invalid_value "max_message_len")
  fail_if (ltb max_candidates limits.candidates) (invalid_value "max_candidates")
  fail_if (ltb max_manifest_files limits.manifest_files) (invalid_value "max_manifest_files")

-- The check of a number of files, on both sides.
unfoldable pub check_file_count : CodecLimits → ℕ → Result ProtocolError (Unit {0})
check_file_count limits file_count =
    fail_if (ltb limits.manifest_files file_count)
      (too_many_items "file_count" limits.manifest_files file_count)

unfoldable pub check_candidates : CodecLimits → ℕ → Result ProtocolError (Unit {0})
check_candidates limits count =
    fail_if (ltb limits.candidates count) (too_many_items "candidates" limits.candidates count)
