-- ===== src/TransferProtocol/Codec/Envelope.antt =====
-- crates/transfer-protocol/src/codec.rs: `MessageFlags`, `Envelope`, and a whole message written and
-- read.
pub mod Body
pub mod Header
pub mod RoundTrip
pub mod Refused
pub mod Accepted
use dart_udp.Base.{
  ℕ, ◌+◌, ◌==◌, ltb, leb, min, bit_and, bit_or, not, ◌||◌, ◌&&◌, Bool, true, false, if◌then◌else◌,
  List, [], ◌∷◌, ◌++◌, length, take, drop, Result, ok, ok_or, fail_if, ◌>>=◌, ◌>>◌,
}
use dart_udp.Base.Words.{be_bytes, from_be_bytes, checked_add, u32_max, u64_max}
use dart_udp.TransferProtocol.Error.{
  ProtocolError, message_too_short, message_too_large, declared_length_mismatch,
  unsupported_version, invalid_flags, invalid_value,
}
use dart_udp.TransferProtocol.Kind.{MessageType, message_type_code, message_type_of}
use dart_udp.TransferProtocol.Message.{Message, pairing, transfer, path, message_type}
use dart_udp.TransferProtocol.Message.Validate.{validate}
use dart_udp.TransferProtocol.Wire
use dart_udp.TransferProtocol.Wire.{Parser, Writer, pure}
use dart_udp.TransferProtocol.Wire.Read.{finish}
use dart_udp.TransferProtocol.Codec.{
  CodecLimits, envelope_len, max_manifest_item_len, validate_limits,
}
use dart_udp.TransferProtocol.Codec.Pairing.{encode_pairing, decode_pairing}
use dart_udp.TransferProtocol.Codec.Transfer.{encode_transfer, decode_transfer}
use dart_udp.TransferProtocol.Codec.Path.{encode_path, decode_path}

abbrev pub protocol_version : ℕ
protocol_version = 1

-- `MessageFlags` is its bits.
abbrev pub max_message_flags : ℕ
max_message_flags = 7

abbrev pub flag_response : ℕ
flag_response = 1

abbrev pub flag_error : ℕ
flag_error = 2

abbrev pub flag_more_fragments : ℕ
flag_more_fragments = 4

-- `MessageFlags::contains`
unfoldable pub contains : ℕ → ℕ → Bool
contains flags other = bit_and flags other == other

-- `MessageFlags::from_bits`: `!MAX_MESSAGE_FLAGS` is 0xfff8.
unfoldable pub from_bits : ℕ → Result ProtocolError ℕ
from_bits bits = do fail_if (not (bit_and bits 0xfff8 == 0)) (invalid_flags bits); ok bits

pub record Envelope : Type 0 where
  pub kind : MessageType
  pub version : ℕ
  pub flags : ℕ
  pub request_id : ℕ

pub record DecodedMessage : Type 0 where
  pub envelope : Envelope
  pub message : Message

unfoldable pub encode_body : CodecLimits → Message → Writer
encode_body limits (pairing m) = encode_pairing limits m
encode_body limits (transfer m) = encode_transfer limits m
encode_body limits (path m) = encode_path m

unfoldable pub decode_body : MessageType → CodecLimits → Parser Message
decode_body kind limits =
    if leb 40 (message_type_code kind)
    then Wire.◌>>=◌ (decode_path kind) (λ m. pure (path m))
    else if leb 20 (message_type_code kind)
    then Wire.◌>>=◌ (decode_transfer kind limits) (λ m. pure (transfer m))
    else Wire.◌>>=◌ (decode_pairing kind limits) (λ m. pure (pairing m))

unfoldable pub is_manifest_item : MessageType → Bool
is_manifest_item MessageType.manifest_item = true
is_manifest_item _ = false

-- How long a message of its type may be.
unfoldable pub max_len : CodecLimits → MessageType → ℕ
max_len limits kind =
    if is_manifest_item kind
    then min limits.max_message_len max_manifest_item_len
    else limits.max_message_len

unfoldable pub header : ℕ → MessageType → ℕ → ℕ → List ℕ
header total_len kind flags request_id =
    be_bytes 4 total_len
    ++ ((message_type_code kind ∷ protocol_version ∷ [])
        ++ (be_bytes 2 flags ++ be_bytes 8 request_id))

-- The check of the length, and the bytes of the envelope in front of the body.
unfoldable pub frame_of_len :
    CodecLimits → MessageType → ℕ → ℕ → List ℕ → ℕ → Result ProtocolError (List ℕ)
frame_of_len limits kind flags request_id body total_len = do
  fail_if (ltb (max_len limits kind) total_len || ltb u32_max total_len)
      (message_too_large (min (max_len limits kind) u32_max) total_len)
  ok (header total_len kind flags request_id ++ body)

unfoldable pub frame : CodecLimits → MessageType → ℕ → ℕ → List ℕ → Result ProtocolError (List ℕ)
frame limits kind flags request_id body = do
  total_len ←
      ok_or (checked_add envelope_len (length body))
        (message_too_large limits.max_message_len u64_max)
  frame_of_len limits kind flags request_id body total_len

-- `encode_message_with_limits`
unfoldable pub encode_message : Message → ℕ → ℕ → CodecLimits → Result ProtocolError (List ℕ)
encode_message message request_id flags limits = do
  validate_limits limits
  validate message
  body ← encode_body limits message []
  frame limits (message_type message) flags request_id body

-- `bytes[start..start + len]` as a number, where there are enough bytes.
unfoldable pub word_at : List ℕ → ℕ → ℕ → ℕ
word_at bytes start len = from_be_bytes (take len (drop start bytes))

-- The checks of the length that is declared.
unfoldable pub check_declared : List ℕ → CodecLimits → ℕ → Result ProtocolError (Unit {0})
check_declared bytes limits declared = do
  fail_if (ltb declared envelope_len) (invalid_value "message length")
  fail_if (ltb limits.max_message_len declared) (message_too_large limits.max_message_len declared)
  fail_if (not (declared == length bytes)) (declared_length_mismatch declared (length bytes))

-- The fields of the envelope behind the length.
unfoldable pub decode_envelope : List ℕ → ℕ → Result ProtocolError Envelope
decode_envelope bytes declared = do
  kind ← message_type_of (word_at bytes 4 1)
  fail_if (is_manifest_item kind && ltb max_manifest_item_len declared)
      (message_too_large max_manifest_item_len declared)
  fail_if (not (word_at bytes 5 1 == protocol_version)) (unsupported_version (word_at bytes 5 1))
  flags ← from_bits (word_at bytes 6 2)
  ok (record {
    kind = kind;
    version = word_at bytes 5 1;
    flags = flags;
    request_id = word_at bytes 8 8;
  })

-- `decode_message_with_limits`
unfoldable pub decode_message : List ℕ → CodecLimits → Result ProtocolError DecodedMessage
decode_message bytes limits = do
  validate_limits limits
  fail_if (ltb (length bytes) envelope_len) (message_too_short envelope_len (length bytes))
  fail_if (ltb limits.max_message_len (length bytes))
      (message_too_large limits.max_message_len (length bytes))
  check_declared bytes limits (word_at bytes 0 4)
  envelope ← decode_envelope bytes (word_at bytes 0 4)
  read ← decode_body envelope.kind limits (drop envelope_len bytes) 0
  finish (drop envelope_len bytes) read.1
  ok (record { envelope = envelope; message = read.0 })
