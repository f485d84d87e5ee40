-- ===== src/UdpProtocol/Frame.antt =====
-- crates/udp-protocol/src/frame.rs: the frames of a packet. Ids are their u64, byte arrays and
-- vectors are lists of bytes, and a `String` is the list of its UTF-8 bytes.
pub mod Hello
pub mod Stream
pub mod Control
pub mod Body
pub mod RoundTrip
use dart_udp.Base.{ℕ, List, Bool, true, false, ltb, ◌==◌, Result, fail_if, ◌>>◌}
use dart_udp.UdpProtocol.Error.{ProtocolError, invalid_value}
use dart_udp.UdpProtocol.Ack.{AckFrame}

abbrev pub max_frame_body_len : ℕ
max_frame_body_len = 0xffff

abbrev pub max_cookie_len : ℕ
max_cookie_len = 128

abbrev pub max_close_reason_len : ℕ
max_close_reason_len = 1024

abbrev pub max_retry_cookie_len : ℕ
max_retry_cookie_len = 64

abbrev pub nonce_len : ℕ
nonce_len = 16

-- crypto.rs: `X25519_PUBLIC_KEY_LEN` and `FINISHED_TAG_LEN`.
abbrev pub x25519_public_key_len : ℕ
x25519_public_key_len = 32

abbrev pub finished_tag_len : ℕ
finished_tag_len = 16

pub record ClientHello : Type 0 where
  pub client_nonce : List ℕ
  pub client_public_key : List ℕ
  pub max_datagram_size : ℕ
  pub max_streams : ℕ
  pub initial_connection_window : ℕ
  pub initial_stream_window : ℕ
  pub cookie : List ℕ

pub record ServerHello : Type 0 where
  pub server_nonce : List ℕ
  pub server_public_key : List ℕ
  pub server_finished : List ℕ
  pub max_datagram_size : ℕ
  pub max_streams : ℕ
  pub initial_connection_window : ℕ
  pub initial_stream_window : ℕ
  pub cookie : List ℕ

pub record HandshakeAck : Type 0 where
  pub cookie : List ℕ
  pub client_finished : List ℕ

pub record Retry : Type 0 where
  pub cookie : List ℕ

pub record StreamOpen : Type 0 where
  pub stream_id : ℕ
  pub initial_receive_window : ℕ
  pub bidirectional : Bool

pub record StreamData : Type 0 where
  pub stream_id : ℕ
  pub offset : ℕ
  pub fin : Bool
  pub bytes : List ℕ

pub record ResetStream : Type 0 where
  pub stream_id : ℕ
  pub error_code : ℕ
  pub final_offset : ℕ

pub record MaxStreamData : Type 0 where
  pub stream_id : ℕ
  pub max_offset : ℕ

pub record MaxData : Type 0 where
  pub max_offset : ℕ

pub record Ping : Type 0 where
  pub nonce : ℕ

pub record Pong : Type 0 where
  pub nonce : ℕ

pub record ConnectionClose : Type 0 where
  pub error_code : ℕ
  pub frame_type : ℕ
  pub reason : List ℕ

pub data Frame : Type 0 where
  client_hello : ClientHello → Frame
  server_hello : ServerHello → Frame
  handshake_ack : HandshakeAck → Frame
  retry : Retry → Frame
  ack : AckFrame → Frame
  stream_open : StreamOpen → Frame
  stream_data : StreamData → Frame
  reset_stream : ResetStream → Frame
  max_stream_data : MaxStreamData → Frame
  max_data : MaxData → Frame
  ping : Ping → Frame
  pong : Pong → Frame
  connection_close : ConnectionClose → Frame

unfoldable pub is_ack_eliciting : Frame → Bool
is_ack_eliciting (ack f) = false
is_ack_eliciting (retry f) = false
is_ack_eliciting _ = true

unfoldable pub type_code : Frame → ℕ
type_code (client_hello f) = 1
type_code (server_hello f) = 2
type_code (handshake_ack f) = 3
type_code (retry f) = 13
type_code (ack f) = 4
type_code (stream_open f) = 5
type_code (stream_data f) = 6
type_code (reset_stream f) = 7
type_code (max_stream_data f) = 8
type_code (max_data f) = 9
type_code (ping f) = 10
type_code (pong f) = 11
type_code (connection_close f) = 12

-- packet.rs: `FIXED_HEADER_LEN`.
abbrev pub fixed_header_len : ℕ
fixed_header_len = 30

unfoldable pub validate_hello : ℕ → ℕ → ℕ → ℕ → Result ProtocolError (Unit {0})
validate_hello max_datagram_size max_streams initial_connection_window initial_stream_window = do
  fail_if (ltb max_datagram_size fixed_header_len) (invalid_value "max_datagram_size")
  fail_if (max_streams == 0) (invalid_value "max_streams")
  fail_if (initial_connection_window == 0) (invalid_value "initial_connection_window")
  fail_if (initial_stream_window == 0) (invalid_value "initial_stream_window")
