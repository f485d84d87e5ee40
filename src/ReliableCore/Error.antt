-- ===== src/ReliableCore/Error.antt =====
-- crates/reliable-core/src/error.rs and the error type of config.rs.
use dart_udp.Base.{ℕ, String, Option}
use dart_udp.UdpProtocol.Error.{ProtocolError, CryptoError}
use dart_udp.TimeWheel.Error.{ConfigError, TimerError}

pub data ConnectionConfigError : Type 0 where
  datagram_size_too_small : ConnectionConfigError
  datagram_size_too_large : ConnectionConfigError
  zero_max_streams : ConnectionConfigError
  zero_window : ConnectionConfigError
  zero_buffer : ConnectionConfigError
  invalid_congestion_window : ConnectionConfigError
  invalid_timeout : ConnectionConfigError
  invalid_keepalive : ConnectionConfigError
  wheel : ConfigError → ConnectionConfigError

pub data CoreError : Type 0 where
  invalid_config : ConnectionConfigError → CoreError
  protocol : ProtocolError → CoreError
  timer : TimerError → CoreError
  connection_id_mismatch : CoreError
  invalid_state : (operation : String) → CoreError
  invalid_packet_type : CoreError
  invalid_stream_id : (stream_id : ℕ) → CoreError
  stream_limit : CoreError
  unknown_stream : (stream_id : ℕ) → CoreError
  stream_reset : (stream_id error_code : ℕ) → CoreError
  flow_control_violation : (stream_id : Option ℕ) → CoreError
  receive_buffer_full : CoreError
  send_buffer_full : CoreError
  invalid_offset : CoreError
  ack_for_unsent_packet : CoreError
  retransmission_limit : CoreError
  randomness_unavailable : CoreError
  crypto : CryptoError → CoreError
