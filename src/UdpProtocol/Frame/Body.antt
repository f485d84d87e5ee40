-- ===== src/UdpProtocol/Frame/Body.antt =====
-- crates/udp-protocol/src/frame.rs: `Frame::encode`, `Frame::encode_body` and `Frame::decode`.
use dart_udp.Base.{
  ℕ, List, [], ◌∷◌, ltb, ◌==◌, length, if◌then◌else◌, Result, ok, err, fail_if, ◌>>=◌, ◌>>◌,
}
use dart_udp.UdpProtocol.Error.{ProtocolError, frame_too_large, unknown_frame_type}
use dart_udp.UdpProtocol.Cursor.{Parser, Writer, extend, ◌>=>◌}
use dart_udp.UdpProtocol.Varint
use dart_udp.UdpProtocol.Reader.{finish}
use dart_udp.UdpProtocol.Ack.{encode_ack}
use dart_udp.UdpProtocol.Ack.Decode.{decode_ack}
use dart_udp.UdpProtocol.Frame.{
  Frame, client_hello, server_hello, handshake_ack, retry, ack, stream_open, stream_data,
  reset_stream, max_stream_data, max_data, ping, pong, connection_close, type_code,
  max_frame_body_len,
}
use dart_udp.UdpProtocol.Frame.Hello.{
  encode_client_hello, decode_client_hello, encode_server_hello, decode_server_hello,
  encode_handshake_ack, decode_handshake_ack, encode_retry, decode_retry,
}
use dart_udp.UdpProtocol.Frame.Stream.{
  encode_stream_open, decode_stream_open, encode_stream_data, decode_stream_data,
  encode_reset_stream, decode_reset_stream, encode_max_stream_data, decode_max_stream_data,
  encode_max_data, decode_max_data,
}
use dart_udp.UdpProtocol.Frame.Control.{
  encode_ping, decode_ping, encode_pong, decode_pong, encode_connection_close,
  decode_connection_close,
}

unfoldable pub encode_body : Frame → Writer
encode_body (client_hello v) = encode_client_hello v
encode_body (server_hello v) = encode_server_hello v
encode_body (handshake_ack v) = encode_handshake_ack v
encode_body (retry v) = encode_retry v
encode_body (ack v) = encode_ack v
encode_body (stream_open v) = encode_stream_open v
encode_body (stream_data v) = encode_stream_data v
encode_body (reset_stream v) = encode_reset_stream v
encode_body (max_stream_data v) = encode_max_stream_data v
encode_body (max_data v) = encode_max_data v
encode_body (ping v) = encode_ping v
encode_body (pong v) = encode_pong v
encode_body (connection_close v) = encode_connection_close v

unfoldable pub encode : Frame → Writer
encode frame output = do
  body ← encode_body frame []
  fail_if (ltb max_frame_body_len (length body)) (frame_too_large max_frame_body_len (length body))
  (extend (type_code frame ∷ []) >=> Varint.encode (length body) >=> extend body) output

-- A parser of one kind of frame, from the start of the body.
unfoldable pub parse_as :
    {A : Type 0} → (A → Frame) → Parser A → List ℕ → Result ProtocolError (Frame × ℕ)
parse_as wrap p body = do (v, offset) ← p body 0; ok (wrap v, offset)

-- The `match frame_type` of `decode`.
unfoldable pub decode_body : ℕ → List ℕ → Result ProtocolError (Frame × ℕ)
unfolding parse_as
decode_body frame_type body =
    if frame_type == 1
    then parse_as client_hello decode_client_hello body
    else if frame_type == 2
    then parse_as server_hello decode_server_hello body
    else if frame_type == 3
    then parse_as handshake_ack decode_handshake_ack body
    else if frame_type == 13
    then parse_as retry decode_retry body
    else if frame_type == 4
    then parse_as ack decode_ack body
    else if frame_type == 5
    then parse_as stream_open decode_stream_open body
    else if frame_type == 6
    then parse_as stream_data decode_stream_data body
    else if frame_type == 7
    then parse_as reset_stream decode_reset_stream body
    else if frame_type == 8
    then parse_as max_stream_data decode_max_stream_data body
    else if frame_type == 9
    then parse_as max_data decode_max_data body
    else if frame_type == 10
    then parse_as ping decode_ping body
    else if frame_type == 11
    then parse_as pong decode_pong body
    else if frame_type == 12
    then parse_as connection_close decode_connection_close body
    else err (unknown_frame_type frame_type)

unfoldable pub decode : ℕ → List ℕ → Result ProtocolError Frame
unfolding decode_body
decode frame_type body = do
  (frame, offset) ← decode_body frame_type body
  finish body offset
  ok frame
