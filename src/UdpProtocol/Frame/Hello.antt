-- ===== src/UdpProtocol/Frame/Hello.antt =====
-- crates/udp-protocol/src/frame.rs: the frames of the handshake.
use dart_udp.Base.Words.{be_bytes}
use dart_udp.UdpProtocol.Cursor.{Parser, Writer, ◌>>=◌, ◌>>◌, pure, lift, require, extend, ◌>=>◌}
use dart_udp.UdpProtocol.Reader.{write_blob}
use dart_udp.UdpProtocol.Reader.Fields.{read_u16, read_u32, read_u64, read_array, read_blob}
use dart_udp.UdpProtocol.Frame.{
  validate_hello, ClientHello, ServerHello, HandshakeAck, Retry, nonce_len, x25519_public_key_len,
  finished_tag_len, max_cookie_len, max_retry_cookie_len,
}

unfoldable pub encode_client_hello : ClientHello → Writer
encode_client_hello v =
    require (
      validate_hello v.max_datagram_size v.max_streams v.initial_connection_window
        v.initial_stream_window)
    >=> extend v.client_nonce
    >=> extend v.client_public_key
    >=> extend (be_bytes 2 v.max_datagram_size)
    >=> extend (be_bytes 4 v.max_streams)
    >=> extend (be_bytes 8 v.initial_connection_window)
    >=> extend (be_bytes 8 v.initial_stream_window)
    >=> write_blob v.cookie max_cookie_len

unfoldable pub decode_client_hello : Parser ClientHello
decode_client_hello = do
  client_nonce ← read_array nonce_len
  client_public_key ← read_array x25519_public_key_len
  max_datagram_size ← read_u16
  max_streams ← read_u32
  initial_connection_window ← read_u64
  initial_stream_window ← read_u64
  cookie ← read_blob max_cookie_len "client cookie"
  lift
      (validate_hello max_datagram_size max_streams initial_connection_window initial_stream_window)
  pure (record {
    client_nonce = client_nonce;
    client_public_key = client_public_key;
    max_datagram_size = max_datagram_size;
    max_streams = max_streams;
    initial_connection_window = initial_connection_window;
    initial_stream_window = initial_stream_window;
    cookie = cookie;
  })

unfoldable pub encode_server_hello : ServerHello → Writer
encode_server_hello v =
    require (
      validate_hello v.max_datagram_size v.max_streams v.initial_connection_window
        v.initial_stream_window)
    >=> extend v.server_nonce
    >=> extend v.server_public_key
    >=> extend v.server_finished
    >=> extend (be_bytes 2 v.max_datagram_size)
    >=> extend (be_bytes 4 v.max_streams)
    >=> extend (be_bytes 8 v.initial_connection_window)
    >=> extend (be_bytes 8 v.initial_stream_window)
    >=> write_blob v.cookie max_cookie_len

unfoldable pub decode_server_hello : Parser ServerHello
decode_server_hello = do
  server_nonce ← read_array nonce_len
  server_public_key ← read_array x25519_public_key_len
  server_finished ← read_array finished_tag_len
  max_datagram_size ← read_u16
  max_streams ← read_u32
  initial_connection_window ← read_u64
  initial_stream_window ← read_u64
  cookie ← read_blob max_cookie_len "server cookie"
  lift
      (validate_hello max_datagram_size max_streams initial_connection_window initial_stream_window)
  pure (record {
    server_nonce = server_nonce;
    server_public_key = server_public_key;
    server_finished = server_finished;
    max_datagram_size = max_datagram_size;
    max_streams = max_streams;
    initial_connection_window = initial_connection_window;
    initial_stream_window = initial_stream_window;
    cookie = cookie;
  })

unfoldable pub encode_handshake_ack : HandshakeAck → Writer
encode_handshake_ack v = write_blob v.cookie max_cookie_len >=> extend v.client_finished

unfoldable pub decode_handshake_ack : Parser HandshakeAck
decode_handshake_ack = do
  cookie ← read_blob max_cookie_len "handshake cookie"
  client_finished ← read_array finished_tag_len
  pure (record { cookie = cookie; client_finished = client_finished })

unfoldable pub encode_retry : Retry → Writer
encode_retry v = write_blob v.cookie max_retry_cookie_len

unfoldable pub decode_retry : Parser Retry
decode_retry = do
  cookie ← read_blob max_retry_cookie_len "retry cookie"
  pure (record { cookie = cookie })
