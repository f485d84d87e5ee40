-- ===== src/UdpProtocol/Frame/RoundTrip/Hello.antt =====
-- crates/udp-protocol/src/frame.rs: each frame of the handshake that is written is read back.
use dart_udp.Base.{◌^◌, ◌<◌, ◌≡◌, length}
use dart_udp.UdpProtocol.Cursor.{
  ReadsBack, ReadsBack-bind, ReadsBack-last, ReadsBack-require, Reads-pure, Reads-lift,
}
use dart_udp.UdpProtocol.Reader.Laws.{
  read_u16-ReadsBack, read_u32-ReadsBack, read_u64-ReadsBack, read_array-ReadsBack,
  read_blob-ReadsBack,
}
use dart_udp.UdpProtocol.Frame.{
  ClientHello, ServerHello, HandshakeAck, Retry, nonce_len, x25519_public_key_len, finished_tag_len,
  max_cookie_len, max_retry_cookie_len,
}
use dart_udp.UdpProtocol.Frame.Hello.{
  encode_client_hello, decode_client_hello, encode_server_hello, decode_server_hello,
  encode_handshake_ack, decode_handshake_ack, encode_retry, decode_retry,
}

-- The fields are values of their machine types.
pub record FitsClientHello (v : ClientHello) : Type 0 where
  pub client_nonce : length v.client_nonce ≡ nonce_len
  pub client_public_key : length v.client_public_key ≡ x25519_public_key_len
  pub max_datagram_size : v.max_datagram_size < 2 ^ 16
  pub max_streams : v.max_streams < 2 ^ 32
  pub initial_connection_window : v.initial_connection_window < 2 ^ 64
  pub initial_stream_window : v.initial_stream_window < 2 ^ 64

pub record FitsServerHello (v : ServerHello) : Type 0 where
  pub server_nonce : length v.server_nonce ≡ nonce_len
  pub server_public_key : length v.server_public_key ≡ x25519_public_key_len
  pub server_finished : length v.server_finished ≡ finished_tag_len
  pub max_datagram_size : v.max_datagram_size < 2 ^ 16
  pub max_streams : v.max_streams < 2 ^ 32
  pub initial_connection_window : v.initial_connection_window < 2 ^ 64
  pub initial_stream_window : v.initial_stream_window < 2 ^ 64

pub client_hello-ReadsBack :
    (v : ClientHello) → FitsClientHello v → ReadsBack (encode_client_hello v) decode_client_hello v
unfolding encode_client_hello decode_client_hello
client_hello-ReadsBack v t = ReadsBack-require decode_client_hello _ _ v λ valid.
    ReadsBack-bind _ _ _ _ _ _ (read_array-ReadsBack nonce_len v.client_nonce t.client_nonce) (
      ReadsBack-bind _ _ _ _ _ _
        (read_array-ReadsBack x25519_public_key_len v.client_public_key t.client_public_key)
        (ReadsBack-bind _ _ _ _ _ _ (read_u16-ReadsBack v.max_datagram_size t.max_datagram_size) (
          ReadsBack-bind _ _ _ _ _ _ (read_u32-ReadsBack v.max_streams t.max_streams) (
            ReadsBack-bind _ _ _ _ _ _
              (read_u64-ReadsBack v.initial_connection_window t.initial_connection_window)
              (ReadsBack-bind _ _ _ _ _ _
                (read_u64-ReadsBack v.initial_stream_window t.initial_stream_window)
                (ReadsBack-last _ _ _ _ _
                  (read_blob-ReadsBack v.cookie max_cookie_len "client cookie")
                  (Reads-lift _ v valid)))))))

pub server_hello-ReadsBack :
    (v : ServerHello) → FitsServerHello v → ReadsBack (encode_server_hello v) decode_server_hello v
unfolding encode_server_hello decode_server_hello
server_hello-ReadsBack v t = ReadsBack-require decode_server_hello _ _ v λ valid.
    ReadsBack-bind _ _ _ _ _ _ (read_array-ReadsBack nonce_len v.server_nonce t.server_nonce) (
      ReadsBack-bind _ _ _ _ _ _
        (read_array-ReadsBack x25519_public_key_len v.server_public_key t.server_public_key)
        (ReadsBack-bind _ _ _ _ _ _
          (read_array-ReadsBack finished_tag_len v.server_finished t.server_finished)
          (ReadsBack-bind _ _ _ _ _ _ (read_u16-ReadsBack v.max_datagram_size t.max_datagram_size) (
            ReadsBack-bind _ _ _ _ _ _ (read_u32-ReadsBack v.max_streams t.max_streams) (
              ReadsBack-bind _ _ _ _ _ _
                (read_u64-ReadsBack v.initial_connection_window t.initial_connection_window)
                (ReadsBack-bind _ _ _ _ _ _
                  (read_u64-ReadsBack v.initial_stream_window t.initial_stream_window)
                  (ReadsBack-last _ _ _ _ _
                    (read_blob-ReadsBack v.cookie max_cookie_len "server cookie")
                    (Reads-lift _ v valid))))))))

pub handshake_ack-ReadsBack :
    (v : HandshakeAck)
    → length v.client_finished ≡ finished_tag_len
    → ReadsBack (encode_handshake_ack v) decode_handshake_ack v
unfolding encode_handshake_ack decode_handshake_ack
handshake_ack-ReadsBack v t =
    ReadsBack-bind _ _ _ _ _ _ (read_blob-ReadsBack v.cookie max_cookie_len "handshake cookie") (
      ReadsBack-last _ _ _ _ _ (read_array-ReadsBack finished_tag_len v.client_finished t)
        (Reads-pure v))

pub retry-ReadsBack : (v : Retry) → ReadsBack (encode_retry v) decode_retry v
unfolding encode_retry decode_retry
retry-ReadsBack v =
    ReadsBack-last _ _ _ _ _ (read_blob-ReadsBack v.cookie max_retry_cookie_len "retry cookie")
      (Reads-pure v)
