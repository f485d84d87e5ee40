-- ===== src/UdpProtocol/Frame/RoundTrip/Control.antt =====
-- crates/udp-protocol/src/frame.rs: `Ping`, `Pong` and `ConnectionClose` are read back.
use dart_udp.Base.{◌^◌, ◌<◌, ◌≡◌, true}
use dart_udp.UdpProtocol.Cursor.{
  ReadsBack, ReadsBack-bind, ReadsBack-last, ReadsBack-require, Reads-pure, Reads-lift,
}
use dart_udp.UdpProtocol.Reader.Laws.{
  read_u8-ReadsBack, read_u32-ReadsBack, read_u64-ReadsBack, read_blob-ReadsBack,
}
use dart_udp.UdpProtocol.Frame.{Ping, Pong, ConnectionClose, max_close_reason_len}
use dart_udp.Base.Utf8.{is_utf8}
use dart_udp.UdpProtocol.Frame.Control.{
  encode_ping, decode_ping, encode_pong, decode_pong, encode_connection_close,
  decode_connection_close,
}

pub ping-ReadsBack : (v : Ping) → v.nonce < 2 ^ 64 → ReadsBack (encode_ping v) decode_ping v
unfolding encode_ping decode_ping
ping-ReadsBack v t = ReadsBack-last _ _ _ _ _ (read_u64-ReadsBack v.nonce t) (Reads-pure v)

pub pong-ReadsBack : (v : Pong) → v.nonce < 2 ^ 64 → ReadsBack (encode_pong v) decode_pong v
unfolding encode_pong decode_pong
pong-ReadsBack v t = ReadsBack-last _ _ _ _ _ (read_u64-ReadsBack v.nonce t) (Reads-pure v)

pub connection_close-ReadsBack :
    (v : ConnectionClose)
    → v.error_code < 2 ^ 32
    → is_utf8 v.reason ≡ true
    → ReadsBack (encode_connection_close v) decode_connection_close v
unfolding encode_connection_close decode_connection_close
connection_close-ReadsBack v t utf8 = ReadsBack-require decode_connection_close _ _ v λ short.
    ReadsBack-bind _ _ _ _ _ _ (read_u32-ReadsBack v.error_code t) (
      ReadsBack-bind _ _ _ _ _ _ (read_u8-ReadsBack v.frame_type) (
        ReadsBack-last _ _ _ _ _ (read_blob-ReadsBack v.reason max_close_reason_len "close reason")
          (Reads-lift _ v (rw utf8))))
