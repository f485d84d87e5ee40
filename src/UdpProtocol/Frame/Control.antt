-- ===== src/UdpProtocol/Frame/Control.antt =====
-- crates/udp-protocol/src/frame.rs: `Ping`, `Pong` and `ConnectionClose`.
use dart_udp.Base.{not, [], ◌∷◌, ltb, length, fail_if}
use dart_udp.Base.Utf8.{is_utf8}
use dart_udp.Base.Words.{be_bytes}
use dart_udp.UdpProtocol.Error.{frame_too_large, invalid_utf8}
use dart_udp.UdpProtocol.Cursor.{Parser, Writer, ◌>>=◌, ◌>>◌, pure, lift, require, extend, ◌>=>◌}
use dart_udp.UdpProtocol.Reader.{read_u8, write_blob}
use dart_udp.UdpProtocol.Reader.Fields.{read_u32, read_u64, read_blob}
use dart_udp.UdpProtocol.Frame.{Ping, Pong, ConnectionClose, max_close_reason_len}

unfoldable pub encode_ping : Ping → Writer
encode_ping v = extend (be_bytes 8 v.nonce)

unfoldable pub decode_ping : Parser Ping
decode_ping = do nonce ← read_u64; pure (record { nonce = nonce })

unfoldable pub encode_pong : Pong → Writer
encode_pong v = extend (be_bytes 8 v.nonce)

unfoldable pub decode_pong : Parser Pong
decode_pong = do nonce ← read_u64; pure (record { nonce = nonce })

unfoldable pub encode_connection_close : ConnectionClose → Writer
encode_connection_close v =
    require (
      fail_if (ltb max_close_reason_len (length v.reason))
        (frame_too_large max_close_reason_len (length v.reason)))
    >=> extend (be_bytes 4 v.error_code)
    >=> extend (v.frame_type ∷ [])
    >=> write_blob v.reason max_close_reason_len

unfoldable pub decode_connection_close : Parser ConnectionClose
decode_connection_close = do
  error_code ← read_u32
  frame_type ← read_u8
  reason ← read_blob max_close_reason_len "close reason"
  lift (fail_if (not (is_utf8 reason)) (invalid_utf8 "close reason"))
  pure (record { error_code = error_code; frame_type = frame_type; reason = reason })
