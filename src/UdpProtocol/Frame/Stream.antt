-- ===== src/UdpProtocol/Frame/Stream.antt =====
-- crates/udp-protocol/src/frame.rs: the frames of streams and flow control.
use dart_udp.Base.{
  ℕ, List, [], ◌∷◌, Bool, true, false, length, ◌==◌, if◌then◌else◌, Result, ok, err, ok_or, fail_if,
}
use dart_udp.Base.Words.{be_bytes, checked_add}
use dart_udp.UdpProtocol.Error.{ProtocolError, invalid_value}
use dart_udp.UdpProtocol.Cursor.{Parser, Writer, ◌>>=◌, ◌>>◌, pure, lift, require, extend, ◌>=>◌}
use dart_udp.UdpProtocol.Varint
use dart_udp.UdpProtocol.Reader.{read_u8, write_blob}
use dart_udp.UdpProtocol.Reader.Fields.{read_u32, read_varint, read_blob}
use dart_udp.UdpProtocol.Frame.{
  StreamOpen, StreamData, ResetStream, MaxStreamData, MaxData, max_frame_body_len,
}

-- `u8::from(flag)`
abbrev pub from_bool : Bool → ℕ
from_bool true = 1
from_bool false = 0

-- The `match` on a byte that stands for a flag.
unfoldable pub to_bool : ℕ → ProtocolError → Result ProtocolError Bool
to_bool byte e = if byte == 0 then ok false else if byte == 1 then ok true else err e

unfoldable pub encode_stream_open : StreamOpen → Writer
encode_stream_open v =
    require (fail_if (v.initial_receive_window == 0) (invalid_value "initial_receive_window"))
    >=> Varint.encode v.stream_id
    >=> Varint.encode v.initial_receive_window
    >=> extend (from_bool v.bidirectional ∷ [])

unfoldable pub decode_stream_open : Parser StreamOpen
decode_stream_open = do
  stream_id ← read_varint
  initial_receive_window ← read_varint
  direction ← read_u8
  bidirectional ← lift (to_bool direction (invalid_value "stream direction"))
  lift (fail_if (initial_receive_window == 0) (invalid_value "initial_receive_window"))
  pure (record {
    stream_id = stream_id;
    initial_receive_window = initial_receive_window;
    bidirectional = bidirectional;
  })

unfoldable pub encode_stream_data : StreamData → Writer
encode_stream_data v =
    Varint.encode v.stream_id
    >=> Varint.encode v.offset
    >=> extend (from_bool v.fin ∷ [])
    >=> write_blob v.bytes max_frame_body_len

-- `offset.checked_add(data.len() as u64).ok_or(...)?`, whose value is not used.
abbrev pub check_offset : ℕ → List ℕ → Result ProtocolError ℕ
check_offset offset bytes =
    ok_or (checked_add offset (length bytes)) (invalid_value "stream offset")

-- What `StreamData::decode` does behind the stream's id.
unfoldable pub after_id : ℕ → Parser StreamData
after_id stream_id = do
  offset ← read_varint
  flag ← read_u8
  fin ← lift (to_bool flag (invalid_value "stream FIN flag"))
  bytes ← read_blob max_frame_body_len "stream data"
  end ← lift (check_offset offset bytes)
  pure (record { stream_id = stream_id; offset = offset; fin = fin; bytes = bytes })

unfoldable pub decode_stream_data : Parser StreamData
unfolding after_id
decode_stream_data = do stream_id ← read_varint; after_id stream_id

unfoldable pub encode_reset_stream : ResetStream → Writer
encode_reset_stream v =
    Varint.encode v.stream_id >=> extend (be_bytes 4 v.error_code) >=> Varint.encode v.final_offset

unfoldable pub decode_reset_stream : Parser ResetStream
decode_reset_stream = do
  stream_id ← read_varint
  error_code ← read_u32
  final_offset ← read_varint
  pure (record { stream_id = stream_id; error_code = error_code; final_offset = final_offset })

unfoldable pub encode_max_stream_data : MaxStreamData → Writer
encode_max_stream_data v = Varint.encode v.stream_id >=> Varint.encode v.max_offset

unfoldable pub decode_max_stream_data : Parser MaxStreamData
decode_max_stream_data = do
  stream_id ← read_varint
  max_offset ← read_varint
  pure (record { stream_id = stream_id; max_offset = max_offset })

unfoldable pub encode_max_data : MaxData → Writer
encode_max_data v = Varint.encode v.max_offset

unfoldable pub decode_max_data : Parser MaxData
decode_max_data = do max_offset ← read_varint; pure (record { max_offset = max_offset })
