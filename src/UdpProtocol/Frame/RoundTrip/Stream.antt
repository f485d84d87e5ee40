-- ===== src/UdpProtocol/Frame/RoundTrip/Stream.antt =====
-- crates/udp-protocol/src/frame.rs: each frame of streams and flow control that is written is read
-- back.
use dart_udp.Base.{
  ℕ, ◌+◌, ◌^◌, ◌≤◌, ◌<◌, ◌≡◌, refl, arith, List, [], ◌∷◌, length, Bool, true, false, ok,
}
use dart_udp.UdpProtocol.Error.{ProtocolError}
use dart_udp.UdpProtocol.Cursor.{
  extend, ◌>=>◌, >=>-eq-ok, ReadsBack, ReadsBack-bind, ReadsBack-last, ReadsBack-require,
  Reads-pure, Reads-lift, Reads-known, ReadsBack-known,
}
use dart_udp.UdpProtocol.Varint
use dart_udp.UdpProtocol.Varint.{max_value}
use dart_udp.UdpProtocol.Reader.{write_blob}
use dart_udp.UdpProtocol.Varint.RoundTrip.{encode-fits}
use dart_udp.UdpProtocol.Reader.Laws.{
  read_u8-ReadsBack, read_u32-ReadsBack, read_varint-ReadsBack, read_blob-ReadsBack,
}
use dart_udp.UdpProtocol.Frame.{
  StreamOpen, StreamData, ResetStream, MaxStreamData, MaxData, max_frame_body_len,
}
use dart_udp.UdpProtocol.Frame.Stream.{
  encode_stream_open, decode_stream_open, encode_stream_data, decode_stream_data,
  encode_reset_stream, decode_reset_stream, encode_max_stream_data, decode_max_stream_data,
  encode_max_data, decode_max_data, after_id, from_bool, to_bool, check_offset,
}

to_bool-from_bool : (b : Bool) (e : ProtocolError) → to_bool (from_bool b) e ≡ ok b
unfolding to_bool
to_bool-from_bool true e = refl
to_bool-from_bool false e = refl

pub stream_open-ReadsBack : (v : StreamOpen) → ReadsBack (encode_stream_open v) decode_stream_open v
unfolding encode_stream_open decode_stream_open
stream_open-ReadsBack v = ReadsBack-require decode_stream_open _ _ v λ open_window.
    ReadsBack-bind _ _ _ _ _ _ (read_varint-ReadsBack v.stream_id) (
      ReadsBack-bind _ _ _ _ _ _ (read_varint-ReadsBack v.initial_receive_window) (
        ReadsBack-last _ _ _ _ _ (read_u8-ReadsBack (from_bool v.bidirectional)) (
          Reads-known _ _ v _ [] (to_bool-from_bool v.bidirectional _)
            (Reads-lift _ v open_window))))

pub reset_stream-ReadsBack :
    (v : ResetStream)
    → v.error_code < 2 ^ 32
    → ReadsBack (encode_reset_stream v) decode_reset_stream v
unfolding encode_reset_stream decode_reset_stream
reset_stream-ReadsBack v t = ReadsBack-bind _ _ _ _ _ _ (read_varint-ReadsBack v.stream_id) (
    ReadsBack-bind _ _ _ _ _ _ (read_u32-ReadsBack v.error_code t)
      (ReadsBack-last _ _ _ _ _ (read_varint-ReadsBack v.final_offset) (Reads-pure v)))

pub max_stream_data-ReadsBack :
    (v : MaxStreamData) → ReadsBack (encode_max_stream_data v) decode_max_stream_data v
unfolding encode_max_stream_data decode_max_stream_data
max_stream_data-ReadsBack v =
    ReadsBack-bind _ _ _ _ _ _ (read_varint-ReadsBack v.stream_id)
      (ReadsBack-last _ _ _ _ _ (read_varint-ReadsBack v.max_offset) (Reads-pure v))

pub max_data-ReadsBack : (v : MaxData) → ReadsBack (encode_max_data v) decode_max_data v
unfolding encode_max_data decode_max_data
max_data-ReadsBack v = ReadsBack-last _ _ _ _ _ (read_varint-ReadsBack v.max_offset) (Reads-pure v)

offset_fits :
    (offset : ℕ) (bytes : List ℕ)
    → offset ≤ max_value
    → length bytes ≤ max_frame_body_len
    → check_offset offset bytes ≡ ok (offset + length bytes)
offset_fits offset bytes p q = ground arith

blob-fits :
    (bytes output output' : List ℕ) (maximum : ℕ)
    → write_blob bytes maximum output ≡ ok output'
    → length bytes ≤ maximum
unfolding write_blob
blob-fits bytes output output' maximum h = ground arith

-- The fit of an offset is known once it is written, and that of the bytes likewise.
pub stream_data-ReadsBack : (v : StreamData) → ReadsBack (encode_stream_data v) decode_stream_data v
unfolding encode_stream_data decode_stream_data
stream_data-ReadsBack v =
    ReadsBack-bind _ _ _ _ _ _ (read_varint-ReadsBack v.stream_id) λ output output' h.
      let (next, small, more) =
        >=>-eq-ok (Varint.encode v.offset)
          (extend (from_bool v.fin ∷ []) >=> write_blob v.bytes max_frame_body_len) output h in
      let (third, flag, blob) =
        >=>-eq-ok (extend (from_bool v.fin ∷ [])) (write_blob v.bytes max_frame_body_len) next
          more in
      rest (encode-fits v.offset output next small)
        (blob-fits v.bytes third output' max_frame_body_len blob) output output' h
  where
    rest :
        v.offset ≤ max_value
        → length v.bytes ≤ max_frame_body_len
        → ReadsBack
            (Varint.encode v.offset
              >=> extend (from_bool v.fin ∷ [])
              >=> write_blob v.bytes max_frame_body_len)
            (after_id v.stream_id)
            v
    rest p q = ReadsBack-bind _ _ _ _ _ _ (read_varint-ReadsBack v.offset) (
        ReadsBack-bind _ _ _ _ _ _ (read_u8-ReadsBack (from_bool v.fin)) (
          ReadsBack-known _ _ v _ _ (to_bool-from_bool v.fin _) (
            ReadsBack-last _ _ _ _ _ (read_blob-ReadsBack v.bytes max_frame_body_len "stream data")
              (Reads-known _ _ v _ [] (offset_fits v.offset v.bytes p q) (Reads-pure v)))))
