-- ===== src/UdpProtocol/Frame/RoundTrip.antt =====
-- crates/udp-protocol/src/frame.rs: a frame that is written is read back.
pub mod Hello
pub mod Stream
pub mod Control
use dart_udp.Base.{
  ℕ, ◌+◌, ◌^◌, ◌≤◌, ◌<◌, ◌≡◌, refl, sym, ap, ◌∙◌, arith, ==_refl, List, [], ◌∷◌, ◌++◌, length, true,
  Result, ok, err, ◌>>=◌, ltb, fail_if,
}
use mathlib.Core.List.{append-nil}
use dart_udp.Base.Words.{u64_max}
use dart_udp.UdpProtocol.Error.{ProtocolError}
use dart_udp.UdpProtocol.Cursor.{Parser, Writer, Reads, ReadsBack}
use dart_udp.UdpProtocol.Ack.Normal.{IsNormal}
use dart_udp.UdpProtocol.Ack.RoundTrip.{in_micros, decode_ack-ReadsBack}
use dart_udp.UdpProtocol.Frame.{
  Frame, client_hello, server_hello, handshake_ack, retry, ack, stream_open, stream_data,
  reset_stream, max_stream_data, max_data, ping, pong, connection_close, type_code,
  max_frame_body_len, finished_tag_len,
}
use dart_udp.Base.Utf8.{is_utf8}
use dart_udp.UdpProtocol.Frame.Body.{encode_body, decode_body, decode, parse_as}
use dart_udp.UdpProtocol.Reader.{finish}
use Hello.{
  FitsClientHello, FitsServerHello, client_hello-ReadsBack, server_hello-ReadsBack,
  handshake_ack-ReadsBack, retry-ReadsBack,
}
use Stream.{
  stream_open-ReadsBack, stream_data-ReadsBack, reset_stream-ReadsBack, max_stream_data-ReadsBack,
  max_data-ReadsBack,
}
use Control.{ping-ReadsBack, pong-ReadsBack, connection_close-ReadsBack}

-- What the Rust types guarantee of a frame: fixed widths, normal ranges of an ACK, text in UTF-8.
-- The numbers that are written as varints need no bound: writing refuses those that do not fit.
abbrev pub IsTyped : Frame → Type 0
IsTyped (client_hello v) = FitsClientHello v
IsTyped (server_hello v) = FitsServerHello v
IsTyped (handshake_ack v) = length v.client_finished ≡ finished_tag_len
IsTyped (retry v) = Unit {0}
IsTyped (ack v) = IsNormal v.ranges
IsTyped (stream_open v) = Unit {0}
IsTyped (stream_data v) = Unit {0}
IsTyped (reset_stream v) = v.error_code < 2 ^ 32
IsTyped (max_stream_data v) = Unit {0}
IsTyped (max_data v) = Unit {0}
IsTyped (ping v) = v.nonce < 2 ^ 64
IsTyped (pong v) = v.nonce < 2 ^ 64
IsTyped (connection_close v) = (v.error_code < 2 ^ 32) × (is_utf8 v.reason ≡ true)

-- The frame as the receiver sees it: the delay of an ACK is in whole microseconds.
unfoldable pub on_wire : Frame → Frame
on_wire (ack v) = ack (in_micros v)
on_wire frame = frame

-- A whole body that is written by `w` from the start is read by `p` to its end.
whole_body :
    {A : Type 0} (w : Writer) (p : Parser A) (a : A) (wrap : A → Frame) (body : List ℕ)
    → ReadsBack w p a
    → w [] ≡ ok body
    → length body ≤ u64_max
    → parse_as wrap p body ≡ ok (wrap a, length body)
unfolding parse_as
whole_body w p a wrap body back h fits =
    let (bytes, e, read) = back [] body h in
    rw (read body [] [] 0 fits (e ∙ sym (append-nil bytes)) refl, ◌>>=◌)
      (ap (λ n. ok (wrap a, n)) (omega (arith, ap length e)))

decode-encode_body :
    (frame : Frame) (body : List ℕ)
    → IsTyped frame
    → encode_body frame [] ≡ ok body
    → length body ≤ u64_max
    → decode_body (type_code frame) body ≡ ok (on_wire frame, length body)
unfolding encode_body decode_body type_code on_wire
decode-encode_body (client_hello v) body t h fits =
    whole_body _ _ v client_hello body (client_hello-ReadsBack v t) h fits
decode-encode_body (server_hello v) body t h fits =
    whole_body _ _ v server_hello body (server_hello-ReadsBack v t) h fits
decode-encode_body (handshake_ack v) body t h fits =
    whole_body _ _ v handshake_ack body (handshake_ack-ReadsBack v t) h fits
decode-encode_body (retry v) body t h fits = whole_body _ _ v retry body (retry-ReadsBack v) h fits
decode-encode_body (ack v) body t h fits =
    whole_body _ _ (in_micros v) ack body (decode_ack-ReadsBack v t) h fits
decode-encode_body (stream_open v) body t h fits =
    whole_body _ _ v stream_open body (stream_open-ReadsBack v) h fits
decode-encode_body (stream_data v) body t h fits =
    whole_body _ _ v stream_data body (stream_data-ReadsBack v) h fits
decode-encode_body (reset_stream v) body t h fits =
    whole_body _ _ v reset_stream body (reset_stream-ReadsBack v t) h fits
decode-encode_body (max_stream_data v) body t h fits =
    whole_body _ _ v max_stream_data body (max_stream_data-ReadsBack v) h fits
decode-encode_body (max_data v) body t h fits =
    whole_body _ _ v max_data body (max_data-ReadsBack v) h fits
decode-encode_body (ping v) body t h fits = whole_body _ _ v ping body (ping-ReadsBack v t) h fits
decode-encode_body (pong v) body t h fits = whole_body _ _ v pong body (pong-ReadsBack v t) h fits
decode-encode_body (connection_close v) body t h fits =
    whole_body _ _ v connection_close body (connection_close-ReadsBack v t.0 t.1) h fits

-- The body that `encode_body` writes for a well typed frame, in the address space, is decoded,
-- under the frame's type code, to that frame with no byte left over, the delay of an ACK in whole
-- microseconds.
pub decode-encode :
    (frame : Frame) (body : List ℕ)
    → IsTyped frame
    → encode_body frame [] ≡ ok body
    → length body ≤ u64_max
    → decode (type_code frame) body ≡ ok (on_wire frame)
unfolding decode finish
decode-encode frame body t h fits =
    rw (decode-encode_body frame body t h fits, ◌>>=◌, ==_refl (length body))
