-- ===== src/UdpProtocol/Codec/RoundTrip.antt =====
-- crates/udp-protocol/src/codec.rs: `decode_packet` undoes `encode_packet`.
use dart_udp.Base.{
  ℕ, ◌+◌, ◌-◌, ◌^◌, ◌≤◌, ◌<◌, ◌≡◌, refl, ap, ◌∙◌, arith, List, [], ◌∷◌, ◌++◌, map, length,
  length-append, drop, ltb, le→ltb, ==_refl, ok, All, >>=-eq-ok, fail_if, Bool, true, false,
  is_empty,
}
use dart_udp.Base.Words.{be_bytes, u16_max, length-be_bytes}
use dart_udp.UdpProtocol.Error.{
  ProtocolError, encryption_not_allowed, empty_packet, too_many_frames, frame_too_large,
}
use dart_udp.UdpProtocol.Frame.{Frame, fixed_header_len}
use dart_udp.UdpProtocol.Frame.RoundTrip.{IsTyped, on_wire}
use dart_udp.UdpProtocol.Checksum.{crc32c_with_zeroed_range, crc32c-IsU32}
use dart_udp.UdpProtocol.Packet.{Packet, PacketHeader, version, encrypted, flags_contain}
use dart_udp.UdpProtocol.Codec.{
  max_frame_count, encode_each, encode_frames, header_bytes, encode_raw_packet, encode_packet,
  decode_header_and_lengths, validate_datagram_limit, ensure_datagram_size, verify_checksum,
  decode_each, decode_frames, decode_plain_packet, decode_packet,
}
use dart_udp.UdpProtocol.Codec.Header.{
  front, length-front, put_checksum-header, same_checksum, wire, decode_header-wire,
}
use dart_udp.UdpProtocol.Codec.Frames.{decode_each-encode_each}

-- What the Rust types guarantee of a packet; a `PacketFlags` holds known bits only.
pub record IsPacket (packet : Packet) : Type 0 where
  pub flags : packet.flags < 16
  pub connection_id : packet.connection_id < 2 ^ 64
  pub packet_number : packet.packet_number < 2 ^ 64
  pub frames : All IsTyped packet.frames

fail_if-passed : (b : Bool) (e : ProtocolError) {u : Unit {0}} → fail_if b e ≡ ok u → b ≡ false
fail_if-passed true e h = cc
fail_if-passed false e h = refl

record Payload (packet : Packet) (payload : List ℕ) : Type 0 where
  some_frame : is_empty packet.frames ≡ false
  few : length packet.frames ≤ max_frame_count
  written : encode_each packet.frames [] ≡ ok payload
  small : length payload ≤ u16_max

encode_frames-Payload :
    (packet : Packet) (payload : List ℕ)
    → encode_frames packet ≡ ok payload
    → Payload packet payload
unfolding encode_frames
encode_frames-Payload packet payload h =
    let (u, some_frame, h₁) = >>=-eq-ok (fail_if (is_empty packet.frames) empty_packet) _ h in
    let (v, few, h₂) =
      >>=-eq-ok
        (fail_if (ltb max_frame_count (length packet.frames)) (too_many_frames max_frame_count)) _
        h₁ in
    let (p, written, h₃) = >>=-eq-ok (encode_each packet.frames []) _ h₂ in
    let (w, small, last) =
      >>=-eq-ok (fail_if (ltb u16_max (length p)) (frame_too_large u16_max (length p))) _ h₃ in
    let same : p ≡ payload = cc in
    record {
      some_frame = fail_if-passed _ _ some_frame;
      few = ground (arith, few);
      written = written ∙ ap ok same;
      small = ground (arith, small, same, ap length same);
    }

is_empty-map :
    (frames : List Frame) → is_empty frames ≡ false → is_empty (map on_wire frames) ≡ false
is_empty-map [] h = cc
is_empty-map (f ∷ fs) h = refl

-- A payload that holds a frame is not empty: decoding it finds the frame.
frames-nonempty :
    (frames : List Frame) (payload : List ℕ)
    → All IsTyped frames
    → length frames ≤ max_frame_count
    → is_empty frames ≡ false
    → encode_each frames [] ≡ ok payload
    → is_empty payload ≡ false
unfolding decode_each
frames-nonempty frames (b ∷ bs) t few h e = refl
frames-nonempty [] [] t few h e = cc
frames-nonempty (f ∷ fs) [] t few h e =
    cc (decode_each-encode_each (f ∷ fs) max_frame_count [] [] t few e (omega arith))

module _ (packet : Packet) (payload : List ℕ) where
  abbrev plain_header : List ℕ
  plain_header =
      header_bytes packet.packet_type packet.flags packet.connection_id packet.packet_number
        (length payload)

  abbrev checksum_of : ℕ
  checksum_of = crc32c_with_zeroed_range (plain_header ++ payload) 26 30

  -- The datagram of a packet whose frames give the payload.
  abbrev datagram : List ℕ
  datagram =
      wire packet.packet_type packet.flags packet.connection_id packet.packet_number
        (length payload) checksum_of payload

  abbrev header : PacketHeader
  header = record {
    version = version;
    packet_type = packet.packet_type;
    flags = packet.flags;
    header_len = fixed_header_len;
    connection_id = packet.connection_id;
    packet_number = packet.packet_number;
    payload_len = length payload;
    checksum = checksum_of;
  }

  length-datagram : length datagram ≡ 30 + length payload
  length-datagram = omega (
    arith,
    length-append
        (front packet.packet_type packet.flags packet.connection_id packet.packet_number
          (length payload))
        (be_bytes 4 checksum_of ++ payload),
    length-front packet.packet_type packet.flags packet.connection_id packet.packet_number
        (length payload),
    length-append (be_bytes 4 checksum_of) payload,
    length-be_bytes 4 checksum_of,
  )

  encode_raw-datagram :
      (max : ℕ) (bytes : List ℕ)
      → encode_raw_packet packet packet.flags payload max ≡ ok bytes
      → (bytes ≡ datagram) × (30 + length payload ≤ max)
  unfolding encode_raw_packet validate_datagram_limit ensure_datagram_size
  encode_raw-datagram max bytes h = ground (
    arith,
    put_checksum-header packet.packet_type packet.flags packet.connection_id packet.packet_number
        (length payload) payload,
  )

  module _ (p : IsPacket packet) (w : Payload packet payload) where
    decode_header-datagram :
        (max : ℕ) → 30 + length payload ≤ max → decode_header_and_lengths datagram max ≡ ok header
    unfolding decode_header_and_lengths validate_datagram_limit
    decode_header-datagram max fits = rw (
      le→ltb max 30 (omega arith),
      le→ltb (length datagram) 30 (omega (arith, length-datagram)),
      le→ltb max (length datagram) (omega (arith, length-datagram)),
      decode_header-wire packet.packet_type packet.flags packet.connection_id packet.packet_number
          (length payload) checksum_of payload p.connection_id p.packet_number p.flags
          (omega (arith, w.small)) (crc32c-IsU32 _ 26 30),
      length-datagram,
      behind,
      ==_refl (length payload),
    )
      where
        behind : 30 + length payload - 30 ≡ length payload
        behind = omega arith

    verify_checksum-datagram : verify_checksum datagram header ≡ ok tt
    unfolding verify_checksum
    verify_checksum-datagram = rw (
      ← same_checksum packet.packet_type packet.flags packet.connection_id packet.packet_number
          (length payload) checksum_of payload,
      ==_refl checksum_of,
    )

    decode_frames-payload : decode_frames payload ≡ ok (map on_wire packet.frames)
    unfolding decode_frames
    decode_frames-payload = rw (
      decode_each-encode_each packet.frames max_frame_count [] payload p.frames w.few w.written
          (omega (arith, w.small)),
      is_empty-map packet.frames w.some_frame,
    )

    payload-datagram : drop 30 datagram ≡ payload
    unfolding be_bytes front
    payload-datagram = refl

    nonempty : is_empty payload ≡ false
    nonempty = frames-nonempty packet.frames payload p.frames w.few w.some_frame w.written

    decode_plain-datagram :
        decode_plain_packet datagram header
        ≡ ok (record packet { frames = map on_wire packet.frames })
    unfolding decode_plain_packet
    decode_plain-datagram =
        rw (verify_checksum-datagram, payload-datagram, nonempty, decode_frames-payload)

-- A packet of well typed fields that `encode_packet` turns into a datagram is decoded by
-- `decode_packet` to itself under the same limit on the datagram, the delay of an ACK in whole
-- microseconds.
pub decode_packet-encode_packet :
    (packet : Packet) (max_datagram_size : ℕ) (bytes : List ℕ)
    → IsPacket packet
    → encode_packet packet max_datagram_size ≡ ok bytes
    → decode_packet bytes max_datagram_size
      ≡ ok (record packet { frames = map on_wire packet.frames })
unfolding encode_packet decode_packet
decode_packet-encode_packet packet max bytes p h =
    let (u, plain, h₁) =
      >>=-eq-ok (fail_if (flags_contain packet.flags encrypted) encryption_not_allowed) _ h in
    let (payload, h₂, h₃) = >>=-eq-ok (encode_frames packet) _ h₁ in
    let w = encode_frames-Payload packet payload h₂ in
    let (e, fits) = encode_raw-datagram packet payload max bytes h₃ in
    rw (
      e,
      decode_header-datagram packet payload p w max fits,
      fail_if-passed _ _ plain,
      decode_plain-datagram packet payload p w,
    )
