-- ===== src/UdpProtocol/Codec/Accepted.antt =====
-- crates/udp-protocol/src/codec.rs: what holds of a datagram that `decode_packet` accepts.
use dart_udp.Base.{
  ℕ, zero, suc, ◌+◌, ◌-◌, ◌≤◌, ◌≡◌, refl, sym, ap, ◌∙◌, arith, subst, List, [], ◌∷◌, length, drop,
  Bool, true, false, not, is_empty, ltb, ◌==◌, ==_iff, Bool-cases, inl, inr, Result, ok, err,
  fail_if, >>=-eq-ok,
}
use dart_udp.UdpProtocol.Error.{
  ProtocolError, empty_packet, encrypted_packet_requires_keys, datagram_too_short,
  datagram_too_large, payload_length_mismatch, invalid_magic, unsupported_version,
  invalid_header_length,
}
use dart_udp.UdpProtocol.Frame.{Frame, fixed_header_len}
use dart_udp.UdpProtocol.Checksum.{crc32c_with_zeroed_range}
use dart_udp.UdpProtocol.Packet.{
  Packet, PacketHeader, magic, version, encrypted, flags_contain, flags_from_bits, to_packet_type,
}
use dart_udp.UdpProtocol.Codec.{
  max_frame_count, field, decode_header, decode_header_and_lengths, validate_datagram_limit,
  verify_checksum, decode_one, decode_each, decode_frames, decode_plain_packet, decode_packet,
}

ok-injective {ℓ} :
    {A : Type ℓ} (a : A) {b : A} → ◌≡◌ {A = Result ProtocolError A} (ok a) (ok b) → a ≡ b
ok-injective {A = A} a h = ap value h
  where
    value : Result ProtocolError A → A
    value (ok c) = c
    value (err e) = a

passed : (b : Bool) (e : ProtocolError) {u : Unit {0}} → fail_if (not b) e ≡ ok u → b ≡ true
passed true e h = refl
passed false e h = cc

not_failed : (b : Bool) (e : ProtocolError) {u : Unit {0}} → fail_if b e ≡ ok u → b ≡ false
not_failed true e h = cc
not_failed false e h = refl

-- The fields of a header stand at their places in the datagram.
record IsHeader (bytes : List ℕ) (header : PacketHeader) : Type 0 where
  header_len : header.header_len ≡ fixed_header_len
  connection_id : header.connection_id ≡ field bytes 8 8
  packet_number : header.packet_number ≡ field bytes 16 8
  checksum : header.checksum ≡ field bytes 26 4
  payload_len : header.payload_len ≡ field bytes 24 2

decode_header-IsHeader :
    (bytes : List ℕ) (header : PacketHeader)
    → decode_header bytes ≡ ok header
    → IsHeader bytes header
unfolding decode_header
decode_header-IsHeader bytes header h =
    let (a, h₁, k₁) =
      >>=-eq-ok (fail_if (not (field bytes 0 2 == magic)) (invalid_magic magic (field bytes 0 2))) _
        h in
    let (b, h₂, k₂) =
      >>=-eq-ok (fail_if (not (field bytes 2 1 == version)) (unsupported_version (field bytes 2 1)))
        _ k₁ in
    let (t, h₃, k₃) = >>=-eq-ok (to_packet_type (field bytes 3 1)) _ k₂ in
    let (f, h₄, k₄) = >>=-eq-ok (flags_from_bits (field bytes 4 2)) _ k₃ in
    let (c, h₅, k₅) =
      >>=-eq-ok
        (fail_if (not (field bytes 6 2 == fixed_header_len))
          (invalid_header_length fixed_header_len (field bytes 6 2)))
        _ k₄ in
    let same = ok-injective _ k₅ in
    let fixed = (==_iff _ _).0 (passed _ _ h₅) in
    record {
      header_len = sym (ap (λ r. PacketHeader.header_len r) same) ∙ fixed;
      connection_id = sym (ap (λ r. PacketHeader.connection_id r) same);
      packet_number = sym (ap (λ r. PacketHeader.packet_number r) same);
      checksum = sym (ap (λ r. PacketHeader.checksum r) same);
      payload_len = sym (ap (λ r. PacketHeader.payload_len r) same);
    }

decode_each-length :
    (room : ℕ) (payload : List ℕ) (offset : ℕ) (frames : List Frame)
    → decode_each room payload offset ≡ ok frames
    → length frames ≤ room
unfolding decode_each
decode_each-length zero payload offset frames h = elim (Bool-cases (ltb offset (length payload))) [
  | inl more ↦ cc (h, more)
  | inr done ↦ omega (arith, ap length (ok-injective [] (rw done at h)))
]
decode_each-length (suc room) payload offset frames h =
    elim (Bool-cases (ltb offset (length payload))) [
      | inl more ↦
          let ((frame, next), h₁, k₁) = >>=-eq-ok (decode_one payload offset) _ (rw more at h) in
          let (rest, h₂, k₂) = >>=-eq-ok (decode_each room payload next) _ k₁ in
          let few = decode_each-length room payload next rest h₂ in
          omega (arith, few, ap length (ok-injective (frame ∷ rest) k₂))
      | inr done ↦ omega (arith, ap length (ok-injective [] (rw done at h)))
    ]

nonempty : (frames : List Frame) → is_empty frames ≡ false → 1 ≤ length frames
nonempty [] h = cc
nonempty (f ∷ fs) h = omega arith

-- What a receiver may rely on.
pub record IsAccepted (bytes : List ℕ) (max_datagram_size : ℕ) (packet : Packet) : Type 0 where
  pub declared : fixed_header_len + field bytes 24 2 ≡ length bytes
  pub small : length bytes ≤ max_datagram_size
  pub checked : crc32c_with_zeroed_range bytes 26 30 ≡ field bytes 26 4
  pub plain : flags_contain packet.flags encrypted ≡ false
  pub connection_id : packet.connection_id ≡ field bytes 8 8
  pub packet_number : packet.packet_number ≡ field bytes 16 8
  pub some_frame : 1 ≤ length packet.frames
  pub few_frames : length packet.frames ≤ max_frame_count

decode_lengths :
    (bytes : List ℕ) (max_datagram_size : ℕ) (header : PacketHeader)
    → decode_header_and_lengths bytes max_datagram_size ≡ ok header
    → IsHeader bytes header
      × (fixed_header_len + field bytes 24 2 ≡ length bytes)
      × (length bytes ≤ max_datagram_size)
unfolding decode_header_and_lengths
decode_lengths bytes max_datagram_size header h =
    let (a, h₁, k₁) = >>=-eq-ok (validate_datagram_limit max_datagram_size) _ h in
    let (b, h₂, k₂) =
      >>=-eq-ok
        (fail_if (ltb (length bytes) fixed_header_len)
          (datagram_too_short fixed_header_len (length bytes)))
        _ k₁ in
    let (c, h₃, k₃) =
      >>=-eq-ok
        (fail_if (ltb max_datagram_size (length bytes))
          (datagram_too_large max_datagram_size (length bytes)))
        _ k₂ in
    let (found, h₄, k₄) = >>=-eq-ok (decode_header bytes) _ k₃ in
    let (d, h₅, k₅) =
      >>=-eq-ok
        (fail_if (not (found.payload_len == length bytes - found.header_len))
          (payload_length_mismatch found.payload_len (length bytes - found.header_len)))
        _ k₄ in
    let good = decode_header-IsHeader bytes found h₄ in
    let fits = (==_iff _ _).0 (passed _ _ h₅) in
    let long = not_failed _ _ h₂ in
    let short = not_failed _ _ h₃ in
    (
      subst (IsHeader bytes) (ok-injective found k₅) good,
      ground (arith, fits, long, good.payload_len, good.header_len),
      ground (arith, short),
    )

-- A datagram that `decode_packet` accepts is as long as its header declares, within the limit,
-- and has the CRC32C that it declares; the packet is not encrypted, has the connection id and the
-- packet number of the header, and holds 1 to 64 frames.
pub decode_packet-IsAccepted :
    (bytes : List ℕ) (max_datagram_size : ℕ) (packet : Packet)
    → decode_packet bytes max_datagram_size ≡ ok packet
    → IsAccepted bytes max_datagram_size packet
unfolding decode_packet decode_plain_packet decode_frames verify_checksum
decode_packet-IsAccepted bytes max_datagram_size packet h =
    let (header, h₁, k₁) = >>=-eq-ok (decode_header_and_lengths bytes max_datagram_size) _ h in
    let (a, h₂, k₂) =
      >>=-eq-ok (fail_if (flags_contain header.flags encrypted) encrypted_packet_requires_keys) _
        k₁ in
    let (b, h₃, k₃) = >>=-eq-ok (verify_checksum bytes header) _ k₂ in
    let (c, h₄, k₄) =
      >>=-eq-ok (fail_if (is_empty (drop header.header_len bytes)) empty_packet) _ k₃ in
    let (frames, h₅, k₅) = >>=-eq-ok (decode_frames (drop header.header_len bytes)) _ k₄ in
    let (frames', h₆, k₆) =
      >>=-eq-ok (decode_each max_frame_count (drop header.header_len bytes) 0) _ h₅ in
    let (d, h₇, k₇) = >>=-eq-ok (fail_if (is_empty frames') empty_packet) _ k₆ in
    let (good, declared, small) = decode_lengths bytes max_datagram_size header h₁ in
    let same = ok-injective _ k₅ in
    let kept = ok-injective frames' k₇ ∙ ap (λ r. Packet.frames r) same in
    record {
      declared = declared;
      small = small;
      checked = (==_iff _ _).0 (passed _ _ h₃) ∙ good.checksum;
      plain = ap (λ r. flags_contain (Packet.flags r) encrypted) (sym same) ∙ not_failed _ _ h₂;
      connection_id = ap (λ r. Packet.connection_id r) (sym same) ∙ good.connection_id;
      packet_number = ap (λ r. Packet.packet_number r) (sym same) ∙ good.packet_number;
      some_frame = omega (arith, nonempty frames' (not_failed _ _ h₇), ap length kept);
      few_frames = omega (
        arith,
        decode_each-length max_frame_count (drop header.header_len bytes) 0 frames' h₆,
        ap length kept,
      );
    }
