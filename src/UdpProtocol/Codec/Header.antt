-- ===== src/UdpProtocol/Codec/Header.antt =====
-- crates/udp-protocol/src/codec.rs: the header that `header_bytes` and `put_checksum` write is the
-- one that `decode_header` and `verify_checksum` read.
use dart_udp.Base.{
  ℕ, ◌%◌, ◌^◌, ◌<◌, ◌≡◌, refl, ◌∙◌, arith, List, [], ◌∷◌, ◌++◌, length, ◌==◌, bit_and, true, ok,
}
use dart_udp.Base.Words.{be_bytes, be_value, from_be_bytes-be_bytes}
use dart_udp.Base.Bits.{all_below, all_below_sound}
use dart_udp.UdpProtocol.Frame.{fixed_header_len}
use dart_udp.UdpProtocol.Checksum.{crc32c_with_zeroed_range, crc32c-replace}
use dart_udp.UdpProtocol.Packet.{
  PacketType, initial, handshake, data_packet, close, retry_packet, from_packet_type,
  to_packet_type, flags_from_bits, magic, version, unknown_bits,
}
use dart_udp.UdpProtocol.Codec.{header_bytes, put_checksum, decode_header, field}

pub to_packet_type-from_packet_type : (t : PacketType) → to_packet_type (from_packet_type t) ≡ ok t
unfolding to_packet_type from_packet_type
to_packet_type-from_packet_type initial = refl
to_packet_type-from_packet_type handshake = refl
to_packet_type-from_packet_type data_packet = refl
to_packet_type-from_packet_type close = refl
to_packet_type-from_packet_type retry_packet = refl

known_table : all_below 16 (λ x. bit_and x unknown_bits == 0) ≡ true
unfolding all_below
known_table = refl

flags_from_bits-known : (flags : ℕ) → flags < 16 → flags_from_bits flags ≡ ok flags
unfolding flags_from_bits
flags_from_bits-known flags h =
    rw (all_below_sound 16 (λ x. bit_and x unknown_bits == 0) flags h known_table)

module _ (packet_type : PacketType) (flags connection_id packet_number payload_len : ℕ) where
  -- The header up to its checksum.
  unfoldable pub front : List ℕ
  unfolding be_bytes
  front =
      be_bytes 2 magic
      ++ ((version ∷ from_packet_type packet_type ∷ [])
          ++ (be_bytes 2 flags
              ++ (be_bytes 2 fixed_header_len
                  ++ (be_bytes 8 connection_id
                      ++ (be_bytes 8 packet_number ++ be_bytes 2 (payload_len % 2 ^ 16))))))

  pub length-front : length front ≡ 26
  unfolding front
  length-front = refl

  pub put_checksum-header :
      (payload : List ℕ)
      → put_checksum
          (header_bytes packet_type flags connection_id packet_number payload_len ++ payload)
        ≡ front
          ++ (be_bytes 4 (
                crc32c_with_zeroed_range
                  (header_bytes packet_type flags connection_id packet_number payload_len
                    ++ payload)
                  26
                  30)
              ++ payload)
  unfolding front put_checksum header_bytes
  put_checksum-header payload = refl

  pub same_checksum :
      (c : ℕ) (payload : List ℕ)
      → crc32c_with_zeroed_range
          (header_bytes packet_type flags connection_id packet_number payload_len ++ payload)
          26
          30
        ≡ crc32c_with_zeroed_range (front ++ (be_bytes 4 c ++ payload)) 26 30
  unfolding front header_bytes
  same_checksum c payload = crc32c-replace front (0 ∷ 0 ∷ 0 ∷ 0 ∷ []) (be_bytes 4 c) payload refl

  -- Behind the header's front the checksum `c` and the payload.
  module _ (c : ℕ) (payload : List ℕ) where
    abbrev pub wire : List ℕ
    wire = front ++ (be_bytes 4 c ++ payload)

    field_words :
        connection_id < 2 ^ 64
        → packet_number < 2 ^ 64
        → flags < 16
        → payload_len < 2 ^ 16
        → c < 2 ^ 32
        → (field wire 4 2 ≡ flags)
          × (field wire 8 8 ≡ connection_id)
          × (field wire 16 8 ≡ packet_number)
          × (field wire 24 2 ≡ payload_len)
          × (field wire 26 4 ≡ c)
    unfolding front
    field_words a b f l s = (
      from_be_bytes-be_bytes 2 flags (omega arith),
      from_be_bytes-be_bytes 8 connection_id a,
      from_be_bytes-be_bytes 8 packet_number b,
      from_be_bytes-be_bytes 2 (payload_len % 2 ^ 16) (omega arith) ∙ omega arith,
      from_be_bytes-be_bytes 4 c s,
    )

    field_type : field wire 3 1 ≡ from_packet_type packet_type
    unfolding front be_value
    field_type = omega arith

    field_fixed :
        (field wire 0 2 ≡ magic) × (field wire 2 1 ≡ version) × (field wire 6 2 ≡ fixed_header_len)
    unfolding front be_value
    field_fixed = (refl, refl, refl)

    pub decode_header-wire :
        connection_id < 2 ^ 64
        → packet_number < 2 ^ 64
        → flags < 16
        → payload_len < 2 ^ 16
        → c < 2 ^ 32
        → decode_header wire
          ≡ ok (record {
            version = version;
            packet_type = packet_type;
            flags = flags;
            header_len = fixed_header_len;
            connection_id = connection_id;
            packet_number = packet_number;
            payload_len = payload_len;
            checksum = c;
          })
    unfolding decode_header
    decode_header-wire a b f l s =
        let (e₁, e₂, e₃, e₄, e₅) = field_words a b f l s in
        let (m, v, h) = field_fixed in
        rw (
          m,
          v,
          field_type,
          to_packet_type-from_packet_type packet_type,
          e₁,
          flags_from_bits-known flags f,
          h,
          e₂,
          e₃,
          e₄,
          e₅,
        )
