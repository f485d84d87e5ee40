-- ===== src/TransferProtocol/Codec/Envelope/Header.antt =====
-- crates/transfer-protocol/src/codec.rs: the header of a message is read back.
use dart_udp.Base.{
  ℕ, ◌/◌, ◌+◌, ◌≡◌, ◌<◌, ◌≤◌, ◌^◌, refl, arith, ◌∙◌, sym, ltb, bit_and, ◌&&◌, false, List, ◌++◌,
  length, drop, ok,
}
use dart_udp.Base.Bits.{bit_and_digit, zero-bit_and}
use dart_udp.Base.Words.{be_bytes, be_value, from_be_bytes-be_bytes}
use dart_udp.TransferProtocol.Kind.{
  MessageType, message_type_code, message_type_of-message_type_code,
}
use dart_udp.TransferProtocol.Codec.{CodecLimits, max_manifest_item_len}
use dart_udp.TransferProtocol.Codec.Envelope.{
  decode_envelope, is_manifest_item, check_declared, header, word_at, from_bits,
}

-- Three bits are below all of those in the mask.
pub no_other_bits : (flags : ℕ) → flags ≤ 7 → bit_and flags 0xfff8 ≡ 0
no_other_bits flags small =
    let end : flags / 2 / 2 / 2 ≡ 0 = omega arith in
    let last : bit_and (flags / 2 / 2 / 2) 0x1fff ≡ 0 = rw end (zero-bit_and 0x1fff) in
    omega (
      arith,
      last,
      bit_and_digit (flags / 2 / 2) 0x3ffe,
      bit_and_digit (flags / 2) 0x7ffc,
      bit_and_digit flags 0xfff8,
    )

pub from_bits-small : (flags : ℕ) → flags ≤ 7 → from_bits flags ≡ ok flags
unfolding from_bits
from_bits-small flags small = rw (no_other_bits flags small)

-- What the receiver reads behind the header.
module _ (total request_id flags : ℕ) (kind : MessageType) (body : List ℕ) where
  unfoldable pub written : List ℕ
  written = header total kind flags request_id ++ body

  pub length-written : length written ≡ 16 + length body
  unfolding written header be_bytes
  length-written = omega arith

  pub drop-written : drop 16 written ≡ body
  unfolding written header be_bytes
  drop-written = refl

  pub written-total : total < 2 ^ 32 → word_at written 0 4 ≡ total
  unfolding written header word_at be_bytes
  written-total fits = from_be_bytes-be_bytes 4 total fits

  written-kind : word_at written 4 1 ≡ message_type_code kind
  unfolding written header word_at be_bytes be_value
  written-kind = omega arith

  written-version : word_at written 5 1 ≡ 1
  unfolding written header word_at be_bytes be_value
  written-version = refl

  written-flags : flags < 2 ^ 16 → word_at written 6 2 ≡ flags
  unfolding written header word_at be_bytes
  written-flags fits = from_be_bytes-be_bytes 2 flags fits

  written-id : request_id < 2 ^ 64 → word_at written 8 8 ≡ request_id
  unfolding written header word_at be_bytes
  written-id fits = from_be_bytes-be_bytes 8 request_id fits

-- A header behind which the number of bytes declared follows is read as it was written.
pub decode_envelope-written :
    (total request_id flags : ℕ) (kind : MessageType) (body : List ℕ)
    → request_id < 2 ^ 64
    → flags ≤ 7
    → total < 2 ^ 32
    → (is_manifest_item kind && ltb max_manifest_item_len total) ≡ false
    → decode_envelope (written total request_id flags kind body) total
      ≡ ok (record { kind = kind; version = 1; flags = flags; request_id = request_id })
unfolding decode_envelope
decode_envelope-written total request_id flags kind body id_fits small fits item = rw (
  written-kind total request_id flags kind body,
  message_type_of-message_type_code kind,
  item,
  written-version total request_id flags kind body,
  written-flags total request_id flags kind body (omega arith),
  from_bits-small flags small,
  written-id total request_id flags kind body id_fits,
)

-- The header's checks of the length.
pub check_declared-written :
    (limits : CodecLimits) (total request_id flags : ℕ) (kind : MessageType) (body : List ℕ)
    → total ≡ 16 + length body
    → total ≤ limits.max_message_len
    → check_declared (written total request_id flags kind body) limits total ≡ ok tt
unfolding check_declared
check_declared-written limits total request_id flags kind body size fits =
    let same : length (written total request_id flags kind body) ≡ total =
      length-written total request_id flags kind body ∙ sym size in
    ground (arith, same)
