-- ===== src/TransferProtocol/Codec/Envelope/RoundTrip.antt =====
-- crates/transfer-protocol/src/codec.rs: a message that is written is read back.
use dart_udp.Base.{
  ℕ, ◌+◌, ◌≡◌, ◌<◌, ◌≤◌, ◌^◌, refl, arith, subst, ltb, ◌&&◌, ◌||◌, fail_if, ok_or, false, List, [],
  ◌++◌, length, ok,
}
use dart_udp.Base.Words.{IsU64, checked_add}
use mathlib.Core.List.{append-nil}
use dart_udp.Base.Cursor.{ReadsBack-between}
use dart_udp.TransferProtocol.Error.{message_too_large}
use dart_udp.TransferProtocol.Wire.Fields.{fail_if-or}
use dart_udp.Base.{min, ltb→le, >>=-eq-ok}
use dart_udp.Base.Words.{u32_max, u64_max}
use dart_udp.TransferProtocol.Wire.Read.{finish}
use dart_udp.TransferProtocol.Codec.Envelope.{
  max_message_flags, protocol_version, frame, frame_of_len,
}
use dart_udp.TransferProtocol.Kind.{MessageType}
use dart_udp.TransferProtocol.Message.{Message, message_type}
use dart_udp.TransferProtocol.Message.Typed.{IsMessage}
use dart_udp.TransferProtocol.Message.Validate.{validate}
use dart_udp.TransferProtocol.Codec.{
  CodecLimits, envelope_len, max_manifest_item_len, validate_limits,
}
use dart_udp.TransferProtocol.Codec.Envelope.{
  is_manifest_item, encode_body, decode_body, encode_message, decode_message, header, max_len,
}
use dart_udp.TransferProtocol.Codec.Envelope.Body.{on_wire, body-Undoes}
use dart_udp.TransferProtocol.Codec.Envelope.Header.{
  written, length-written, drop-written, written-total, decode_envelope-written,
  check_declared-written,
}

finish-end : (body : List ℕ) → finish body (length body) ≡ ok tt
unfolding finish
finish-end body = ground arith

-- What the checks of the writer say of the length.
pub record Fits (limits : CodecLimits) (kind : MessageType) (total : ℕ) : Type 0 where
  pub limit : total ≤ limits.max_message_len
  pub word : total < 2 ^ 32
  pub item : (is_manifest_item kind && ltb max_manifest_item_len total) ≡ false

Fits-max_len :
    (limits : CodecLimits) (kind : MessageType) (total : ℕ)
    → total ≤ max_len limits kind
    → total < 2 ^ 32
    → Fits limits kind total
unfolding max_len
Fits-max_len limits kind total small word = record {
  limit = ground (arith, small);
  word = word;
  item = ground (arith, small);
}

module _ (limits : CodecLimits) (kind : MessageType) (flags request_id : ℕ) (body : List ℕ) where
  frame_of_len-eq-ok :
      (total : ℕ) {bytes : List ℕ}
      → frame_of_len limits kind flags request_id body total ≡ ok bytes
      → (bytes ≡ written total request_id flags kind body) × Fits limits kind total
  unfolding frame_of_len written
  frame_of_len-eq-ok total {bytes} h =
      let maximum = max_len limits kind in
      let (_, passed, e) =
        >>=-eq-ok
          (fail_if (ltb maximum total || ltb u32_max total)
            (message_too_large (min maximum u32_max) total))
          (λ _. ok (header total kind flags request_id ++ body)) h in
      let (small, word) = fail_if-or (ltb maximum total) (ltb u32_max total) _ passed in
      (
        cc,
        Fits-max_len limits kind total (ltb→le maximum total small)
            (omega (arith, ltb→le u32_max total word)),
      )

  pub frame-eq-ok :
      {bytes : List ℕ}
      → frame limits kind flags request_id body ≡ ok bytes
      → (bytes ≡ written (16 + length body) request_id flags kind body)
        × Fits limits kind (16 + length body)
  unfolding frame
  frame-eq-ok {bytes} h =
      let (total, sum, e) =
        >>=-eq-ok
          (ok_or (checked_add envelope_len (length body))
            (message_too_large limits.max_message_len u64_max))
          (λ total. frame_of_len limits kind flags request_id body total) h in
      let size : total ≡ 16 + length body = ground (arith, sum) in
      subst (λ n. (bytes ≡ written n request_id flags kind body) × Fits limits kind n) size
        (frame_of_len-eq-ok total e)

-- What is framed is taken apart again.
decode_message-written :
    (limits : CodecLimits) (kind : MessageType) (flags request_id : ℕ) (body : List ℕ) (m : Message)
    → validate_limits limits ≡ ok tt
    → IsU64 request_id
    → flags ≤ max_message_flags
    → Fits limits kind (16 + length body)
    → decode_body kind limits body 0 ≡ ok (m, length body)
    → decode_message (written (16 + length body) request_id flags kind body) limits
      ≡ ok (record {
        envelope = record {
          kind = kind;
          version = protocol_version;
          flags = flags;
          request_id = request_id;
        };
        message = m;
      })
unfolding decode_message
decode_message-written limits kind flags request_id body m limited id_fits small fits read =
    let total = 16 + length body in
    let not_short : ltb total envelope_len ≡ false = ground arith in
    let not_long : ltb limits.max_message_len total ≡ false = ground (arith, fits.limit) in
    rw (
      limited,
      length-written total request_id flags kind body,
      not_short,
      not_long,
      written-total total request_id flags kind body fits.word,
      check_declared-written limits total request_id flags kind body refl fits.limit,
      decode_envelope-written total request_id flags kind body id_fits small fits.word fits.item,
      drop-written total request_id flags kind body,
      read,
      finish-end body,
    )

body-read :
    (limits : CodecLimits) (m : Message) (body : List ℕ)
    → IsMessage m
    → validate m ≡ ok tt
    → encode_body limits m [] ≡ ok body
    → length body ≤ u64_max
    → decode_body (message_type m) limits body 0 ≡ ok (on_wire m, length body)
body-read limits m body typed valid wrote fits =
    let whole : body ++ [] ≡ body = append-nil body in
    subst (λ t. decode_body (message_type m) limits t 0 ≡ ok (on_wire m, length body)) whole
      (ReadsBack-between _ _ _ [] body [] (body-Undoes limits m typed valid).back wrote
        (rw whole fits))

-- A control message of well typed fields that `encode_message_with_limits` writes, with a request
-- id of a u64 and flags among the three known bits, is decoded under the same limits to an
-- envelope with its type, version 1, the flags and the request id, and to itself, but that a
-- candidate whose interface index is u32::MAX comes back without one.
pub decode_message-encode_message :
    (m : Message) (request_id flags : ℕ) (limits : CodecLimits) {bytes : List ℕ}
    → IsMessage m
    → IsU64 request_id
    → flags ≤ max_message_flags
    → encode_message m request_id flags limits ≡ ok bytes
    → decode_message bytes limits
      ≡ ok (record {
        envelope = record {
          kind = message_type m;
          version = protocol_version;
          flags = flags;
          request_id = request_id;
        };
        message = on_wire m;
      })
unfolding encode_message
decode_message-encode_message m request_id flags limits {bytes} typed id_fits small encoded =
    let kind = message_type m in
    let (_, limited, e₁) = >>=-eq-ok (validate_limits limits) _ encoded in
    let (_, valid, e₂) = >>=-eq-ok (validate m) _ e₁ in
    let (body, wrote, e₃) =
      >>=-eq-ok (encode_body limits m []) (λ body. frame limits kind flags request_id body) e₂ in
    let (parts, fits) = frame-eq-ok limits kind flags request_id body e₃ in
    rw parts (
      decode_message-written limits kind flags request_id body (on_wire m) limited id_fits small
        fits (body-read limits m body typed valid wrote (omega (arith, fits.word))))
