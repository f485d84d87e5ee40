-- ===== src/TransferProtocol/Codec/Envelope/Refused.antt =====
-- crates/transfer-protocol/src/codec.rs: a message that is cut off or has bytes behind it is refused.
use dart_udp.Base.{
  ℕ, zero, suc, ◌+◌, ◌≡◌, ◌≤◌, ◌<◌, refl, arith, ap, ◌∙◌, sym, ltb, ◌==◌, false, if◌then◌else◌,
  List, [], ◌∷◌, ◌++◌, length, length-append, length-take, take, ok, err, >>=-eq-ok, ltb→le,
  Bool-cases, inl, inr,
}
use dart_udp.Base.Words.{from_be_bytes}
use dart_udp.TransferProtocol.Error.{message_too_short, declared_length_mismatch}
use dart_udp.TransferProtocol.Message.{Message, message_type}
use dart_udp.TransferProtocol.Message.Validate.{validate}
use dart_udp.TransferProtocol.Codec.{CodecLimits, envelope_len, validate_limits}
use dart_udp.TransferProtocol.Codec.Envelope.{
  word_at, encode_body, frame, encode_message, decode_message, check_declared,
}
use dart_udp.TransferProtocol.Codec.Envelope.Header.{length-written, written-total}
use dart_udp.TransferProtocol.Codec.Envelope.RoundTrip.{frame-eq-ok}

take-take : {A : Type 0} (m n : ℕ) (xs : List A) → m ≤ n → take m (take n xs) ≡ take m xs
take-take zero n xs h = refl
take-take (suc m) zero xs h = absurd (omega arith)
take-take (suc m) (suc n) [] h = refl
take-take (suc m) (suc n) (x ∷ xs) h = ap (◌∷◌ x) (take-take m n xs (omega arith))

take-append : {A : Type 0} (m : ℕ) (xs ys : List A) → m ≤ length xs → take m (xs ++ ys) ≡ take m xs
take-append zero xs ys h = refl
take-append (suc m) [] ys h = absurd (omega arith)
take-append (suc m) (x ∷ xs) ys h = ap (◌∷◌ x) (take-append m xs ys (omega arith))

-- What an encoded message declares, and the bounds of its length.
record Declares (limits : CodecLimits) (bytes : List ℕ) : Type 0 where
  limited : validate_limits limits ≡ ok tt
  least : 16 ≤ length bytes
  most : length bytes ≤ limits.max_message_len
  declared : from_be_bytes (take 4 bytes) ≡ length bytes

encode_message-Declares :
    (m : Message) (request_id flags : ℕ) (limits : CodecLimits) {bytes : List ℕ}
    → encode_message m request_id flags limits ≡ ok bytes
    → Declares limits bytes
unfolding encode_message word_at
encode_message-Declares m request_id flags limits {bytes} encoded =
    let kind = message_type m in
    let (_, limited, e₁) = >>=-eq-ok (validate_limits limits) _ encoded in
    let (_, valid, e₂) = >>=-eq-ok (validate m) _ e₁ in
    let (body, wrote, e₃) =
      >>=-eq-ok (encode_body limits m []) (λ body. frame limits kind flags request_id body) e₂ in
    let (parts, fits) = frame-eq-ok limits kind flags request_id body e₃ in
    let size : length bytes ≡ 16 + length body =
      ap length parts ∙ length-written (16 + length body) request_id flags kind body in
    record {
      limited = limited;
      least = omega (arith, size);
      most = omega (arith, size, fits.limit);
      declared =
          ap (λ b. from_be_bytes (take 4 b)) parts
          ∙ written-total (16 + length body) request_id flags kind body fits.word
          ∙ sym size;
    }

-- Enough bytes, with another number of bytes declared.
mismatch :
    (limits : CodecLimits) (bytes : List ℕ) (declared : ℕ)
    → validate_limits limits ≡ ok tt
    → 16 ≤ length bytes
    → length bytes ≤ limits.max_message_len
    → from_be_bytes (take 4 bytes) ≡ declared
    → 16 ≤ declared
    → declared ≤ limits.max_message_len
    → (declared == length bytes) ≡ false
    → decode_message bytes limits ≡ err (declared_length_mismatch declared (length bytes))
unfolding decode_message word_at check_declared
mismatch limits bytes declared limited least most same low high other =
    let not_short : ltb (length bytes) envelope_len ≡ false = ground (arith, least) in
    let not_long : ltb limits.max_message_len (length bytes) ≡ false = ground (arith, most) in
    let not_low : ltb declared envelope_len ≡ false = ground (arith, low) in
    let not_high : ltb limits.max_message_len declared ≡ false = ground (arith, high) in
    rw (limited, not_short, not_long, same, not_low, not_high, other) refl

-- Every proper beginning of a message that `encode_message_with_limits` writes is refused: below
-- 16 bytes as too short, and from there on because the length declared is that of the whole.
pub decode_message-take :
    (m : Message) (request_id flags : ℕ) (limits : CodecLimits) (n : ℕ) {bytes : List ℕ}
    → encode_message m request_id flags limits ≡ ok bytes
    → n < length bytes
    → decode_message (take n bytes) limits
      ≡ err (
          if ltb n envelope_len
          then message_too_short envelope_len n
          else declared_length_mismatch (length bytes) n)
unfolding decode_message
decode_message-take m request_id flags limits n {bytes} encoded cut =
    let d = encode_message-Declares m request_id flags limits encoded in
    let size : length (take n bytes) ≡ n = omega (arith, length-take n bytes) in
    elim (Bool-cases (ltb n envelope_len)) [
      | inl short ↦ rw (d.limited, size, short) refl
      | inr long ↦ rw long (
          mismatch limits (take n bytes) (length bytes) d.limited
            (omega (arith, size, ltb→le n envelope_len long)) (omega (arith, size, d.most))
            (ap from_be_bytes (take-take 4 n bytes (omega (arith, ltb→le n envelope_len long)))
              ∙ d.declared)
            d.least d.most (ground (arith, size))
          ∙ ap (λ k. err (declared_length_mismatch (length bytes) k)) size)
    ]

-- A message that `encode_message_with_limits` writes, with at least one byte behind it and still
-- within the limit, is refused because of the length declared.
pub decode_message-append :
    (m : Message) (request_id flags : ℕ) (limits : CodecLimits) (more : List ℕ) {bytes : List ℕ}
    → encode_message m request_id flags limits ≡ ok bytes
    → 0 < length more
    → length (bytes ++ more) ≤ limits.max_message_len
    → decode_message (bytes ++ more) limits
      ≡ err (declared_length_mismatch (length bytes) (length (bytes ++ more)))
decode_message-append m request_id flags limits more {bytes} encoded some_more most =
    let d = encode_message-Declares m request_id flags limits encoded in
    let size = length-append bytes more in
    mismatch limits (bytes ++ more) (length bytes) d.limited (omega (arith, size, d.least)) most
      (ap from_be_bytes (take-append 4 bytes more (omega (arith, d.least))) ∙ d.declared) d.least
      d.most (ground (arith, size))
