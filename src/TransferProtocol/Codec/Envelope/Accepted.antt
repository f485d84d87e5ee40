-- ===== src/TransferProtocol/Codec/Envelope/Accepted.antt =====
-- crates/transfer-protocol/src/codec.rs: what `decode_message_with_limits` accepts.
use dart_udp.Base.{
  ℕ, ◌≡◌, ◌≤◌, refl, arith, ◌∙◌, sym, ap, ◌==◌, ltb, not, ◌&&◌, Bool, true, false, if◌then◌else◌,
  List, length, drop, Result, ok, err, fail_if, >>=-eq-ok, ltb→le, subst,
}
use dart_udp.Base.{ok-injective}
use dart_udp.TransferProtocol.Error.{
  ProtocolError, message_too_short, message_too_large, unsupported_version,
}
use dart_udp.TransferProtocol.Kind.{MessageType, message_type_of}
use dart_udp.TransferProtocol.Message.{Message, pairing, transfer, path, message_type}
use dart_udp.TransferProtocol.Message.Validate.{validate_pairing, validate_transfer}
use dart_udp.TransferProtocol.Wire.{Parser, ◌>>=◌, pure}
use dart_udp.TransferProtocol.Wire.Read.{finish}
use dart_udp.TransferProtocol.Codec.{
  CodecLimits, envelope_len, validate_limits, max_manifest_item_len,
}
use dart_udp.TransferProtocol.Codec.Decoded.{
  Yields, pure-Yields, path-Yields, transfer-Yields, pairing-Yields,
}
use dart_udp.TransferProtocol.Codec.Envelope.{
  Envelope, DecodedMessage, protocol_version, is_manifest_item, from_bits, word_at, check_declared,
  decode_envelope, decode_body, decode_message,
}

-- `decode_path` does not validate.
unfoldable pub IsValidated : Message → Type 0
IsValidated (pairing m) = validate_pairing m ≡ ok tt
IsValidated (transfer m) = validate_transfer m ≡ ok tt
IsValidated (path m) = Unit {0}

if-Yields :
    {A : Type 0} (P : A → Type 0) (b : Bool) (p q : Parser A)
    → Yields p P
    → Yields q P
    → Yields (if b then p else q) P
if-Yields P true p q first second = first
if-Yields P false p q first second = second

map-Yields :
    {A B : Type 0} (Q : A → Type 0) (P : B → Type 0) (p : Parser A) (g : A → B)
    → Yields p Q
    → ((a : A) → Q a → P (g a))
    → Yields (p >>= λ a. pure (g a)) P
unfolding ◌>>=◌ pure
map-Yields {A} {B} Q P p g first imp = record {
  holds = λ input offset h. go input offset (p input offset) refl h;
}
  where
    go :
        (input : List ℕ) (offset : ℕ) (r : Result ProtocolError (A × ℕ)) {b : B} {n : ℕ}
        → p input offset ≡ r
        → (elim r [ ok (a, next) ↦ pure (g a) input next | err e ↦ err e ]) ≡ ok (b, n)
        → P b
    go input offset (ok (a, next)) e h =
        (pure-Yields P (g a) (imp a (first.holds input offset e))).holds input next h
    go input offset (err x) e h = absurd (cc)

decode_body-Yields :
    (kind : MessageType) (limits : CodecLimits)
    → Yields (decode_body kind limits) (λ m. (message_type m ≡ kind) × IsValidated m)
unfolding decode_body message_type IsValidated
decode_body-Yields kind limits =
    if-Yields _ _ _ _ (map-Yields _ _ _ path (path-Yields kind) λ a h. (h, tt)) (
      if-Yields _ _ _ _ (map-Yields _ _ _ transfer (transfer-Yields limits kind) λ a h. h)
        (map-Yields _ _ _ pairing (pairing-Yields limits kind) λ a h. h))

-- What is known of a message that was accepted.
pub record Accepted (bytes : List ℕ) (limits : CodecLimits) (d : DecodedMessage) : Type 0 where
  pub fits : length bytes ≤ limits.max_message_len
  pub version : d.envelope.version ≡ protocol_version
  pub kind : message_type d.message ≡ d.envelope.kind
  pub validated : IsValidated d.message

fail_if-eq-ok : (b : Bool) (e : ProtocolError) {u : Unit {0}} → fail_if b e ≡ ok u → b ≡ false
fail_if-eq-ok true e h = absurd (cc)
fail_if-eq-ok false e h = refl

version-decode_envelope :
    (bytes : List ℕ) (declared : ℕ) {envelope : Envelope}
    → decode_envelope bytes declared ≡ ok envelope
    → envelope.version ≡ 1
unfolding decode_envelope
version-decode_envelope bytes declared {envelope} h =
    let version = word_at bytes 5 1 in
    let (kind, _, e₁) = >>=-eq-ok (message_type_of (word_at bytes 4 1)) _ h in
    let (_, _, e₂) =
      >>=-eq-ok
        (fail_if (is_manifest_item kind && ltb max_manifest_item_len declared)
          (message_too_large max_manifest_item_len declared))
        _ e₁ in
    let (_, same, e₃) =
      >>=-eq-ok (fail_if (not (version == protocol_version)) (unsupported_version version)) _ e₂ in
    let (flags, _, e₄) = >>=-eq-ok (from_bits (word_at bytes 6 2)) _ e₃ in
    let one : version ≡ 1 = ground (arith, same) in
    sym (ap (λ e. e.version) (ok-injective e₄)) ∙ one

-- A control message that `decode_message_with_limits` accepts is no longer than the limit, has
-- version 1 and the type that its envelope names, and, unless it is a path check, has passed the
-- validation of its fields.
pub decode_message-Accepted :
    (bytes : List ℕ) (limits : CodecLimits) {d : DecodedMessage}
    → decode_message bytes limits ≡ ok d
    → Accepted bytes limits d
unfolding decode_message
decode_message-Accepted bytes limits {d} h =
    let declared = word_at bytes 0 4 in
    let (_, _, e₁) = >>=-eq-ok (validate_limits limits) _ h in
    let (_, _, e₂) =
      >>=-eq-ok
        (fail_if (ltb (length bytes) envelope_len) (message_too_short envelope_len (length bytes)))
        _ e₁ in
    let (_, short, e₃) =
      >>=-eq-ok
        (fail_if (ltb limits.max_message_len (length bytes))
          (message_too_large limits.max_message_len (length bytes)))
        _ e₂ in
    let (_, _, e₄) = >>=-eq-ok (check_declared bytes limits declared) _ e₃ in
    let (envelope, read_envelope, e₅) = >>=-eq-ok (decode_envelope bytes declared) _ e₄ in
    let ((m, n), read, e₆) =
      >>=-eq-ok (decode_body envelope.kind limits (drop envelope_len bytes) 0) _ e₅ in
    let (_, _, e₇) = >>=-eq-ok (finish (drop envelope_len bytes) n) _ e₆ in
    let (kind, validated) = (decode_body-Yields envelope.kind limits).holds _ _ read in
    let whole = ok-injective e₇ in
    subst (Accepted bytes limits) whole (record {
      fits = ltb→le limits.max_message_len (length bytes) (fail_if-eq-ok _ _ short);
      version = version-decode_envelope bytes declared read_envelope;
      kind = kind;
      validated = validated;
    })
