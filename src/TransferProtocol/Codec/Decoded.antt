-- ===== src/TransferProtocol/Codec/Decoded.antt =====
-- crates/transfer-protocol/src/codec.rs: what holds of every message that is decoded.
use dart_udp.Base.{ℕ, ◌≡◌, refl, List, Result, ok, err, ok_pair-injective, subst}
use dart_udp.TransferProtocol.Error.{ProtocolError}
use dart_udp.TransferProtocol.Kind.{MessageType}
use dart_udp.TransferProtocol.Message.{pairing_type, transfer_type, path_type}
use dart_udp.TransferProtocol.Message.Validate.{validate_pairing, validate_transfer}
use dart_udp.TransferProtocol.Wire.{Parser, ◌>>=◌, ◌>>◌, pure, lift}
use dart_udp.TransferProtocol.Codec.{CodecLimits}
use dart_udp.TransferProtocol.Codec.Pairing.{pairing_fields, decode_pairing}
use dart_udp.TransferProtocol.Codec.Transfer.{transfer_fields, decode_transfer}
use dart_udp.TransferProtocol.Codec.Path.{decode_path}

-- Whatever the parser returns has the property.
pub record Yields {A : Type 0} (p : Parser A) (P : A → Type 0) : Type 0 where
  pub holds : (input : List ℕ) (offset : ℕ) {a : A} {n : ℕ} → p input offset ≡ ok (a, n) → P a

module _ {A : Type 0} (P : A → Type 0) where
  pub pure-Yields : (a : A) → P a → Yields (pure a) P
  unfolding pure
  pure-Yields a h = record {
    holds = λ input offset e. let (same, _) = ok_pair-injective e in subst P same h;
  }

  pub err-Yields : (e : ProtocolError) → Yields (lift (err e)) P
  unfolding lift
  err-Yields e = record { holds = λ input offset h. absurd (cc) }

pub bind-Yields :
    {A B : Type 0} (P : B → Type 0) (p : Parser A) (f : A → Parser B)
    → ((a : A) → Yields (f a) P)
    → Yields (p >>= f) P
unfolding ◌>>=◌
bind-Yields {A} {B} P p f k = record { holds = λ input offset h. go input (p input offset) h }
  where
    go :
        (input : List ℕ) (r : Result ProtocolError (A × ℕ)) {b : B} {n : ℕ}
        → (elim r [ ok (a, next) ↦ f a input next | err e ↦ err e ]) ≡ ok (b, n)
        → P b
    go input (ok (a, next)) h = (k a).holds input next h
    go input (err e) h = absurd (cc)

-- A message that is validated at the end.
pub validated-Yields :
    {A : Type 0} (P : A → Type 0) (p : Parser A) (check : A → Result ProtocolError (Unit {0}))
    → Yields p P
    → Yields (p >>= λ m. lift (check m) >> pure m) (λ m. P m × (check m ≡ ok tt))
unfolding ◌>>=◌ pure lift
validated-Yields {A} P p check fields = record {
  holds = λ input offset h. go input offset (p input offset) refl h;
}
  where
    checked :
        (m : A) (input : List ℕ) (next : ℕ) (r : Result ProtocolError (Unit {0})) {a : A} {n : ℕ}
        → check m ≡ r
        → P m
        → ((lift r >> pure m) input next) ≡ ok (a, n)
        → P a × (check a ≡ ok tt)
    checked m input next (ok u) passed holds h =
        let (same, _) = ok_pair-injective h in
        subst (λ t. P t × (check t ≡ ok tt)) same (holds, passed)
    checked m input next (err e) passed holds h = absurd (cc)

    go :
        (input : List ℕ) (offset : ℕ) (r : Result ProtocolError (A × ℕ)) {a : A} {n : ℕ}
        → p input offset ≡ r
        → (elim r [ ok (m, next) ↦ (lift (check m) >> pure m) input next | err e ↦ err e ])
          ≡ ok (a, n)
        → P a × (check a ≡ ok tt)
    go input offset (ok (m, next)) e h =
        checked m input next (check m) refl (fields.holds input offset e) h
    go input offset (err x) e h = absurd (cc)

ruleset kept = (pure-Yields, err-Yields, bind-Yields)

-- The fields of a message are those of the type that is asked for.
transfer_fields-Yields :
    (limits : CodecLimits) (kind : MessageType)
    → Yields (transfer_fields kind limits) (λ m. transfer_type m ≡ kind)
unfolding transfer_fields transfer_type
transfer_fields-Yields limits MessageType.session_hello = search (kept) depth 30
transfer_fields-Yields limits MessageType.manifest_item = search (kept) depth 30
transfer_fields-Yields limits _ = search (kept) depth 30

pairing_fields-Yields :
    (limits : CodecLimits) (kind : MessageType)
    → Yields (pairing_fields kind limits) (λ m. pairing_type m ≡ kind)
unfolding pairing_fields pairing_type
pairing_fields-Yields limits MessageType.create_pairing = search (kept) depth 30
pairing_fields-Yields limits _ = search (kept) depth 30

pub path-Yields : (kind : MessageType) → Yields (decode_path kind) (λ m. path_type m ≡ kind)
unfolding decode_path path_type
path-Yields MessageType.path_check_request = search (kept) depth 30
path-Yields _ = search (kept) depth 30

pub transfer-Yields :
    (limits : CodecLimits) (kind : MessageType)
    → Yields
        (decode_transfer kind limits)
        (λ m. (transfer_type m ≡ kind) × (validate_transfer m ≡ ok tt))
unfolding decode_transfer
transfer-Yields limits kind =
    validated-Yields _ _ validate_transfer (transfer_fields-Yields limits kind)

pub pairing-Yields :
    (limits : CodecLimits) (kind : MessageType)
    → Yields
        (decode_pairing kind limits)
        (λ m. (pairing_type m ≡ kind) × (validate_pairing m ≡ ok tt))
unfolding decode_pairing
pairing-Yields limits kind =
    validated-Yields _ _ validate_pairing (pairing_fields-Yields limits kind)
