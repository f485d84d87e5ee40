-- ===== src/TransferProtocol/Codec/Envelope/Body.antt =====
-- crates/transfer-protocol/src/codec.rs: `decode_body` reads what `encode_body` wrote.
use dart_udp.Base.{◌≡◌, refl, leb, true, false, ok}
use dart_udp.TransferProtocol.Kind.{message_type_code}
use dart_udp.TransferProtocol.Message.{
  Message, pairing, transfer, path, message_type, pairing_type, transfer_type, path_type,
  PairingControl, TransferControl, PathCheck,
}
use dart_udp.TransferProtocol.Message.Typed.{IsMessage}
use dart_udp.TransferProtocol.Message.Validate.{validate}
use dart_udp.TransferProtocol.Wire.Laws.{Undoes, last-Undoes, done-Undoes}
use dart_udp.TransferProtocol.Codec.{CodecLimits}
use dart_udp.TransferProtocol.Codec.RoundTrip.Pairing.{on_wire_pairing, pairing-Undoes}
use dart_udp.TransferProtocol.Codec.RoundTrip.Transfer.{transfer-Undoes}
use dart_udp.TransferProtocol.Codec.RoundTrip.Path.{path-Undoes}
use dart_udp.TransferProtocol.Codec.Envelope.{encode_body, decode_body}

-- The message that the receiver sees.
unfoldable pub on_wire : Message → Message
on_wire (pairing m) = pairing (on_wire_pairing m)
on_wire (transfer m) = transfer m
on_wire (path m) = path m

-- The types of the three kinds of message lie in three ranges.
pairing_type-range :
    (m : PairingControl)
    → (leb 40 (message_type_code (pairing_type m)) ≡ false)
      × (leb 20 (message_type_code (pairing_type m)) ≡ false)
unfolding pairing_type message_type_code
pairing_type-range (PairingControl.create_pairing _ _ _ _) = (refl, refl)
pairing_type-range _ = (refl, refl)

transfer_type-range :
    (m : TransferControl)
    → (leb 40 (message_type_code (transfer_type m)) ≡ false)
      × (leb 20 (message_type_code (transfer_type m)) ≡ true)
unfolding transfer_type message_type_code
transfer_type-range (TransferControl.manifest_end _) = (refl, refl)
transfer_type-range _ = (refl, refl)

path_type-range : (m : PathCheck) → leb 40 (message_type_code (path_type m)) ≡ true
unfolding path_type message_type_code
path_type-range (PathCheck.request _ _ _ _ _) = refl
path_type-range _ = refl

pub body-Undoes :
    (limits : CodecLimits) (m : Message)
    → IsMessage m
    → validate m ≡ ok tt
    → Undoes (encode_body limits m) (decode_body (message_type m) limits) (on_wire m)
unfolding encode_body decode_body message_type on_wire IsMessage validate
body-Undoes limits (pairing m) typed valid =
    let (low, high) = pairing_type-range m in
    rw (low, high) (last-Undoes _ _ _ _ _ (pairing-Undoes limits m typed valid) (done-Undoes _))
body-Undoes limits (transfer m) typed valid =
    let (low, high) = transfer_type-range m in
    rw (low, high) (last-Undoes _ _ _ m _ (transfer-Undoes limits m typed valid) (done-Undoes _))
body-Undoes limits (path m) typed valid =
    rw (path_type-range m) (last-Undoes _ _ _ m _ (path-Undoes m typed) (done-Undoes _))
