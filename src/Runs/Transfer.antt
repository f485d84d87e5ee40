-- ===== src/Runs/Transfer.antt =====
-- A candidate list, written, read, cut off and extended.
use dart_udp.Base.{ℕ, ◌≡◌, refl, arith, some, List, [], ◌∷◌, ◌++◌, take, ok, err}
use dart_udp.Base.Words.{be_bytes, u32_max}
use dart_udp.TransferProtocol.Error.{declared_length_mismatch}
use dart_udp.TransferProtocol.Types.{blake3, hash_algorithm_code, v4}
use dart_udp.TransferProtocol.Kind.{message_type_code}
use dart_udp.TransferProtocol.Enums.Pairing.{CandidateKind, candidate_kind_enum}
use dart_udp.TransferProtocol.Message.{
  Candidate, PairingControl, Message, pairing, message_type, pairing_type,
}
use dart_udp.TransferProtocol.Message.Typed.{
  IsMessage, IsPairing, IsCandidate, IsOptional, IsAddress,
}
use dart_udp.TransferProtocol.Message.Validate.{
  validate, validate_pairing, validate_candidates, validate_each, validate_candidate, unusable,
}
use dart_udp.TransferProtocol.Wire
use dart_udp.TransferProtocol.Wire.{extend, require, done}
use dart_udp.TransferProtocol.Wire.Write.{
  id, u8, u16, u32, bytes_fixed, enum, digest, socket_addr_option, socket_addr,
}
use dart_udp.TransferProtocol.Codec.{default_limits, validate_limits, check_candidates}
use dart_udp.TransferProtocol.Codec.Pairing.{
  encode_pairing, encode_candidates, encode_candidate, index_word,
}
use dart_udp.TransferProtocol.Codec.Envelope.{
  encode_body, encode_message, decode_message, frame, frame_of_len, header, max_len,
  is_manifest_item,
}
use dart_udp.TransferProtocol.Codec.Envelope.Body.{on_wire}
use dart_udp.TransferProtocol.Codec.Envelope.RoundTrip.{decode_message-encode_message}
use dart_udp.TransferProtocol.Codec.Envelope.Accepted.{Accepted, decode_message-Accepted}
use dart_udp.TransferProtocol.Codec.Envelope.Refused.{decode_message-take, decode_message-append}

abbrev some_id : List ℕ
some_id = 1 ∷ 2 ∷ 3 ∷ 4 ∷ 5 ∷ 6 ∷ 7 ∷ 8 ∷ 9 ∷ 10 ∷ 11 ∷ 12 ∷ 13 ∷ 14 ∷ 15 ∷ 16 ∷ []

abbrev other_id : List ℕ
other_id = 21 ∷ 22 ∷ 23 ∷ 24 ∷ 25 ∷ 26 ∷ 27 ∷ 28 ∷ 29 ∷ 30 ∷ 31 ∷ 32 ∷ 33 ∷ 34 ∷ 35 ∷ 36 ∷ []

abbrev nines : List ℕ
nines =
    9 ∷ 9 ∷ 9 ∷ 9 ∷ 9 ∷ 9 ∷ 9 ∷ 9 ∷ 9 ∷ 9 ∷ 9 ∷ 9 ∷ 9 ∷ 9 ∷ 9 ∷ 9 ∷ 9 ∷ 9 ∷ 9 ∷ 9 ∷ 9 ∷ 9 ∷ 9 ∷ 9
    ∷ 9 ∷ 9 ∷ 9 ∷ 9 ∷ 9 ∷ 9 ∷ 9 ∷ 9 ∷ []

-- Its interface index is the word that stands for none.
abbrev camera : Candidate
camera = record {
  id = other_id;
  kind = CandidateKind.host;
  address = some (v4 (192 ∷ 168 ∷ 1 ∷ 2 ∷ []) 8080);
  priority = 100;
  interface_index = some u32_max;
}

abbrev listing : Message
listing = pairing (
    PairingControl.candidate_list some_id (camera ∷ [])
      (record { algorithm = blake3; bytes = nines }))

abbrev listing_bytes : List ℕ
listing_bytes =
    0 ∷ 0 ∷ 0 ∷ 97 ∷ 7 ∷ 1 ∷ 0 ∷ 1 ∷ 0 ∷ 0 ∷ 0 ∷ 0 ∷ 0 ∷ 0 ∷ 0 ∷ 42 ∷ 1 ∷ 2 ∷ 3 ∷ 4 ∷ 5 ∷ 6 ∷ 7 ∷ 8
    ∷ 9 ∷ 10 ∷ 11 ∷ 12 ∷ 13 ∷ 14 ∷ 15 ∷ 16 ∷ 0 ∷ 1 ∷ 21 ∷ 22 ∷ 23 ∷ 24 ∷ 25 ∷ 26 ∷ 27 ∷ 28 ∷ 29 ∷ 30
    ∷ 31 ∷ 32 ∷ 33 ∷ 34 ∷ 35 ∷ 36 ∷ 1 ∷ 4 ∷ 192 ∷ 168 ∷ 1 ∷ 2 ∷ 31 ∷ 144 ∷ 0 ∷ 100 ∷ 255 ∷ 255 ∷ 255
    ∷ 255 ∷ 1 ∷ 9 ∷ 9 ∷ 9 ∷ 9 ∷ 9 ∷ 9 ∷ 9 ∷ 9 ∷ 9 ∷ 9 ∷ 9 ∷ 9 ∷ 9 ∷ 9 ∷ 9 ∷ 9 ∷ 9 ∷ 9 ∷ 9 ∷ 9 ∷ 9
    ∷ 9 ∷ 9 ∷ 9 ∷ 9 ∷ 9 ∷ 9 ∷ 9 ∷ 9 ∷ 9 ∷ 9 ∷ 9 ∷ []

listing_run : encode_message listing 42 1 default_limits ≡ ok listing_bytes
unfolding encode_message encode_body encode_pairing encode_candidates encode_candidate index_word
    frame frame_of_len header max_len is_manifest_item message_type pairing_type message_type_code
    validate validate_pairing validate_candidates validate_each validate_candidate unusable
    validate_limits check_candidates Wire.◌>=>◌ extend require done id u8 u16 u32 bytes_fixed enum
    digest socket_addr_option socket_addr hash_algorithm_code candidate_kind_enum be_bytes
listing_run = refl

listing_typed : IsMessage listing
unfolding IsMessage IsPairing IsOptional IsAddress
listing_typed =
    let camera_typed : IsCandidate camera = record {
      id = refl;
      address = (refl, omega arith);
      priority = omega arith;
      interface_index = omega arith;
    } in
    (refl, (camera_typed, tt), refl)

decode_message-encode_message_example :
    decode_message listing_bytes default_limits
    ≡ ok (record {
      envelope = record { kind = message_type listing; version = 1; flags = 1; request_id = 42 };
      message = on_wire listing;
    })
decode_message-encode_message_example =
    decode_message-encode_message listing 42 1 default_limits listing_typed (omega arith)
      (omega arith) listing_run

decode_message-Accepted_example : Accepted listing_bytes default_limits (record {
  envelope = record { kind = message_type listing; version = 1; flags = 1; request_id = 42 };
  message = on_wire listing;
})
decode_message-Accepted_example =
    decode_message-Accepted listing_bytes default_limits decode_message-encode_message_example

decode_message-take_example :
    decode_message (take 60 listing_bytes) default_limits ≡ err (declared_length_mismatch 97 60)
decode_message-take_example =
    decode_message-take listing 42 1 default_limits 60 listing_run (omega arith)

decode_message-append_example :
    decode_message (listing_bytes ++ (0 ∷ [])) default_limits ≡ err (declared_length_mismatch 97 98)
decode_message-append_example =
    decode_message-append listing 42 1 default_limits (0 ∷ []) listing_run (omega arith)
      (omega arith)
