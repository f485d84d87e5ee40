-- ===== src/TransferProtocol/Codec/RoundTrip/Pairing.antt =====
-- crates/transfer-protocol/src/codec.rs: `decode_pairing` reads what `encode_pairing` wrote, but for
-- an interface index that is the mark of a missing one.
use dart_udp.Base.{
  ℕ, suc, ◌≡◌, ◌^◌, ◌<◌, refl, ap, arith, ◌∙◌, ◌==◌, if◌then◌else◌, Option, none, some, List, [],
  ◌∷◌, map, length, All, ok,
}
use dart_udp.Base.Words.{u32_max, IsU32}
use dart_udp.TransferProtocol.Message.{Candidate, PairingControl, pairing_type}
use dart_udp.TransferProtocol.Message.Typed.{IsCandidate, IsPairing, IsOptional}
use dart_udp.TransferProtocol.Message.Validate.{
  validate_candidate, validate_each, validate_candidates, validate_pairing,
}
use dart_udp.TransferProtocol.Wire.Laws.{
  Undoes, bind-Undoes, known-Undoes, require-Undoes, done-Undoes, last-Undoes,
}
use dart_udp.TransferProtocol.Enums.Pairing.{candidate_kind_enum}
use dart_udp.TransferProtocol.Codec.{CodecLimits}
use dart_udp.TransferProtocol.Codec.Pairing.{
  index_word, word_index, encode_candidate, decode_candidate, encode_candidates, decode_candidates,
  encode_pairing, pairing_fields, decode_pairing,
}
use dart_udp.TransferProtocol.Codec.RoundTrip.{
  fields, bind-id-Undoes, bind-enum-Undoes, bind-socket_addr_option-Undoes, bind-u16-Undoes,
  bind-u32-Undoes, bind-u64-Undoes, bind-digest-Undoes, check-Undoes,
}

-- What is left of an interface index: `u32::MAX` is written for none.
unfoldable pub on_wire_index : Option ℕ → Option ℕ
on_wire_index none = none
on_wire_index (some v) = if v == u32_max then none else some v

unfoldable pub on_wire_candidate : Candidate → Candidate
on_wire_candidate c = record {
  id = c.id;
  kind = c.kind;
  address = c.address;
  priority = c.priority;
  interface_index = on_wire_index c.interface_index;
}

unfoldable pub on_wire_pairing : PairingControl → PairingControl
on_wire_pairing (PairingControl.candidate_list transfer_id candidates hash) =
    PairingControl.candidate_list transfer_id (map on_wire_candidate candidates) hash
on_wire_pairing m = m

word_index-index_word : (i : Option ℕ) → word_index (index_word i) ≡ on_wire_index i
unfolding word_index index_word on_wire_index
word_index-index_word none = refl
word_index-index_word (some v) = refl

index_word-IsU32 : (i : Option ℕ) → IsOptional IsU32 i → IsU32 (index_word i)
unfolding index_word IsOptional
index_word-IsU32 none typed = omega arith
index_word-IsU32 (some v) typed = typed

candidate-Undoes :
    (c : Candidate)
    → IsCandidate c
    → Undoes (encode_candidate c) decode_candidate (on_wire_candidate c)
unfolding encode_candidate decode_candidate on_wire_candidate validate_candidate
candidate-Undoes c typed = require-Undoes _ _ _ _ λ valid. bind-id-Undoes _ _ _ _ _ typed.id (
    bind-enum-Undoes _ _ _ _ _ (
      bind-socket_addr_option-Undoes _ _ _ _ typed.address (
        bind-u16-Undoes _ _ _ _ typed.priority (
          bind-u32-Undoes _ _ _ _ (index_word-IsU32 c.interface_index typed.interface_index) (
            check-Undoes _ _ _ _ valid
              (rw (word_index-index_word c.interface_index) (done-Undoes _)))))))

candidates-Undoes :
    (cs : List Candidate)
    → All IsCandidate cs
    → Undoes (encode_candidates cs) (decode_candidates (length cs)) (map on_wire_candidate cs)
unfolding encode_candidates decode_candidates
candidates-Undoes [] typed = done-Undoes []
candidates-Undoes (c ∷ cs) (typed, rest) =
    bind-Undoes _ _ _ _ _ _ (candidate-Undoes c typed)
      (last-Undoes _ _ _ _ _ (candidates-Undoes cs rest) (done-Undoes _))

validate_each-on_wire :
    (cs : List Candidate) → validate_each (map on_wire_candidate cs) ≡ validate_each cs
unfolding validate_each validate_candidate on_wire_candidate
validate_each-on_wire [] = refl
validate_each-on_wire (c ∷ cs) = rw (validate_each-on_wire cs)

length-map_on_wire : (cs : List Candidate) → length (map on_wire_candidate cs) ≡ length cs
length-map_on_wire [] = refl
length-map_on_wire (c ∷ cs) = ap suc (length-map_on_wire cs)

validate-on_wire : (m : PairingControl) → validate_pairing (on_wire_pairing m) ≡ validate_pairing m
unfolding on_wire_pairing validate_pairing validate_candidates
validate-on_wire (PairingControl.candidate_list _ cs _) =
    rw (length-map_on_wire cs, validate_each-on_wire cs)
validate-on_wire _ = refl

pairing_type-on_wire : (m : PairingControl) → pairing_type (on_wire_pairing m) ≡ pairing_type m
unfolding on_wire_pairing pairing_type
pairing_type-on_wire (PairingControl.candidate_list _ _ _) = refl
pairing_type-on_wire _ = refl

-- There are no more candidates than a u16 counts.
few_candidates : (cs : List Candidate) → validate_candidates cs ≡ ok tt → length cs < 2 ^ 16
unfolding validate_candidates
few_candidates cs valid = ground (arith, valid)

module _ (limits : CodecLimits) where
  pairing_fields-Undoes :
      (m : PairingControl)
      → IsPairing m
      → validate_pairing m ≡ ok tt
      → Undoes
          (encode_pairing limits m)
          (pairing_fields (pairing_type m) limits)
          (on_wire_pairing m)
  unfolding encode_pairing pairing_fields pairing_type IsPairing on_wire_pairing validate_pairing
  pairing_fields-Undoes (PairingControl.create_pairing _ _ _ _) (a, b, c) valid =
      search (fields) depth 30
  pairing_fields-Undoes (PairingControl.pairing_created _ _ _ _) (a, b, c) valid =
      search (fields) depth 30
  pairing_fields-Undoes (PairingControl.join_pairing _ _ _) (a, b, c) valid =
      search (fields) depth 30
  pairing_fields-Undoes (PairingControl.pairing_joined _ _ _ _) (a, b, c) valid =
      search (fields) depth 30
  pairing_fields-Undoes (PairingControl.offer_ready _ _ _ _ _) (a, b, c, d, e) valid =
      require-Undoes _ _ _ _ λ passed. bind-id-Undoes _ _ _ _ _ a (
        bind-digest-Undoes _ _ _ _ b
          (bind-u64-Undoes _ _ _ _ c (check-Undoes _ _ _ _ passed (search (fields) depth 30))))
  pairing_fields-Undoes (PairingControl.accept_offer _ _ _) (a, b) valid = search (fields) depth 30
  pairing_fields-Undoes (PairingControl.candidate_list _ cs _) (a, b, c) valid =
      require-Undoes _ _ _ _ λ passed. bind-id-Undoes _ _ _ _ _ a (
        bind-u16-Undoes _ _ _ _ (few_candidates cs valid) (
          check-Undoes _ _ _ _ passed
            (bind-Undoes _ _ _ _ _ _ (candidates-Undoes cs b) (search (fields) depth 30))))
  pairing_fields-Undoes (PairingControl.path_check_authorization _ _ _) (a, b, c) valid =
      search (fields) depth 30
  pairing_fields-Undoes (PairingControl.path_selected _ _ _ _ _) (a, b, c, d) valid =
      search (fields) depth 30
  pairing_fields-Undoes (PairingControl.relay_open _ _ _) (a, b) valid = search (fields) depth 30
  pairing_fields-Undoes (PairingControl.relay_closed _ _) a valid = search (fields) depth 30
  pairing_fields-Undoes (PairingControl.cancel _ _) (a, b) valid = search (fields) depth 30
  pairing_fields-Undoes (PairingControl.resume_ticket _ _ _ _ _ _) (a, b, c, d) valid =
      search (fields) depth 30
  pairing_fields-Undoes (PairingControl.resume_transfer _ _ _ _ _) (a, b, c) valid =
      search (fields) depth 30
  pairing_fields-Undoes (PairingControl.resume_accepted _ _ _ _ _) (a, b, c, d) valid =
      search (fields) depth 30
  pairing_fields-Undoes (PairingControl.peer_reconnected _ _) a valid = search (fields) depth 30

  pub pairing-Undoes :
      (m : PairingControl)
      → IsPairing m
      → validate_pairing m ≡ ok tt
      → Undoes
          (encode_pairing limits m)
          (decode_pairing (pairing_type m) limits)
          (on_wire_pairing m)
  unfolding decode_pairing
  pairing-Undoes m typed valid =
      last-Undoes _ _ _ _ _ (pairing_fields-Undoes m typed valid)
        (known-Undoes _ _ tt _ _ (validate-on_wire m ∙ valid) (done-Undoes _))
