-- ===== src/TransferProtocol/Codec/RoundTrip/Transfer.antt =====
-- crates/transfer-protocol/src/codec.rs: `decode_transfer` reads what `encode_transfer` wrote.
use dart_udp.Base.{
  ℕ, ◌≡◌, refl, ◌==◌, not, bit_and, bit_or, Bool, true, false, Option, none, some, ok,
}
use dart_udp.TransferProtocol.Message.{FileMetadata, TransferControl, transfer_type}
use dart_udp.TransferProtocol.Message.Typed.{IsMetadata, IsOptional, IsTransfer}
use dart_udp.TransferProtocol.Message.Validate.{validate_transfer}
use dart_udp.TransferProtocol.Wire.{Parser, Writer, ◌>>=◌, ◌>=>◌}
use dart_udp.TransferProtocol.Wire.Laws.{
  Undoes, bind-Undoes, known-Undoes, require-Undoes, done-Undoes, u8-Undoes, u32-Undoes, i64-Undoes,
  last-Undoes,
}
use dart_udp.TransferProtocol.Wire.Write.{u32, u64}
use dart_udp.TransferProtocol.Wire.Read.{read_u32, read_i64}
use dart_udp.TransferProtocol.Wire.Fields.{fail_if-ok}
use dart_udp.TransferProtocol.Codec.{CodecLimits}
use dart_udp.TransferProtocol.Codec.Transfer.{
  encode_metadata, decode_metadata, metadata_flags, flag_bit, write_some, read_some,
  encode_transfer, transfer_fields, decode_transfer,
}
use dart_udp.TransferProtocol.Codec.RoundTrip.{fields, bind-u64-Undoes, check-Undoes}

is_some : Option ℕ → Bool
is_some none = false
is_some (some v) = true

optional-Undoes :
    (w : ℕ → Writer) (p : Parser ℕ) (o : Option ℕ) {P : ℕ → Type 0}
    → IsOptional P o
    → ((v : ℕ) → P v → Undoes (w v) p v)
    → Undoes (write_some w o) (read_some (is_some o) p) o
unfolding write_some read_some is_some IsOptional
optional-Undoes w p none typed back = done-Undoes none
optional-Undoes w p (some v) typed back =
    last-Undoes _ _ _ v (some v) (back v typed) (done-Undoes _)

-- What the flags of file metadata say.
flags_of :
    (t mode : Option ℕ)
    → let flags = bit_or (flag_bit t 1) (flag_bit mode 2) in
      (not (bit_and flags 252 == 0) ≡ false)
      × (not (bit_and flags 1 == 0) ≡ is_some t)
      × (not (bit_and flags 2 == 0) ≡ is_some mode)
unfolding flag_bit is_some
flags_of none none = (refl, refl, refl)
flags_of none (some m) = (refl, refl, refl)
flags_of (some t) none = (refl, refl, refl)
flags_of (some t) (some m) = (refl, refl, refl)

pub bind-metadata-Undoes :
    {B : Type 0} (w : Writer) (b : B) (m : FileMetadata) (f : FileMetadata → Parser B)
    → IsMetadata m
    → Undoes w (f m) b
    → Undoes (encode_metadata m >=> w) (decode_metadata >>= f) b
unfolding encode_metadata decode_metadata metadata_flags
bind-metadata-Undoes w b m f typed k =
    let (known, first, second) = flags_of m.modified_time_unix_seconds m.mode in
    bind-Undoes _ _ _ _ m b
      (bind-Undoes _ _ _ _ (metadata_flags m) m (u8-Undoes (metadata_flags m)) (
        known-Undoes _ _ tt _ m (fail_if-ok _ _ known) (
          rw (first, second)
            (bind-Undoes _ _ _ _ m.modified_time_unix_seconds m
              (optional-Undoes u64 read_i64 _ typed.modified_time i64-Undoes)
              (bind-Undoes _ _ _ _ m.mode m (optional-Undoes u32 read_u32 _ typed.mode u32-Undoes)
                (done-Undoes m))))))
      k

module _ (limits : CodecLimits) where
  transfer_fields-Undoes :
      (m : TransferControl)
      → IsTransfer m
      → Undoes (encode_transfer limits m) (transfer_fields (transfer_type m) limits) m
  unfolding encode_transfer transfer_fields transfer_type IsTransfer
  transfer_fields-Undoes (TransferControl.session_hello _ _ _ _ _) (a, b, c, d) =
      search (fields) depth 30
  transfer_fields-Undoes (TransferControl.manifest_begin file_count _ _) (a, b, c) =
      require-Undoes _ _ _ _
        λ passed. bind-u64-Undoes _ _ _ _ a (check-Undoes _ _ _ _ passed (search (fields) depth 30))
  transfer_fields-Undoes (TransferControl.manifest_item _ _ _ _ _) (a, b, c, d, e) =
      search (fields, bind-metadata-Undoes) depth 30
  transfer_fields-Undoes (TransferControl.manifest_end _) a = search (fields) depth 30
  transfer_fields-Undoes (TransferControl.receive_decision _ _ _) a = search (fields) depth 30
  transfer_fields-Undoes (TransferControl.resume_query _ _ _) (a, b, c) = search (fields) depth 30
  transfer_fields-Undoes (TransferControl.resume_state _ _ _ _) (a, b, c, d) =
      search (fields) depth 30
  transfer_fields-Undoes (TransferControl.file_begin _ _ _ _ _) (a, b, c, d, e) =
      search (fields) depth 30
  transfer_fields-Undoes (TransferControl.checkpoint _ _ _) (a, b, c) = search (fields) depth 30
  transfer_fields-Undoes (TransferControl.file_complete _ _ _) (a, b, c) = search (fields) depth 30
  transfer_fields-Undoes (TransferControl.file_rejected _ _) a = search (fields) depth 30
  transfer_fields-Undoes (TransferControl.transfer_complete _ _ _) (a, b, c) =
      search (fields) depth 30
  transfer_fields-Undoes (TransferControl.transfer_error _ _ _ _) (a, b) = search (fields) depth 30

  pub transfer-Undoes :
      (m : TransferControl)
      → IsTransfer m
      → validate_transfer m ≡ ok tt
      → Undoes (encode_transfer limits m) (decode_transfer (transfer_type m) limits) m
  unfolding decode_transfer
  transfer-Undoes m typed valid =
      last-Undoes _ _ _ m m (transfer_fields-Undoes m typed)
        (known-Undoes _ _ tt _ m valid (done-Undoes m))
