-- ===== src/TransferProtocol/Wire/Fields.antt =====
-- crates/transfer-protocol/src/codec.rs: the fields of `Reader` that are built from others are read
-- back.
use dart_udp.Base.{
  ℕ, ◌≡◌, refl, ap, arith, not, Bool, true, false, ◌||◌, List, length, String, ok, fail_if, map_err,
  ltb→le,
}
use dart_udp.TransferProtocol.Error.{ProtocolError, invalid_value}
use dart_udp.TransferProtocol.Types.{Digest, hash_algorithm_law, digest_len}
use dart_udp.TransferProtocol.Enums.{ByteEnum}
use dart_udp.TransferProtocol.Message.Typed.{IsString, IsCode, IsDigest}
use dart_udp.TransferProtocol.Wire.Write.{blob, string, pairing_code, digest, enum, flag}
use dart_udp.TransferProtocol.Wire.Read.{
  read_blob, read_string, read_pairing_code, read_digest, read_enum, read_bool,
}
use dart_udp.TransferProtocol.Wire.Laws.{
  Undoes, bind-Undoes, done-Undoes, require-Undoes, known-Undoes, take-Undoes, array-Undoes,
  lift-Undoes, last-Undoes, end-Undoes, u8-Undoes, u16-Undoes, u32-Undoes,
}

-- A test that two sides of `||` both pass.
pub fail_if-or :
    (a b : Bool) (e : ProtocolError) → fail_if (a || b) e ≡ ok tt → (a ≡ false) × (b ≡ false)
fail_if-or true b e h = cc
fail_if-or false true e h = cc
fail_if-or false false e h = (refl, refl)

pub fail_if-ok : (b : Bool) (e : ProtocolError) → b ≡ false → fail_if b e ≡ ok tt
fail_if-ok true e h = cc
fail_if-ok false e h = refl

pub blob-Undoes :
    (maximum : ℕ) (context : String) (value : List ℕ)
    → Undoes (blob value maximum) (read_blob maximum context) value
unfolding blob read_blob
blob-Undoes maximum context value = require-Undoes _ _ _ value λ passed.
    let (small, fits) = fail_if-or _ _ _ passed in
    bind-Undoes _ _ _ _ (length value) value
      (u32-Undoes (length value) (omega (arith, ltb→le _ _ fits)))
      (known-Undoes _ _ tt _ value (fail_if-ok _ _ small)
        (end-Undoes _ _ value (take-Undoes context (length value) value refl)))

pub string-Undoes :
    (maximum : ℕ) (context : String) (value : List ℕ)
    → IsString value
    → Undoes (string value maximum context) (read_string maximum context) value
unfolding string read_string
string-Undoes maximum context value utf8 = require-Undoes _ _ _ value λ passed.
    let (small, fits) = fail_if-or _ _ _ passed in
    bind-Undoes _ _ _ _ (length value) value
      (u16-Undoes (length value) (omega (arith, ltb→le _ _ fits)))
      (known-Undoes _ _ tt _ value (fail_if-ok _ _ small) (
        bind-Undoes _ _ _ _ value value (take-Undoes context (length value) value refl)
          (known-Undoes _ _ tt _ value (fail_if-ok _ _ (ap not utf8)) (done-Undoes value))))

pub pairing_code-Undoes :
    (code : List ℕ) → IsCode code → Undoes (pairing_code code) read_pairing_code code
unfolding pairing_code read_pairing_code
pairing_code-Undoes code typed = require-Undoes _ _ _ code λ passed.
    bind-Undoes _ _ _ _ (length code) code (u8-Undoes (length code)) (
      bind-Undoes _ _ _ _ code code (take-Undoes "pairing code" (length code) code refl) (
        known-Undoes _ _ tt _ code (fail_if-ok _ _ (ap not typed.utf8))
          (lift-Undoes _ code typed.parsed)))

pub digest-Undoes : (d : Digest) → IsDigest d → Undoes (digest d) read_digest d
unfolding digest read_digest
digest-Undoes d typed = bind-Undoes _ _ _ _ _ d (u8-Undoes _) (
    known-Undoes _ _ d.algorithm _ d (hash_algorithm_law d.algorithm) (
      bind-Undoes _ _ _ _ d.bytes d (array-Undoes "digest" digest_len d.bytes typed)
        (done-Undoes d)))

pub enum-Undoes :
    {T : Type 0} ⦃E : ByteEnum T⦄ (field : String) (t : T) → Undoes (enum t) (read_enum field) t
unfolding enum read_enum
enum-Undoes {T} ⦃E⦄ field t =
    last-Undoes _ _ _ _ t (u8-Undoes (E.code t))
      (lift-Undoes _ t (ap (map_err (λ _. invalid_value field)) (E.of-code t)))

pub flag-Undoes : (field : String) (b : Bool) → Undoes (flag b) (read_bool field) b
unfolding flag read_bool
flag-Undoes field false = last-Undoes _ _ _ 0 false (u8-Undoes 0) (lift-Undoes _ false refl)
flag-Undoes field true = last-Undoes _ _ _ 1 true (u8-Undoes 1) (lift-Undoes _ true refl)
