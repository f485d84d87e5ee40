-- ===== src/TransferProtocol/Codec/RoundTrip.antt =====
-- crates/transfer-protocol/src/codec.rs: a field and what follows it are read back. What is written
-- determines every argument, so that `search` proves a message field by field.
pub mod Path
pub mod Pairing
pub mod Transfer
use dart_udp.Base.{ℕ, ◌≡◌, ◌<◌, ◌^◌, Bool, Option, String, List, length, Result, ok}
use dart_udp.TransferProtocol.Error.{ProtocolError}
use dart_udp.TransferProtocol.Types.{Digest, SocketAddr, id_len}
use dart_udp.TransferProtocol.Enums.{ByteEnum}
use dart_udp.TransferProtocol.Message.Typed.{IsString, IsCode, IsDigest, IsAddress, IsOptional}
use dart_udp.TransferProtocol.Wire.{Parser, Writer, ◌>>=◌, lift, ◌>=>◌}
use dart_udp.TransferProtocol.Wire.Write.{
  id, bytes_fixed, u8, u16, u32, u64, blob, string, pairing_code, digest, enum, flag, socket_addr,
  socket_addr_option,
}
use dart_udp.TransferProtocol.Wire.Read.{
  read_id, read_array, read_u8, read_u16, read_u32, read_u64, read_i64, read_blob, read_string,
  read_pairing_code, read_digest, read_enum, read_bool, read_socket_addr, read_socket_addr_option,
}
use dart_udp.TransferProtocol.Wire.Laws.{
  Undoes, bind-Undoes, done-Undoes, known-Undoes, array-Undoes, id-Undoes, u8-Undoes, u16-Undoes,
  u32-Undoes, u64-Undoes, i64-Undoes,
}
use dart_udp.TransferProtocol.Wire.Fields.{
  blob-Undoes, string-Undoes, pairing_code-Undoes, digest-Undoes, enum-Undoes, flag-Undoes,
}
use dart_udp.TransferProtocol.Wire.Address.{socket_addr-Undoes, socket_addr_option-Undoes}

module _ {B : Type 0} (w : Writer) (b : B) where
  pub bind-id-Undoes :
      (context : String) (bytes : List ℕ) (f : List ℕ → Parser B)
      → length bytes ≡ id_len
      → Undoes w (f bytes) b
      → Undoes (id bytes >=> w) (read_id context >>= f) b
  bind-id-Undoes context bytes f h k = bind-Undoes _ _ _ _ bytes b (id-Undoes context bytes h) k

  pub bind-array-Undoes :
      (n : ℕ) (context : String) (bytes : List ℕ) (f : List ℕ → Parser B)
      → length bytes ≡ n
      → Undoes w (f bytes) b
      → Undoes (bytes_fixed bytes >=> w) (read_array n context >>= f) b
  bind-array-Undoes n context bytes f h k =
      bind-Undoes _ _ _ _ bytes b (array-Undoes context n bytes h) k

  pub bind-u8-Undoes :
      (v : ℕ) (f : ℕ → Parser B) → Undoes w (f v) b → Undoes (u8 v >=> w) (read_u8 >>= f) b
  bind-u8-Undoes v f k = bind-Undoes _ _ _ _ v b (u8-Undoes v) k

  pub bind-u16-Undoes :
      (v : ℕ) (f : ℕ → Parser B)
      → v < 2 ^ 16
      → Undoes w (f v) b
      → Undoes (u16 v >=> w) (read_u16 >>= f) b
  bind-u16-Undoes v f h k = bind-Undoes _ _ _ _ v b (u16-Undoes v h) k

  pub bind-u32-Undoes :
      (v : ℕ) (f : ℕ → Parser B)
      → v < 2 ^ 32
      → Undoes w (f v) b
      → Undoes (u32 v >=> w) (read_u32 >>= f) b
  bind-u32-Undoes v f h k = bind-Undoes _ _ _ _ v b (u32-Undoes v h) k

  pub bind-u64-Undoes :
      (v : ℕ) (f : ℕ → Parser B)
      → v < 2 ^ 64
      → Undoes w (f v) b
      → Undoes (u64 v >=> w) (read_u64 >>= f) b
  bind-u64-Undoes v f h k = bind-Undoes _ _ _ _ v b (u64-Undoes v h) k

  pub bind-i64-Undoes :
      (v : ℕ) (f : ℕ → Parser B)
      → v < 2 ^ 64
      → Undoes w (f v) b
      → Undoes (u64 v >=> w) (read_i64 >>= f) b
  bind-i64-Undoes v f h k = bind-Undoes _ _ _ _ v b (i64-Undoes v h) k

  pub bind-blob-Undoes :
      (maximum : ℕ) (context : String) (value : List ℕ) (f : List ℕ → Parser B)
      → Undoes w (f value) b
      → Undoes (blob value maximum >=> w) (read_blob maximum context >>= f) b
  bind-blob-Undoes maximum context value f k =
      bind-Undoes _ _ _ _ value b (blob-Undoes maximum context value) k

  pub bind-string-Undoes :
      (maximum : ℕ) (context : String) (value : List ℕ) (f : List ℕ → Parser B)
      → IsString value
      → Undoes w (f value) b
      → Undoes (string value maximum context >=> w) (read_string maximum context >>= f) b
  bind-string-Undoes maximum context value f h k =
      bind-Undoes _ _ _ _ value b (string-Undoes maximum context value h) k

  pub bind-pairing_code-Undoes :
      (code : List ℕ) (f : List ℕ → Parser B)
      → IsCode code
      → Undoes w (f code) b
      → Undoes (pairing_code code >=> w) (read_pairing_code >>= f) b
  bind-pairing_code-Undoes code f h k = bind-Undoes _ _ _ _ code b (pairing_code-Undoes code h) k

  pub bind-digest-Undoes :
      (d : Digest) (f : Digest → Parser B)
      → IsDigest d
      → Undoes w (f d) b
      → Undoes (digest d >=> w) (read_digest >>= f) b
  bind-digest-Undoes d f h k = bind-Undoes _ _ _ _ d b (digest-Undoes d h) k

  pub bind-flag-Undoes :
      (field : String) (v : Bool) (f : Bool → Parser B)
      → Undoes w (f v) b
      → Undoes (flag v >=> w) (read_bool field >>= f) b
  bind-flag-Undoes field v f k = bind-Undoes _ _ _ _ v b (flag-Undoes field v) k

  pub bind-socket_addr-Undoes :
      (a : SocketAddr) (f : SocketAddr → Parser B)
      → IsAddress a
      → Undoes w (f a) b
      → Undoes (socket_addr a >=> w) (read_socket_addr >>= f) b
  bind-socket_addr-Undoes a f h k = bind-Undoes _ _ _ _ a b (socket_addr-Undoes a h) k

  pub bind-socket_addr_option-Undoes :
      (a : Option SocketAddr) (f : Option SocketAddr → Parser B)
      → IsOptional IsAddress a
      → Undoes w (f a) b
      → Undoes (socket_addr_option a >=> w) (read_socket_addr_option >>= f) b
  bind-socket_addr_option-Undoes a f h k = bind-Undoes _ _ _ _ a b (socket_addr_option-Undoes a h) k

  pub bind-enum-Undoes :
      {T : Type 0} ⦃E : ByteEnum T⦄ (field : String) (t : T) (f : T → Parser B)
      → Undoes w (f t) b
      → Undoes (enum t >=> w) (read_enum field >>= f) b
  bind-enum-Undoes field t f k = bind-Undoes _ _ _ _ t b (enum-Undoes field t) k

  -- A check that is known to pass.
  pub check-Undoes :
      (check : Result ProtocolError (Unit {0})) (f : Unit {0} → Parser B)
      → check ≡ ok tt
      → Undoes w (f tt) b
      → Undoes w (lift check >>= f) b
  check-Undoes check f passed k = known-Undoes f check tt w b passed k

pub ruleset fields = (
  done-Undoes, bind-id-Undoes, bind-array-Undoes, bind-u8-Undoes, bind-u16-Undoes, bind-u32-Undoes,
  bind-u64-Undoes, bind-i64-Undoes, bind-blob-Undoes, bind-string-Undoes, bind-pairing_code-Undoes,
  bind-digest-Undoes, bind-flag-Undoes, bind-socket_addr-Undoes, bind-socket_addr_option-Undoes,
  bind-enum-Undoes,
)
