-- ===== src/TransferProtocol/Wire/Write.antt =====
-- crates/transfer-protocol/src/codec.rs: `Writer`.
use dart_udp.Base.{
  ℕ, ltb, min, ◌||◌, Bool, true, false, Option, none, some, List, [], ◌∷◌, length, String, fail_if,
}
use dart_udp.Base.Words.{be_bytes, u16_max, u32_max}
use dart_udp.TransferProtocol.Error.{field_too_large, invalid_pairing_code}
use dart_udp.TransferProtocol.Types.{Digest, SocketAddr, v4, v6, hash_algorithm_code}
use dart_udp.TransferProtocol.Enums.{ByteEnum}
use dart_udp.TransferProtocol.Wire.{Writer, ◌>=>◌, extend, require, done}

unfoldable pub u8 : ℕ → Writer
u8 value = extend (value ∷ [])

unfoldable pub u16 : ℕ → Writer
u16 value = extend (be_bytes 2 value)

unfoldable pub u32 : ℕ → Writer
u32 value = extend (be_bytes 4 value)

unfoldable pub u64 : ℕ → Writer
u64 value = extend (be_bytes 8 value)

unfoldable pub bytes_fixed : List ℕ → Writer
bytes_fixed value = extend value

unfoldable pub id : List ℕ → Writer
id value = extend value

-- `self.u8(value as u8)`
unfoldable pub enum : {T : Type 0} ⦃E : ByteEnum T⦄ → T → Writer
enum ⦃E⦄ t = u8 (E.code t)

-- `self.u8(u8::from(value))`
unfoldable pub flag : Bool → Writer
flag false = u8 0
flag true = u8 1

unfoldable pub blob : List ℕ → ℕ → Writer
blob value maximum =
    require (
      fail_if (ltb maximum (length value) || ltb u32_max (length value))
        (field_too_large "blob" (min maximum u32_max) (length value)))
    >=> u32 (length value)
    >=> bytes_fixed value
    >=> done

unfoldable pub string : List ℕ → ℕ → String → Writer
string value maximum field =
    require (
      fail_if (ltb maximum (length value) || ltb u16_max (length value))
        (field_too_large field (min maximum u16_max) (length value)))
    >=> u16 (length value)
    >=> bytes_fixed value
    >=> done

unfoldable pub pairing_code : List ℕ → Writer
pairing_code value =
    require (fail_if (ltb 255 (length value)) invalid_pairing_code)
    >=> u8 (length value)
    >=> bytes_fixed value
    >=> done

unfoldable pub digest : Digest → Writer
digest value = u8 (hash_algorithm_code value.algorithm) >=> bytes_fixed value.bytes >=> done

unfoldable pub socket_addr : SocketAddr → Writer
socket_addr (v4 ip port) = u8 4 >=> bytes_fixed ip >=> u16 port >=> done
socket_addr (v6 ip port flowinfo scope_id) =
    u8 6 >=> bytes_fixed ip >=> u16 port >=> u32 flowinfo >=> u32 scope_id >=> done

unfoldable pub socket_addr_option : Option SocketAddr → Writer
socket_addr_option (some value) = socket_addr value
socket_addr_option none = u8 0 >=> done
