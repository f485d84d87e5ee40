-- ===== src/UdpProtocol/Reader.antt =====
-- crates/udp-protocol/src/frame.rs: `Reader` and `write_blob`. A `Reader` is the input with the
-- offset, so its methods are parsers. The methods that are built from others are in `Fields`.
pub mod Fields
pub mod Laws
use dart_udp.Base.{
  ℕ, ◌+◌, String, List, length, ltb, ◌==◌, if◌then◌else◌, get_elem?, get_range, Result, ok, err,
  ok_or, fail_if, ◌>>=◌,
}
use dart_udp.Base.Fixed.{read_range}
use dart_udp.UdpProtocol.Error.{ProtocolError, truncated, frame_too_large, invalid_value}
use dart_udp.UdpProtocol.Cursor.{Parser, Writer, require, extend, ◌>=>◌}
use dart_udp.UdpProtocol.Varint

unfoldable pub read_u8 : Parser ℕ
read_u8 input offset = do
  byte ← ok_or (get_elem? input offset) (truncated "frame")
  ok (byte, offset + 1)

abbrev pub read_exact : ℕ → String → Parser (List ℕ)
read_exact len context = read_range (truncated context) len

-- All of the input has been read.
unfoldable pub finish : List ℕ → ℕ → Result ProtocolError (Unit {0})
finish input offset =
    if offset == length input then ok tt else err (invalid_value "trailing frame bytes")

unfoldable pub write_blob : List ℕ → ℕ → Writer
write_blob bytes maximum =
    require (fail_if (ltb maximum (length bytes)) (frame_too_large maximum (length bytes)))
    >=> Varint.encode (length bytes)
    >=> extend bytes
