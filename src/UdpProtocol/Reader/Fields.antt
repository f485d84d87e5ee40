-- ===== src/UdpProtocol/Reader/Fields.antt =====
-- crates/udp-protocol/src/frame.rs: the reading of numbers, arrays and blobs. A `usize` has 64 bits,
-- so `usize::try_from` of a u64 does not fail.
use dart_udp.Base.{ℕ, String, List, ltb, fail_if}
use dart_udp.Base.Words.{from_be_bytes}
use dart_udp.UdpProtocol.Error.{frame_too_large}
use dart_udp.UdpProtocol.Cursor.{Parser, ◌>>=◌, ◌>>◌, pure, lift}
use dart_udp.UdpProtocol.Varint
use dart_udp.UdpProtocol.Reader.{read_exact}

unfoldable pub read_u16 : Parser ℕ
read_u16 = do bytes ← read_exact 2 "u16"; pure (from_be_bytes bytes)

unfoldable pub read_u32 : Parser ℕ
read_u32 = do bytes ← read_exact 4 "u32"; pure (from_be_bytes bytes)

unfoldable pub read_u64 : Parser ℕ
read_u64 = do bytes ← read_exact 8 "u64"; pure (from_be_bytes bytes)

unfoldable pub read_varint : Parser ℕ
read_varint = Varint.decode

unfoldable pub read_array : ℕ → Parser (List ℕ)
read_array n = read_exact n "fixed-size field"

unfoldable pub read_blob : ℕ → String → Parser (List ℕ)
unfolding read_varint
read_blob maximum context = do
  len ← read_varint
  lift (fail_if (ltb maximum len) (frame_too_large maximum len))
  read_exact len context
