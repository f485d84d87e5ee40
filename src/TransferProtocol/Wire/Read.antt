-- ===== src/TransferProtocol/Wire/Read.antt =====
-- crates/transfer-protocol/src/codec.rs: `Reader`.
use dart_udp.Base.{
  ℕ, ◌-◌, ◌==◌, ltb, if◌then◌else◌, ◌||◌, not, Bool, true, false, Option, none, some, List, length,
  head?, String, Result, ok, err, ok_or, fail_if, map_err,
}
use dart_udp.Base.Fixed.{read_range}
use dart_udp.Base.Utf8.{is_utf8}
use dart_udp.Base.Words.{from_be_bytes}
use dart_udp.TransferProtocol.Error.{
  ProtocolError, truncated, field_too_large, invalid_value, invalid_utf8,
}
use dart_udp.TransferProtocol.Types.{
  Digest, SocketAddr, v4, v6, id_len, digest_len, hash_algorithm_of, parse_code,
}
use dart_udp.TransferProtocol.Enums.{ByteEnum}
use dart_udp.TransferProtocol.Wire.{Parser, ◌>>=◌, ◌>>◌, pure, lift}

-- `Reader::take`
unfoldable pub read_take : ℕ → String → Parser (List ℕ)
read_take len context = read_range (truncated context) len

unfoldable pub read_u8 : Parser ℕ
read_u8 = do bytes ← read_take 1 "u8"; lift (ok_or (head? bytes) (truncated "u8"))

-- `Reader::array`, of `n` bytes.
unfoldable pub read_array : ℕ → String → Parser (List ℕ)
read_array n context = read_take n context

unfoldable pub read_u16 : Parser ℕ
read_u16 = do bytes ← read_array 2 "u16"; pure (from_be_bytes bytes)

unfoldable pub read_u32 : Parser ℕ
read_u32 = do bytes ← read_array 4 "u32"; pure (from_be_bytes bytes)

unfoldable pub read_u64 : Parser ℕ
read_u64 = do bytes ← read_array 8 "u64"; pure (from_be_bytes bytes)

unfoldable pub read_i64 : Parser ℕ
read_i64 = do bytes ← read_array 8 "i64"; pure (from_be_bytes bytes)

unfoldable pub read_id : String → Parser (List ℕ)
read_id context = read_array id_len context

unfoldable pub read_blob : ℕ → String → Parser (List ℕ)
read_blob maximum context = do
  len ← read_u32
  lift (fail_if (ltb maximum len) (field_too_large context maximum len))
  read_take len context

unfoldable pub read_string : ℕ → String → Parser (List ℕ)
read_string maximum context = do
  len ← read_u16
  lift (fail_if (ltb maximum len) (field_too_large context maximum len))
  bytes ← read_take len context
  lift (fail_if (not (is_utf8 bytes)) (invalid_utf8 context))
  pure bytes

unfoldable pub read_pairing_code : Parser (List ℕ)
read_pairing_code = do
  len ← read_u8
  bytes ← read_take len "pairing code"
  lift (fail_if (not (is_utf8 bytes)) (invalid_utf8 "pairing code"))
  lift (parse_code bytes)

unfoldable pub read_digest : Parser Digest
read_digest = do
  code ← read_u8
  algorithm ← lift (hash_algorithm_of code)
  bytes ← read_array digest_len "digest"
  pure (record { algorithm = algorithm; bytes = bytes })

unfoldable pub read_bool : String → Parser Bool
read_bool field = do
  value ← read_u8
  lift (if value == 0 then ok false else if value == 1 then ok true else err (invalid_value field))

unfoldable pub read_enum : {T : Type 0} ⦃E : ByteEnum T⦄ → String → Parser T
read_enum ⦃E⦄ field = do value ← read_u8; lift (map_err (λ _. invalid_value field) (E.of value))

unfoldable pub read_ipv4 : Parser SocketAddr
read_ipv4 = do ip ← read_array 4 "IPv4 address"; port ← read_u16; pure (v4 ip port)

unfoldable pub read_ipv6 : Parser SocketAddr
read_ipv6 = do
  ip ← read_array 16 "IPv6 address"
  port ← read_u16
  flowinfo ← read_u32
  scope_id ← read_u32
  pure (v6 ip port flowinfo scope_id)

-- Once the family is known.
unfoldable pub read_family : ℕ → Parser SocketAddr
unfolding read_ipv4 read_ipv6
read_family family =
    if family == 4
    then read_ipv4
    else if family == 6
    then read_ipv6
    else lift (err (invalid_value "socket address"))

unfoldable pub read_socket_addr : Parser SocketAddr
read_socket_addr = do family ← read_u8; read_family family

-- `self.offset -= 1;`
unfoldable pub step_back : Parser (Unit {0})
step_back input offset = ok (tt, offset - 1)

unfoldable pub read_some_socket_addr : Parser (Option SocketAddr)
read_some_socket_addr = do step_back; address ← read_socket_addr; pure (some address)

unfoldable pub read_family_option : ℕ → Parser (Option SocketAddr)
unfolding read_some_socket_addr
read_family_option family =
    if family == 0
    then pure none
    else if (family == 4) || (family == 6)
    then read_some_socket_addr
    else lift (err (invalid_value "candidate address"))

unfoldable pub read_socket_addr_option : Parser (Option SocketAddr)
read_socket_addr_option = do family ← read_u8; read_family_option family

-- `Reader::finish`
unfoldable pub finish : List ℕ → ℕ → Result ProtocolError (Unit {0})
finish bytes offset =
    if offset == length bytes then ok tt else err (invalid_value "trailing message body")
