-- ===== src/TransferProtocol/Codec/RoundTrip/Path.antt =====
-- crates/transfer-protocol/src/codec.rs: `decode_path` reads what `encode_path` wrote.
use dart_udp.TransferProtocol.Message.{PathCheck, path_type}
use dart_udp.TransferProtocol.Message.Typed.{IsPath}
use dart_udp.TransferProtocol.Wire.Laws.{Undoes}
use dart_udp.TransferProtocol.Codec.Path.{encode_path, decode_path}
use dart_udp.TransferProtocol.Codec.RoundTrip.{fields}

pub path-Undoes : (m : PathCheck) → IsPath m → Undoes (encode_path m) (decode_path (path_type m)) m
unfolding encode_path decode_path path_type IsPath
path-Undoes (PathCheck.request a b c d t) (a', b', c', d', t') = search (fields) depth 30
path-Undoes (PathCheck.response a b c d o t) (a', b', c', d', o', t') = search (fields) depth 30
