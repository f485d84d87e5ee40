-- ===== src/UdpProtocol/Cursor.antt =====
-- The reading and writing of crates/udp-protocol, with its errors.
use dart_udp.Base.Cursor
pub use dart_udp.Base.Cursor.{
  ◌>>=◌, ◌>>◌, pure, lift, ◌>=>◌, require, extend, Reads, ReadsBack, >=>-eq-ok, Reads-pure,
  Reads-bind, ReadsBack-bind, ReadsBack-last, ReadsBack-require, Reads-lift, Reads-lift_ok,
  Reads-checked, ReadsBack-checked, ReadsBack-done, ReadsBack-between, Reads-known, ReadsBack-known,
}
use dart_udp.UdpProtocol.Error.{ProtocolError}

abbrev pub Parser : Type 0 → Type 0
Parser A = Cursor.Parser ProtocolError A

abbrev pub Writer : Type 0
Writer = Cursor.Writer ProtocolError
