-- ===== src/TransferProtocol/Wire.antt =====
-- crates/transfer-protocol/src/codec.rs: `Writer` and `Reader`. A `Writer` is the bytes so far, a
-- `Reader` the bytes with the offset. The ways to combine them do not unfold where messages are
-- written and read.
pub mod Write
pub mod Read
pub mod Laws
pub mod Fields
pub mod Address
use dart_udp.Base.{ℕ, ◌≡◌, List, Result, ok}
use dart_udp.Base.Cursor
use dart_udp.TransferProtocol.Error.{ProtocolError}

abbrev pub Parser : Type 0 → Type 0
Parser A = Cursor.Parser ProtocolError A

abbrev pub Writer : Type 0
Writer = Cursor.Writer ProtocolError

infixl 5 ◌>>=◌ ◌>>◌
unfoldable pub ◌>>=◌ : {A B : Type 0} → Parser A → (A → Parser B) → Parser B
m >>= f = Cursor.◌>>=◌ m f

abbrev pub ◌>>◌ : {B : Type 0} → Parser (Unit {0}) → Parser B → Parser B
m >> k = m >>= λ _. k

unfoldable pub pure : {A : Type 0} → A → Parser A
pure a = Cursor.pure a

-- A result that does not depend on the bytes.
unfoldable pub lift : {A : Type 0} → Result ProtocolError A → Parser A
lift r = Cursor.lift r

infixr 5 ◌>=>◌
unfoldable pub ◌>=>◌ : Writer → Writer → Writer
w >=> v = Cursor.◌>=>◌ w v

unfoldable pub extend : List ℕ → Writer
extend bytes = Cursor.extend bytes

unfoldable pub require : Result ProtocolError (Unit {0}) → Writer
require check = Cursor.require check

-- `Ok(())`
unfoldable pub done : Writer
done output = ok output
