-- ===== src/Base/Fixed.antt =====
-- Reading a number of bytes that is known, for any type of errors.
use Prim.Native.Nat.{ℕ, ◌+◌, ◌^◌, ◌<◌}
use mathlib.Core.Path.{◌≡◌, ap}
use mathlib.Core.List.{List, ◌++◌}
use mathlib.Core.Option.{some}
use native.Mathlib.Omega.{arith}
use dart_udp.Base.Lists.{length, length-append, get_range, get_range-parts}
use dart_udp.Base.Results.{ok, ok_or, ◌>>=◌}
use dart_udp.Base.Words.{
  be_bytes, from_be_bytes, checked_add, from_be_bytes-be_bytes, length-be_bytes,
}
use dart_udp.Base.Cursor
use dart_udp.Base.Cursor.{Parser, Reads, ReadsBack, extend, pure}

-- `error` where the range ends past the input, or past the address space.
unfoldable pub read_range : {E : Type 0} → E → ℕ → Parser E (List ℕ)
read_range error len input offset = do
  stop ← ok_or (checked_add offset len) error
  bytes ← ok_or (get_range input offset stop) error
  ok (bytes, stop)

pub ReadsBack-extend :
    {E A : Type 0} (p : Parser E A) (bytes : List ℕ) (a : A)
    → Reads p bytes a
    → ReadsBack (extend bytes) p a
ReadsBack-extend p bytes a r output output' h = (bytes, cc, r)

module _ {E : Type 0} (error : E) where
  pub read_range-Reads :
      (n : ℕ) (bytes : List ℕ) → length bytes ≡ n → Reads (read_range error n) bytes bytes
  unfolding read_range
  read_range-Reads n bytes size input front back offset fits e o = rw (
    ← size,
    room,
    get_range-parts input front bytes back offset (offset + length bytes) e o (omega (arith, o)),
  )
    where
      room : checked_add offset (length bytes) ≡ some (offset + length bytes)
      room =
          ground
            (arith, o, ap length e, length-append front (bytes ++ back), length-append bytes back)

  -- A word of `n` bytes.
  pub word-Reads :
      (n v : ℕ)
      → v < 256 ^ n
      → Reads
          (Cursor.◌>>=◌ (read_range error n) (λ bytes. pure (from_be_bytes bytes)))
          (be_bytes n v)
          v
  word-Reads n v h input front back offset fits e o = rw (
    read_range-Reads n (be_bytes n v) (length-be_bytes n v) input front back offset fits e o,
    Cursor.◌>>=◌,
    from_be_bytes-be_bytes n v h,
  )
