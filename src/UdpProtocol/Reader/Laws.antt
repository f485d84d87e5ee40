-- ===== src/UdpProtocol/Reader/Laws.antt =====
-- Each way to read a field undoes the way in which it is written.
use dart_udp.Base.{
  ℕ, ◌^◌, ◌<◌, ◌≡◌, refl, String, List, [], ◌∷◌, length, ltb, get_elem?-parts, ok, fail_if, Bool,
  true, false,
}
use dart_udp.Base.Words.{be_bytes}
use dart_udp.UdpProtocol.Error.{ProtocolError, frame_too_large, truncated}
use dart_udp.UdpProtocol.Cursor.{
  ◌>>◌, lift, extend, Reads, ReadsBack, ReadsBack-bind, ReadsBack-require,
}
use dart_udp.Base.Fixed.{ReadsBack-extend, read_range-Reads, word-Reads}
use dart_udp.UdpProtocol.Varint
use dart_udp.UdpProtocol.Varint.RoundTrip.{encode-ReadsBack}
use dart_udp.UdpProtocol.Reader.{read_u8, read_exact, write_blob}
use dart_udp.UdpProtocol.Reader.Fields.{
  read_u16, read_u32, read_u64, read_varint, read_array, read_blob,
}

pub read_u8-Reads : (b : ℕ) → Reads read_u8 (b ∷ []) b
unfolding read_u8
read_u8-Reads b input front back offset fits e o =
    rw (get_elem?-parts input front b back offset e o)

pub read_exact-Reads :
    (context : String) (n : ℕ) (bytes : List ℕ)
    → length bytes ≡ n
    → Reads (read_exact n context) bytes bytes
read_exact-Reads context = read_range-Reads (truncated context)

pub read_u16-ReadsBack : (v : ℕ) → v < 2 ^ 16 → ReadsBack (extend (be_bytes 2 v)) read_u16 v
unfolding read_u16
read_u16-ReadsBack v h = ReadsBack-extend read_u16 _ v (word-Reads (truncated "u16") 2 v h)

pub read_u32-ReadsBack : (v : ℕ) → v < 2 ^ 32 → ReadsBack (extend (be_bytes 4 v)) read_u32 v
unfolding read_u32
read_u32-ReadsBack v h = ReadsBack-extend read_u32 _ v (word-Reads (truncated "u32") 4 v h)

pub read_u64-ReadsBack : (v : ℕ) → v < 2 ^ 64 → ReadsBack (extend (be_bytes 8 v)) read_u64 v
unfolding read_u64
read_u64-ReadsBack v h = ReadsBack-extend read_u64 _ v (word-Reads (truncated "u64") 8 v h)

pub read_u8-ReadsBack : (b : ℕ) → ReadsBack (extend (b ∷ [])) read_u8 b
read_u8-ReadsBack b = ReadsBack-extend read_u8 _ b (read_u8-Reads b)

pub read_varint-ReadsBack : (v : ℕ) → ReadsBack (Varint.encode v) read_varint v
unfolding read_varint
read_varint-ReadsBack v = encode-ReadsBack v

pub read_array-ReadsBack :
    (n : ℕ) (bytes : List ℕ) → length bytes ≡ n → ReadsBack (extend bytes) (read_array n) bytes
unfolding read_array
read_array-ReadsBack n bytes size =
    ReadsBack-extend (read_array n) bytes bytes (read_exact-Reads "fixed-size field" n bytes size)

fail_if-ok : (b : Bool) (e : ProtocolError) → fail_if b e ≡ ok tt → b ≡ false
fail_if-ok true e h = cc
fail_if-ok false e h = refl

pub read_blob-ReadsBack :
    (bytes : List ℕ) (maximum : ℕ) (context : String)
    → ReadsBack (write_blob bytes maximum) (read_blob maximum context) bytes
unfolding read_blob write_blob
read_blob-ReadsBack bytes maximum context =
    ReadsBack-require (read_blob maximum context) _ _ bytes λ small.
      ReadsBack-bind read_varint
        (λ len.
          lift (fail_if (ltb maximum len) (frame_too_large maximum len)) >> read_exact len context)
        (Varint.encode (length bytes)) (extend bytes) (length bytes) bytes
        (read_varint-ReadsBack (length bytes))
        (ReadsBack-extend _ bytes bytes
          (rw small (read_exact-Reads context (length bytes) bytes refl)))
