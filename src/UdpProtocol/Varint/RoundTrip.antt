-- ===== src/UdpProtocol/Varint/RoundTrip.antt =====
-- What `encode` writes, and that `decode` reads it back.
use dart_udp.Base.{
  ℕ, ◌+◌, ◌*◌, ◌/◌, ◌%◌, ◌^◌, ◌≤◌, ◌<◌, ◌≡◌, refl, ap, ◌∙◌, arith, List, [], ◌∷◌, ◌++◌, length,
  length-append, get_elem?-parts, get_range-parts, leb, if◌then◌else◌, bit_and, some, ok, inl, inr,
  Bool-cases, tests,
}
use dart_udp.Base.Words.{
  be_bytes, be_value, from_be_bytes, checked_add, u64_max, length-be_bytes, from_be_bytes-be_bytes,
}
use dart_udp.Base.Bits.{bit_or_above, bit_and_below}
use dart_udp.UdpProtocol.Cursor.{Reads, ReadsBack, ReadsBack-between}
use dart_udp.UdpProtocol.Varint.{max_value, encoded_len, encode, decode, strip_length, mask_first}

-- The bytes of a number below 2^62: the length in the two top bits, the number below them.
pub bytes_of : ℕ → List ℕ
bytes_of value =
    if leb value 0x3f
    then value ∷ []
    else if leb value 0x3fff
    then be_bytes 2 (value + 1 * 2 ^ 14)
    else if leb value 0x3fff_ffff
    then be_bytes 4 (value + 2 * 2 ^ 30)
    else be_bytes 8 (value + 3 * 2 ^ 62)

pub encode-bytes_of :
    (value : ℕ) (output : List ℕ)
    → value ≤ max_value
    → encode value output ≡ ok (output ++ bytes_of value)
unfolding encode bytes_of
encode-bytes_of value output h =
    ground (arith, bit_or_above 14 value 1, bit_or_above 30 value 2, bit_or_above 62 value 3)

-- A first byte that gives the length of the form, and the number behind its mask.
abbrev Shape : ℕ → List ℕ → Type 0
Shape value bytes =
    (first : ℕ) × (rest : List ℕ) × (bytes ≡ first ∷ rest)
    × (2 ^ (first / 64) ≡ length bytes)
    × (strip_length (length bytes) bytes ≡ ok value)

Shape-one : (value : ℕ) → value < 2 ^ 6 → Shape value (value ∷ [])
unfolding strip_length be_value
Shape-one value h =
    (value, [], refl, ap (λ e. 2 ^ e) {y = 0} (omega arith), ground (arith, bit_and_below 6 value))

Shape-two : (value : ℕ) → value < 2 ^ 14 → Shape value (be_bytes 2 (value + 1 * 2 ^ 14))
unfolding strip_length be_bytes be_value
Shape-two value h = (
  _,
  _,
  refl,
  ap (λ e. 2 ^ e) {y = 1} (omega arith),
  ground (arith, bit_and_below 14 (from_be_bytes (be_bytes 2 (value + 1 * 2 ^ 14)))),
)

Shape-four : (value : ℕ) → value < 2 ^ 30 → Shape value (be_bytes 4 (value + 2 * 2 ^ 30))
unfolding strip_length be_bytes be_value
Shape-four value h = (
  _,
  _,
  refl,
  ap (λ e. 2 ^ e) {y = 2} (omega arith),
  ap ok (
      ap (λ t. bit_and t 0x3fff_ffff) (from_be_bytes-be_bytes 4 (value + 2 * 2 ^ 30) (omega arith))
      ∙ bit_and_below 30 (value + 2 * 2 ^ 30)
      ∙ omega arith),
)

Shape-eight : (value : ℕ) → value < 2 ^ 62 → Shape value (be_bytes 8 (value + 3 * 2 ^ 62))
unfolding strip_length be_bytes be_value mask_first
Shape-eight value h = (
  _,
  _,
  refl,
  ap (λ e. 2 ^ e) {y = 3} (omega arith),
  ap ok (
      omega (
        arith,
        bit_and_below 6 ((value + 3 * 2 ^ 62) / 256 / 256 / 256 / 256 / 256 / 256 / 256 % 256),
      )),
)

bytes_of-Shape : (value : ℕ) → value ≤ max_value → Shape value (bytes_of value)
unfolding bytes_of
bytes_of-Shape value h = elim (Bool-cases (leb value 0x3f)) [
  | inl a ↦ rw a (Shape-one value (omega tests))
  | inr a ↦ elim (Bool-cases (leb value 0x3fff)) [
    | inl b ↦ rw (a, b) (Shape-two value (omega tests))
    | inr b ↦ elim (Bool-cases (leb value 0x3fff_ffff)) [
      | inl c ↦ rw (a, b, c) (Shape-four value (omega tests))
      | inr c ↦ rw (a, b, c) (Shape-eight value (omega tests))
    ]
  ]
]

decode-of_Shape : (value : ℕ) (bytes : List ℕ) → Shape value bytes → Reads decode bytes value
unfolding decode
decode-of_Shape value bytes (first, rest, cut, len, strip) input front back offset fits e o = rw (
  get_elem?-parts input front first (rest ++ back) offset (e ∙ ap (λ t. front ++ (t ++ back)) cut)
      o,
  len,
  room,
  get_range-parts input front bytes back offset (offset + length bytes) e o (omega (arith, o)),
  strip,
)
  where
    room : checked_add offset (length bytes) ≡ some (offset + length bytes)
    room =
        ground
          (arith, o, ap length e, length-append front (bytes ++ back), length-append bytes back)

decode-bytes_of : (value : ℕ) → value ≤ max_value → Reads decode (bytes_of value) value
decode-bytes_of value h = decode-of_Shape value (bytes_of value) (bytes_of-Shape value h)

pub encode-fits :
    (value : ℕ) (output output' : List ℕ) → encode value output ≡ ok output' → value ≤ max_value
unfolding encode
encode-fits value output output' h = ground arith

-- What `encode` appends is read back as the number.
pub encode-ReadsBack : (value : ℕ) → ReadsBack (encode value) decode value
encode-ReadsBack value output output' h =
    (bytes_of value, cc (h, encode-bytes_of value output fits), decode-bytes_of value fits)
  where
    fits : value ≤ max_value
    fits = encode-fits value output output' h

-- A number that `encode` has appended to an output is decoded at the place where the output
-- ended, whatever follows it in an input that fits the address space, and the offset moves behind
-- it.
pub decode-encode_value :
    (value : ℕ) (front output back : List ℕ)
    → encode value front ≡ ok output
    → length (output ++ back) ≤ u64_max
    → decode (output ++ back) (length front) ≡ ok (value, length output)
decode-encode_value value front output back =
    ReadsBack-between (encode value) decode value front output back (encode-ReadsBack value)

-- A number up to 2^62 - 1 is written behind the output, in as many bytes as `encoded_len` says.
pub encode-encoded_len :
    (value : ℕ) (output : List ℕ)
    → value ≤ max_value
    → (bytes : List ℕ) × (encode value output ≡ ok (output ++ bytes))
      × (encoded_len value ≡ ok (length bytes))
unfolding encoded_len bytes_of
encode-encoded_len value output h = (
  bytes_of value,
  encode-bytes_of value output h,
  ground (
    arith,
    length-be_bytes 2 (value + 1 * 2 ^ 14),
    length-be_bytes 4 (value + 2 * 2 ^ 30),
    length-be_bytes 8 (value + 3 * 2 ^ 62),
  ),
)
