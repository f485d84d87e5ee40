-- ===== src/UdpProtocol/Checksum.antt =====
-- crates/udp-protocol/src/checksum.rs: CRC32C, bit by bit, with a range of bytes read as zero.
use dart_udp.Base.{
  ℕ, zero, suc, ◌+◌, ◌-◌, ◌/◌, ◌≤◌, ◌<◌, ◌≡◌, refl, sym, ap, ◌∙◌, ◌^◌, arith, List, [], ◌∷◌, ◌++◌,
  ◌&&◌, ltb, leb, ◌==◌, if◌then◌else◌, bit_and, bit_xor, length,
}
use dart_udp.Base.Words.{u32_max}
use mathlib.Core.Path.{ap₂}
use native.Mathlib.Nat.{add-zero}

abbrev pub crc32c_polynomial : ℕ
crc32c_polynomial = 0x82f6_3b78

crc_bit : ℕ → ℕ
crc_bit checksum =
    if bit_and checksum 1 == 1 then bit_xor (checksum / 2) crc32c_polynomial else checksum / 2

-- `for _ in 0..8`
crc_bits : ℕ → ℕ → ℕ
unfolding crc_bit
crc_bits zero checksum = checksum
crc_bits (suc n) checksum = crc_bits n (crc_bit checksum)

abbrev masked : ℕ → ℕ → ℕ → ℕ → ℕ
masked zero_start zero_end index byte =
    if leb zero_start index && ltb index zero_end then 0 else byte

-- The loop over the bytes from `index` on.
crc_from : ℕ → ℕ → ℕ → List ℕ → ℕ → ℕ
unfolding crc_bits
crc_from zero_start zero_end index [] checksum = checksum
crc_from zero_start zero_end index (b ∷ bs) checksum =
    crc_from zero_start zero_end (suc index) bs
      (crc_bits 8 (bit_xor checksum (masked zero_start zero_end index b)))

-- The final `!checksum` of a u32 is the distance to the largest one.
unfoldable pub crc32c_with_zeroed_range : List ℕ → ℕ → ℕ → ℕ
unfolding crc_from
crc32c_with_zeroed_range bytes zero_start zero_end =
    u32_max - crc_from zero_start zero_end 0 bytes u32_max

crc_from-append :
    (lo hi index : ℕ) (xs ys : List ℕ) (checksum : ℕ)
    → crc_from lo hi index (xs ++ ys) checksum
      ≡ crc_from lo hi (index + length xs) ys (crc_from lo hi index xs checksum)
unfolding crc_from
crc_from-append lo hi index [] ys checksum = rw add-zero
crc_from-append lo hi index (b ∷ xs) ys checksum =
    crc_from-append lo hi (suc index) xs ys (crc_bits 8 (bit_xor checksum (masked lo hi index b)))
    ∙ ap
        (λ i.
          crc_from lo hi i ys
            (crc_from lo hi (suc index) xs (crc_bits 8 (bit_xor checksum (masked lo hi index b)))))
        (omega arith)

masked-inside : (lo hi index byte : ℕ) → lo ≤ index → index < hi → masked lo hi index byte ≡ 0
masked-inside lo hi index byte p q = ground arith

-- In the range only the number of bytes counts.
crc_from-inside :
    (lo hi index : ℕ) (xs ys : List ℕ) (checksum : ℕ)
    → lo ≤ index
    → index + length xs ≤ hi
    → length xs ≡ length ys
    → crc_from lo hi index xs checksum ≡ crc_from lo hi index ys checksum
unfolding crc_from
crc_from-inside lo hi index [] [] checksum p q e = refl
crc_from-inside lo hi index [] (y ∷ ys) checksum p q e = absurd (omega arith)
crc_from-inside lo hi index (x ∷ xs) [] checksum p q e = absurd (omega arith)
crc_from-inside lo hi index (x ∷ xs) (y ∷ ys) checksum p q e =
    rw (masked-inside lo hi index x p (omega arith), masked-inside lo hi index y p (omega arith))
      (crc_from-inside lo hi (suc index) xs ys _ (omega arith) (omega arith) (omega arith))

-- Other bytes of the same number in the place of those in the zeroed range give the same
-- checksum.
pub crc32c-replace :
    (front mid mid' back : List ℕ)
    → length mid ≡ length mid'
    → crc32c_with_zeroed_range (front ++ (mid ++ back)) (length front) (length front + length mid)
      ≡ crc32c_with_zeroed_range
          (front ++ (mid' ++ back))
          (length front)
          (length front + length mid)
unfolding crc32c_with_zeroed_range
crc32c-replace front mid mid' back e =
    ap (λ t. u32_max - t)
      (crc_from-append lo hi 0 front (mid ++ back) u32_max
        ∙ crc_from-append lo hi (0 + lo) mid back start
        ∙ ap₂ (λ n t. crc_from lo hi (0 + lo + n) back t) e
            (crc_from-inside lo hi (0 + lo) mid mid' start (omega arith) (omega arith) e)
        ∙ sym (crc_from-append lo hi (0 + lo) mid' back start)
        ∙ sym (crc_from-append lo hi 0 front (mid' ++ back) u32_max))
  where
    lo : ℕ
    lo = length front

    hi : ℕ
    hi = length front + length mid

    start : ℕ
    start = crc_from lo hi 0 front u32_max

pub crc32c-IsU32 : (bytes : List ℕ) (lo hi : ℕ) → crc32c_with_zeroed_range bytes lo hi < 2 ^ 32
unfolding crc32c_with_zeroed_range
crc32c-IsU32 bytes lo hi = omega arith

-- The reference vector "123456789".
crc32c_vector :
    crc32c_with_zeroed_range (0x31 ∷ 0x32 ∷ 0x33 ∷ 0x34 ∷ 0x35 ∷ 0x36 ∷ 0x37 ∷ 0x38 ∷ 0x39 ∷ []) 0 0
    ≡ 0xe306_9283
unfolding crc32c_with_zeroed_range
crc32c_vector = refl
