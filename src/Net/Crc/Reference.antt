-- ===== src/Net/Crc/Reference.antt =====
-- `crc32_byte` of source/net.c is the CRC-32 of Ethernet, taken bit by bit.
use nano_s.Prelude.{
  ℕ, zero, suc, ◌+◌, ◌*◌, ◌-◌, ◌/◌, ◌%◌, ◌^◌, ◌<◌, ◌≡◌, refl, ap, ap₂, sym, ◌∙◌, arith, bit_xor,
  List, [], ◌∷◌, get_or, u8, ◌==◌, ==_iff, holds_below, any_from, ltb, ltb→lt, true,
}
use nano_s.Strings.Compare.{IsBytes, nil, cons}
use nano_s.Net.Crc.{poly8_lookup, byte_of, xor32, crc32_loop, crc32_byte}
use nano_s.Net.Crc.Xor.{
  bit_xor-half, bit_xor-odd, bit_xor_comm, bit_xor_assoc, bit_xor-zero, bit_xor-fields, bit_xor_lt,
}

-- The polynomial, lowest power first.
abbrev pub polynomial : ℕ
polynomial = 0xEDB88320

abbrev mask : ℕ → ℕ
mask zero = 0
mask (suc n) = polynomial

mask_lt : (n : ℕ) → mask n < 2 ^ 32
mask_lt zero = omega arith
mask_lt (suc n) = omega arith

-- One bit: the lowest one decides whether the polynomial is taken off.
unfoldable pub crc_bit : ℕ → ℕ
crc_bit crc = bit_xor (crc / 2) (mask (crc % 2))

unfoldable pub crc_bits : ℕ → ℕ → ℕ
crc_bits zero crc = crc
crc_bits (suc n) crc = crc_bits n (crc_bit crc)

-- The bytes one after the other, each with its lowest bit first.
unfoldable pub crc32_bits : List ℕ → ℕ → ℕ
crc32_bits [] crc = crc
crc32_bits (c ∷ p) crc = crc32_bits p (crc_bits 8 (bit_xor crc c))

-- The table, by computation.
table_checked : (i : ℕ) → i < 256 → (get_or poly8_lookup i 0 == crc_bits 8 i) ≡ true
unfolding any_from poly8_lookup crc_bits crc_bit
table_checked = holds_below 256 (λ i. get_or poly8_lookup i 0 == crc_bits 8 i) refl

poly8_lookup-crc_bits : (i : ℕ) → i < 256 → get_or poly8_lookup i 0 ≡ crc_bits 8 i
poly8_lookup-crc_bits i lt =
    (==_iff (get_or poly8_lookup i 0) (crc_bits 8 i)).0 (table_checked i lt)

interchange :
    (a b c d : ℕ) → bit_xor (bit_xor a b) (bit_xor c d) ≡ bit_xor (bit_xor a c) (bit_xor b d)
interchange a b c d =
    bit_xor_assoc a b (bit_xor c d)
    ∙ (ap (bit_xor a) (
          sym (bit_xor_assoc b c d)
          ∙ (ap (λ t. bit_xor t d) (bit_xor_comm b c) ∙ bit_xor_assoc c b d))
        ∙ sym (bit_xor_assoc a c (bit_xor b d)))

mask-bit_xor : (x y : ℕ) → x < 2 → y < 2 → mask ((x + y) % 2) ≡ bit_xor (mask x) (mask y)
mask-bit_xor zero zero p q = refl
mask-bit_xor zero (suc zero) p q = refl
mask-bit_xor (suc zero) zero p q = refl
mask-bit_xor (suc zero) (suc zero) p q = refl
mask-bit_xor x (suc (suc y)) p q = absurd (omega arith)
mask-bit_xor (suc (suc x)) y p q = absurd (omega arith)

crc_bit-bit_xor : (a b : ℕ) → crc_bit (bit_xor a b) ≡ bit_xor (crc_bit a) (crc_bit b)
unfolding crc_bit
crc_bit-bit_xor a b =
    ap₂ bit_xor (bit_xor-half a b)
      (ap mask (bit_xor-odd a b) ∙ mask-bit_xor (a % 2) (b % 2) (omega arith) (omega arith))
    ∙ interchange (a / 2) (b / 2) (mask (a % 2)) (mask (b % 2))

crc_bits-bit_xor : (n a b : ℕ) → crc_bits n (bit_xor a b) ≡ bit_xor (crc_bits n a) (crc_bits n b)
unfolding crc_bits
crc_bits-bit_xor zero a b = refl
crc_bits-bit_xor (suc n) a b =
    ap (crc_bits n) (crc_bit-bit_xor a b) ∙ crc_bits-bit_xor n (crc_bit a) (crc_bit b)

crc_bit-even : (a : ℕ) → crc_bit (2 * a) ≡ a
unfolding crc_bit
crc_bit-even a =
    let h : 2 * a / 2 ≡ a = omega arith in
    let e : 2 * a % 2 ≡ 0 = omega arith in rw (h, e) (bit_xor_comm a 0 ∙ bit_xor-zero a)

-- Eight zero bits leave the rest.
crc_bits-shift : (a : ℕ) → crc_bits 8 (a * 256) ≡ a
unfolding crc_bits
crc_bits-shift a =
    let e : a * 256 ≡ 2 * (2 * (2 * (2 * (2 * (2 * (2 * (2 * a))))))) = omega arith in
    rw
      (
        e, crc_bit-even, crc_bit-even, crc_bit-even, crc_bit-even, crc_bit-even, crc_bit-even,
        crc_bit-even, crc_bit-even,
      )
      refl

-- The exclusive or of the lowest byte and of the rest.
split_byte :
    (a b : ℕ) → bit_xor a b ≡ bit_xor (a / 256) (b / 256) * 256 + bit_xor (a % 256) (b % 256)
split_byte a b =
    let e : a / 256 * 256 + a % 256 ≡ a = omega arith in
    let f : b / 256 * 256 + b % 256 ≡ b = omega arith in
    rw (e, f) at
      (bit_xor-fields 8 (a / 256) (b / 256) (a % 256) (b % 256) (omega arith) (omega arith))

-- A number is the exclusive or of its parts.
parts : (a : ℕ) → a ≡ bit_xor (a / 256 * 256) (a % 256)
parts a =
    let h : a / 256 * 256 / 256 ≡ a / 256 = omega arith in
    let l : a / 256 * 256 % 256 ≡ 0 = omega arith in
    let h' : a % 256 / 256 ≡ 0 = omega arith in
    let l' : a % 256 % 256 ≡ a % 256 = omega arith in
    let e = rw (h, l, h', l') at (split_byte (a / 256 * 256) (a % 256)) in
    omega (arith, e, bit_xor_comm (a / 256) 0, bit_xor-zero (a / 256), bit_xor-zero (a % 256))

-- A byte of bits at once.
crc_bits-byte : (a : ℕ) → crc_bits 8 a ≡ bit_xor (crc_bits 8 (a % 256)) (a / 256)
crc_bits-byte a =
    ap (crc_bits 8) (parts a)
    ∙ (crc_bits-bit_xor 8 (a / 256 * 256) (a % 256)
        ∙ (ap (λ t. bit_xor t (crc_bits 8 (a % 256))) (crc_bits-shift (a / 256))
            ∙ bit_xor_comm (a / 256) (crc_bits 8 (a % 256))))

xor32_lem : (a b : ℕ) → a < 2 ^ 32 → b < 2 ^ 32 → xor32 a b ≡ bit_xor a b
unfolding xor32
xor32_lem a b p q =
    let a1 : byte_of 1 a ≡ a / 256 % 256 = omega arith in
    let b1 : byte_of 1 b ≡ b / 256 % 256 = omega arith in
    let a2 : byte_of 2 a ≡ a / 256 / 256 % 256 = omega arith in
    let b2 : byte_of 2 b ≡ b / 256 / 256 % 256 = omega arith in
    let a3 : byte_of 3 a ≡ a / 256 / 256 / 256 = omega arith in
    let b3 : byte_of 3 b ≡ b / 256 / 256 / 256 = omega arith in
    let a0 : byte_of 0 a ≡ a % 256 = omega arith in
    let b0 : byte_of 0 b ≡ b % 256 = omega arith in
    rw (a0, b0, a1, b1, a2, b2, a3, b3)
      (omega (
        arith,
        split_byte a b,
        split_byte (a / 256) (b / 256),
        split_byte (a / 256 / 256) (b / 256 / 256),
      ))

table_small : (i : ℕ) → i < 256 → ltb (get_or poly8_lookup i 0) (2 ^ 32) ≡ true
unfolding any_from poly8_lookup
table_small = holds_below 256 (λ i. ltb (get_or poly8_lookup i 0) (2 ^ 32)) refl

-- A turn of the loop takes eight bits.
crc32_turn :
    (crc c : ℕ)
    → crc < 2 ^ 32
    → c < 256
    → xor32 (get_or poly8_lookup (bit_xor (u8 crc) c) 0) (crc / 256) ≡ crc_bits 8 (bit_xor crc c)
crc32_turn crc c p q =
    let cz : c / 256 ≡ 0 = omega arith in
    let cc : c % 256 ≡ c = omega arith in
    let both = rw (cz, cc) at (split_byte crc c) in
    let i = bit_xor (crc % 256) c in
    let low_lt : i < 256 = bit_xor_lt 8 (crc % 256) c (omega arith) q in
    let high = bit_xor_comm (crc / 256) 0 in
    let zero_high = bit_xor-zero (crc / 256) in
    let low : bit_xor crc c % 256 ≡ i = omega (arith, both, low_lt) in
    let rest : bit_xor crc c / 256 ≡ crc / 256 = omega (arith, both, low_lt, high, zero_high) in
    xor32_lem (get_or poly8_lookup i 0) (crc / 256) (ltb→lt _ _ (table_small i low_lt))
      (omega arith)
    ∙ (ap (λ t. bit_xor t (crc / 256)) (poly8_lookup-crc_bits i low_lt)
        ∙ (ap₂ (λ t u. bit_xor (crc_bits 8 t) u) (sym low) (sym rest)
            ∙ sym (crc_bits-byte (bit_xor crc c))))

crc_bit_lt : (crc : ℕ) → crc < 2 ^ 32 → crc_bit crc < 2 ^ 32
unfolding crc_bit
crc_bit_lt crc p = bit_xor_lt 32 (crc / 2) (mask (crc % 2)) (omega arith) (mask_lt (crc % 2))

crc_bits_lt : (n crc : ℕ) → crc < 2 ^ 32 → crc_bits n crc < 2 ^ 32
unfolding crc_bits
crc_bits_lt zero crc p = p
crc_bits_lt (suc n) crc p = crc_bits_lt n (crc_bit crc) (crc_bit_lt crc p)

crc32_loop_lem :
    (p : List ℕ) (crc : ℕ) → IsBytes p → crc < 2 ^ 32 → crc32_loop p crc ≡ crc32_bits p crc
unfolding crc32_loop crc32_bits
crc32_loop_lem [] crc nil lt = refl
crc32_loop_lem (c ∷ p) crc (cons byte h) lt =
    let turn = crc32_turn crc c lt byte in
    let next = bit_xor_lt 32 crc c lt (omega arith) in
    ap (crc32_loop p) turn
    ∙ crc32_loop_lem p (crc_bits 8 (bit_xor crc c)) h (crc_bits_lt 8 (bit_xor crc c) next)

-- The table, the exclusive or byte by byte and the loop compute the CRC-32 of a buffer of bytes as it
-- is defined bit by bit: each bit, the lowest of a byte first, shifts the register and takes off the
-- polynomial 0xEDB88320 when the bit shifted out is 1; the register starts with all ones and is
-- inverted at the end.
pub crc32_byte_lem : (p : List ℕ) → IsBytes p → crc32_byte p ≡ 0xFFFFFFFF - crc32_bits p 0xFFFFFFFF
unfolding crc32_byte
crc32_byte_lem p h = ap (λ t. 0xFFFFFFFF - t) (crc32_loop_lem p 0xFFFFFFFF h (omega arith))
