-- ===== src/Assembler/Fields.antt =====
-- The fields of the second byte that `encode_instruction` of source/programs/nas.c composes, and what
-- the processor reads in them.
use nano_s.Prelude.{
  ℕ, zero, suc, ◌+◌, ◌*◌, ◌/◌, ◌%◌, ◌≤◌, ◌<◌, ◌≡◌, refl, some, List, ◌==◌, arith, bit_and, bit_or,
  bit_and_mask, bit_or_fields, get_or, holds_below, any_from, true, ==_iff, ltb, lt→ltb,
}
use nano_s.Assembler.Tables.{register_at, r_data}
use nano_s.Assembler.Machine.{register_name, rm_operand, register, memory, memory_at_bx, word}

pub register_cases :
    (P : ℕ → Type 0) → P 1 → P 2 → P 3 → P 4 → P 5 → P 6 → P 7 → P 8 → (v : ℕ) → 1 ≤ v → v < 9 → P v
register_cases P a b c d e f g h zero l u = absurd (omega arith)
register_cases P a b c d e f g h (suc zero) l u = a
register_cases P a b c d e f g h (suc (suc zero)) l u = b
register_cases P a b c d e f g h (suc (suc (suc zero))) l u = c
register_cases P a b c d e f g h (suc (suc (suc (suc zero)))) l u = d
register_cases P a b c d e f g h (suc (suc (suc (suc (suc zero))))) l u = e
register_cases P a b c d e f g h (suc (suc (suc (suc (suc (suc zero)))))) l u = f
register_cases P a b c d e f g h (suc (suc (suc (suc (suc (suc (suc zero))))))) l u = g
register_cases P a b c d e f g h (suc (suc (suc (suc (suc (suc (suc (suc zero)))))))) l u = h
register_cases P a b c d e f g h (suc (suc (suc (suc (suc (suc (suc (suc (suc v))))))))) l u =
    absurd (omega arith)

-- The number of a register of the table is the one of its name.
pub register_name-encoding :
    (v : ℕ) → 1 ≤ v → v < 9 → register_name (register_at v).encoding ≡ (register_at v).name
unfolding register_name register_at r_data
register_name-encoding =
    register_cases (λ v. register_name (register_at v).encoding ≡ (register_at v).name) refl refl
      refl refl refl refl refl refl

pub encoding-suc : (v : ℕ) → 1 ≤ v → v < 9 → (register_at v).encoding + 1 ≡ v
unfolding register_at r_data
encoding-suc =
    register_cases (λ v. (register_at v).encoding + 1 ≡ v) refl refl refl refl refl refl refl refl

both_fields : (m : ℕ) → m < 64 → (bit_or (bit_or 192 (m / 8 * 8)) (m % 8) == 192 + m) ≡ true
unfolding any_from
both_fields = holds_below 64 (λ m. bit_or (bit_or 192 (m / 8 * 8)) (m % 8) == 192 + m) refl

pub direct_byte : (a b : ℕ) → a < 8 → b < 8 → bit_or (bit_or 192 (a * 8)) b ≡ 192 + (a * 8 + b)
direct_byte a b p q =
    let m = a * 8 + b in
    let e : m / 8 ≡ a = omega arith in
    let f : m % 8 ≡ b = omega arith in
    (==_iff (bit_or (bit_or 192 (a * 8)) b) (192 + m)).0
      (rw (e, f) at (both_fields m (omega arith)))

pub memory_byte : (a : ℕ) → bit_or 6 (a * 8) ≡ 6 + a * 8
memory_byte a = bit_or_fields 3 a 6 (omega arith)

pub indirect_byte : (a : ℕ) → bit_or 7 (a * 8) ≡ 7 + a * 8
indirect_byte a = bit_or_fields 3 a 7 (omega arith)

pub low_byte : (v : ℕ) → bit_and v 255 ≡ v % 256
low_byte v = bit_and_mask 8 v

pub middle_field : (k a : ℕ) → k < 8 → a < 8 → (k + a * 8) / 8 % 8 ≡ a
middle_field k a p q = omega arith

pub direct_field : (a b : ℕ) → a < 8 → b < 8 → (192 + (a * 8 + b)) / 8 % 8 ≡ a
direct_field a b p q = omega arith

pub rm_operand-direct :
    (a b : ℕ) (rest : List ℕ)
    → a < 8
    → b < 8
    → rm_operand (192 + (a * 8 + b)) rest ≡ some (register (register_name b), 0)
unfolding rm_operand
rm_operand-direct a b rest p q =
    let e : (192 + (a * 8 + b)) % 8 ≡ b = omega arith in
    let t : ltb 191 (192 + (a * 8 + b)) ≡ true = lt→ltb _ _ (omega arith) in rw (e, t) refl

pub rm_operand-memory :
    (a : ℕ) (rest : List ℕ)
    → a < 8
    → rm_operand (6 + a * 8) rest ≡ some (memory (word (get_or rest 0 0) (get_or rest 1 0)), 2)
unfolding rm_operand
rm_operand-memory a rest p = ground arith

pub rm_operand-indirect :
    (a : ℕ) (rest : List ℕ) → a < 8 → rm_operand (7 + a * 8) rest ≡ some (memory_at_bx, 0)
unfolding rm_operand
rm_operand-indirect a rest p = ground arith

pub word-bytes : (v : ℕ) → word (bit_and v 255) (v / 256) ≡ v
word-bytes v = rw low_byte (omega arith)
