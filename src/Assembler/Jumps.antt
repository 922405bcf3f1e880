-- ===== src/Assembler/Jumps.antt =====
-- How the processor reads the interrupts and the jumps of source/programs/nas.c: the target is
-- relative to the next instruction.
use nano_s.Prelude.{
  ℕ, ◌+◌, ◌/◌, ◌%◌, ◌≤◌, ◌<◌, ◌^◌, ◌≡◌, ◌≢◌, refl, some, List, [], ◌∷◌, arith, bit_and, u8, u16,
  ◌⊎◌,
}
use nano_s.Assembler.Tables.{m_int}
use nano_s.Assembler.Machine.{
  immediate, kind_of, decode_kind, decode, insn, word, sign_extend, short_jump, near_jump,
}
use nano_s.Assembler.Encode.{op_at, distance}
use nano_s.Assembler.Fields.{low_byte}

pub int_imm-reads :
    (addr v : ℕ) (rest : List ℕ)
    → v < 256
    → decode addr (205 ∷ u8 v ∷ rest) ≡ some (insn m_int (immediate v ∷ []) 2)
unfolding decode kind_of decode_kind
int_imm-reads addr v rest p = let e : u8 v ≡ v = omega arith in rw e refl

module _ (n : List ℕ) (c org offset : ℕ) (op rest : List ℕ) (org_lt : org < 2 ^ 16)
    (op_lt : op_at op 0 < 2 ^ 16) where
  short_target :
      (distance org op offset 2 < 128) ⊎ (65408 ≤ distance org op offset 2)
      → u16 (u16 (org + offset) + 2 + sign_extend (u8 (distance org op (offset + 1) 1)))
        ≡ op_at op 0
  unfolding distance
  short_target near = ground arith

  near_target :
      distance org op offset 3 % 256 ≢ 0
      → u16 (
          u16 (org + offset)
          + 3
          + word
              (bit_and (distance org op (offset + 1) 2) 255)
              (distance org op (offset + 2) 2 / 256))
        ≡ op_at op 0
  unfolding distance
  near_target near = rw low_byte (omega arith)

  pub short_jump-reads :
      kind_of c ≡ short_jump n
      → (distance org op offset 2 < 128) ⊎ (65408 ≤ distance org op offset 2)
      → decode (u16 (org + offset)) (c ∷ u8 (distance org op (offset + 1) 1) ∷ rest)
        ≡ some (insn n (immediate (op_at op 0) ∷ []) 2)
  unfolding decode decode_kind
  short_jump-reads k near = rw (k, short_target near) refl

  pub near_jump-reads :
      kind_of c ≡ near_jump n
      → distance org op offset 3 % 256 ≢ 0
      → decode (u16 (org + offset)) (
          c
          ∷ bit_and (distance org op (offset + 1) 2) 255
          ∷ distance org op (offset + 2) 2 / 256
          ∷ rest)
        ≡ some (insn n (immediate (op_at op 0) ∷ []) 3)
  unfolding decode decode_kind
  near_jump-reads k near = rw (k, near_target near) refl
