-- ===== src/Assembler/Machine.antt =====
-- How an 8086 reads the instructions that the assembler of source/programs/nas.c writes: an
-- independent description, from the opcode map of the processor.
use nano_s.Prelude.{
  ℕ, ◌+◌, ◌*◌, ◌/◌, ◌%◌, List, [], ◌∷◌, ◌==◌, ltb, if◌then◌else◌, ◌&&◌, drop, Option, none, some,
  get_or, u16,
}
use nano_s.Assembler.Tables.{
  m_push, m_pop, m_mov, m_cmp, m_ret, m_retf, m_int, m_call, m_jmp, m_je, m_jne, m_jg, m_jge, m_jl,
  m_jle, m_jc, m_jnc, m_add, m_sub, m_mul, m_div, m_not, m_and, m_or,
}

pub data Operand : Type 0 where
  register : List ℕ → Operand
  memory : ℕ → Operand
  memory_at_bx : Operand
  immediate : ℕ → Operand

-- The word registers in the order of their numbers.
unfoldable pub register_name : ℕ → List ℕ
register_name r =
    if r == 0
    then 97 ∷ 120 ∷ []
    else if r == 1
    then 99 ∷ 120 ∷ []
    else if r == 2
    then 100 ∷ 120 ∷ []
    else if r == 3
    then 98 ∷ 120 ∷ []
    else if r == 4
    then 115 ∷ 112 ∷ []
    else if r == 5
    then 98 ∷ 112 ∷ []
    else if r == 6
    then 115 ∷ 105 ∷ []
    else 100 ∷ 105 ∷ []

-- What an opcode byte says of the instruction.
pub data Kind : Type 0 where
  no_operand short_jump near_jump rm_from_register register_from_rm : List ℕ → Kind
  short_register : List ℕ → ℕ → Kind
  move_immediate : ℕ → Kind
  interrupt immediate_group unary_group unknown : Kind

unfoldable pub arithmetic_name : ℕ → List ℕ
arithmetic_name k =
    if k == 0
    then m_add
    else if k == 1
    then m_or
    else if k == 4
    then m_and
    else if k == 5
    then m_sub
    else if k == 7
    then m_cmp
    else []

unfoldable pub unary_name : ℕ → List ℕ
unary_name k = if k == 2 then m_not else if k == 4 then m_mul else if k == 6 then m_div else []

unfoldable pub condition_name : ℕ → List ℕ
condition_name k =
    if k == 2
    then m_jc
    else if k == 3
    then m_jnc
    else if k == 4
    then m_je
    else if k == 5
    then m_jne
    else if k == 12
    then m_jl
    else if k == 13
    then m_jge
    else if k == 14
    then m_jle
    else if k == 15
    then m_jg
    else []

-- The rows of eight or sixteen opcodes, then single ones.
unfoldable pub kind_of : ℕ → Kind
kind_of b =
    if ltb b 64 && (b % 8 == 1)
    then rm_from_register (arithmetic_name (b / 8))
    else if ltb b 64 && (b % 8 == 3)
    then register_from_rm (arithmetic_name (b / 8))
    else if b / 8 == 10
    then short_register m_push (b % 8)
    else if b / 8 == 11
    then short_register m_pop (b % 8)
    else if b / 16 == 7
    then short_jump (condition_name (b % 16))
    else if b == 0x81
    then immediate_group
    else if b == 0x89
    then rm_from_register m_mov
    else if b == 0x8B
    then register_from_rm m_mov
    else if b / 8 == 23
    then move_immediate (b % 8)
    else if b == 0xC3
    then no_operand m_ret
    else if b == 0xCB
    then no_operand m_retf
    else if b == 0xCD
    then interrupt
    else if b == 0xE8
    then near_jump m_call
    else if b == 0xE9
    then near_jump m_jmp
    else if b == 0xF7
    then unary_group
    else unknown

abbrev pub word : ℕ → ℕ → ℕ
word low high = low + 256 * high

-- A byte as a signed distance, in 16 bits.
abbrev pub sign_extend : ℕ → ℕ
sign_extend b = if ltb b 128 then b else b + 65280

-- The operand in the fields `mod` and `r/m` of the second byte, for the modes that occur, and how
-- many bytes follow for it.
unfoldable pub rm_operand : ℕ → List ℕ → Option (Operand × ℕ)
rm_operand m rest =
    if ltb 191 m
    then some (register (register_name (m % 8)), 0)
    else if ltb m 64 && (m % 8 == 6)
    then some (memory (word (get_or rest 0 0) (get_or rest 1 0)), 2)
    else if ltb m 64 && (m % 8 == 7)
    then some (memory_at_bx, 0)
    else none

pub record Insn : Type 0 where
  pub name : List ℕ
  pub operands : List Operand
  pub size : ℕ

abbrev pub insn : List ℕ → List Operand → ℕ → Insn
insn n o s = record { name = n; operands = o; size = s }

-- The middle field of the second byte.
abbrev pub middle : List ℕ → ℕ
middle rest = get_or rest 0 0 / 8 % 8

unfoldable pub with_operand : Option (Operand × ℕ) → (Operand → ℕ → Insn) → Option Insn
with_operand none f = none
with_operand (some (o, more)) f = some (f o more)

-- The bytes after the opcode; `address` is where the opcode is.
unfoldable pub decode_kind : ℕ → Kind → List ℕ → Option Insn
decode_kind address (no_operand n) rest = some (insn n [] 1)
decode_kind address (short_register n r) rest = some (insn n (register (register_name r) ∷ []) 1)
decode_kind address (move_immediate r) rest = some (
    insn m_mov
      (register (register_name r) ∷ immediate (word (get_or rest 0 0) (get_or rest 1 0)) ∷ []) 3)
decode_kind address interrupt rest = some (insn m_int (immediate (get_or rest 0 0) ∷ []) 2)
decode_kind address (short_jump n) rest =
    some (insn n (immediate (u16 (address + 2 + sign_extend (get_or rest 0 0))) ∷ []) 2)
decode_kind address (near_jump n) rest =
    some (insn n (immediate (u16 (address + 3 + word (get_or rest 0 0) (get_or rest 1 0))) ∷ []) 3)
decode_kind address (rm_from_register n) rest =
    with_operand (rm_operand (get_or rest 0 0) (drop 1 rest))
      λ o more. insn n (o ∷ register (register_name (middle rest)) ∷ []) (2 + more)
decode_kind address (register_from_rm n) rest =
    with_operand (rm_operand (get_or rest 0 0) (drop 1 rest))
      λ o more. insn n (register (register_name (middle rest)) ∷ o ∷ []) (2 + more)
decode_kind address immediate_group rest =
    with_operand (rm_operand (get_or rest 0 0) (drop 1 rest)) λ o more.
      insn (arithmetic_name (middle rest))
        (o ∷ immediate (word (get_or rest (1 + more) 0) (get_or rest (2 + more) 0)) ∷ []) (4 + more)
decode_kind address unary_group rest =
    with_operand (rm_operand (get_or rest 0 0) (drop 1 rest))
      λ o more. insn (unary_name (middle rest)) (o ∷ []) (2 + more)
decode_kind address unknown rest = none

unfoldable pub decode : ℕ → List ℕ → Option Insn
decode address [] = none
decode address (b ∷ rest) = decode_kind address (kind_of b) rest
