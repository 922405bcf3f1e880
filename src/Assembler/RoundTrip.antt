-- ===== src/Assembler/RoundTrip.antt =====
-- What `encode_instruction` of source/programs/nas.c writes is what the processor reads as the
-- instruction of the table.
use nano_s.Prelude.{
  ℕ, ◌+◌, ◌%◌, ◌≤◌, ◌<◌, ◌^◌, ◌≡◌, ◌≢◌, refl, some, List, [], ◌∷◌, ◌++◌, ◌==◌, if◌then◌else◌, arith,
  get_or, u16, length, ◌⊎◌,
}
use nano_s.Assembler.Tables.{
  Instr, register_at, i_data, r_count, o_rw, o_mw, o_rmw, o_iw, m_add, m_and, m_call, m_cmp, m_jc,
  m_je, m_jg, m_jge, m_jl, m_jle, m_jmp, m_jnc, m_jne, m_mov, m_or, m_pop, m_push, m_sub, i_push,
  i_pop, i_mov_riw, i_mov_rrw, i_mov_rmw, i_mov_mrw, i_mov_rrmw, i_mov_rmrw, i_cmp_riw, i_cmp_rrw,
  i_cmp_rmw, i_cmp_mrw, i_cmp_rrmw, i_cmp_rmrw, i_ret, i_retf, i_int, i_call, i_jmp, i_je, i_jne,
  i_jg, i_jge, i_jl, i_jle, i_jc, i_jnc, i_add_riw, i_add_rrw, i_add_rmw, i_add_mrw, i_add_rrmw,
  i_add_rmrw, i_sub_riw, i_sub_rrw, i_sub_rmw, i_sub_mrw, i_sub_rrmw, i_sub_rmrw, i_mul_rw,
  i_div_rw, i_not_rw, i_and_riw, i_and_rrw, i_and_rmw, i_and_mrw, i_and_rrmw, i_and_rmrw, i_or_riw,
  i_or_rrw, i_or_rmw, i_or_mrw, i_or_rrmw, i_or_rmrw,
}
use nano_s.Assembler.Machine.{
  Operand, register, memory, memory_at_bx, immediate, kind_of, decode_kind, decode, insn,
  arithmetic_name, unary_name, condition_name,
}
use nano_s.Assembler.Encode.{reg, op_at, Block, block, distance, instruction_bytes, block_bytes}
use nano_s.Assembler.Forms.{
  push_kind, pop_kind, in_opcode-reads, mov_imm-reads, reg_imm-reads, reg_only-reads, reg_mem-reads,
  mem_reg-reads, reg_ind-reads, ind_reg-reads, reg_reg-reads,
}
use nano_s.Assembler.Jumps.{int_imm-reads, short_jump-reads, near_jump-reads}

-- The operands that the table gives an instruction, by their types.
unfoldable pub operand : ℕ → ℕ → List Operand
operand type value =
    if type == o_rw
    then register (register_at value).name ∷ []
    else if type == o_iw
    then immediate value ∷ []
    else if type == o_mw
    then memory value ∷ []
    else if type == o_rmw
    then memory_at_bx ∷ []
    else []

unfoldable pub operands : Instr → List ℕ → List Operand
operands id op =
    operand (get_or (i_data id).op_type 0 0) (op_at op 0)
    ++ operand (get_or (i_data id).op_type 1 0) (op_at op 1)

-- A register operand is the id of one, and every value is a `uint`.
abbrev pub Fits : ℕ → ℕ → Type 0
Fits type value = (type ≡ o_rw → (1 ≤ value) × (value < r_count)) × (value < 2 ^ 16)

-- The operands that the bytes have room for: an interrupt number of 8 bits, a short distance, and a
-- distance whose low byte is not 0.
unfoldable pub InReach : Block → ℕ → ℕ → List ℕ → Type 0
InReach Block.int_imm org offset op = op_at op 0 < 256
InReach Block.short_jump org offset op =
    (distance org op offset 2 < 128) ⊎ (65408 ≤ distance org op offset 2)
InReach Block.near_jump org offset op = distance org op offset 3 % 256 ≢ 0
InReach b org offset op = 0 ≤ offset

pub instruction_bytes-reads :
    (id : Instr) (org offset : ℕ) (op rest : List ℕ)
    → org < 2 ^ 16
    → Fits (get_or (i_data id).op_type 0 0) (op_at op 0)
    → Fits (get_or (i_data id).op_type 1 0) (op_at op 1)
    → InReach (block id) org offset op
    → decode (u16 (org + offset)) (instruction_bytes id org offset op ++ rest)
      ≡ some
          (insn (i_data id).mnemonic (operands id op) (length (instruction_bytes id org offset op)))
unfolding instruction_bytes block block_bytes i_data operands operand InReach decode kind_of
    decode_kind reg arithmetic_name unary_name condition_name
instruction_bytes-reads i_push org offset op rest at0 f g near =
    in_opcode-reads m_push (u16 (org + offset)) (op_at op 0) 80 rest (f.0 refl) push_kind
instruction_bytes-reads i_pop org offset op rest at0 f g near =
    in_opcode-reads m_pop (u16 (org + offset)) (op_at op 0) 88 rest (f.0 refl) pop_kind
instruction_bytes-reads i_mov_riw org offset op rest at0 f g near =
    mov_imm-reads (u16 (org + offset)) (op_at op 0) rest (f.0 refl) (op_at op 1)
instruction_bytes-reads i_mov_rrw org offset op rest at0 f g near =
    reg_reg-reads (u16 (org + offset)) (op_at op 0) rest (f.0 refl) m_mov 0x89 (op_at op 1)
      (g.0 refl) refl
instruction_bytes-reads i_mov_rmw org offset op rest at0 f g near =
    reg_mem-reads (u16 (org + offset)) (op_at op 0) rest (f.0 refl) m_mov 0x8B (op_at op 1) refl
instruction_bytes-reads i_mov_mrw org offset op rest at0 f g near =
    mem_reg-reads (u16 (org + offset)) (op_at op 1) rest (g.0 refl) m_mov 0x89 (op_at op 0) refl
instruction_bytes-reads i_mov_rrmw org offset op rest at0 f g near =
    reg_ind-reads (u16 (org + offset)) (op_at op 0) rest (f.0 refl) m_mov 0x8B refl
instruction_bytes-reads i_mov_rmrw org offset op rest at0 f g near =
    ind_reg-reads (u16 (org + offset)) (op_at op 1) rest (g.0 refl) m_mov 0x89 refl
instruction_bytes-reads i_cmp_riw org offset op rest at0 f g near =
    reg_imm-reads (u16 (org + offset)) (op_at op 0) rest (f.0 refl) 7 (op_at op 1) (omega arith)
instruction_bytes-reads i_cmp_rrw org offset op rest at0 f g near =
    reg_reg-reads (u16 (org + offset)) (op_at op 0) rest (f.0 refl) m_cmp 0x39 (op_at op 1)
      (g.0 refl) refl
instruction_bytes-reads i_cmp_rmw org offset op rest at0 f g near =
    reg_mem-reads (u16 (org + offset)) (op_at op 0) rest (f.0 refl) m_cmp 0x3B (op_at op 1) refl
instruction_bytes-reads i_cmp_mrw org offset op rest at0 f g near =
    mem_reg-reads (u16 (org + offset)) (op_at op 1) rest (g.0 refl) m_cmp 0x39 (op_at op 0) refl
instruction_bytes-reads i_cmp_rrmw org offset op rest at0 f g near =
    reg_ind-reads (u16 (org + offset)) (op_at op 0) rest (f.0 refl) m_cmp 0x3B refl
instruction_bytes-reads i_cmp_rmrw org offset op rest at0 f g near =
    ind_reg-reads (u16 (org + offset)) (op_at op 1) rest (g.0 refl) m_cmp 0x39 refl
instruction_bytes-reads i_ret org offset op rest at0 f g near = refl
instruction_bytes-reads i_retf org offset op rest at0 f g near = refl
instruction_bytes-reads i_int org offset op rest at0 f g near =
    int_imm-reads (u16 (org + offset)) (op_at op 0) rest near
instruction_bytes-reads i_call org offset op rest at0 f g near =
    near_jump-reads m_call 0xE8 org offset op rest at0 f.1 refl near
instruction_bytes-reads i_jmp org offset op rest at0 f g near =
    near_jump-reads m_jmp 0xE9 org offset op rest at0 f.1 refl near
instruction_bytes-reads i_je org offset op rest at0 f g near =
    short_jump-reads m_je 0x74 org offset op rest at0 f.1 refl near
instruction_bytes-reads i_jne org offset op rest at0 f g near =
    short_jump-reads m_jne 0x75 org offset op rest at0 f.1 refl near
instruction_bytes-reads i_jg org offset op rest at0 f g near =
    short_jump-reads m_jg 0x7F org offset op rest at0 f.1 refl near
instruction_bytes-reads i_jge org offset op rest at0 f g near =
    short_jump-reads m_jge 0x7D org offset op rest at0 f.1 refl near
instruction_bytes-reads i_jl org offset op rest at0 f g near =
    short_jump-reads m_jl 0x7C org offset op rest at0 f.1 refl near
instruction_bytes-reads i_jle org offset op rest at0 f g near =
    short_jump-reads m_jle 0x7E org offset op rest at0 f.1 refl near
instruction_bytes-reads i_jc org offset op rest at0 f g near =
    short_jump-reads m_jc 0x72 org offset op rest at0 f.1 refl near
instruction_bytes-reads i_jnc org offset op rest at0 f g near =
    short_jump-reads m_jnc 0x73 org offset op rest at0 f.1 refl near
instruction_bytes-reads i_add_riw org offset op rest at0 f g near =
    reg_imm-reads (u16 (org + offset)) (op_at op 0) rest (f.0 refl) 0 (op_at op 1) (omega arith)
instruction_bytes-reads i_add_rrw org offset op rest at0 f g near =
    reg_reg-reads (u16 (org + offset)) (op_at op 0) rest (f.0 refl) m_add 0x01 (op_at op 1)
      (g.0 refl) refl
instruction_bytes-reads i_add_rmw org offset op rest at0 f g near =
    reg_mem-reads (u16 (org + offset)) (op_at op 0) rest (f.0 refl) m_add 0x03 (op_at op 1) refl
instruction_bytes-reads i_add_mrw org offset op rest at0 f g near =
    mem_reg-reads (u16 (org + offset)) (op_at op 1) rest (g.0 refl) m_add 0x01 (op_at op 0) refl
instruction_bytes-reads i_add_rrmw org offset op rest at0 f g near =
    reg_ind-reads (u16 (org + offset)) (op_at op 0) rest (f.0 refl) m_add 0x03 refl
instruction_bytes-reads i_add_rmrw org offset op rest at0 f g near =
    ind_reg-reads (u16 (org + offset)) (op_at op 1) rest (g.0 refl) m_add 0x01 refl
instruction_bytes-reads i_sub_riw org offset op rest at0 f g near =
    reg_imm-reads (u16 (org + offset)) (op_at op 0) rest (f.0 refl) 5 (op_at op 1) (omega arith)
instruction_bytes-reads i_sub_rrw org offset op rest at0 f g near =
    reg_reg-reads (u16 (org + offset)) (op_at op 0) rest (f.0 refl) m_sub 0x29 (op_at op 1)
      (g.0 refl) refl
instruction_bytes-reads i_sub_rmw org offset op rest at0 f g near =
    reg_mem-reads (u16 (org + offset)) (op_at op 0) rest (f.0 refl) m_sub 0x2B (op_at op 1) refl
instruction_bytes-reads i_sub_mrw org offset op rest at0 f g near =
    mem_reg-reads (u16 (org + offset)) (op_at op 1) rest (g.0 refl) m_sub 0x29 (op_at op 0) refl
instruction_bytes-reads i_sub_rrmw org offset op rest at0 f g near =
    reg_ind-reads (u16 (org + offset)) (op_at op 0) rest (f.0 refl) m_sub 0x2B refl
instruction_bytes-reads i_sub_rmrw org offset op rest at0 f g near =
    ind_reg-reads (u16 (org + offset)) (op_at op 1) rest (g.0 refl) m_sub 0x29 refl
instruction_bytes-reads i_mul_rw org offset op rest at0 f g near =
    reg_only-reads (u16 (org + offset)) (op_at op 0) rest (f.0 refl) 4 (omega arith)
instruction_bytes-reads i_div_rw org offset op rest at0 f g near =
    reg_only-reads (u16 (org + offset)) (op_at op 0) rest (f.0 refl) 6 (omega arith)
instruction_bytes-reads i_not_rw org offset op rest at0 f g near =
    reg_only-reads (u16 (org + offset)) (op_at op 0) rest (f.0 refl) 2 (omega arith)
instruction_bytes-reads i_and_riw org offset op rest at0 f g near =
    reg_imm-reads (u16 (org + offset)) (op_at op 0) rest (f.0 refl) 4 (op_at op 1) (omega arith)
instruction_bytes-reads i_and_rrw org offset op rest at0 f g near =
    reg_reg-reads (u16 (org + offset)) (op_at op 0) rest (f.0 refl) m_and 0x21 (op_at op 1)
      (g.0 refl) refl
instruction_bytes-reads i_and_rmw org offset op rest at0 f g near =
    reg_mem-reads (u16 (org + offset)) (op_at op 0) rest (f.0 refl) m_and 0x23 (op_at op 1) refl
instruction_bytes-reads i_and_mrw org offset op rest at0 f g near =
    mem_reg-reads (u16 (org + offset)) (op_at op 1) rest (g.0 refl) m_and 0x21 (op_at op 0) refl
instruction_bytes-reads i_and_rrmw org offset op rest at0 f g near =
    reg_ind-reads (u16 (org + offset)) (op_at op 0) rest (f.0 refl) m_and 0x23 refl
instruction_bytes-reads i_and_rmrw org offset op rest at0 f g near =
    ind_reg-reads (u16 (org + offset)) (op_at op 1) rest (g.0 refl) m_and 0x21 refl
instruction_bytes-reads i_or_riw org offset op rest at0 f g near =
    reg_imm-reads (u16 (org + offset)) (op_at op 0) rest (f.0 refl) 1 (op_at op 1) (omega arith)
instruction_bytes-reads i_or_rrw org offset op rest at0 f g near =
    reg_reg-reads (u16 (org + offset)) (op_at op 0) rest (f.0 refl) m_or 0x09 (op_at op 1)
      (g.0 refl) refl
instruction_bytes-reads i_or_rmw org offset op rest at0 f g near =
    reg_mem-reads (u16 (org + offset)) (op_at op 0) rest (f.0 refl) m_or 0x0B (op_at op 1) refl
instruction_bytes-reads i_or_mrw org offset op rest at0 f g near =
    mem_reg-reads (u16 (org + offset)) (op_at op 1) rest (g.0 refl) m_or 0x09 (op_at op 0) refl
instruction_bytes-reads i_or_rrmw org offset op rest at0 f g near =
    reg_ind-reads (u16 (org + offset)) (op_at op 0) rest (f.0 refl) m_or 0x0B refl
instruction_bytes-reads i_or_rmrw org offset op rest at0 f g near =
    ind_reg-reads (u16 (org + offset)) (op_at op 1) rest (g.0 refl) m_or 0x09 refl
