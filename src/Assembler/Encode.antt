-- ===== src/Assembler/Encode.antt =====
-- `encode_instruction` and `encode_data` of source/programs/nas.c. A byte is stored by
-- `buffer[offset++] = x`, where x is computed with the offset of the byte itself.

use nano_s.Prelude.{
  ℕ, ◌+◌, ◌*◌, ◌/◌, Option, none, some, List, [], ◌∷◌, ◌==◌, if◌then◌else◌, bit_and, bit_or, get_or,
  set, u8, u16, sub16,
}
use nano_s.Assembler.Tables.{
  Instr, register_at, i_data, i_push, i_pop, i_mov_riw, i_mov_rrw, i_mov_rmw, i_mov_mrw, i_mov_rrmw,
  i_mov_rmrw, i_cmp_riw, i_cmp_rrw, i_cmp_rmw, i_cmp_mrw, i_cmp_rrmw, i_cmp_rmrw, i_ret, i_retf,
  i_int, i_call, i_jmp, i_je, i_jne, i_jg, i_jge, i_jl, i_jle, i_jc, i_jnc, i_add_riw, i_add_rrw,
  i_add_rmw, i_add_mrw, i_add_rrmw, i_add_rmrw, i_sub_riw, i_sub_rrw, i_sub_rmw, i_sub_mrw,
  i_sub_rrmw, i_sub_rmrw, i_mul_rw, i_div_rw, i_not_rw, i_and_riw, i_and_rrw, i_and_rmw, i_and_mrw,
  i_and_rrmw, i_and_rmrw, i_or_riw, i_or_rrw, i_or_rmw, i_or_mrw, i_or_rrmw, i_or_rmrw,
}

abbrev pub error_not_found : ℕ
error_not_found = 0xFFFF

-- The groups of labels that share a block of the switch. The number is the one in the middle field
-- of the second byte.
pub data Block : Type 0 where
  ret push_pop int_imm short_jump near_jump mov_imm : Block
  reg_reg reg_mem mem_reg reg_ind ind_reg : Block
  reg_imm reg_only : ℕ → Block

unfoldable pub block : Instr → Block
block i_push = push_pop
block i_pop = push_pop
block i_mov_riw = mov_imm
block i_mov_rrw = reg_reg
block i_mov_rmw = reg_mem
block i_mov_mrw = mem_reg
block i_mov_rrmw = reg_ind
block i_mov_rmrw = ind_reg
block i_cmp_riw = reg_imm 7
block i_cmp_rrw = reg_reg
block i_cmp_rmw = reg_mem
block i_cmp_mrw = mem_reg
block i_cmp_rrmw = reg_ind
block i_cmp_rmrw = ind_reg
block i_ret = ret
block i_retf = ret
block i_int = int_imm
block i_call = near_jump
block i_jmp = near_jump
block i_je = short_jump
block i_jne = short_jump
block i_jg = short_jump
block i_jge = short_jump
block i_jl = short_jump
block i_jle = short_jump
block i_jc = short_jump
block i_jnc = short_jump
block i_add_riw = reg_imm 0
block i_add_rrw = reg_reg
block i_add_rmw = reg_mem
block i_add_mrw = mem_reg
block i_add_rrmw = reg_ind
block i_add_rmrw = ind_reg
block i_sub_riw = reg_imm 5
block i_sub_rrw = reg_reg
block i_sub_rmw = reg_mem
block i_sub_mrw = mem_reg
block i_sub_rrmw = reg_ind
block i_sub_rmrw = ind_reg
block i_mul_rw = reg_only 4
block i_div_rw = reg_only 6
block i_not_rw = reg_only 2
block i_and_riw = reg_imm 4
block i_and_rrw = reg_reg
block i_and_rmw = reg_mem
block i_and_mrw = mem_reg
block i_and_rrmw = reg_ind
block i_and_rmrw = ind_reg
block i_or_riw = reg_imm 1
block i_or_rrw = reg_reg
block i_or_rmw = reg_mem
block i_or_mrw = mem_reg
block i_or_rrmw = reg_ind
block i_or_rmrw = ind_reg

unfoldable pub op_at : List ℕ → ℕ → ℕ
op_at op i = get_or op i 0

unfoldable pub reg : List ℕ → ℕ → ℕ
unfolding op_at
reg op i = (register_at (op_at op i)).encoding

-- `op[0]-cg_origin-(offset+k)` at the offset of the byte that is stored.
unfoldable pub distance : ℕ → List ℕ → ℕ → ℕ → ℕ
unfolding op_at
distance cg_origin op offset k = sub16 (sub16 (op_at op 0) cg_origin) (u16 (offset + k))

-- The bytes that the blocks of the switch store from `offset` on; `c` is the opcode.
unfoldable pub block_bytes : Block → ℕ → ℕ → ℕ → List ℕ → List ℕ
unfolding op_at
block_bytes ret c org offset op = c ∷ []
block_bytes push_pop c org offset op = u8 (c + reg op 0) ∷ []
block_bytes int_imm c org offset op = c ∷ u8 (op_at op 0) ∷ []
block_bytes short_jump c org offset op = c ∷ u8 (distance org op (offset + 1) 1) ∷ []
block_bytes near_jump c org offset op =
    c ∷ bit_and (distance org op (offset + 1) 2) 0xFF ∷ distance org op (offset + 2) 2 / 256 ∷ []
block_bytes mov_imm c org offset op =
    u8 (c + reg op 0) ∷ bit_and (op_at op 1) 0xFF ∷ op_at op 1 / 256 ∷ []
block_bytes reg_reg c org offset op = c ∷ bit_or (bit_or 0xC0 (reg op 1 * 8)) (reg op 0) ∷ []
block_bytes reg_mem c org offset op =
    c ∷ bit_or 0x06 (reg op 0 * 8) ∷ bit_and (op_at op 1) 0xFF ∷ op_at op 1 / 256 ∷ []
block_bytes mem_reg c org offset op =
    c ∷ bit_or 0x06 (reg op 1 * 8) ∷ bit_and (op_at op 0) 0xFF ∷ op_at op 0 / 256 ∷ []
block_bytes reg_ind c org offset op = c ∷ bit_or 0x07 (reg op 0 * 8) ∷ []
block_bytes ind_reg c org offset op = c ∷ bit_or 0x07 (reg op 1 * 8) ∷ []
block_bytes (reg_imm ext) c org offset op =
    c
    ∷ bit_or (bit_or 0xC0 (ext * 8)) (reg op 0)
    ∷ bit_and (op_at op 1) 0xFF
    ∷ op_at op 1 / 256
    ∷ []
block_bytes (reg_only ext) c org offset op = c ∷ bit_or (bit_or 0xC0 (ext * 8)) (reg op 0) ∷ []

unfoldable pub instruction_bytes : Instr → ℕ → ℕ → List ℕ → List ℕ
instruction_bytes id org offset op = block_bytes (block id) (i_data id).opcode org offset op

-- The stores, and the offset after them.
unfoldable pub store_bytes : List ℕ → List ℕ → ℕ → ℕ × List ℕ
store_bytes [] buffer offset = (offset, buffer)
store_bytes (b ∷ bs) buffer offset = store_bytes bs (set buffer offset b) (u16 (offset + 1))

-- An id that is none of the labels is `none`.
unfoldable pub encode_instruction : ℕ → List ℕ → ℕ → Option Instr → List ℕ → ℕ × List ℕ
encode_instruction cg_origin buffer offset none op = (error_not_found, buffer)
encode_instruction cg_origin buffer offset (some id) op =
    store_bytes (instruction_bytes id cg_origin offset op) buffer offset

abbrev pub s_label : ℕ
s_label = 0

abbrev pub s_dataw : ℕ
s_dataw = 1

abbrev pub s_datab : ℕ
s_datab = 2

unfoldable pub data_bytes : ℕ → ℕ → List ℕ
data_bytes type value =
    if type == s_dataw
    then bit_and value 0xFF ∷ value / 256 ∷ []
    else if type == s_datab
    then bit_and value 0xFF ∷ []
    else []

unfoldable pub encode_data : List ℕ → ℕ → ℕ → ℕ → ℕ × List ℕ
encode_data buffer offset type value = store_bytes (data_bytes type value) buffer offset
