-- ===== src/Assembler/Tables.antt =====
-- The tables of source/programs/nas.c: `enum O_TYPE`, `enum R_DEF` with `r_data`, and `enum I_DEF`
-- with `i_data`. Names are lists of bytes. Operand types and register ids are numbers, since the
-- program compares and indexes with them; the id of an instruction is a constructor.
use nano_s.Prelude.{ℕ, List, [], ◌∷◌, get_or}

abbrev pub o_any : ℕ
o_any = 0

abbrev pub o_rb : ℕ
o_rb = 1

abbrev pub o_rw : ℕ
o_rw = 2

abbrev pub o_rd : ℕ
o_rd = 3

abbrev pub o_rmw : ℕ
o_rmw = 4

abbrev pub o_mw : ℕ
o_mw = 5

abbrev pub o_iw : ℕ
o_iw = 6

abbrev pub r_any : ℕ
r_any = 0

abbrev pub r_ax : ℕ
r_ax = 1

abbrev pub r_cx : ℕ
r_cx = 2

abbrev pub r_dx : ℕ
r_dx = 3

abbrev pub r_bx : ℕ
r_bx = 4

abbrev pub r_sp : ℕ
r_sp = 5

abbrev pub r_bp : ℕ
r_bp = 6

abbrev pub r_si : ℕ
r_si = 7

abbrev pub r_di : ℕ
r_di = 8

abbrev pub r_count : ℕ
r_count = 9

pub record Rdata : Type 0 where
  pub name : List ℕ
  pub type : ℕ
  pub encoding : ℕ

register : List ℕ → ℕ → ℕ → Rdata
register n t e = record { name = n; type = t; encoding = e }

unfoldable pub r_data : List Rdata
unfolding register
r_data =
    register (78 ∷ 79 ∷ []) o_any 0
    ∷ register (97 ∷ 120 ∷ []) o_rw 0
    ∷ register (99 ∷ 120 ∷ []) o_rw 1
    ∷ register (100 ∷ 120 ∷ []) o_rw 2
    ∷ register (98 ∷ 120 ∷ []) o_rw 3
    ∷ register (115 ∷ 112 ∷ []) o_rw 4
    ∷ register (98 ∷ 112 ∷ []) o_rw 5
    ∷ register (115 ∷ 105 ∷ []) o_rw 6
    ∷ register (100 ∷ 105 ∷ []) o_rw 7
    ∷ []

-- `r_data[r]`; no operand of an instruction that is found indexes past the table.
unfoldable pub register_at : ℕ → Rdata
unfolding register
register_at r = get_or r_data r (register [] 0 0)

abbrev pub m_push : List ℕ
m_push = 112 ∷ 117 ∷ 115 ∷ 104 ∷ []

abbrev pub m_pop : List ℕ
m_pop = 112 ∷ 111 ∷ 112 ∷ []

abbrev pub m_mov : List ℕ
m_mov = 109 ∷ 111 ∷ 118 ∷ []

abbrev pub m_cmp : List ℕ
m_cmp = 99 ∷ 109 ∷ 112 ∷ []

abbrev pub m_ret : List ℕ
m_ret = 114 ∷ 101 ∷ 116 ∷ []

abbrev pub m_retf : List ℕ
m_retf = 114 ∷ 101 ∷ 116 ∷ 102 ∷ []

abbrev pub m_int : List ℕ
m_int = 105 ∷ 110 ∷ 116 ∷ []

abbrev pub m_call : List ℕ
m_call = 99 ∷ 97 ∷ 108 ∷ 108 ∷ []

abbrev pub m_jmp : List ℕ
m_jmp = 106 ∷ 109 ∷ 112 ∷ []

abbrev pub m_je : List ℕ
m_je = 106 ∷ 101 ∷ []

abbrev pub m_jne : List ℕ
m_jne = 106 ∷ 110 ∷ 101 ∷ []

abbrev pub m_jg : List ℕ
m_jg = 106 ∷ 103 ∷ []

abbrev pub m_jge : List ℕ
m_jge = 106 ∷ 103 ∷ 101 ∷ []

abbrev pub m_jl : List ℕ
m_jl = 106 ∷ 108 ∷ []

abbrev pub m_jle : List ℕ
m_jle = 106 ∷ 108 ∷ 101 ∷ []

abbrev pub m_jc : List ℕ
m_jc = 106 ∷ 99 ∷ []

abbrev pub m_jnc : List ℕ
m_jnc = 106 ∷ 110 ∷ 99 ∷ []

abbrev pub m_add : List ℕ
m_add = 97 ∷ 100 ∷ 100 ∷ []

abbrev pub m_sub : List ℕ
m_sub = 115 ∷ 117 ∷ 98 ∷ []

abbrev pub m_mul : List ℕ
m_mul = 109 ∷ 117 ∷ 108 ∷ []

abbrev pub m_div : List ℕ
m_div = 100 ∷ 105 ∷ 118 ∷ []

abbrev pub m_not : List ℕ
m_not = 110 ∷ 111 ∷ 116 ∷ []

abbrev pub m_and : List ℕ
m_and = 97 ∷ 110 ∷ 100 ∷ []

abbrev pub m_or : List ℕ
m_or = 111 ∷ 114 ∷ []

pub record Idata : Type 0 where
  pub mnemonic : List ℕ
  pub opcode : ℕ
  pub nops : ℕ
  pub op_type : List ℕ
  pub op_value : List ℕ

entry : List ℕ → ℕ → ℕ → List ℕ → List ℕ → Idata
entry m c n t v = record { mnemonic = m; opcode = c; nops = n; op_type = t; op_value = v }

pub data Instr : Type 0 where
  i_push : Instr
  i_pop : Instr
  i_mov_riw : Instr
  i_mov_rrw : Instr
  i_mov_rmw : Instr
  i_mov_mrw : Instr
  i_mov_rrmw : Instr
  i_mov_rmrw : Instr
  i_cmp_riw : Instr
  i_cmp_rrw : Instr
  i_cmp_rmw : Instr
  i_cmp_mrw : Instr
  i_cmp_rrmw : Instr
  i_cmp_rmrw : Instr
  i_ret : Instr
  i_retf : Instr
  i_int : Instr
  i_call : Instr
  i_jmp : Instr
  i_je : Instr
  i_jne : Instr
  i_jg : Instr
  i_jge : Instr
  i_jl : Instr
  i_jle : Instr
  i_jc : Instr
  i_jnc : Instr
  i_add_riw : Instr
  i_add_rrw : Instr
  i_add_rmw : Instr
  i_add_mrw : Instr
  i_add_rrmw : Instr
  i_add_rmrw : Instr
  i_sub_riw : Instr
  i_sub_rrw : Instr
  i_sub_rmw : Instr
  i_sub_mrw : Instr
  i_sub_rrmw : Instr
  i_sub_rmrw : Instr
  i_mul_rw : Instr
  i_div_rw : Instr
  i_not_rw : Instr
  i_and_riw : Instr
  i_and_rrw : Instr
  i_and_rmw : Instr
  i_and_mrw : Instr
  i_and_rrmw : Instr
  i_and_rmrw : Instr
  i_or_riw : Instr
  i_or_rrw : Instr
  i_or_rmw : Instr
  i_or_mrw : Instr
  i_or_rrmw : Instr
  i_or_rmrw : Instr

unfoldable pub i_data : Instr → Idata
unfolding entry
i_data i_push = entry m_push 0x50 1 (o_rw ∷ o_any ∷ o_any ∷ []) (r_any ∷ 0 ∷ 0 ∷ [])
i_data i_pop = entry m_pop 0x58 1 (o_rw ∷ o_any ∷ o_any ∷ []) (r_any ∷ 0 ∷ 0 ∷ [])
i_data i_mov_riw = entry m_mov 0xB8 2 (o_rw ∷ o_iw ∷ o_any ∷ []) (r_any ∷ 0 ∷ 0 ∷ [])
i_data i_mov_rrw = entry m_mov 0x89 2 (o_rw ∷ o_rw ∷ o_any ∷ []) (r_any ∷ r_any ∷ 0 ∷ [])
i_data i_mov_rmw = entry m_mov 0x8B 2 (o_rw ∷ o_mw ∷ o_any ∷ []) (r_any ∷ 0 ∷ 0 ∷ [])
i_data i_mov_mrw = entry m_mov 0x89 2 (o_mw ∷ o_rw ∷ o_any ∷ []) (0 ∷ r_any ∷ 0 ∷ [])
i_data i_mov_rrmw = entry m_mov 0x8B 2 (o_rw ∷ o_rmw ∷ o_any ∷ []) (r_any ∷ r_bx ∷ 0 ∷ [])
i_data i_mov_rmrw = entry m_mov 0x89 2 (o_rmw ∷ o_rw ∷ o_any ∷ []) (r_bx ∷ r_any ∷ 0 ∷ [])
i_data i_cmp_riw = entry m_cmp 0x81 2 (o_rw ∷ o_iw ∷ o_any ∷ []) (r_any ∷ 0 ∷ 0 ∷ [])
i_data i_cmp_rrw = entry m_cmp 0x39 2 (o_rw ∷ o_rw ∷ o_any ∷ []) (r_any ∷ r_any ∷ 0 ∷ [])
i_data i_cmp_rmw = entry m_cmp 0x3B 2 (o_rw ∷ o_mw ∷ o_any ∷ []) (r_any ∷ 0 ∷ 0 ∷ [])
i_data i_cmp_mrw = entry m_cmp 0x39 2 (o_mw ∷ o_rw ∷ o_any ∷ []) (0 ∷ r_any ∷ 0 ∷ [])
i_data i_cmp_rrmw = entry m_cmp 0x3B 2 (o_rw ∷ o_rmw ∷ o_any ∷ []) (r_any ∷ r_bx ∷ 0 ∷ [])
i_data i_cmp_rmrw = entry m_cmp 0x39 2 (o_rmw ∷ o_rw ∷ o_any ∷ []) (r_bx ∷ r_any ∷ 0 ∷ [])
i_data i_ret = entry m_ret 0xC3 0 (o_any ∷ o_any ∷ o_any ∷ []) (0 ∷ 0 ∷ 0 ∷ [])
i_data i_retf = entry m_retf 0xCB 0 (o_any ∷ o_any ∷ o_any ∷ []) (0 ∷ 0 ∷ 0 ∷ [])
i_data i_int = entry m_int 0xCD 1 (o_iw ∷ o_any ∷ o_any ∷ []) (0 ∷ 0 ∷ 0 ∷ [])
i_data i_call = entry m_call 0xE8 1 (o_iw ∷ o_any ∷ o_any ∷ []) (0 ∷ 0 ∷ 0 ∷ [])
i_data i_jmp = entry m_jmp 0xE9 1 (o_iw ∷ o_any ∷ o_any ∷ []) (0 ∷ 0 ∷ 0 ∷ [])
i_data i_je = entry m_je 0x74 1 (o_iw ∷ o_any ∷ o_any ∷ []) (0 ∷ 0 ∷ 0 ∷ [])
i_data i_jne = entry m_jne 0x75 1 (o_iw ∷ o_any ∷ o_any ∷ []) (0 ∷ 0 ∷ 0 ∷ [])
i_data i_jg = entry m_jg 0x7F 1 (o_iw ∷ o_any ∷ o_any ∷ []) (0 ∷ 0 ∷ 0 ∷ [])
i_data i_jge = entry m_jge 0x7D 1 (o_iw ∷ o_any ∷ o_any ∷ []) (0 ∷ 0 ∷ 0 ∷ [])
i_data i_jl = entry m_jl 0x7C 1 (o_iw ∷ o_any ∷ o_any ∷ []) (0 ∷ 0 ∷ 0 ∷ [])
i_data i_jle = entry m_jle 0x7E 1 (o_iw ∷ o_any ∷ o_any ∷ []) (0 ∷ 0 ∷ 0 ∷ [])
i_data i_jc = entry m_jc 0x72 1 (o_iw ∷ o_any ∷ o_any ∷ []) (0 ∷ 0 ∷ 0 ∷ [])
i_data i_jnc = entry m_jnc 0x73 1 (o_iw ∷ o_any ∷ o_any ∷ []) (0 ∷ 0 ∷ 0 ∷ [])
i_data i_add_riw = entry m_add 0x81 2 (o_rw ∷ o_iw ∷ o_any ∷ []) (r_any ∷ 0 ∷ 0 ∷ [])
i_data i_add_rrw = entry m_add 0x01 2 (o_rw ∷ o_rw ∷ o_any ∷ []) (r_any ∷ r_any ∷ 0 ∷ [])
i_data i_add_rmw = entry m_add 0x03 2 (o_rw ∷ o_mw ∷ o_any ∷ []) (r_any ∷ 0 ∷ 0 ∷ [])
i_data i_add_mrw = entry m_add 0x01 2 (o_mw ∷ o_rw ∷ o_any ∷ []) (0 ∷ r_any ∷ 0 ∷ [])
i_data i_add_rrmw = entry m_add 0x03 2 (o_rw ∷ o_rmw ∷ o_any ∷ []) (r_any ∷ r_bx ∷ 0 ∷ [])
i_data i_add_rmrw = entry m_add 0x01 2 (o_rmw ∷ o_rw ∷ o_any ∷ []) (r_bx ∷ r_any ∷ 0 ∷ [])
i_data i_sub_riw = entry m_sub 0x81 2 (o_rw ∷ o_iw ∷ o_any ∷ []) (r_any ∷ 0 ∷ 0 ∷ [])
i_data i_sub_rrw = entry m_sub 0x29 2 (o_rw ∷ o_rw ∷ o_any ∷ []) (r_any ∷ r_any ∷ 0 ∷ [])
i_data i_sub_rmw = entry m_sub 0x2B 2 (o_rw ∷ o_mw ∷ o_any ∷ []) (r_any ∷ 0 ∷ 0 ∷ [])
i_data i_sub_mrw = entry m_sub 0x29 2 (o_mw ∷ o_rw ∷ o_any ∷ []) (0 ∷ r_any ∷ 0 ∷ [])
i_data i_sub_rrmw = entry m_sub 0x2B 2 (o_rw ∷ o_rmw ∷ o_any ∷ []) (r_any ∷ r_bx ∷ 0 ∷ [])
i_data i_sub_rmrw = entry m_sub 0x29 2 (o_rmw ∷ o_rw ∷ o_any ∷ []) (r_bx ∷ r_any ∷ 0 ∷ [])
i_data i_mul_rw = entry m_mul 0xF7 2 (o_rw ∷ o_any ∷ o_any ∷ []) (r_any ∷ 0 ∷ 0 ∷ [])
i_data i_div_rw = entry m_div 0xF7 2 (o_rw ∷ o_any ∷ o_any ∷ []) (r_any ∷ 0 ∷ 0 ∷ [])
i_data i_not_rw = entry m_not 0xF7 2 (o_rw ∷ o_any ∷ o_any ∷ []) (r_any ∷ 0 ∷ 0 ∷ [])
i_data i_and_riw = entry m_and 0x81 2 (o_rw ∷ o_iw ∷ o_any ∷ []) (r_any ∷ 0 ∷ 0 ∷ [])
i_data i_and_rrw = entry m_and 0x21 2 (o_rw ∷ o_rw ∷ o_any ∷ []) (r_any ∷ r_any ∷ 0 ∷ [])
i_data i_and_rmw = entry m_and 0x23 2 (o_rw ∷ o_mw ∷ o_any ∷ []) (r_any ∷ 0 ∷ 0 ∷ [])
i_data i_and_mrw = entry m_and 0x21 2 (o_mw ∷ o_rw ∷ o_any ∷ []) (0 ∷ r_any ∷ 0 ∷ [])
i_data i_and_rrmw = entry m_and 0x23 2 (o_rw ∷ o_rmw ∷ o_any ∷ []) (r_any ∷ r_bx ∷ 0 ∷ [])
i_data i_and_rmrw = entry m_and 0x21 2 (o_rmw ∷ o_rw ∷ o_any ∷ []) (r_bx ∷ r_any ∷ 0 ∷ [])
i_data i_or_riw = entry m_or 0x81 2 (o_rw ∷ o_iw ∷ o_any ∷ []) (r_any ∷ 0 ∷ 0 ∷ [])
i_data i_or_rrw = entry m_or 0x09 2 (o_rw ∷ o_rw ∷ o_any ∷ []) (r_any ∷ r_any ∷ 0 ∷ [])
i_data i_or_rmw = entry m_or 0x0B 2 (o_rw ∷ o_mw ∷ o_any ∷ []) (r_any ∷ 0 ∷ 0 ∷ [])
i_data i_or_mrw = entry m_or 0x09 2 (o_mw ∷ o_rw ∷ o_any ∷ []) (0 ∷ r_any ∷ 0 ∷ [])
i_data i_or_rrmw = entry m_or 0x0B 2 (o_rw ∷ o_rmw ∷ o_any ∷ []) (r_any ∷ r_bx ∷ 0 ∷ [])
i_data i_or_rmrw = entry m_or 0x09 2 (o_rmw ∷ o_rw ∷ o_any ∷ []) (r_bx ∷ r_any ∷ 0 ∷ [])

-- The ids in the order of the enumeration, as loops count them.
unfoldable pub i_def : List Instr
i_def =
    i_push ∷ i_pop ∷ i_mov_riw ∷ i_mov_rrw ∷ i_mov_rmw ∷ i_mov_mrw ∷ i_mov_rrmw ∷ i_mov_rmrw
    ∷ i_cmp_riw ∷ i_cmp_rrw ∷ i_cmp_rmw ∷ i_cmp_mrw ∷ i_cmp_rrmw ∷ i_cmp_rmrw ∷ i_ret ∷ i_retf
    ∷ i_int ∷ i_call ∷ i_jmp ∷ i_je ∷ i_jne ∷ i_jg ∷ i_jge ∷ i_jl ∷ i_jle ∷ i_jc ∷ i_jnc ∷ i_add_riw
    ∷ i_add_rrw ∷ i_add_rmw ∷ i_add_mrw ∷ i_add_rrmw ∷ i_add_rmrw ∷ i_sub_riw ∷ i_sub_rrw
    ∷ i_sub_rmw ∷ i_sub_mrw ∷ i_sub_rrmw ∷ i_sub_rmrw ∷ i_mul_rw ∷ i_div_rw ∷ i_not_rw ∷ i_and_riw
    ∷ i_and_rrw ∷ i_and_rmw ∷ i_and_mrw ∷ i_and_rrmw ∷ i_and_rmrw ∷ i_or_riw ∷ i_or_rrw ∷ i_or_rmw
    ∷ i_or_mrw ∷ i_or_rrmw ∷ i_or_rmrw ∷ []
