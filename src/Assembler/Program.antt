-- ===== src/Assembler/Program.antt =====
-- `main` of source/programs/nas.c: the operands of a line, a line, the pass over the file and the
-- resolution of references.
use nano_s.Prelude.{
  ℕ, ◌+◌, ◌-◌, Bool, ◌&&◌, not, ◌++◌, List, [], ◌∷◌, ◌==◌, ltb, leb, if◌then◌else◌, Option, none,
  some, get_or, set, drop, length, replicate, u8, u16,
}
use nano_s.Strings.{strlen, strcmp, strcpy_s, stou, sisu}
use nano_s.Assembler.Tables.{Instr, Idata, Rdata, i_data, r_data, o_any, o_rmw, o_mw, o_iw}
use nano_s.Assembler.Encode.{encode_instruction, encode_data, s_label, s_dataw, s_datab}
use nano_s.Assembler.Symbols.{
  Symbol, SymbolRef, find_or_add_symbol, append_symbol_ref, find_instruction,
}

abbrev pub s_max : ℕ
s_max = 32

abbrev pub s_max_ref : ℕ
s_max_ref = 32

abbrev pub obuff_size : ℕ
obuff_size = 1024

abbrev pub i_max_ops : ℕ
i_max_ops = 3

abbrev pub max_tokens : ℕ
max_tokens = 32

abbrev pub fbuff_size : ℕ
fbuff_size = 2048

pub record State : Type 0 where
  pub cg_origin : ℕ
  pub s_table : List Symbol
  pub s_ref : List SymbolRef
  pub obuff : List ℕ
  pub ooffset : ℕ
  pub fline : ℕ

-- After a line: the next one, an error that ends the pass with `ooffset` 0, or a store outside the
-- arrays, after which the C program is not defined.
pub data Outcome : Type 0 where
  next stopped : State → Outcome
  overrun : Outcome

-- The loop over `r_data` from register `j` on: the type and the value of the operand.
unfoldable pub register_operand : Bool → List ℕ → ℕ → List Rdata → ℕ × ℕ
register_operand pointer token j [] = (o_any, 0)
register_operand pointer token j (row ∷ rows) =
    let rest = register_operand pointer token (j + 1) rows in
    if strcmp token row.name == 0 then (if pointer then o_rmw else row.type, j) else rest

-- What the loop over the operands has found: their types and values, the row of the last symbol
-- with its operand (0xFFFF for none), and the symbols.
pub record Operands : Type 0 where
  pub op_type : List ℕ
  pub op_value : List ℕ
  pub s : ℕ
  pub nas : ℕ
  pub symbols : List Symbol

abbrev pub is_pointer : List ℕ → Bool
is_pointer token = (get_or token 0 0 == 91) && (get_or token (strlen token - 1) 0 == 93)

-- Between the brackets of a pointer.
unfoldable pub bare : List ℕ → List ℕ
bare token = if is_pointer token then drop 1 (set token (strlen token - 1) 0) else token

abbrev pub no_symbol : ℕ
no_symbol = 0xFFFF

abbrev pub with_operand : Operands → ℕ → ℕ → ℕ → ℕ → List Symbol → Operands
with_operand ops type value s nas symbols = record {
  op_type = ops.op_type ++ (type ∷ []);
  op_value = ops.op_value ++ (value ∷ []);
  s = s;
  nas = nas;
  symbols = symbols;
}

-- One operand, `i`, of the loop.
unfoldable pub parse_operand : ℕ → List ℕ → Operands → Operands
parse_operand i token ops =
    let pointer = is_pointer token in
    let name = bare token in
    let (type, value) = register_operand pointer name 0 r_data in
    let literal = if pointer then o_mw else o_iw in
    let (s, symbols) = find_or_add_symbol ops.symbols name in
    if not (type == o_any)
    then with_operand ops type value ops.s ops.nas ops.symbols
    else if sisu name
    then with_operand ops literal (stou name) ops.s ops.nas ops.symbols
    else with_operand ops literal (stou name) s i symbols

unfoldable pub parse_operands : ℕ → List (List ℕ) → Operands → Operands
parse_operands i [] ops = ops
parse_operands i (token ∷ tokens) ops = parse_operands (i + 1) tokens (parse_operand i token ops)

abbrev pub no_row : Symbol
no_row = record { name = []; type = 0; value = 0 }

-- `s_table[j].value = value; s_table[j].type = type`.
unfoldable pub define_symbol : List Symbol → ℕ → ℕ → ℕ → List Symbol
define_symbol s_table j value type =
    set s_table j (record { name = (get_or s_table j no_row).name; type = type; value = value })

-- The numbers of a `dw` or `db` line.
unfoldable pub encode_values : ℕ → List (List ℕ) → List ℕ → ℕ → ℕ × List ℕ
encode_values type [] obuff ooffset = (ooffset, obuff)
encode_values type (token ∷ tokens) obuff ooffset =
    let (after, buffer) = encode_data obuff ooffset type (stou token) in
    encode_values type tokens buffer after

abbrev pub m_org : List ℕ
m_org = 79 ∷ 82 ∷ 71 ∷ []

abbrev pub m_dw : List ℕ
m_dw = 100 ∷ 119 ∷ []

abbrev pub m_db : List ℕ
m_db = 100 ∷ 98 ∷ []

abbrev pub is_word : List ℕ → List ℕ → Bool
is_word token word = strcmp token word == 0

abbrev pub with_output : State → List Symbol → List SymbolRef → List ℕ → ℕ → ℕ → State
with_output state symbols refs buffer offset line = record {
  cg_origin = state.cg_origin;
  s_table = symbols;
  s_ref = refs;
  obuff = buffer;
  ooffset = offset;
  fline = line;
}

-- The end of a line.
unfoldable pub advance : State → List Symbol → List SymbolRef → List ℕ → ℕ → Outcome
advance state symbols refs buffer offset =
    if ltb obuff_size offset
    then overrun
    else next (with_output state symbols refs buffer offset (u16 (state.fline + 1)))

unfoldable pub set_origin : State → List ℕ → Outcome
set_origin state token = next (record {
  cg_origin = stou token;
  s_table = state.s_table;
  s_ref = state.s_ref;
  obuff = state.obuff;
  ooffset = state.ooffset;
  fline = u16 (state.fline + 1);
})

-- A label, or a `dw` or `db` line with its numbers.
unfoldable pub define_line : State → List ℕ → ℕ → List (List ℕ) → Outcome
define_line state name type values =
    let (j, symbols) = find_or_add_symbol state.s_table name in
    let defined = define_symbol symbols j state.ooffset type in
    let (after, buffer) = encode_values type values state.obuff state.ooffset in
    if leb s_max j then overrun else advance state defined state.s_ref buffer after

-- `ooffset = 0; break`.
abbrev pub failed : State → List Symbol → State
failed state symbols = with_output state symbols state.s_ref state.obuff 0 state.fline

-- `ci` with the opcode of the instruction that was found.
abbrev pub coded : Idata → Instr → Idata
coded ci id = record {
  mnemonic = ci.mnemonic;
  opcode = (i_data id).opcode;
  nops = ci.nops;
  op_type = ci.op_type;
  op_value = ci.op_value;
}

abbrev pub reference : State → Idata → Operands → Instr → SymbolRef
reference state ci ops id = record {
  offset = state.ooffset;
  symbol = u8 ops.s;
  operand = u8 ops.nas;
  instr_id = some id;
  instruction = coded ci id;
}

-- The references after the line.
unfoldable pub references : State → Idata → Operands → Instr → List SymbolRef
references state ci ops id =
    if ops.s == no_symbol
    then state.s_ref
    else append_symbol_ref state.s_ref (reference state ci ops id)

-- An instruction that has been read, with what `find_instruction` returns: the reference and the
-- code. When there is no id, the test against ERROR_NOT_FOUND misses it, but `encode_instruction`
-- gives the same error; the reference that the source has appended by then is never read.
unfoldable pub found_line : State → Idata → Operands → Option Instr → Outcome
found_line state ci ops none = stopped (failed state ops.symbols)
found_line state ci ops (some id) =
    let (after, buffer) =
      encode_instruction state.cg_origin state.obuff state.ooffset (some id) ci.op_value in
    advance state ops.symbols (references state ci ops id) buffer after

unfoldable pub instruction_line : State → Idata → Operands → Outcome
instruction_line state ci ops = found_line state ci ops (find_instruction ci)

abbrev pub no_operands : List Symbol → Operands
no_operands symbols = record {
  op_type = [];
  op_value = [];
  s = no_symbol;
  nas = no_symbol;
  symbols = symbols;
}

abbrev pub instruction_info : List ℕ → Operands → ℕ → Idata
instruction_info first ops nops = record {
  mnemonic = (strcpy_s (replicate 6 0) first 6).1;
  opcode = 0;
  nops = nops;
  op_type = ops.op_type;
  op_value = ops.op_value;
}

-- A line of tokens, by the first case of `main` that applies.
unfoldable pub process_line : State → List (List ℕ) → Outcome
process_line state [] = advance state state.s_table state.s_ref state.obuff state.ooffset
process_line state (first ∷ tokens) =
    let tokc = 1 + length tokens in
    let second = get_or tokens 0 [] in
    let last = strlen first - 1 in
    let ops = parse_operands 0 tokens (no_operands state.s_table) in
    if (tokc == 2) && is_word first m_org
    then set_origin state second
    else if (tokc == 1) && (get_or first last 0 == 58)
    then define_line state (set first last 0) s_label []
    else if leb 3 tokc && is_word second m_dw
    then define_line state first s_dataw (drop 1 tokens)
    else if leb 3 tokc && is_word second m_db
    then define_line state first s_datab (drop 1 tokens)
    else if ltb i_max_ops (length tokens)
    then overrun
    else instruction_line state (instruction_info first ops (length tokens)) ops
