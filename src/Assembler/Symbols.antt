-- ===== src/Assembler/Symbols.antt =====
-- The symbols and the references of source/programs/nas.c. The tables `s_table` and `s_ref` are the
-- lists of their rows, those that are not in use included.
pub mod Names
use nano_s.Prelude.{
  ℕ, suc, ◌+◌, Bool, true, false, ◌&&◌, not, List, [], ◌∷◌, ◌==◌, if◌then◌else◌, Option, none, some,
  zero, get_or, u8,
}
use nano_s.Strings.{strcmp, strcpy_s}
use nano_s.Assembler.Tables.{Instr, Idata, i_data, i_def}
use nano_s.Assembler.Encode.{error_not_found}

pub record Symbol : Type 0 where
  pub name : List ℕ
  pub type : ℕ
  pub value : ℕ

-- `sizeof(s_table[s].name)`.
abbrev pub name_size : ℕ
name_size = 8

abbrev pub is_free : Symbol → Bool
is_free row = get_or row.name 0 0 == 0

abbrev pub is_named : Symbol → List ℕ → Bool
is_named row name = strcmp row.name name == 0

unfoldable pub named : Symbol → List ℕ → Symbol
named row name = record {
  name = (strcpy_s row.name name name_size).1;
  type = row.type;
  value = row.value;
}

-- From row `s` on: the index that is returned, and the rows.
unfoldable pub find_or_add_from : List ℕ → ℕ → List Symbol → ℕ × List Symbol
find_or_add_from name s [] = (error_not_found, [])
find_or_add_from name s (row ∷ rows) =
    let (found, rest) = find_or_add_from name (s + 1) rows in
    if is_free row
    then (s, named row name ∷ rows)
    else if is_named row name
    then (s, row ∷ rows)
    else (found, row ∷ rest)

unfoldable pub find_or_add_symbol : List Symbol → List ℕ → ℕ × List Symbol
find_or_add_symbol s_table name = find_or_add_from name 0 s_table

unfoldable pub find_from : List ℕ → ℕ → List Symbol → ℕ
find_from name s [] = error_not_found
find_from name s (row ∷ rows) =
    let found = find_from name (s + 1) rows in
    if is_free row then error_not_found else if is_named row name then s else found

unfoldable pub find_symbol : List Symbol → List ℕ → ℕ
find_symbol s_table name = find_from name 0 s_table

-- `instr_id` is `none` for the value that `find_instruction` returns when it finds nothing.
pub record SymbolRef : Type 0 where
  pub offset : ℕ
  pub symbol : ℕ
  pub operand : ℕ
  pub instr_id : Option Instr
  pub instruction : Idata

unfoldable pub append_symbol_ref : List SymbolRef → SymbolRef → List SymbolRef
append_symbol_ref [] ref = []
append_symbol_ref (r ∷ rs) ref =
    let rest = append_symbol_ref rs ref in if r.offset == 0 then ref ∷ rs else r ∷ rest

-- The inner loop of `find_instruction` from operand `i` on, `left` of them.
unfoldable pub operands_match : ℕ → ℕ → Idata → Idata → Bool
operands_match zero i ci row = true
operands_match (suc left) i ci row =
    let rest = operands_match left (i + 1) ci row in
    if not (get_or ci.op_type i 0 == get_or row.op_type i 0)
    then false
    else if not (get_or row.op_value i 0 == 0)
        && not (get_or row.op_value i 0 == get_or ci.op_value i 0)
    then false
    else rest

unfoldable pub matches : Idata → Idata → Bool
matches ci row =
    (strcmp ci.mnemonic row.mnemonic == 0)
    && ((ci.nops == row.nops) && operands_match ci.nops 0 ci row)

unfoldable pub find_instruction_from : Idata → List Instr → Option Instr
find_instruction_from ci [] = none
find_instruction_from ci (id ∷ ids) =
    let rest = find_instruction_from ci ids in if matches ci (i_data id) then some id else rest

-- The function returns a `uchar`, so that ERROR_NOT_FOUND becomes 0xFF: an id of no instruction,
-- which is not ERROR_NOT_FOUND either.
unfoldable pub find_instruction : Idata → Option Instr
find_instruction ci = find_instruction_from ci i_def
