-- ===== src/Assembler/Pass.antt =====
-- The passes of `main` in source/programs/nas.c: the loop over the lines of the input file, and the
-- loop that resolves the references.
use nano_s.Prelude.{
  ℕ, zero, suc, ◌+◌, true, false, List, [], ◌∷◌, ◌==◌, leb, if◌then◌else◌, Option, none, some,
  get_or, set, take, replicate, u16,
}
use nano_s.Assembler.Encode.{encode_instruction}
use nano_s.Assembler.Tokens.{read_line, tokenize_line, error_any, eof}
use nano_s.Assembler.Symbols.{Symbol, SymbolRef}
use nano_s.Assembler.Program.{
  State, Outcome, next, stopped, overrun, process_line, failed, no_row, s_max, s_max_ref,
  obuff_size, max_tokens, fbuff_size,
}

-- After the loop over the lines. `unfinished` is for a file that has more lines than the fuel.
pub data Pass : Type 0 where
  done : State → Pass
  undefined unfinished : Pass

-- `break`, or the next turn.
unfoldable pub after_line : Outcome → (State → Pass) → Pass
after_line (next state) turn = turn state
after_line (stopped state) turn = done state
after_line overrun turn = undefined

unfoldable pub read_lines : ℕ → (ℕ → ℕ → ℕ × List ℕ) → ℕ → State → Pass
read_lines zero file foffset state = unfinished
read_lines (suc fuel) file foffset state =
    let (after, line) = read_line file fbuff_size foffset in
    elim (after == eof) [
      | true ↦ done state
      | false ↦ elim (leb error_any after) [
        | true ↦ done (failed state state.s_table)
        | false ↦
            after_line (process_line state (tokenize_line line fbuff_size max_tokens).0)
              (read_lines fuel file after)
      ]
    ]

-- The operands of a reference with the address of its symbol.
unfoldable pub resolved_operands : ℕ → List Symbol → SymbolRef → List ℕ
resolved_operands cg_origin s_table r =
    set r.instruction.op_value r.operand (u16 ((get_or s_table r.symbol no_row).value + cg_origin))

-- The loop over the references: the output buffer after it.
unfoldable pub resolve : ℕ → List Symbol → List SymbolRef → List ℕ → List ℕ
resolve cg_origin s_table [] obuff = obuff
resolve cg_origin s_table (r ∷ rs) obuff =
    let op = resolved_operands cg_origin s_table r in
    let written = (encode_instruction cg_origin obuff r.offset r.instr_id op).1 in
    let rest = resolve cg_origin s_table rs written in if r.offset == 0 then obuff else rest

-- The bytes of the output file; none is written when the offset is 0.
unfoldable pub output : State → Option (List ℕ)
output state =
    if state.ooffset == 0
    then none
    else some (take state.ooffset (resolve state.cg_origin state.s_table state.s_ref state.obuff))

abbrev pub free_symbol : Symbol
free_symbol = record { name = replicate 8 0; type = 0; value = 0 }

abbrev pub free_ref : SymbolRef
free_ref = record {
  offset = 0;
  symbol = 0;
  operand = 0;
  instr_id = none;
  instruction = record { mnemonic = []; opcode = 0; nops = 0; op_type = []; op_value = [] };
}

-- The tables and the output buffer, cleared.
unfoldable pub initial : State
initial = record {
  cg_origin = 0;
  s_table = replicate s_max free_symbol;
  s_ref = replicate s_max_ref free_ref;
  obuff = replicate obuff_size 0;
  ooffset = 0;
  fline = 1;
}

unfoldable pub assemble : ℕ → (ℕ → ℕ → ℕ × List ℕ) → Pass
assemble fuel file = read_lines fuel file 0 initial
