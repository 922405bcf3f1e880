-- ===== src/Assembler/Tests.antt =====
-- Runs and witnesses for source/programs/nas.c.
use nano_s.Prelude.{
  ℕ, zero, suc, sym, ◌∙◌, ◌-◌, ◌≡◌, ◌≢◌, ◌<◌, refl, List, [], ◌∷◌, some, min, take, drop, length,
  map, arith, replicate, get_or,
}
use mathlib.Core.List.{cons≢nil}
use nano_s.Strings.{strcmp, strlen, sisu, are_digits, stou, digits_from, strcpy_s, copy_from_s}
use nano_s.Strings.Compare.{c_string, c_string-cons, IsBytes, nil, cons}
use nano_s.Assembler.Tables.{i_data, i_def, r_data, i_mov_riw, i_jmp, i_call, m_mov, m_jmp, r_ax}
use nano_s.Assembler.Machine.{decode, insn}
use nano_s.Assembler.Encode.{
  block, block_bytes, distance, op_at, instruction_bytes, encode_instruction,
}
use nano_s.Assembler.RoundTrip.{Fits, InReach, operands}
use nano_s.Assembler.Overwrite.{block_length, encode_instruction-decode}
use nano_s.Assembler.Tokens.{tokenize_line}
use nano_s.Assembler.Tokens.Fields.{line_fields, push_field, split_line}
use nano_s.Assembler.Tokens.Loop.{tokenize_line_lem}
use nano_s.Assembler.Symbols.{
  Symbol, SymbolRef, find_or_add_symbol, find_instruction, find_instruction_from, matches,
  operands_match,
}
use nano_s.Assembler.Symbols.Names.{
  IsFree, Names, IsName, AreNames, add_all, intern_all, find_or_add_symbol-refines,
}
use nano_s.Assembler.Program.{
  State, process_line, parse_operands, parse_operand, register_operand, bare, no_operands,
  instruction_info,
}
use nano_s.Assembler.Pass.{assemble, free_symbol, free_ref, resolve}
use nano_s.Assembler.References.{Slots}
use nano_s.Assembler.Invariant.{IsValid, After, process_line-After}
use nano_s.Assembler.Ending.{IsFile, Ended, assemble-Ended, replicate-AllFree}
use nano_s.Assembler.Resolve.{first, resolve-decode}
use nano_s.Assembler.Matching.{find_instruction-Fits}

abbrev file_of : List ℕ → ℕ → ℕ → ℕ × List ℕ
file_of text offset size = (min size (length text - offset), take size (drop offset text))

-- 'mov ax, 3\nagain:\npush ax ; keep\njmp again\n'
abbrev program : List ℕ
program =
    109 ∷ 111 ∷ 118 ∷ 32 ∷ 97 ∷ 120 ∷ 44 ∷ 32 ∷ 51 ∷ 10 ∷ 97 ∷ 103 ∷ 97 ∷ 105 ∷ 110 ∷ 58 ∷ 10 ∷ 112
    ∷ 117 ∷ 115 ∷ 104 ∷ 32 ∷ 97 ∷ 120 ∷ 32 ∷ 59 ∷ 32 ∷ 107 ∷ 101 ∷ 101 ∷ 112 ∷ 10 ∷ 106 ∷ 109 ∷ 112
    ∷ 32 ∷ 97 ∷ 103 ∷ 97 ∷ 105 ∷ 110 ∷ 10 ∷ []

program-IsFile : IsFile 42 (file_of program)
program-IsFile = record {
  in_file = λ offset size. omega arith;
  in_buffer = λ offset size. omega arith;
}

assemble-Ended_example : Ended (assemble 43 (file_of program))
assemble-Ended_example = assemble-Ended 42 (file_of program) program-IsFile (omega arith)

-- mov ax, 3
abbrev three : List ℕ
three = r_ax ∷ 3 ∷ []

abbrev buffer : List ℕ
buffer = replicate 8 0

three-Fits : Fits 2 1
three-Fits = (λ e. (omega arith, omega arith), omega arith)

literal-Fits : Fits 6 3
literal-Fits = (λ e. absurd (omega (arith, e)), omega arith)

encode_instruction-decode_example :
    let (after, code) = encode_instruction 256 buffer 2 (some i_mov_riw) three in
    decode 258 (drop 2 code) ≡ some (insn m_mov (operands i_mov_riw three) (after - 2))
unfolding block block_length i_data op_at InReach
encode_instruction-decode_example =
    encode_instruction-decode i_mov_riw 256 2 buffer (omega arith) (omega arith) three (omega arith)
      three-Fits literal-Fits (omega arith)

-- A call of the address 256 bytes after the next instruction: the high byte is 0, not 1.
call_high_byte : instruction_bytes i_call 0 0 (259 ∷ []) ≡ 232 ∷ 0 ∷ 0 ∷ []
unfolding instruction_bytes block block_bytes i_data distance
call_high_byte = refl

-- 'mov ax, [bx] ; load'
abbrev line : List ℕ
line =
    109 ∷ 111 ∷ 118 ∷ 32 ∷ 97 ∷ 120 ∷ 44 ∷ 32 ∷ 91 ∷ 98 ∷ 120 ∷ 93 ∷ 32 ∷ 59 ∷ 32 ∷ 108 ∷ 111 ∷ 97
    ∷ 100 ∷ 0 ∷ []

abbrev line_size : ℕ
line_size = 20

tokenize_line_lem_example :
    map c_string (tokenize_line line line_size 32).0
    ≡ (109 ∷ 111 ∷ 118 ∷ []) ∷ (97 ∷ 120 ∷ []) ∷ (91 ∷ 98 ∷ 120 ∷ 93 ∷ []) ∷ []
unfolding line_fields push_field split_line
tokenize_line_lem_example = tokenize_line_lem line line_size 32 (omega arith)

-- A jump at offset 3 to the symbol in row 0, whose value is 9.
abbrev jump : SymbolRef
jump = record {
  offset = 3;
  symbol = 0;
  operand = 0;
  instr_id = some i_jmp;
  instruction = record {
    mnemonic = m_jmp;
    opcode = 0xE9;
    nops = 1;
    op_type = 6 ∷ [];
    op_value = 0 ∷ [];
  };
}

abbrev symbols : List Symbol
symbols = record { name = 120 ∷ replicate 7 0; type = 0; value = 9 } ∷ replicate 31 free_symbol

abbrev refs : List SymbolRef
refs = jump ∷ replicate 31 free_ref

refs-Slots : Slots 8 0 refs
unfolding block block_length
refs-Slots =
    Slots.used i_jmp
      (record {
        is_used = λ e. absurd (omega (arith, e));
        is_coded = refl;
        starts = omega arith;
        ends = omega arith;
        has_symbol = omega arith;
      })
      (Slots.free (replicate-AllFree 31))

abbrev coded : List ℕ
coded = replicate 1024 0

resolve-decode_example :
    decode 259 (drop 3 (resolve 256 symbols refs coded))
    ≡ some (insn m_jmp (operands i_jmp (265 ∷ 0 ∷ [])) 3)
unfolding block i_data op_at InReach distance block_length
resolve-decode_example =
    resolve-decode 256 symbols 8 refs coded jump i_jmp refs-Slots (omega arith) (omega arith)
      (first λ e. absurd (omega (arith, e))) refl (omega arith) (omega arith)
      ((λ e. absurd (omega (arith, e))), omega arith)
      ((λ e. absurd (omega (arith, e))), omega arith) (λ e. absurd (omega (arith, e)))

abbrev state : State
state = record {
  cg_origin = 256;
  s_table = symbols;
  s_ref = refs;
  obuff = coded;
  ooffset = 8;
  fline = 4;
}

state-IsValid : IsValid state
state-IsValid = record { code = refl; offset = omega arith; symbols = refl; refs = refs-Slots }

-- jmp x
abbrev jump_line : List (List ℕ)
jump_line = (106 ∷ 109 ∷ 112 ∷ 0 ∷ 120 ∷ 0 ∷ []) ∷ (120 ∷ 0 ∷ []) ∷ []

process_line-After_example : After (process_line state jump_line)
process_line-After_example = process_line-After state jump_line state-IsValid (omega arith)

-- x, yy, x
abbrev three_names : List (List ℕ)
three_names = (120 ∷ []) ∷ (121 ∷ 121 ∷ []) ∷ (120 ∷ []) ∷ []

byte-IsName :
    (c : ℕ) (cs : List ℕ)
    → c < 256
    → c ≢ 0
    → IsBytes cs
    → length (c_string cs) < 6
    → IsName (c ∷ cs)
byte-IsName c cs lt nz h short =
    let e = c_string-cons c cs nz in
    record { bytes = cons lt h; filled = λ z. cons≢nil (sym e ∙ z); short = rw e (omega arith) }

three_names-AreNames : AreNames three_names
unfolding c_string
three_names-AreNames =
    AreNames.cons
      (byte-IsName 120 [] (omega arith) (λ e. absurd (omega (arith, e))) nil (omega arith))
      (AreNames.cons
        (byte-IsName 121 (121 ∷ []) (omega arith) (λ e. absurd (omega (arith, e)))
          (cons (omega arith) nil) (omega arith))
        (AreNames.cons
          (byte-IsName 120 [] (omega arith) (λ e. absurd (omega (arith, e))) nil (omega arith))
          AreNames.nil))

zeros-IsBytes : (n : ℕ) → IsBytes (replicate n 0)
zeros-IsBytes zero = nil
zeros-IsBytes (suc n) = cons (omega arith) (zeros-IsBytes n)

zeros-IsFree : IsFree free_symbol
zeros-IsFree = record { free = refl; size = refl; bytes = zeros-IsBytes 8 }

empty-Names : (n : ℕ) → Names (replicate n free_symbol) []
empty-Names zero = Names.nil
empty-Names (suc n) = Names.free zeros-IsFree (empty-Names n)

find_or_add_symbol-refines_example :
    add_all (replicate 32 free_symbol) three_names ≡ intern_all [] three_names
find_or_add_symbol-refines_example =
    find_or_add_symbol-refines three_names (replicate 32 free_symbol) [] (empty-Names 32)
      three_names-AreNames (omega arith)

-- mov ax, 3
abbrev move_tokens : List (List ℕ)
move_tokens = (97 ∷ 120 ∷ 0 ∷ []) ∷ (51 ∷ 0 ∷ []) ∷ []

move_found :
    find_instruction (instruction_info m_mov (parse_operands 0 move_tokens (no_operands symbols)) 2)
    ≡ some i_mov_riw
unfolding find_instruction find_instruction_from i_def matches operands_match i_data strcmp strlen
    parse_operands parse_operand register_operand r_data bare sisu are_digits stou digits_from
    strcpy_s copy_from_s find_or_add_symbol
move_found = refl

find_instruction-Fits_example :
    let ops = parse_operands 0 move_tokens (no_operands symbols) in
    Fits (get_or (i_data i_mov_riw).op_type 0 0) (op_at ops.op_value 0)
    × Fits (get_or (i_data i_mov_riw).op_type 1 0) (op_at ops.op_value 1)
find_instruction-Fits_example = find_instruction-Fits m_mov move_tokens symbols i_mov_riw move_found
