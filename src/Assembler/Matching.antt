-- ===== src/Assembler/Matching.antt =====
-- The operands of the instructions that source/programs/nas.c finds are of the types of the table.
use nano_s.Prelude.{
  ℕ, zero, suc, ◌+◌, ◌≤◌, ◌<◌, ◌≡◌, refl, ap, Option, some, none, List, [], ◌∷◌, ◌==◌, ◌||◌, arith,
  length, true, get_or, ltb, Bool, Bool-cases, inl, inr, ◌&&◌, dec_lt,
}
use nano_s.Assembler.Tables.{
  Instr, Idata, o_any, i_data, i_def, i_push, i_pop, i_mov_riw, i_mov_rrw, i_mov_rmw, i_mov_mrw,
  i_mov_rrmw, i_mov_rmrw, i_cmp_riw, i_cmp_rrw, i_cmp_rmw, i_cmp_mrw, i_cmp_rrmw, i_cmp_rmrw, i_ret,
  i_retf, i_int, i_call, i_jmp, i_je, i_jne, i_jg, i_jge, i_jl, i_jle, i_jc, i_jnc, i_add_riw,
  i_add_rrw, i_add_rmw, i_add_mrw, i_add_rrmw, i_add_rmrw, i_sub_riw, i_sub_rrw, i_sub_rmw,
  i_sub_mrw, i_sub_rrmw, i_sub_rmrw, i_mul_rw, i_div_rw, i_not_rw, i_and_riw, i_and_rrw, i_and_rmw,
  i_and_mrw, i_and_rrmw, i_and_rmrw, i_or_riw, i_or_rrw, i_or_rmw, i_or_mrw, i_or_rrmw, i_or_rmrw,
}
use nano_s.Assembler.RoundTrip.{Fits}
use nano_s.Assembler.Encode.{op_at}
use nano_s.Assembler.Symbols.{
  Symbol, operands_match, matches, find_instruction_from, find_instruction,
}
use nano_s.Assembler.Program.{parse_operands, no_operands, instruction_info}
use nano_s.Assembler.Typing.{Typed, no_operand-Fits, parse_operands-Typed}

-- Past its operands an instruction of the table has no type.
abbrev closed : Instr → ℕ → Bool
closed id i = ltb i (i_data id).nops || (get_or (i_data id).op_type i 0 == o_any)

abbrev is_closed : Instr → Bool
is_closed id = closed id 0 && closed id 1

i_data-closed : (id : Instr) → is_closed id ≡ true
unfolding i_data
i_data-closed i_push = refl
i_data-closed i_pop = refl
i_data-closed i_mov_riw = refl
i_data-closed i_mov_rrw = refl
i_data-closed i_mov_rmw = refl
i_data-closed i_mov_mrw = refl
i_data-closed i_mov_rrmw = refl
i_data-closed i_mov_rmrw = refl
i_data-closed i_cmp_riw = refl
i_data-closed i_cmp_rrw = refl
i_data-closed i_cmp_rmw = refl
i_data-closed i_cmp_mrw = refl
i_data-closed i_cmp_rrmw = refl
i_data-closed i_cmp_rmrw = refl
i_data-closed i_ret = refl
i_data-closed i_retf = refl
i_data-closed i_int = refl
i_data-closed i_call = refl
i_data-closed i_jmp = refl
i_data-closed i_je = refl
i_data-closed i_jne = refl
i_data-closed i_jg = refl
i_data-closed i_jge = refl
i_data-closed i_jl = refl
i_data-closed i_jle = refl
i_data-closed i_jc = refl
i_data-closed i_jnc = refl
i_data-closed i_add_riw = refl
i_data-closed i_add_rrw = refl
i_data-closed i_add_rmw = refl
i_data-closed i_add_mrw = refl
i_data-closed i_add_rrmw = refl
i_data-closed i_add_rmrw = refl
i_data-closed i_sub_riw = refl
i_data-closed i_sub_rrw = refl
i_data-closed i_sub_rmw = refl
i_data-closed i_sub_mrw = refl
i_data-closed i_sub_rrmw = refl
i_data-closed i_sub_rmrw = refl
i_data-closed i_mul_rw = refl
i_data-closed i_div_rw = refl
i_data-closed i_not_rw = refl
i_data-closed i_and_riw = refl
i_data-closed i_and_rrw = refl
i_data-closed i_and_rmw = refl
i_data-closed i_and_mrw = refl
i_data-closed i_and_rrmw = refl
i_data-closed i_and_rmrw = refl
i_data-closed i_or_riw = refl
i_data-closed i_or_rrw = refl
i_data-closed i_or_rmw = refl
i_data-closed i_or_mrw = refl
i_data-closed i_or_rrmw = refl
i_data-closed i_or_rmrw = refl

and-left : (a b : Bool) → (a && b) ≡ true → a ≡ true
and-left a b e = ground arith

and-right : (a b : Bool) → (a && b) ≡ true → b ≡ true
and-right a b e = ground arith

operands_match-same :
    (left i : ℕ) (ci row : Idata)
    → operands_match left i ci row ≡ true
    → (k : ℕ) → i ≤ k
    → k < i + left
    → get_or ci.op_type k 0 ≡ get_or row.op_type k 0
unfolding operands_match
operands_match-same zero i ci row e k le lt = absurd (omega arith)
operands_match-same (suc left) i ci row e k le lt = elim (dec_lt i k) [
  | yes more ↦ operands_match-same left (i + 1) ci row (ground arith) k (omega arith) (omega arith)
  | no ge ↦ let here : k ≡ i = omega arith in rw here (ground arith)
]

abbrev id_or : Instr → Option Instr → Instr
id_or i none = i
id_or i (some id) = id

-- The id that has been found is that of a row that matches.
abbrev Matched : Idata → Option Instr → Type 0
Matched ci found = (id : Instr) → found ≡ some id → matches ci (i_data id) ≡ true

find_instruction_from-Matched :
    (ci : Idata) (ids : List Instr) → Matched ci (find_instruction_from ci ids)
unfolding find_instruction_from
find_instruction_from-Matched ci [] = λ id e. absurd (ground arith)
find_instruction_from-Matched ci (i ∷ ids) = elim (Bool-cases (matches ci (i_data i))) [
  | inl t ↦
      let here : Matched ci (some i) = λ id e. let same : i ≡ id = ap (id_or i) e in rw same at t in
      rw t here
  | inr f ↦ rw f (find_instruction_from-Matched ci ids)
]

matches-operands :
    (ci row : Idata)
    → matches ci row ≡ true
    → (ci.nops ≡ row.nops) × (operands_match ci.nops 0 ci row ≡ true)
unfolding matches
matches-operands ci row e = ground arith

-- An operand of a row that matches: it is read with the type of the row, or the row has none.
operand-Fits :
    (n : ℕ) (ci : Idata) (id : Instr) (k : ℕ)
    → Typed n ci.op_type ci.op_value
    → ci.nops ≡ n
    → matches ci (i_data id) ≡ true
    → closed id k ≡ true
    → Fits (get_or (i_data id).op_type k 0) (op_at ci.op_value k)
unfolding op_at
operand-Fits n ci id k h e m c =
    let (count, same) = matches-operands ci (i_data id) m in
    elim (dec_lt k n) [
      | yes lt ↦
          let type =
            operands_match-same ci.nops 0 ci (i_data id) same k (omega arith) (omega (arith, e)) in
          rw (← type) (h.fit k)
      | no ge ↦
          let none : get_or (i_data id).op_type k 0 ≡ o_any = ground arith in
          (λ t. absurd (omega (arith, none, t)), (h.fit k).1)
    ]

-- The operands of a line with an instruction that is found fit the types of its row: those that
-- are registers are ids of registers, for which the table of the registers has a row, and every
-- value is a `uint`.
pub find_instruction-Fits :
    (first : List ℕ) (tokens : List (List ℕ)) (symbols : List Symbol) (id : Instr)
    → let ops = parse_operands 0 tokens (no_operands symbols) in
      find_instruction (instruction_info first ops (length tokens)) ≡ some id
      → Fits (get_or (i_data id).op_type 0 0) (op_at ops.op_value 0)
        × Fits (get_or (i_data id).op_type 1 0) (op_at ops.op_value 1)
unfolding find_instruction
find_instruction-Fits first tokens symbols id e =
    let ops = parse_operands 0 tokens (no_operands symbols) in
    let ci = instruction_info first ops (length tokens) in
    let none : Typed 0 [] [] = record {
      types_length = refl;
      values_length = refl;
      fit = no_operand-Fits;
    } in
    let typed : Typed (length tokens) ci.op_type ci.op_value =
      let z : 0 + length tokens ≡ length tokens = omega arith in
      rw z at (parse_operands-Typed 0 0 tokens (no_operands symbols) none) in
    let m = find_instruction_from-Matched ci i_def id e in
    let c = i_data-closed id in
    (
      operand-Fits (length tokens) ci id 0 typed refl m (and-left (closed id 0) (closed id 1) c),
      operand-Fits (length tokens) ci id 1 typed refl m (and-right (closed id 0) (closed id 1) c),
    )
