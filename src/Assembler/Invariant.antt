-- ===== src/Assembler/Invariant.antt =====
-- What holds of the state of `main` in source/programs/nas.c between two lines.
use nano_s.Prelude.{
  ℕ, ◌+◌, ◌*◌, ◌-◌, ◌≤◌, ◌<◌, if-both, ◌≡◌, ◌⊎◌, inl, inr, refl, ◌∙◌, Option, some, none, List, [],
  ◌∷◌, ◌==◌, arith, length, length-set, set, if◌then◌else◌, false, get_or, u8, u16, ◌^◌, ltb, leb,
  ◌&&◌, Bool-cases, ℕ_discrete, drop, length-drop,
}
use nano_s.Strings.{strlen, stou}
use nano_s.Assembler.Tables.{Instr, Idata, i_data}
use nano_s.Assembler.Encode.{
  block, store_bytes, instruction_bytes, encode_instruction, data_bytes, encode_data, s_label,
  s_dataw, s_datab,
}
use nano_s.Assembler.Overwrite.{length-block_bytes, block_length_le}
use nano_s.Assembler.Symbols.{Symbol, SymbolRef, find_or_add_symbol, find_instruction}
use nano_s.Assembler.Program.{
  State, Outcome, next, stopped, Operands, parse_operands, define_symbol, encode_values, advance,
  set_origin, define_line, references, reference, found_line, instruction_line, process_line, s_max,
  obuff_size, no_symbol, max_tokens, i_max_ops, instruction_info, no_operands, m_org, m_dw, m_db,
  is_word,
}
use nano_s.Assembler.References.{
  size, Slots, free, Slots-grow, append_symbol_ref-Slots, append_symbol_ref-AllFree, Slots-start,
}
use nano_s.Assembler.Reading.{length-find_or_add_symbol, Read, parse_operands-Read}

pub record IsValid (state : State) : Type 0 where
  pub code : length state.obuff ≡ obuff_size
  pub offset : state.ooffset ≤ obuff_size
  pub symbols : length state.s_table ≡ s_max
  pub refs : Slots state.ooffset 0 state.s_ref

-- What a line can lead to.
pub data After : Outcome → Type 0 where
  valid : {state : State} → IsValid state → After (next state)
  ended : {state : State} → state.ooffset ≡ 0 → After (stopped state)
  overrun : After Outcome.overrun

length-store_bytes :
    (bs buffer : List ℕ) (offset : ℕ) → length (store_bytes bs buffer offset).1 ≡ length buffer
unfolding store_bytes
length-store_bytes [] buffer offset = refl
length-store_bytes (b ∷ bs) buffer offset =
    length-store_bytes bs (set buffer offset b) (u16 (offset + 1)) ∙ length-set buffer offset b

store_bytes-offset :
    (bs buffer : List ℕ) (offset : ℕ)
    → offset + length bs < 2 ^ 16
    → (store_bytes bs buffer offset).0 ≡ offset + length bs
unfolding store_bytes
store_bytes-offset [] buffer offset h = omega arith
store_bytes-offset (b ∷ bs) buffer offset h =
    omega (arith, store_bytes-offset bs (set buffer offset b) (u16 (offset + 1)) (omega arith))

advance-After :
    (state : State) (symbols : List Symbol) (refs : List SymbolRef) (buffer : List ℕ) (offset : ℕ)
    → length buffer ≡ obuff_size
    → length symbols ≡ s_max
    → Slots offset 0 refs
    → After (advance state symbols refs buffer offset)
unfolding advance
advance-After state symbols refs buffer offset code rows slots =
    elim (Bool-cases (ltb obuff_size offset)) [
      | inl t ↦ rw t After.overrun
      | inr f ↦
          let le : offset ≤ obuff_size = ground arith in
          rw f (valid (record { code = code; offset = le; symbols = rows; refs = slots }))
    ]

set_origin-After : (state : State) (token : List ℕ) → IsValid state → After (set_origin state token)
unfolding set_origin
set_origin-After state token h =
    valid (record { code = h.code; offset = h.offset; symbols = h.symbols; refs = h.refs })

length-data_bytes : (type value : ℕ) → length (data_bytes type value) ≤ 2
unfolding data_bytes
length-data_bytes type value = ground arith

-- The numbers of a line: at most two bytes each.
record Stored (n offset : ℕ) (buffer : List ℕ) (r : ℕ × List ℕ) : Type 0 where
  on : offset ≤ r.0
  at_most : r.0 ≤ offset + 2 * n
  kept : length r.1 ≡ length buffer

encode_values-Stored :
    (type : ℕ) (tokens : List (List ℕ)) (buffer : List ℕ) (offset : ℕ)
    → offset + 2 * length tokens < 2 ^ 16
    → Stored (length tokens) offset buffer (encode_values type tokens buffer offset)
unfolding encode_values encode_data
encode_values-Stored type [] buffer offset h = record {
  on = omega arith;
  at_most = omega arith;
  kept = refl;
}
encode_values-Stored type (token ∷ tokens) buffer offset h =
    let bs = data_bytes type (stou token) in
    let two = length-data_bytes type (stou token) in
    let e = store_bytes-offset bs buffer offset (omega (arith, h, two)) in
    let r = store_bytes bs buffer offset in
    let rest = encode_values-Stored type tokens r.1 r.0 (omega (arith, h, two, e)) in
    record {
      on = omega (arith, e, rest.on);
      at_most = omega (arith, e, rest.at_most, two);
      kept = rest.kept ∙ length-store_bytes bs buffer offset;
    }

define_line-After :
    (state : State) (name : List ℕ) (type : ℕ) (values : List (List ℕ))
    → IsValid state
    → length values ≤ max_tokens
    → After (define_line state name type values)
unfolding define_line define_symbol
define_line-After state name type values h few =
    let (j, rows) = find_or_add_symbol state.s_table name in
    let r =
      encode_values-Stored type values state.obuff state.ooffset (omega (arith, few, h.offset)) in
    elim (Bool-cases (leb s_max j)) [
      | inl t ↦ rw t After.overrun
      | inr f ↦ rw f (
          advance-After state _ state.s_ref _ _ (r.kept ∙ h.code)
            (length-set rows j _ ∙ (length-find_or_add_symbol state.s_table name ∙ h.symbols))
            (Slots-grow _ r.on h.refs))
    ]

-- The reference of the line is to the instruction that the line codes.
references-Slots :
    (state : State) (ci : Idata) (ops : Operands) (id : Instr) (after : ℕ)
    → IsValid state
    → (ops.s ≡ no_symbol) ⊎ (ops.s < s_max)
    → state.ooffset + size id ≡ after
    → Slots after 0 (references state ci ops id)
unfolding references
references-Slots state ci ops id after h (inl absent) e =
    rw absent (Slots-grow after (omega arith) h.refs)
references-Slots state ci ops id after h (inr lt) e =
    let row : (ops.s == no_symbol) ≡ false = ground arith in
    let sym : u8 ops.s < s_max = omega arith in
    let ref = reference state ci ops id in
    elim (ℕ_discrete state.ooffset 0) [
      | yes z ↦ rw row (
          free (append_symbol_ref-AllFree state.s_ref ref z (Slots-start state.ooffset 0 z h.refs)))
      | no nz ↦ rw row (
          append_symbol_ref-Slots state.s_ref state.ooffset 0 after id ref h.refs (omega arith)
            (record {
              is_used = nz;
              is_coded = refl;
              starts = omega arith;
              ends = omega arith;
              has_symbol = sym;
            })
            (omega arith))
    ]

found_line-After :
    (state : State) (ci : Idata) (ops : Operands) (found : Option Instr)
    → IsValid state
    → Read state.s_table (length ops.op_value) ops
    → After (found_line state ci ops found)
unfolding found_line encode_instruction instruction_bytes
found_line-After state ci ops none h r = ended refl
found_line-After state ci ops (some id) h r =
    let bs = instruction_bytes id state.cg_origin state.ooffset ci.op_value in
    let n : length bs ≡ size id =
      length-block_bytes (block id) (i_data id).opcode state.cg_origin state.ooffset ci.op_value in
    let after =
      store_bytes-offset bs state.obuff state.ooffset
        (omega (arith, n, h.offset, block_length_le (block id))) in
    advance-After state ops.symbols _ _ _ (length-store_bytes bs state.obuff state.ooffset ∙ h.code)
      (r.rows ∙ h.symbols)
      (references-Slots state ci ops id _ h (rw h.symbols at r.symbol) (omega (arith, after, n)))

-- A line of at most 32 tokens leads from a valid state to a valid state, to an error with offset 0,
-- or to a store outside the arrays. In a valid state the tables and the buffer have their sizes, the
-- offset is in the buffer, and the references in use come first, in the order of their instructions,
-- which do not overlap, end before the offset, and refer to rows of the symbols.
pub process_line-After :
    (state : State) (tokens : List (List ℕ))
    → IsValid state
    → length tokens ≤ max_tokens
    → After (process_line state tokens)
unfolding process_line instruction_line
process_line-After state [] h few =
    advance-After state state.s_table state.s_ref state.obuff state.ooffset h.code h.symbols h.refs
process_line-After state (first ∷ tokens) h few =
    let last = strlen first - 1 in
    let second = get_or tokens 0 [] in
    let tokc = 1 + length tokens in
    let ops = parse_operands 0 tokens (no_operands state.s_table) in
    let none : Read state.s_table 0 (no_operands state.s_table) = record {
      rows = refl;
      symbol = inl refl;
      values = refl;
    } in
    let read = parse_operands-Read state.s_table 0 0 tokens (no_operands state.s_table) none in
    let read' : Read state.s_table (length ops.op_value) ops = record {
      rows = read.rows;
      symbol = read.symbol;
      values = refl;
    } in
    let fewer : length (drop 1 tokens) ≤ max_tokens = omega (arith, length-drop 1 tokens, few) in
    let ci = instruction_info first ops (length tokens) in
    let label = define_line state (set first last 0) s_label [] in
    let word = define_line state first s_dataw (drop 1 tokens) in
    let byte = define_line state first s_datab (drop 1 tokens) in
    let code = found_line state ci ops (find_instruction ci) in
    let instr = if ltb i_max_ops (length tokens) then Outcome.overrun else code in
    let bytes = if leb 3 tokc && is_word second m_db then byte else instr in
    let words = if leb 3 tokc && is_word second m_dw then word else bytes in
    let labels = if (tokc == 1) && (get_or first last 0 == 58) then label else words in
    if-both After ((tokc == 2) && is_word first m_org) (set_origin state second) labels
      (set_origin-After state second h)
      (if-both After ((tokc == 1) && (get_or first last 0 == 58)) label words
        (define_line-After state (set first last 0) s_label [] h (omega arith))
        (if-both After (leb 3 tokc && is_word second m_dw) word bytes
          (define_line-After state first s_dataw (drop 1 tokens) h fewer)
          (if-both After (leb 3 tokc && is_word second m_db) byte instr
            (define_line-After state first s_datab (drop 1 tokens) h fewer)
            (if-both After (ltb i_max_ops (length tokens)) Outcome.overrun code After.overrun
              (found_line-After state ci ops (find_instruction ci) h read')))))
