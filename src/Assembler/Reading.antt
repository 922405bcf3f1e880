-- ===== src/Assembler/Reading.antt =====
-- What the loop over the operands of a line of source/programs/nas.c has read.
use nano_s.Prelude.{
  ℕ, suc, ◌+◌, ◌<◌, if-both, ◌≡◌, ◌⊎◌, inl, refl, ◌∙◌, List, [], ◌∷◌, ◌==◌, arith, length,
  if◌then◌else◌, not, length-append,
}
use nano_s.Strings.{stou, sisu}
use nano_s.Assembler.Tables.{r_data, o_any, o_mw, o_iw}
use nano_s.Assembler.Encode.{error_not_found}
use nano_s.Assembler.Symbols.{Symbol, find_or_add_from, find_or_add_symbol}
use nano_s.Assembler.Program.{
  with_operand, Operands, parse_operand, parse_operands, no_symbol, is_pointer, bare,
  register_operand,
}

length-find_or_add_from :
    (name : List ℕ) (s : ℕ) (rows : List Symbol)
    → length (find_or_add_from name s rows).1 ≡ length rows
unfolding find_or_add_from
length-find_or_add_from name s [] = refl
length-find_or_add_from name s (row ∷ rows) =
    ground (arith, length-find_or_add_from name (s + 1) rows)

find_or_add_from-index :
    (name : List ℕ) (s : ℕ) (rows : List Symbol)
    → let r = (find_or_add_from name s rows).0 in (r ≡ error_not_found) ⊎ (r < s + length rows)
unfolding find_or_add_from
find_or_add_from-index name s [] = inl refl
find_or_add_from-index name s (row ∷ rows) =
    ground (arith, find_or_add_from-index name (s + 1) rows)

pub length-find_or_add_symbol :
    (rows : List Symbol) (name : List ℕ) → length (find_or_add_symbol rows name).1 ≡ length rows
unfolding find_or_add_symbol
length-find_or_add_symbol rows name = length-find_or_add_from name 0 rows

find_or_add_symbol-index :
    (rows : List Symbol) (name : List ℕ)
    → let r = (find_or_add_symbol rows name).0 in (r ≡ error_not_found) ⊎ (r < length rows)
unfolding find_or_add_symbol
find_or_add_symbol-index rows name =
    let e : 0 + length rows ≡ length rows = omega arith in
    rw e at (find_or_add_from-index name 0 rows)

-- The operands that have been read.
pub record Read (symbols : List Symbol) (n : ℕ) (ops : Operands) : Type 0 where
  pub rows : length ops.symbols ≡ length symbols
  pub symbol : (ops.s ≡ no_symbol) ⊎ (ops.s < length symbols)
  pub values : length ops.op_value ≡ n

with_operand-Read :
    (symbols : List Symbol) (n : ℕ) (ops : Operands) (type value s nas : ℕ) (rows : List Symbol)
    → Read symbols n ops
    → length rows ≡ length symbols
    → (s ≡ no_symbol) ⊎ (s < length symbols)
    → Read symbols (n + 1) (with_operand ops type value s nas rows)
with_operand-Read symbols n ops type value s nas rows h same index = record {
  rows = same;
  symbol = index;
  values = omega (arith, length-append ops.op_value (value ∷ []), h.values);
}

parse_operand-Read :
    (symbols : List Symbol) (i n : ℕ) (token : List ℕ) (ops : Operands)
    → Read symbols n ops
    → Read symbols (n + 1) (parse_operand i token ops)
unfolding parse_operand
parse_operand-Read symbols i n token ops h =
    let pointer = is_pointer token in
    let name = bare token in
    let (type, value) = register_operand pointer name 0 r_data in
    let literal = if pointer then o_mw else o_iw in
    let (s, rows) = find_or_add_symbol ops.symbols name in
    let known = with_operand ops type value ops.s ops.nas ops.symbols in
    let number = with_operand ops literal (stou name) ops.s ops.nas ops.symbols in
    let symbol = with_operand ops literal (stou name) s i rows in
    let same = length-find_or_add_symbol ops.symbols name ∙ h.rows in
    let index = rw h.rows at (find_or_add_symbol-index ops.symbols name) in
    if-both (Read symbols (n + 1)) (not (type == o_any)) known
      (if sisu name then number else symbol)
      (with_operand-Read symbols n ops type value ops.s ops.nas ops.symbols h h.rows h.symbol)
      (if-both (Read symbols (n + 1)) (sisu name) number symbol
        (with_operand-Read symbols n ops literal (stou name) ops.s ops.nas ops.symbols h h.rows
          h.symbol)
        (with_operand-Read symbols n ops literal (stou name) s i rows h same index))

pub parse_operands-Read :
    (symbols : List Symbol) (i n : ℕ) (tokens : List (List ℕ)) (ops : Operands)
    → Read symbols n ops
    → Read symbols (n + length tokens) (parse_operands i tokens ops)
unfolding parse_operands
parse_operands-Read symbols i n [] ops h = let e : n + 0 ≡ n = omega arith in rw e h
parse_operands-Read symbols i n (token ∷ tokens) ops h =
    let e : n + suc (length tokens) ≡ n + 1 + length tokens = omega arith in
    rw e (
      parse_operands-Read symbols (i + 1) (n + 1) tokens _
        (parse_operand-Read symbols i n token ops h))
