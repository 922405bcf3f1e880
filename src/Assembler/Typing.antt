-- ===== src/Assembler/Typing.antt =====
-- The values of the operands that source/programs/nas.c reads fit their types.
use nano_s.Prelude.{
  ℕ, zero, suc, ◌+◌, ◌<◌, ◌≡◌, sym, ◌∙◌, List, [], ◌∷◌, ◌==◌, ◌++◌, arith, length, if◌then◌else◌,
  if-both, true, false, get_or, ◌^◌, Bool, length-append, not,
}
use nano_s.Strings.{stou, sisu, strcmp}
use nano_s.Assembler.Tables.{Rdata, r_data, o_any, o_rmw, o_mw, o_iw}
use nano_s.Strings.Compare.{stou_lt}
use nano_s.Assembler.RoundTrip.{Fits}
use nano_s.Assembler.Symbols.{find_or_add_symbol}
use nano_s.Assembler.Program.{
  Operands, with_operand, parse_operand, parse_operands, register_operand, is_pointer, bare,
}

-- Rows of the registers from `j` on whose ids are ids of registers.
data IsRegisters : ℕ → List Rdata → Type 0 where
  nil : {j : ℕ} → IsRegisters j []
  cons :
      {j : ℕ} {row : Rdata} {rows : List Rdata}
      → Fits row.type j
      → Fits o_rmw j
      → IsRegisters (suc j) rows
      → IsRegisters j (row ∷ rows)

r_data-IsRegisters : IsRegisters 0 r_data
unfolding r_data
r_data-IsRegisters =
    cons (λ e. (omega arith, omega arith), omega arith)
      (λ e. (omega arith, omega arith), omega arith)
      (cons (λ e. (omega arith, omega arith), omega arith)
        (λ e. (omega arith, omega arith), omega arith)
        (cons (λ e. (omega arith, omega arith), omega arith)
          (λ e. (omega arith, omega arith), omega arith)
          (cons (λ e. (omega arith, omega arith), omega arith)
            (λ e. (omega arith, omega arith), omega arith)
            (cons (λ e. (omega arith, omega arith), omega arith)
              (λ e. (omega arith, omega arith), omega arith)
              (cons (λ e. (omega arith, omega arith), omega arith)
                (λ e. (omega arith, omega arith), omega arith)
                (cons (λ e. (omega arith, omega arith), omega arith)
                  (λ e. (omega arith, omega arith), omega arith)
                  (cons (λ e. (omega arith, omega arith), omega arith)
                    (λ e. (omega arith, omega arith), omega arith)
                    (cons (λ e. (omega arith, omega arith), omega arith)
                      (λ e. (omega arith, omega arith), omega arith) nil))))))))

abbrev FitsBoth : ℕ × ℕ → Type 0
FitsBoth t = Fits t.0 t.1

register_operand-Fits :
    (pointer : Bool) (token : List ℕ) (j : ℕ) (rows : List Rdata)
    → IsRegisters j rows
    → let (type, value) = register_operand pointer token j rows in Fits type value
unfolding register_operand
register_operand-Fits pointer token j [] nil = (λ e. absurd (omega (arith, e)), omega arith)
register_operand-Fits pointer token j (row ∷ rows) (cons f g h) =
    let e : j + 1 ≡ suc j = omega arith in
    let rest = register_operand-Fits pointer token (j + 1) rows (rw e h) in
    if-both FitsBoth (strcmp token row.name == 0) (if pointer then o_rmw else row.type, j)
      (register_operand pointer token (j + 1) rows)
      (if-both (λ t. Fits t j) pointer o_rmw row.type g f) rest

-- The values that have been read fit their types.
pub record Typed (n : ℕ) (types values : List ℕ) : Type 0 where
  pub types_length : length types ≡ n
  pub values_length : length values ≡ n
  pub fit : (i : ℕ) → Fits (get_or types i 0) (get_or values i 0)

pub no_operand-Fits : (i : ℕ) → Fits (get_or [] i 0) (get_or [] i 0)
no_operand-Fits i = (λ e. absurd (omega (arith, e)), omega arith)

append-Fits :
    (ts vs : List ℕ) (type value : ℕ)
    → length ts ≡ length vs
    → ((i : ℕ) → Fits (get_or ts i 0) (get_or vs i 0))
    → Fits type value
    → (i : ℕ) → Fits (get_or (ts ++ (type ∷ [])) i 0) (get_or (vs ++ (value ∷ [])) i 0)
append-Fits [] [] type value e h f zero = f
append-Fits [] [] type value e h f (suc i) = no_operand-Fits i
append-Fits [] (v ∷ vs) type value e h f i = absurd (omega arith)
append-Fits (t ∷ ts) [] type value e h f i = absurd (omega arith)
append-Fits (t ∷ ts) (v ∷ vs) type value e h f zero = h 0
append-Fits (t ∷ ts) (v ∷ vs) type value e h f (suc i) =
    append-Fits ts vs type value (omega arith) (λ k. h (suc k)) f i

append-Typed :
    (n type value : ℕ) (ts vs : List ℕ)
    → Typed n ts vs
    → Fits type value
    → Typed (n + 1) (ts ++ (type ∷ [])) (vs ++ (value ∷ []))
append-Typed n type value ts vs h f = record {
  types_length = omega (arith, length-append ts (type ∷ []), h.types_length);
  values_length = omega (arith, length-append vs (value ∷ []), h.values_length);
  fit = append-Fits ts vs type value (h.types_length ∙ sym h.values_length) h.fit f;
}

abbrev pub TypedOperands : ℕ → Operands → Type 0
TypedOperands n ops = Typed n ops.op_type ops.op_value

literal-Fits : (pointer : Bool) (v : ℕ) → v < 2 ^ 16 → Fits (if pointer then o_mw else o_iw) v
literal-Fits true v lt = (λ e. absurd (omega (arith, e)), lt)
literal-Fits false v lt = (λ e. absurd (omega (arith, e)), lt)

parse_operand-Typed :
    (i n : ℕ) (token : List ℕ) (ops : Operands)
    → TypedOperands n ops
    → TypedOperands (n + 1) (parse_operand i token ops)
unfolding parse_operand
parse_operand-Typed i n token ops h =
    let pointer = is_pointer token in
    let name = bare token in
    let (type, value) = register_operand pointer name 0 r_data in
    let literal = if pointer then o_mw else o_iw in
    let (s, rows) = find_or_add_symbol ops.symbols name in
    let known = with_operand ops type value ops.s ops.nas ops.symbols in
    let number = with_operand ops literal (stou name) ops.s ops.nas ops.symbols in
    let symbol = with_operand ops literal (stou name) s i rows in
    let typed_literal =
      append-Typed n literal (stou name) ops.op_type ops.op_value h
        (literal-Fits pointer (stou name) (stou_lt name)) in
    if-both (TypedOperands (n + 1)) (not (type == o_any)) known
      (if sisu name then number else symbol)
      (append-Typed n type value ops.op_type ops.op_value h
        (register_operand-Fits pointer name 0 r_data r_data-IsRegisters))
      (if-both (TypedOperands (n + 1)) (sisu name) number symbol typed_literal typed_literal)

pub parse_operands-Typed :
    (i n : ℕ) (tokens : List (List ℕ)) (ops : Operands)
    → TypedOperands n ops
    → TypedOperands (n + length tokens) (parse_operands i tokens ops)
unfolding parse_operands
parse_operands-Typed i n [] ops h = let e : n + 0 ≡ n = omega arith in rw e h
parse_operands-Typed i n (token ∷ tokens) ops h =
    let e : n + suc (length tokens) ≡ n + 1 + length tokens = omega arith in
    rw e (parse_operands-Typed (i + 1) (n + 1) tokens _ (parse_operand-Typed i n token ops h))
