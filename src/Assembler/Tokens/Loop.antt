-- ===== src/Assembler/Tokens/Loop.antt =====
-- `tokenize_line` of source/programs/nas.c finds the fields of the line, in the fuel that it has.
use nano_s.Prelude.{
  ℕ, zero, suc, ◌+◌, ◌-◌, ◌≤◌, ◌<◌, ◌≡◌, ◌≢◌, ◌⊎◌, refl, ap, ap₂, sym, ◌∙◌, true, false, List, [],
  ◌∷◌, ◌++◌, map, arith, get_or, set, take, drop, length, length-drop, replicate, Bool-cases, inl,
  inr, ℕ_discrete,
}
use nano_s.Strings.Compare.{c_string, c_string-zero, c_string-ended}
use nano_s.Assembler.Tokens.{
  is_separator, is_end, separators, token_length, tokenize_loop, tokenize_line,
}
use nano_s.Assembler.Tokens.Fields.{
  line_fields, line_fields-separators, line_fields-token, line_fields-ended, c_string-token,
  start_head, end_head, token_length-pos, token_length-zero, separators-pos, separators-zero,
}

abbrev start : List ℕ → List ℕ
start s = drop (separators s) s

abbrev rest : List ℕ → List ℕ
rest s = drop (token_length (start s)) (start s)

module _ (fuel max_tok tokc : ℕ) (s : List ℕ) where
  step-stop : get_or s 0 0 ≡ 0 → tokenize_loop (suc fuel) max_tok tokc s ≡ ([], s)
  unfolding tokenize_loop
  step-stop e = ground arith

  step-comment :
      get_or s 0 0 ≢ 0
      → tokc < max_tok
      → get_or (start s) 0 0 ≡ 59
      → tokenize_loop (suc fuel) max_tok tokc s
        ≡ ([], replicate (separators s) 0 ++ set (start s) 0 0)
  unfolding tokenize_loop
  step-comment nz lt e = ground arith

  step-blank :
      get_or s 0 0 ≢ 0
      → tokc < max_tok
      → get_or (start s) 0 0 ≡ 0
      → tokenize_loop (suc fuel) max_tok tokc s ≡ (
        (tokenize_loop fuel max_tok tokc (rest s)).0,
        replicate (separators s) 0
            ++ (take (token_length (start s)) (start s)
                ++ (tokenize_loop fuel max_tok tokc (rest s)).1),
      )
  unfolding tokenize_loop
  step-blank nz lt e = ground arith

  step-token :
      get_or s 0 0 ≢ 0
      → tokc < max_tok
      → get_or (start s) 0 0 ≢ 59
      → get_or (start s) 0 0 ≢ 0
      → let (tokv, out) = tokenize_loop fuel max_tok (tokc + 1) (rest s) in
        let token = take (token_length (start s)) (start s) ++ out in
        tokenize_loop (suc fuel) max_tok tokc s
        ≡ (token ∷ tokv, replicate (separators s) 0 ++ token)
  unfolding tokenize_loop
  step-token nz lt e n = ground arith

-- The tokens are the fields, and the line is ended where the previous token ends.
record Tokenized (s : List ℕ) (r : List (List ℕ) × List ℕ) : Type 0 where
  fields : map c_string r.0 ≡ line_fields s
  ended : is_end (get_or s 0 0) ≡ true → c_string r.1 ≡ []

zeros-ended :
    (n : ℕ) (t : List ℕ) → (1 ≤ n) ⊎ (c_string t ≡ []) → c_string (replicate n 0 ++ t) ≡ []
unfolding c_string
zeros-ended zero t (inl p) = absurd (omega arith)
zeros-ended zero t (inr e) = e
zeros-ended (suc n) t h = c_string-zero 0 (replicate n 0 ++ t) refl

set-ended : (t : List ℕ) → c_string (set t 0 0) ≡ []
unfolding c_string
set-ended [] = refl
set-ended (c ∷ cs) = c_string-zero 0 cs refl

head_length : (t : List ℕ) → get_or t 0 0 ≢ 0 → 1 ≤ length t
head_length [] e = absurd (e refl)
head_length (c ∷ cs) e = omega arith

-- A line that does not start at a token or a comment starts with a separator.
separators-ended :
    (s : List ℕ)
    → get_or s 0 0 ≢ 0
    → get_or (start s) 0 0 ≢ 59
    → is_end (get_or s 0 0) ≡ true
    → 1 ≤ separators s
separators-ended s nz nc e = elim (Bool-cases (is_separator (get_or s 0 0))) [
  | inl p ↦ separators-pos s p
  | inr p ↦
      let z = separators-zero s p in
      let here : get_or s 0 0 ≢ 59 = rw z at nc in absurd (ground arith)
]

-- Separators stand before the end of a line that does not start with its end.
separators-first :
    (s : List ℕ)
    → get_or s 0 0 ≢ 0
    → get_or (start s) 0 0 ≢ 59
    → get_or (start s) 0 0 ≡ 0
    → 1 ≤ separators s
separators-first s nz nc z = elim (Bool-cases (is_separator (get_or s 0 0))) [
  | inl p ↦ separators-pos s p
  | inr p ↦ let e = separators-zero s p in absurd (nz (rw e at z))
]

-- The start of a token is none of the bytes that end one.
start-is_end :
    (s : List ℕ)
    → get_or (start s) 0 0 ≢ 59
    → get_or (start s) 0 0 ≢ 0
    → is_end (get_or (start s) 0 0) ≡ false
start-is_end s nc nz = let p = start_head s in ground arith

-- A turn passes a byte at least.
length-rest :
    (s : List ℕ) → get_or s 0 0 ≢ 0 → get_or (start s) 0 0 ≢ 59 → length (rest s) + 1 ≤ length s
length-rest s nz nc = elim (ℕ_discrete (get_or (start s) 0 0) 0) [
  | yes z ↦ omega (
    arith,
    length-drop (separators s) s,
    length-drop (token_length (start s)) (start s),
    separators-first s nz nc z,
    head_length s nz,
  )
  | no word ↦ omega (
    arith,
    length-drop (separators s) s,
    length-drop (token_length (start s)) (start s),
    token_length-pos (start s) (start-is_end s nc word),
    head_length (start s) word,
  )
]

tokenize_loop-Tokenized :
    (fuel max_tok tokc : ℕ) (s : List ℕ)
    → length s ≤ fuel
    → tokc + length (line_fields s) < max_tok
    → Tokenized s (tokenize_loop fuel max_tok tokc s)
unfolding tokenize_loop
tokenize_loop-Tokenized zero max_tok tokc [] le lt = record {
  fields = sym (line_fields-ended [] (inl refl));
  ended = λ e. c_string-ended [] refl;
}
tokenize_loop-Tokenized zero max_tok tokc (c ∷ cs) le lt = absurd (omega arith)
tokenize_loop-Tokenized (suc fuel) max_tok tokc s le lt =
    let lt' : tokc < max_tok = omega (arith, lt) in
    elim (ℕ_discrete (get_or s 0 0) 0) [
      | yes z ↦
          rw (step-stop fuel max_tok tokc s z)
            (record { fields = sym (line_fields-ended s (inl z)); ended = λ e. c_string-ended s z })
      | no nz ↦ elim (ℕ_discrete (get_or (start s) 0 0) 59) [
        | yes c ↦ rw (step-comment fuel max_tok tokc s nz (omega (arith, lt)) c) (record {
          fields = sym (sym (line_fields-separators s) ∙ line_fields-ended (start s) (inr c));
          ended = λ e. zeros-ended (separators s) _ (inr (set-ended (start s)));
        })
        | no nc ↦ elim (ℕ_discrete (get_or (start s) 0 0) 0) [
          | yes z ↦
              let none : token_length (start s) ≡ 0 = token_length-zero (start s) (rw z refl) in
              let same : rest s ≡ start s = rw none refl in
              let fields : line_fields (rest s) ≡ line_fields s =
                rw same (line_fields-separators s) in
              let n = separators-first s nz nc z in
              let hyp =
                tokenize_loop-Tokenized fuel max_tok tokc (rest s)
                  (omega (arith, le, length-rest s nz nc)) (rw fields lt) in
              rw (step-blank fuel max_tok tokc s nz lt' z) (record {
                fields = hyp.fields ∙ fields;
                ended = λ e. zeros-ended (separators s) _ (inl n);
              })
          | no word ↦
              let out = tokenize_loop fuel max_tok (tokc + 1) (rest s) in
              let fields =
                sym (line_fields-separators s)
                ∙ line_fields-token (start s) (start-is_end s nc word) in
              let hyp =
                tokenize_loop-Tokenized fuel max_tok (tokc + 1) (rest s)
                  (omega (arith, le, length-rest s nz nc)) (omega (arith, lt, ap length fields)) in
              let token = c_string-token (start s) out.1 (hyp.ended (end_head (start s))) in
              rw (step-token fuel max_tok tokc s nz lt' nc word) (record {
                fields = ap₂ ◌∷◌ token hyp.fields ∙ sym fields;
                ended = λ e. zeros-ended (separators s) _ (inl (separators-ended s nz nc e));
              })
        ]
      ]
    ]

-- `tokenize_line` gives the fields of the line, whose byte at size - 1 is made 0, in their order,
-- when there are fewer than `max_tok` of them: they are delimited by spaces, tabs and commas, and
-- the line ends at a 0 or at a semicolon, which starts a comment.
pub tokenize_line_lem :
    (buff : List ℕ) (size max_tok : ℕ)
    → length (line_fields (set buff (size - 1) 0)) < max_tok
    → map c_string (tokenize_line buff size max_tok).0 ≡ line_fields (set buff (size - 1) 0)
unfolding tokenize_line
tokenize_line_lem buff size max_tok lt =
    (tokenize_loop-Tokenized (length (set buff (size - 1) 0)) max_tok 0 (set buff (size - 1) 0)
      (omega arith) (omega (arith, lt))).fields
