-- ===== src/Assembler/Tokens.antt =====
-- `read_line` and `tokenize_line` of source/programs/nas.c. A pointer into the line is the list of
-- the bytes from there on, as the line is when the function returns.
pub mod Fields
pub mod Loop
use nano_s.Prelude.{
  ℕ, zero, suc, ◌+◌, ◌-◌, Bool, true, false, ◌&&◌, ◌||◌, not, List, [], ◌∷◌, ◌++◌, ◌==◌, ltb, leb,
  if◌then◌else◌, get_or, set, take, drop, length, replicate, u16,
}

abbrev pub error_any : ℕ
error_any = 0xFFFB

abbrev pub eof : ℕ
eof = 0xFFE0

-- The loop over the bytes that were read, from index `i` on.
unfoldable pub clamp_line : ℕ → ℕ → ℕ → ℕ → List ℕ → ℕ × List ℕ
clamp_line buff_size readed offset i [] = (error_any, [])
clamp_line buff_size readed offset i (c ∷ cs) =
    let kept = if c == 13 then 32 else c in
    let (next, rest) = clamp_line buff_size readed offset (i + 1) cs in
    if leb readed i
    then (error_any, c ∷ cs)
    else if kept == 10
    then (u16 (offset + i + 1), 0 ∷ cs)
    else if (i == readed - 1) && not (readed == buff_size)
    then (u16 (offset + i + 1), kept ∷ set cs 0 0)
    else (next, kept ∷ rest)

-- `file offset size` is what `read_file` returns and the bytes that it has stored.
unfoldable pub read_line : (ℕ → ℕ → ℕ × List ℕ) → ℕ → ℕ → ℕ × List ℕ
read_line file buff_size offset =
    let (readed, bytes) = file offset buff_size in
    let buff = bytes ++ replicate (buff_size - length bytes) 0 in
    if leb error_any readed
    then (readed, buff)
    else if readed == 0
    then (eof, buff)
    else clamp_line buff_size readed offset 0 buff

abbrev pub is_separator : ℕ → Bool
is_separator c = (c == 32) || ((c == 9) || (c == 44))

-- The bytes that end a token.
abbrev pub is_end : ℕ → Bool
is_end c = (c == 0) || (is_separator c || (c == 59))

-- How many bytes the first inner loop overwrites with 0.
unfoldable pub separators : List ℕ → ℕ
separators [] = 0
separators (c ∷ cs) = let n = separators cs in if is_separator c then suc n else 0

-- How many bytes the second inner loop passes.
unfoldable pub token_length : List ℕ → ℕ
token_length [] = 0
token_length (c ∷ cs) = let n = token_length cs in if is_end c then 0 else suc n

-- The outer loop: the tokens from `tokc` on, and the line from the pointer on.
unfoldable pub tokenize_loop : ℕ → ℕ → ℕ → List ℕ → List (List ℕ) × List ℕ
tokenize_loop zero max_tok tokc buff = ([], buff)
tokenize_loop (suc fuel) max_tok tokc buff = elim ((get_or buff 0 0 == 0) || leb max_tok tokc) [
  | true ↦ ([], buff)
  | false ↦
      let n = separators buff in
      let start = drop n buff in
      let m = token_length start in
      elim (get_or start 0 0 == 59) [
        | true ↦ ([], replicate n 0 ++ set start 0 0)
        | false ↦ elim (get_or start 0 0 == 0) [
          | true ↦
              let (tokv, rest) = tokenize_loop fuel max_tok tokc (drop m start) in
              (tokv, replicate n 0 ++ (take m start ++ rest))
          | false ↦
              let (tokv, rest) = tokenize_loop fuel max_tok (tokc + 1) (drop m start) in
              let token = take m start ++ rest in (token ∷ tokv, replicate n 0 ++ token)
        ]
      ]
]

-- Each turn passes a byte, so that there are at most as many as the line has.
unfoldable pub tokenize_line : List ℕ → ℕ → ℕ → List (List ℕ) × List ℕ
tokenize_line buff size max_tok =
    let line = set buff (size - 1) 0 in tokenize_loop (length line) max_tok 0 line
