-- ===== src/Assembler/Tokens/Fields.antt =====
-- The fields of a line of source/programs/nas.c, independently of how they are found.
use nano_s.Prelude.{
  Bool, ℕ, ◌≤◌, ◌≡◌, ◌⊎◌, refl, true, false, ◌||◌, List, [], ◌∷◌, ◌++◌, ◌==◌, if◌then◌else◌, arith,
  get_or, take, drop,
}
use nano_s.Strings.Compare.{c_string}
use nano_s.Assembler.Tokens.{is_separator, is_end, separators, token_length}

-- A field in front of others, unless it is empty.
unfoldable pub push_field : List ℕ → List (List ℕ) → List (List ℕ)
push_field [] fs = fs
push_field (c ∷ cs) fs = (c ∷ cs) ∷ fs

-- A comma, a space or a tab.
abbrev pub delimits : ℕ → Bool
delimits c = (c == 44) || ((c == 32) || (c == 9))

-- The field that the line starts in, and those after it. A line ends at a 0 or at a comment.
unfoldable pub split_line : List ℕ → List ℕ × List (List ℕ)
unfolding push_field
split_line [] = ([], [])
split_line (c ∷ cs) =
    let (f, fs) = split_line cs in
    if (c == 0) || (c == 59)
    then ([], [])
    else if delimits c
    then ([], push_field f fs)
    else (c ∷ f, fs)

unfoldable pub line_fields : List ℕ → List (List ℕ)
line_fields line = let (f, fs) = split_line line in push_field f fs

-- The leading separators do not matter.
pub line_fields-separators : (s : List ℕ) → line_fields (drop (separators s) s) ≡ line_fields s
unfolding line_fields separators split_line push_field
line_fields-separators [] = refl
line_fields-separators (c ∷ cs) = ground (arith, line_fields-separators cs)

pub split_line-token :
    (s : List ℕ) → split_line s ≡ (take (token_length s) s, line_fields (drop (token_length s) s))
unfolding line_fields token_length split_line push_field
split_line-token [] = refl
split_line-token (c ∷ cs) = ground (arith, split_line-token cs)

-- The bytes of a token are its string when what follows them is the empty string.
pub c_string-token :
    (s out : List ℕ)
    → c_string out ≡ []
    → c_string (take (token_length s) s ++ out) ≡ take (token_length s) s
unfolding token_length c_string
c_string-token [] out e = e
c_string-token (c ∷ cs) out e = ground (arith, c_string-token cs out e)

pub start_head : (s : List ℕ) → is_separator (get_or (drop (separators s) s) 0 0) ≡ false
unfolding separators
start_head [] = refl
start_head (c ∷ cs) = ground (arith, start_head cs)

pub end_head : (s : List ℕ) → is_end (get_or (drop (token_length s) s) 0 0) ≡ true
unfolding token_length
end_head [] = refl
end_head (c ∷ cs) = ground (arith, end_head cs)

pub token_length-pos : (s : List ℕ) → is_end (get_or s 0 0) ≡ false → 1 ≤ token_length s
unfolding token_length
token_length-pos [] e = absurd (ground arith)
token_length-pos (c ∷ cs) e = ground arith

pub token_length-zero : (s : List ℕ) → is_end (get_or s 0 0) ≡ true → token_length s ≡ 0
unfolding token_length
token_length-zero [] e = refl
token_length-zero (c ∷ cs) e = ground arith

pub separators-pos : (s : List ℕ) → is_separator (get_or s 0 0) ≡ true → 1 ≤ separators s
unfolding separators
separators-pos [] e = absurd (ground arith)
separators-pos (c ∷ cs) e = ground arith

pub separators-zero : (s : List ℕ) → is_separator (get_or s 0 0) ≡ false → separators s ≡ 0
unfolding separators
separators-zero [] e = refl
separators-zero (c ∷ cs) e = ground arith

-- A line that starts with its end or a comment has no fields.
pub line_fields-ended : (s : List ℕ) → (get_or s 0 0 ≡ 0) ⊎ (get_or s 0 0 ≡ 59) → line_fields s ≡ []
unfolding line_fields split_line push_field
line_fields-ended [] h = refl
line_fields-ended (c ∷ cs) h = ground arith

-- At a token: its bytes are the first field.
pub line_fields-token :
    (s : List ℕ)
    → is_end (get_or s 0 0) ≡ false
    → line_fields s ≡ take (token_length s) s ∷ line_fields (drop (token_length s) s)
unfolding line_fields split_line push_field token_length
line_fields-token [] e = absurd (ground arith)
line_fields-token (c ∷ cs) e = ground (arith, split_line-token cs)
