-- ===== src/Format.antt =====
-- Formatted output, source/ulib/ulib.c: `format_str_outchar`, which `putstr`, `debugstr` and `formatstr`
-- share. The characters that it gives to `outchar` are a list; `args` are the words on the stack, and
-- `strings` has the bytes from an address on.
pub mod Numbers
mod Tests
use nano_s.Prelude.{
  ℕ, zero, suc, ◌+◌, ◌-◌, ◌*◌, ◌/◌, ◌%◌, true, false, ◌&&◌, ◌||◌, not, List, [], ◌∷◌, ◌++◌, Option,
  none, some, ◌==◌, ltb, leb, if◌then◌else◌, u16, take, drop, get_or, replicate, length, set,
}
use nano_s.Strings.{strlen}

abbrev pub get_hi : ℕ → ℕ
get_hi c = c / 256 % 256

abbrev pub get_lo : ℕ → ℕ
get_lo c = c % 256

abbrev pub d_str_size : ℕ
d_str_size = 32

abbrev pub digit_char : ℕ → ℕ
digit_char d = if leb d 9 then 48 + d else 65 + d - 10

-- The do loop that fills `digit` from its end; `digits` is what it has stored, and `fuel` more than
-- its turns. The array has 32 bytes: at most 31 digits are stored if `n_digits` asks for no more.
unfoldable pub digits_loop : ℕ → ℕ → ℕ → ℕ → ℕ → List ℕ → List ℕ
digits_loop zero base value n n_digits digits = digits
digits_loop (suc fuel) base value n n_digits digits =
    let stored = digit_char (value % base) ∷ digits in
    let rest = digits_loop fuel base (value / base) (n + 1) n_digits stored in
    if (not (value / base == 0) && ltb (n + 1) (d_str_size - 1)) || ltb (n + 1) n_digits
    then rest
    else stored

abbrev pub digits_of : ℕ → ℕ → ℕ → List ℕ
digits_of base value n_digits = digits_loop (d_str_size + n_digits) base value 0 n_digits []

-- `-(int)value` as `ul_t`, for a word with its sign bit set: -32768 has no negation in `int`.
abbrev pub negated : ℕ → ℕ
negated word = if word == 0x8000 then 0xFFFF8000 else 0x10000 - word

-- The conversions: the characters, the arguments that are left and the count, or `none` for a
-- character that is no conversion.
unfoldable pub conversion : (ℕ → List ℕ) → ℕ → ℕ → List ℕ → ℕ → Option (List ℕ × List ℕ × ℕ)
conversion strings c n_digits args count =
    let word = get_or args 0 0 in
    let value32 = word + 65536 * get_or args 1 0 in
    let out : List ℕ → ℕ → Option (List ℕ × List ℕ × ℕ) =
      λ s left. some (s, drop left args, u16 (count + length s)) in
    if c == 100
    then if leb 0x8000 word
      then out (45 ∷ digits_of 10 (negated word) n_digits) 1
      else out (digits_of 10 word n_digits) 1
    else if c == 117
    then out (digits_of 10 word n_digits) 1
    else if c == 85
    then out (digits_of 10 value32 n_digits) 2
    else if c == 120
    then out (48 ∷ 120 ∷ digits_of 16 word (if n_digits == 0 then 4 else n_digits)) 1
    else if c == 88
    then out (48 ∷ 120 ∷ digits_of 16 value32 (if n_digits == 0 then 8 else n_digits)) 2
    else if c == 115
    then out (take (strlen (strings word)) (strings word)) 1
    else if c == 99
    then out (replicate (if n_digits == 0 then 1 else n_digits - count) (get_lo word)) 1
    else none

-- The loop over the format: `none` between the directives, `some n_digits` behind the `%` of one.
unfoldable pub scan : (ℕ → List ℕ) → Option ℕ → List ℕ → List ℕ → ℕ → List ℕ
scan strings mode [] args count = []
scan strings none (c ∷ format) args count = elim (c == 0) [
  | true ↦ []
  | false ↦ elim (c == 37) [
    | true ↦ scan strings (some 0) format args count
    | false ↦ c ∷ scan strings none format args (u16 (count + 1))
  ]
]
scan strings (some n_digits) (c ∷ format) args count = elim (leb 48 c && leb c 57) [
  | true ↦ scan strings (some (u16 (n_digits * 10 + c - 48))) format args count
  | false ↦ elim (conversion strings c n_digits args count) [
    | some (out, left, count') ↦ out ++ scan strings none format left count'
    | none ↦ elim (c == 0) [
      | true ↦ []
      | false ↦ elim (c == 37) [
        | true ↦ scan strings (some 0) format (drop 1 args) count
        | false ↦ c ∷ scan strings none format (drop 1 args) (u16 (count + 1))
      ]
    ]
  ]
]

unfoldable pub format_str_outchar : (ℕ → List ℕ) → List ℕ → List ℕ → List ℕ
unfolding scan
format_str_outchar strings format args = scan strings none format args 0

-- `stcatchar` for each character.
unfoldable pub stcat : List ℕ → List ℕ → List ℕ
stcat ststr [] = ststr
stcat ststr (c ∷ cs) = stcat (set ststr (strlen ststr) c) cs

-- The `size` bytes of `str` after the call.
unfoldable pub formatstr : (ℕ → List ℕ) → ℕ → List ℕ → List ℕ → List ℕ
unfolding stcat
formatstr strings size format args =
    stcat (replicate size 0) (format_str_outchar strings format args)

-- "%u.%u.%u.%u"
abbrev pub ip_format : List ℕ
ip_format = 37 ∷ 117 ∷ 46 ∷ 37 ∷ 117 ∷ 46 ∷ 37 ∷ 117 ∷ 46 ∷ 37 ∷ 117 ∷ []

unfoldable pub ip_to_str : (ℕ → List ℕ) → List ℕ → List ℕ
ip_to_str strings ip = formatstr strings 16 ip_format (take 4 ip)
