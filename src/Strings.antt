-- ===== src/Strings.antt =====
-- The string functions of source/ulib/ulib.c. A string or a buffer is the list of its bytes from
-- the pointer on; past the end of the list every byte counts as 0. A function that writes returns
-- the buffer as it leaves it.
pub mod Compare
pub mod Copy
pub mod Held
use nano_s.Prelude.{
  ℕ, suc, ◌+◌, ◌*◌, Bool, true, false, ◌&&◌, not, List, [], ◌∷◌, ◌++◌, ◌==◌, ltb, leb,
  if◌then◌else◌, set, take, drop, get_or, u16, sub16,
}

unfoldable pub strlen : List ℕ → ℕ
strlen [] = 0
strlen (c ∷ cs) = let rest = strlen cs in if c == 0 then 0 else suc rest

-- The loop of `strcpy` and `strcat` that stores at index `i` of `dst`.
pub copy_from : ℕ → List ℕ → List ℕ → ℕ × List ℕ
copy_from i [] dst = (i, set dst i 0)
copy_from i (c ∷ cs) dst = elim (c == 0) [
  | true ↦ (i, set dst i 0)
  | false ↦ copy_from (i + 1) cs (set dst i c)
]

-- The loop of `strcpy_s` and `strcat_s`.
unfoldable pub copy_from_s : ℕ → ℕ → List ℕ → List ℕ → ℕ × List ℕ
copy_from_s dst_size i [] dst = (i, set dst i 0)
copy_from_s dst_size i (c ∷ cs) dst = elim (not (c == 0) && ltb (i + 1) dst_size) [
  | false ↦ (i, set dst i 0)
  | true ↦ copy_from_s dst_size (i + 1) cs (set dst i c)
]

-- The length returned and the buffer, for `dst` and `src` that do not overlap.
pub strcpy : List ℕ → List ℕ → ℕ × List ℕ
strcpy dst src = copy_from 0 src dst

unfoldable pub strcpy_s : List ℕ → List ℕ → ℕ → ℕ × List ℕ
strcpy_s dst src dst_size = copy_from_s dst_size 0 src dst

pub strcat : List ℕ → List ℕ → ℕ × List ℕ
strcat dst src = copy_from (strlen dst) src dst

pub strcat_s : List ℕ → List ℕ → ℕ → ℕ × List ℕ
strcat_s dst src dst_size = copy_from_s dst_size (strlen dst) src dst

-- The difference of two bytes as an `int` of 16 bits, in two's complement.
unfoldable pub strcmp : List ℕ → List ℕ → ℕ
strcmp [] [] = 0
strcmp [] (d ∷ ds) = sub16 0 d
strcmp (c ∷ cs) [] = c
strcmp (c ∷ cs) (d ∷ ds) =
    let rest = strcmp cs ds in if c == d && not (c == 0) then rest else sub16 c d

pub strncmp : List ℕ → List ℕ → ℕ → ℕ → ℕ
strncmp [] [] i n = 0
strncmp [] (d ∷ ds) i n = sub16 0 d
strncmp (c ∷ cs) [] i n = c
strncmp (c ∷ cs) (d ∷ ds) i n =
    let rest = strncmp cs ds (i + 1) n in
    if c == d && not (c == 0) && ltb (i + 1) n then rest else sub16 c d

-- One more than the index of the first `c`, or 0. `n` is the index of the first byte of the list.
pub strchr : List ℕ → ℕ → ℕ → ℕ
strchr [] c n = 0
strchr (s ∷ src) c n =
    let rest = strchr src c (n + 1) in if s == 0 then 0 else if s == c then n + 1 else rest

-- The first loop of `strtok`: the delimiters that it overwrites.
pub skip_delims : ℕ → List ℕ → ℕ × List ℕ
skip_delims delim [] = (0, [])
skip_delims delim (c ∷ cs) =
    let (n, rest) = skip_delims delim cs in if c == delim then (n + 1, 0 ∷ rest) else (0, c ∷ cs)

-- The second loop: `next` from the start of the token, and the bytes from there on.
pub end_token : ℕ → List ℕ → ℕ × List ℕ
end_token delim [] = (0, [])
end_token delim (c ∷ cs) =
    let (n, rest) = end_token delim cs in
    if c == 0 then (0, c ∷ cs) else if c == delim then (1, 0 ∷ cs) else (n + 1, c ∷ rest)

-- `src` is an index in `buff`; the results are the token, `next` and the buffer.
pub strtok : List ℕ → ℕ → ℕ → ℕ × ℕ × List ℕ
unfolding skip_delims end_token
strtok buff src delim =
    let (skipped, rest) = skip_delims delim (drop src buff) in
    let (length, token) = end_token delim (drop skipped rest) in
    (src + skipped, src + skipped + length, take src buff ++ (take skipped rest ++ token))

-- One digit of `stou`.
abbrev pub digit_of : ℕ → ℕ
digit_of c =
    if leb c 57 then sub16 c 48 else if leb 97 c then sub16 (10 + c) 97 else sub16 (10 + c) 65

unfoldable pub digits_from : ℕ → ℕ → List ℕ → ℕ
digits_from base value [] = value
digits_from base value (c ∷ cs) = elim (c == 0) [
  | true ↦ value
  | false ↦ digits_from base (u16 (value * base + digit_of c)) cs
]

-- A leading `0x` is skipped.
unfoldable pub stou : List ℕ → ℕ
unfolding digits_from
stou src =
    if get_or src 0 0 == 48 && get_or src 1 0 == 120
    then digits_from 16 0 (drop 2 src)
    else digits_from 10 0 src

unfoldable pub are_digits : ℕ → List ℕ → Bool
are_digits base [] = true
are_digits base (c ∷ cs) = elim (c == 0) [
  | true ↦ true
  | false ↦ elim (leb base (digit_of c)) [ true ↦ false | false ↦ are_digits base cs ]
]

-- Whether `stou` reads a number from `src`; a lone `0x` is taken for decimal digits.
unfoldable pub sisu : List ℕ → Bool
unfolding are_digits
sisu src =
    if get_or src 0 0 == 0
    then false
    else if (get_or src 0 0 == 48 && get_or src 1 0 == 120) && not (get_or src 2 0 == 0)
    then are_digits 16 (drop 2 src)
    else are_digits 10 src
