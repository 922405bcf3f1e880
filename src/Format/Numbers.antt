-- ===== src/Format/Numbers.antt =====
-- The numbers that Format.antt writes are those that `stou` of source/ulib/ulib.c reads.
use nano_s.Prelude.{
  ℕ, zero, suc, ◌+◌, ◌*◌, ◌/◌, ◌%◌, ◌^◌, ◌≤◌, ◌<◌, ◌≡◌, ◌≢◌, refl, ◌∙◌, ap, List, [], ◌∷◌, arith,
  false, inl, inr, ◌==◌, get_or, ◌⊎◌, u16,
}
use mathlib.Core.List.{append-nil}
use nano_s.Strings.{digits_from, digit_of, stou}
use nano_s.Format.{digit_char, digits_loop, format_str_outchar, conversion}

-- `k` divisions leave nothing of a value.
abbrev Small : ℕ → ℕ → ℕ → Type 0
Small base zero value = value ≡ 0
Small base (suc k) value = Small base k (value / base)

digit_of-digit_char : (d : ℕ) → d < 16 → digit_of (digit_char d) ≡ d
digit_of-digit_char d lt = ground arith

digits_from-cons :
    (base acc c : ℕ) (tail : List ℕ)
    → c ≢ 0
    → digits_from base acc (c ∷ tail) ≡ digits_from base (u16 (acc * base + digit_of c)) tail
unfolding digits_from
digits_from-cons base acc c tail some_char = ground arith

digits_from-step :
    (base acc d : ℕ) (tail : List ℕ)
    → d < 16
    → digits_from base acc (digit_char d ∷ tail) ≡ digits_from base (u16 (acc * base + d)) tail
digits_from-step base acc d tail lt =
    digits_from-cons base acc (digit_char d) tail (ground arith)
    ∙ ap (λ (x : ℕ). digits_from base (u16 (acc * base + x)) tail) (digit_of-digit_char d lt)

-- For a base of 10 or 16.
module _ (base n_digits : ℕ) (two : (base ≡ 10) ⊎ (base ≡ 16)) where
  divided :
      (value : ℕ)
      → (value / base * base + value % base ≡ value) × (value % base < 16) × (value / base ≤ value)
  divided value = elim two [
    | inl ten ↦ rw ten (omega arith)
    | inr sixteen ↦ rw sixteen (omega arith)
  ]

  last_digit :
      (value : ℕ) (tail : List ℕ)
      → value < 2 ^ 16
      → value / base ≡ 0
      → digits_from base 0 (digit_char (value % base) ∷ tail) ≡ digits_from base value tail
  last_digit value tail lt none =
      let (parts, digit, _) = divided value in
      let all : u16 (0 * base + value % base) ≡ value =
        omega (arith, parts, ap (λ (q : ℕ). q * base) none) in
      digits_from-step base 0 (value % base) tail digit
      ∙ ap (λ (x : ℕ). digits_from base x tail) all

  more_digits :
      (value : ℕ) (tail : List ℕ)
      → value < 2 ^ 16
      → digits_from base (value / base) (digit_char (value % base) ∷ tail)
        ≡ digits_from base value tail
  more_digits value tail lt =
      let (parts, digit, _) = divided value in
      let all : u16 (value / base * base + value % base) ≡ value = omega (arith, parts) in
      digits_from-step base (value / base) (value % base) tail digit
      ∙ ap (λ (x : ℕ). digits_from base x tail) all

  digits_from-digits_loop :
      (fuel k value n : ℕ) (tail : List ℕ)
      → value < 2 ^ 16
      → Small base (suc k) value
      → k < fuel
      → n_digits ≤ n + suc k
      → n + suc k ≤ 31
      → digits_from base 0 (digits_loop fuel base value n n_digits tail)
        ≡ digits_from base value tail
  unfolding digits_loop
  digits_from-digits_loop zero k value n tail lt small f nd room = absurd (omega arith)
  digits_from-digits_loop (suc fuel) zero value n tail lt small f nd room =
      ground (arith, last_digit value tail lt small)
  digits_from-digits_loop (suc fuel) (suc k) value n tail lt small f nd room =
      let (parts, digit, le) = divided value in
      let stored = digit_char (value % base) ∷ tail in
      let rest =
        digits_from-digits_loop fuel k (value / base) (n + 1) stored (omega arith) small
          (omega arith) (omega arith) (omega arith) in
      ground (arith, rest, last_digit value tail lt, more_digits value tail lt)

-- No decimal digit is an `x`.
decimal_digits :
    (fuel value n n_digits : ℕ) (tail : List ℕ) (i : ℕ)
    → ((j : ℕ) → get_or tail j 0 ≤ 57)
    → get_or (digits_loop fuel 10 value n n_digits tail) i 0 ≤ 57
unfolding digits_loop
decimal_digits zero value n n_digits tail i h = h i
decimal_digits (suc fuel) value n n_digits tail i h =
    let stored = digit_char (value % 10) ∷ tail in
    let front : (j : ℕ) → get_or stored j 0 ≤ 57 = stored_digits in
    ground (arith, decimal_digits fuel (value / 10) (n + 1) n_digits stored i front, front i)
  where
    stored_digits : (j : ℕ) → get_or (digit_char (value % 10) ∷ tail) j 0 ≤ 57
    stored_digits zero = ground arith
    stored_digits (suc j) = h j

stou-decimal : (src : List ℕ) → (get_or src 1 0 == 120) ≡ false → stou src ≡ digits_from 10 0 src
unfolding stou
stou-decimal src not_x = ground arith

-- `%u` and `%x` write every number of 16 bits in a form that `stou` reads as the same number.
pub stou-format_str_outchar :
    (strings : ℕ → List ℕ) (value : ℕ)
    → value < 2 ^ 16
    → (stou (format_str_outchar strings (37 ∷ 117 ∷ []) (value ∷ [])) ≡ value)
      × (stou (format_str_outchar strings (37 ∷ 120 ∷ []) (value ∷ [])) ≡ value)
unfolding stou format_str_outchar conversion digits_from
stou-format_str_outchar strings value lt =
    let ten =
      digits_from-digits_loop 10 0 (inl refl) 32 4 value 0 [] lt (omega arith) (omega arith)
        (omega arith) (omega arith) in
    let sixteen =
      digits_from-digits_loop 16 4 (inr refl) 36 3 value 0 [] lt (omega arith) (omega arith)
        (omega arith) (omega arith) in
    let digits = digits_loop 32 10 value 0 0 [] in
    let not_x : (get_or digits 1 0 == 120) ≡ false =
      ground (arith, decimal_digits 32 value 0 0 [] 1 (λ j. omega arith)) in
    (
      rw (append-nil digits) (stou-decimal digits not_x ∙ ten),
      rw (append-nil (digits_loop 36 16 value 0 4 [])) sixteen,
    )
