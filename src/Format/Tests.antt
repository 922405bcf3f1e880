-- ===== src/Format/Tests.antt =====
-- Runs of Format.antt, and its theorem at a number.
use nano_s.Prelude.{ℕ, ◌≡◌, refl, List, [], ◌∷◌, arith}
use nano_s.Strings.{stou, strlen}
use nano_s.Format.{format_str_outchar, conversion, digits_loop, ip_to_str}
use nano_s.Format.Numbers.{stou-format_str_outchar}

abbrev no_strings : ℕ → List ℕ
no_strings a = []

stou-format_str_outchar_example :
    (stou (format_str_outchar no_strings (37 ∷ 117 ∷ []) (65535 ∷ [])) ≡ 65535)
    × (stou (format_str_outchar no_strings (37 ∷ 120 ∷ []) (65535 ∷ [])) ≡ 65535)
stou-format_str_outchar_example = stou-format_str_outchar no_strings 65535 (omega arith)

-- "a%d" of -7, and "%3x" of 10.
signed : format_str_outchar no_strings (97 ∷ 37 ∷ 100 ∷ []) (0xFFF9 ∷ []) ≡ 97 ∷ 45 ∷ 55 ∷ []
unfolding format_str_outchar conversion digits_loop
signed = refl

padded : format_str_outchar no_strings (37 ∷ 51 ∷ 120 ∷ []) (10 ∷ []) ≡ 48 ∷ 120 ∷ 48 ∷ 48 ∷ 65 ∷ []
unfolding format_str_outchar conversion digits_loop
padded = refl

-- `%d` of -32768 is -4294934528.
lowest :
    format_str_outchar no_strings (37 ∷ 100 ∷ []) (0x8000 ∷ [])
    ≡ 45 ∷ 52 ∷ 50 ∷ 57 ∷ 52 ∷ 57 ∷ 51 ∷ 52 ∷ 53 ∷ 50 ∷ 56 ∷ []
unfolding format_str_outchar conversion digits_loop
lowest = refl

-- 10.0.0.255
address :
    ip_to_str no_strings (10 ∷ 0 ∷ 0 ∷ 255 ∷ [])
    ≡ 49 ∷ 48 ∷ 46 ∷ 48 ∷ 46 ∷ 48 ∷ 46 ∷ 50 ∷ 53 ∷ 53 ∷ 0 ∷ 0 ∷ 0 ∷ 0 ∷ 0 ∷ 0 ∷ []
unfolding ip_to_str strlen nano_s.Format.formatstr format_str_outchar conversion digits_loop
address = refl
