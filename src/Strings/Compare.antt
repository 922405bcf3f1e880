-- ===== src/Strings/Compare.antt =====
-- The string that a buffer holds, and the comparison of source/ulib/ulib.c.
use nano_s.Prelude.{
  ℕ, ◌<◌, ◌≡◌, ◌≢◌, ◌↔◌, refl, ap, ap₂, ◌∙◌, sym, true, false, List, [], ◌∷◌, ◌==◌, arith, length,
  get_or, ℕ_discrete, if-both, ◌&&◌, drop, ◌^◌, ◌+◌, ◌*◌, u16,
}
use nano_s.Strings.{strlen, strcmp, digits_from, digit_of, stou}

-- The bytes up to the first 0.
unfoldable pub c_string : List ℕ → List ℕ
c_string [] = []
c_string (c ∷ cs) = elim (c == 0) [ true ↦ [] | false ↦ c ∷ c_string cs ]

-- Bytes, as a list that ends or goes on.
pub data IsBytes : List ℕ → Type 0 where
  nil : IsBytes []
  cons : {c : ℕ} {cs : List ℕ} → c < 256 → IsBytes cs → IsBytes (c ∷ cs)

-- `strlen` counts the bytes of the string.
pub strlen_lem : (str : List ℕ) → strlen str ≡ length (c_string str)
unfolding strlen c_string
strlen_lem [] = refl
strlen_lem (c ∷ cs) = ground (arith, strlen_lem cs)

pub c_string-zero : (c : ℕ) (cs : List ℕ) → c ≡ 0 → c_string (c ∷ cs) ≡ []
unfolding c_string
c_string-zero c cs e = ground arith

pub c_string-cons : (c : ℕ) (cs : List ℕ) → c ≢ 0 → c_string (c ∷ cs) ≡ c ∷ c_string cs
unfolding c_string
c_string-cons c cs e = ground arith

abbrev head_of : List ℕ → ℕ
head_of xs = get_or xs 0 0

abbrev tail_of : List ℕ → List ℕ
tail_of [] = []
tail_of (x ∷ xs) = xs

head-c_string : (cs : List ℕ) → head_of (c_string cs) ≡ head_of cs
unfolding c_string
head-c_string [] = refl
head-c_string (c ∷ cs) = ground arith

same_head : (a b : List ℕ) → c_string a ≡ c_string b → head_of a ≡ head_of b
same_head a b e = sym (head-c_string a) ∙ (ap head_of e ∙ head-c_string b)

step_equal : (c d : ℕ) (cs ds : List ℕ) → c ≡ d → c ≢ 0 → strcmp (c ∷ cs) (d ∷ ds) ≡ strcmp cs ds
unfolding strcmp
step_equal c d cs ds e nz = ground arith

step_other : (c d : ℕ) (cs ds : List ℕ) → c < 256 → d < 256 → c ≢ d → strcmp (c ∷ cs) (d ∷ ds) ≢ 0
unfolding strcmp
step_other c d cs ds p q e h = absurd (ground arith)

step_end : (c d : ℕ) (cs ds : List ℕ) → c ≡ 0 → d ≡ 0 → strcmp (c ∷ cs) (d ∷ ds) ≡ 0
unfolding strcmp
step_end c d cs ds z z' = ground arith

-- `strcmp` gives 0 exactly for buffers that hold the same string.
pub strcmp_lem :
    (a b : List ℕ) → IsBytes a → IsBytes b → (strcmp a b ≡ 0) ↔ (c_string a ≡ c_string b)
unfolding strcmp c_string
strcmp_lem [] [] u v = (λ e. refl, λ e. refl)
strcmp_lem [] (d ∷ ds) u (cons p v) = (
  λ e. sym (c_string-zero d ds (omega arith)),
  λ e. let z = same_head [] (d ∷ ds) e in omega arith,
)
strcmp_lem (c ∷ cs) [] (cons p u) v = (λ e. c_string-zero c cs e, λ e. same_head (c ∷ cs) [] e)
strcmp_lem (c ∷ cs) (d ∷ ds) (cons p u) (cons q v) = elim (ℕ_discrete c d) [
  | no apart ↦ (
    λ e. absurd (step_other c d cs ds p q apart e),
    λ e. absurd (apart (same_head (c ∷ cs) (d ∷ ds) e)),
  )
  | yes same ↦ elim (ℕ_discrete c 0) [
    | yes z ↦ (
      λ e. c_string-zero c cs z ∙ sym (c_string-zero d ds (omega arith)),
      λ e. step_end c d cs ds z (omega arith),
    )
    | no nz ↦
        let here = c_string-cons c cs nz in
        let there = c_string-cons d ds (λ z. nz (omega arith)) in
        let rest = strcmp_lem cs ds u v in
        (
          λ e.
              here
              ∙ (ap₂ (λ (x : ℕ) (xs : List ℕ). x ∷ xs) same
                    (rest.0 (sym (step_equal c d cs ds same nz) ∙ e))
                  ∙ sym there),
          λ e. step_equal c d cs ds same nz ∙ rest.1 (ap tail_of (sym here ∙ (e ∙ there))),
        )
  ]
]

digits_from_lt :
    (base value : ℕ) (src : List ℕ) → value < 2 ^ 16 → digits_from base value src < 2 ^ 16
unfolding digits_from
digits_from_lt base value [] h = h
digits_from_lt base value (c ∷ cs) h =
    ground (arith, digits_from_lt base (u16 (value * base + digit_of c)) cs)

-- `stou` gives a `uint`.
pub stou_lt : (src : List ℕ) → stou src < 2 ^ 16
unfolding stou
stou_lt src =
    if-both (λ n. n < 2 ^ 16) (get_or src 0 0 == 48 && get_or src 1 0 == 120) _ _
      (digits_from_lt 16 0 (drop 2 src) (omega arith)) (digits_from_lt 10 0 src (omega arith))

pub c_string-ended : (t : List ℕ) → get_or t 0 0 ≡ 0 → c_string t ≡ []
unfolding c_string
c_string-ended [] e = refl
c_string-ended (c ∷ cs) e = c_string-zero c cs e
