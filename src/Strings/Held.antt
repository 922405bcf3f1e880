-- ===== src/Strings/Held.antt =====
-- The string that a buffer holds after `strcpy_s` of source/ulib/ulib.c.
use nano_s.Prelude.{
  ℕ, zero, suc, ◌+◌, ◌-◌, ◌≤◌, ◌<◌, ◌≡◌, ◌≢◌, refl, ap₂, ◌∙◌, sym, List, [], ◌∷◌, arith, length,
  get_or, set, ℕ_discrete,
}
use nano_s.Strings.{copy_from_s, strcpy_s}
use nano_s.Strings.Compare.{c_string, c_string-zero, c_string-cons, IsBytes, nil, cons}
use nano_s.Strings.Copy.{strcpy_s_lem}

abbrev NonZero : List ℕ → Type 0
NonZero s = (j : ℕ) → j < length s → get_or s j 0 ≢ 0

cons-NonZero : (c : ℕ) (s : List ℕ) → c ≢ 0 → NonZero s → NonZero (c ∷ s)
cons-NonZero c s nz h zero lt = nz
cons-NonZero c s nz h (suc j) lt = h j (omega arith)

c_string-NonZero : (src : List ℕ) → NonZero (c_string src)
unfolding c_string
c_string-NonZero [] = λ j lt. absurd (omega arith)
c_string-NonZero (c ∷ cs) = elim (ℕ_discrete c 0) [
  | yes z ↦ rw (c_string-zero c cs z) λ j lt. absurd (omega arith)
  | no nz ↦ rw (c_string-cons c cs nz) (cons-NonZero c (c_string cs) nz (c_string-NonZero cs))
]

-- A buffer holds a string of bytes other than 0 when it has the bytes and then a 0.
string_at :
    (s r : List ℕ)
    → NonZero s
    → ((j : ℕ) → j < length s → get_or r j 0 ≡ get_or s j 0)
    → get_or r (length s) 0 ≡ 0
    → c_string r ≡ s
unfolding c_string
string_at [] [] nz same end = refl
string_at [] (x ∷ r) nz same end = c_string-zero x r end
string_at (c ∷ s) [] nz same end = absurd (nz 0 (omega arith) (sym (same 0 (omega arith))))
string_at (c ∷ s) (x ∷ r) nz same end =
    let e : x ≡ c = same 0 (omega arith) in
    let n : x ≢ 0 = λ z. nz 0 (omega arith) (omega (arith, e, z)) in
    c_string-cons x r n
    ∙ ap₂ ◌∷◌ e
        (string_at s r (λ j lt. nz (suc j) (omega arith)) (λ j lt. same (suc j) (omega arith)) end)

IsBytes-set : (dst : List ℕ) (i c : ℕ) → IsBytes dst → c < 256 → IsBytes (set dst i c)
IsBytes-set [] i c nil lt = nil
IsBytes-set (d ∷ ds) zero c (cons p h) lt = cons lt h
IsBytes-set (d ∷ ds) (suc i) c (cons p h) lt = cons p (IsBytes-set ds i c h lt)

IsBytes-copy_from_s :
    (dst_size i : ℕ) (src dst : List ℕ)
    → IsBytes src
    → IsBytes dst
    → IsBytes (copy_from_s dst_size i src dst).1
unfolding copy_from_s
IsBytes-copy_from_s dst_size i [] dst nil h = IsBytes-set dst i 0 h (omega arith)
IsBytes-copy_from_s dst_size i (c ∷ cs) dst (cons p t) h =
    let stop = IsBytes-set dst i 0 h (omega arith) in
    let more = IsBytes-copy_from_s dst_size (i + 1) cs (set dst i c) t (IsBytes-set dst i c h p) in
    ground arith

-- `strcpy_s` of a string that fits in a buffer of the size that it is told: the buffer holds the
-- string.
pub c_string-strcpy_s :
    (dst src : List ℕ) (dst_size : ℕ)
    → length (c_string src) < dst_size
    → dst_size ≤ length dst
    → c_string (strcpy_s dst src dst_size).1 ≡ c_string src
c_string-strcpy_s dst src dst_size lt fits =
    let h = strcpy_s_lem dst src dst_size (omega arith) fits in
    let last : (strcpy_s dst src dst_size).0 ≡ length (c_string src) = omega (arith, h.last) in
    string_at (c_string src) (strcpy_s dst src dst_size).1 (c_string-NonZero src)
      (λ j p.
        let z : j - 0 ≡ j = omega arith in rw z at (h.copied j (omega arith) (omega (arith, last))))
      (rw last at h.ended)

pub IsBytes-strcpy_s :
    (dst src : List ℕ) (dst_size : ℕ)
    → IsBytes src
    → IsBytes dst
    → IsBytes (strcpy_s dst src dst_size).1
unfolding strcpy_s
IsBytes-strcpy_s dst src dst_size s d = IsBytes-copy_from_s dst_size 0 src dst s d
