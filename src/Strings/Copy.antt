-- ===== src/Strings/Copy.antt =====
-- What `strcpy_s` of source/ulib/ulib.c stores.
use nano_s.Prelude.{
  ℕ, suc, ◌+◌, ◌-◌, ◌≤◌, ◌<◌, ◌≡◌, ◌≢◌, refl, ap, ◌∙◌, sym, true, false, not, ◌&&◌, List, [], ◌∷◌,
  ◌==◌, ltb, arith, length, get_or, set, min, length-set, get_or-set, dec_lt, ℕ_discrete,
}
use nano_s.Strings.{copy_from_s, strcpy_s, strcat_s}
use nano_s.Strings.Compare.{strlen_lem, c_string, c_string-zero, c_string-cons}

-- A copy of `src` into `dst` from index `i` on: the bytes of the string that fit, a 0 after them,
-- and nothing else has changed. `last` is the index of the 0.
pub record Copied (dst_size i : ℕ) (src dst : List ℕ) (r : ℕ × List ℕ) : Type 0 where
  pub last : r.0 ≡ i + min (length (c_string src)) (dst_size - 1 - i)
  pub same_length : length r.1 ≡ length dst
  pub copied : (j : ℕ) → i ≤ j → j < r.0 → get_or r.1 j 0 ≡ get_or (c_string src) (j - i) 0
  pub ended : get_or r.1 r.0 0 ≡ 0
  pub below : (j : ℕ) → j < i → get_or r.1 j 0 ≡ get_or dst j 0
  pub beyond : (j : ℕ) → r.0 < j → get_or r.1 j 0 ≡ get_or dst j 0

-- The loop stops at `i`.
Copied-stop :
    (dst_size i : ℕ) (src dst : List ℕ)
    → i < length dst
    → min (length (c_string src)) (dst_size - 1 - i) ≡ 0
    → Copied dst_size i src dst (i, set dst i 0)
Copied-stop dst_size i src dst fits none = record {
  last = omega arith;
  same_length = length-set dst i 0;
  copied = λ j p q. absurd (omega arith);
  ended = get_or-set dst i i 0 0 ∙ ground arith;
  below = λ j p. get_or-set dst i j 0 0 ∙ ground arith;
  beyond = λ j p. get_or-set dst i j 0 0 ∙ ground arith;
}

Copied-more :
    (dst_size i c : ℕ) (cs dst : List ℕ) {r : ℕ × List ℕ}
    → i < length dst
    → i + 1 < dst_size
    → c ≢ 0
    → Copied dst_size (i + 1) cs (set dst i c) r
    → Copied dst_size i (c ∷ cs) dst r
Copied-more dst_size i c cs dst {r} fits room nz rest = record {
  last = omega (arith, rest.last, ap length (c_string-cons c cs nz));
  same_length = rest.same_length ∙ length-set dst i c;
  copied = λ j p q. elim (ℕ_discrete i j) [
    | yes e ↦ at_index j e
    | no ne ↦
        rest.copied j (omega arith) q
        ∙ (ap (λ (k : ℕ). get_or (c ∷ c_string cs) k 0) (index j (omega arith))
            ∙ ap (λ s. get_or s (j - i) 0) (sym (c_string-cons c cs nz)))
  ];
  ended = rest.ended;
  below = λ j p. rest.below j (omega arith) ∙ (get_or-set dst i j c 0 ∙ ground arith);
  beyond = λ j p. rest.beyond j p ∙ (get_or-set dst i j c 0 ∙ ground (arith, rest.last));
}
  where
    index : (j : ℕ) → i < j → suc (j - (i + 1)) ≡ j - i
    index j h = omega arith

    at_index : (j : ℕ) → i ≡ j → get_or r.1 j 0 ≡ get_or (c_string (c ∷ cs)) (j - i) 0
    at_index j e =
        let z : j - i ≡ 0 = omega arith in
        rest.below j (omega arith)
        ∙ (get_or-set dst i j c 0 ∙ rw (z, c_string-cons c cs nz) (ground arith))

step-stop :
    (dst_size i c : ℕ) (cs dst : List ℕ)
    → (not (c == 0) && ltb (i + 1) dst_size) ≡ false
    → copy_from_s dst_size i (c ∷ cs) dst ≡ (i, set dst i 0)
unfolding copy_from_s
step-stop dst_size i c cs dst e = ground arith

step-more :
    (dst_size i c : ℕ) (cs dst : List ℕ)
    → (not (c == 0) && ltb (i + 1) dst_size) ≡ true
    → copy_from_s dst_size i (c ∷ cs) dst ≡ copy_from_s dst_size (i + 1) cs (set dst i c)
unfolding copy_from_s
step-more dst_size i c cs dst e = ground arith

empty-string : (dst_size i : ℕ) → min (length (c_string [])) (dst_size - 1 - i) ≡ 0
unfolding c_string
empty-string dst_size i = omega arith

step-nil : (dst_size i : ℕ) (dst : List ℕ) → copy_from_s dst_size i [] dst ≡ (i, set dst i 0)
unfolding copy_from_s
step-nil dst_size i dst = refl

copy_from_s_lem :
    (dst_size i : ℕ) (src dst : List ℕ)
    → i < dst_size
    → dst_size ≤ length dst
    → Copied dst_size i src dst (copy_from_s dst_size i src dst)
copy_from_s_lem dst_size i [] dst lt fits =
    rw (step-nil dst_size i dst)
      (Copied-stop dst_size i [] dst (omega arith) (empty-string dst_size i))
copy_from_s_lem dst_size i (c ∷ cs) dst lt fits = elim (ℕ_discrete c 0) [
  | yes z ↦
      rw (step-stop dst_size i c cs dst (ground arith)) (
        Copied-stop dst_size i (c ∷ cs) dst (omega arith) (rw (c_string-zero c cs z) (omega arith)))
  | no nz ↦ elim (dec_lt (i + 1) dst_size) [
    | no full ↦
        rw (step-stop dst_size i c cs dst (ground arith))
          (Copied-stop dst_size i (c ∷ cs) dst (omega arith) (omega arith))
    | yes room ↦ rw (step-more dst_size i c cs dst (ground arith)) (
        Copied-more dst_size i c cs dst (omega arith) room nz (
          copy_from_s_lem dst_size (i + 1) cs (set dst i c) room
            (omega (arith, length-set dst i c))))
  ]
]

-- `strcpy_s` into a buffer that has the size it is told stores the string of `src`, cut to one byte
-- less than that size, and a 0 after it. It returns the length of what it stored, and every other
-- byte of the buffer is as before.
pub strcpy_s_lem :
    (dst src : List ℕ) (dst_size : ℕ)
    → 0 < dst_size
    → dst_size ≤ length dst
    → Copied dst_size 0 src dst (strcpy_s dst src dst_size)
unfolding strcpy_s
strcpy_s_lem dst src dst_size pos fits = copy_from_s_lem dst_size 0 src dst pos fits

-- `strcat_s` stores the string of `src` behind the one in the buffer in the same way.
pub strcat_s_lem :
    (dst src : List ℕ) (dst_size : ℕ)
    → length (c_string dst) < dst_size
    → dst_size ≤ length dst
    → Copied dst_size (length (c_string dst)) src dst (strcat_s dst src dst_size)
unfolding strcat_s
strcat_s_lem dst src dst_size lt fits =
    rw (strlen_lem dst) (copy_from_s_lem dst_size (length (c_string dst)) src dst lt fits)
