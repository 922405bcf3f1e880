-- ===== src/Fs/Paths/Names.antt =====
-- Names of entries: `string_to_name` of source/fs.c.
use nano_s.Prelude.{
  ℕ, zero, suc, ◌+◌, ◌-◌, ◌≤◌, ◌<◌, ◌≡◌, ◌≢◌, refl, ap, sym, ◌∙◌, true, false, List, [], ◌∷◌, ◌==◌,
  Bool-cases, if◌then◌else◌, arith, length, get_or, min, ℕ_discrete, inl, inr,
}
use nano_s.Strings.Compare.{c_string, c_string-zero, c_string-cons}
use nano_s.Fs.Types.{sfs_namesize}
use nano_s.Fs.Paths.{allowed, name_from, string_to_name}

abbrev clean : ℕ → ℕ
clean c = if allowed c then c else 95

clean-allowed : (c : ℕ) → allowed (clean c) ≡ true
unfolding allowed
clean-allowed c = elim (Bool-cases (allowed c)) [ inl t ↦ rw t t | inr f ↦ rw f refl ]

clean-positive : (c : ℕ) → clean c ≢ 0
clean-positive c e =
    let t = clean-allowed c in
    let z : allowed 0 ≡ false = unfold allowed in refl in
    absurd (ground (arith, t, ap allowed e, z))

name_from-zero : (i c : ℕ) (cs : List ℕ) → c ≡ 0 → name_from i (c ∷ cs) ≡ c ∷ cs
unfolding name_from
name_from-zero i c cs e = ground arith

name_from-end : (i c : ℕ) (cs : List ℕ) → c ≢ 0 → i ≡ 14 → name_from i (c ∷ cs) ≡ 0 ∷ cs
unfolding name_from
name_from-end i c cs e l = ground arith

name_from-clean :
    (i c : ℕ) (cs : List ℕ) → c ≢ 0 → i < 14 → name_from i (c ∷ cs) ≡ clean c ∷ name_from (i + 1) cs
unfolding name_from
name_from-clean i c cs e l =
    let a : (c == 0) ≡ false = ground arith in
    let b : (i == 14) ≡ false = ground arith in rw (a, b) refl

name_from-nil : (i : ℕ) → name_from i [] ≡ []
unfolding name_from
name_from-nil i = refl

clean-twice : (c : ℕ) → clean (clean c) ≡ clean c
clean-twice c = rw (clean-allowed c) refl

name_from-twice : (i : ℕ) (str : List ℕ) → i ≤ 14 → name_from i (name_from i str) ≡ name_from i str
name_from-twice i [] h = ap (name_from i) (name_from-nil i)
name_from-twice i (c ∷ cs) h = elim (ℕ_discrete c 0) [
  | yes z ↦ ap (name_from i) (name_from-zero i c cs z)
  | no nz ↦ elim (ℕ_discrete i 14) [
    | yes full ↦ rw (name_from-end i c cs nz full) (name_from-zero i 0 cs refl)
    | no room ↦
        rw
          (
            name_from-clean i c cs nz (omega arith),
            name_from-clean i (clean c) (name_from (i + 1) cs) (clean-positive c) (omega arith),
            clean-twice c,
            name_from-twice (i + 1) cs (omega arith),
          )
          refl
  ]
]

-- The string that a name from index `i` on holds.
record Named (i : ℕ) (str name : List ℕ) : Type 0 where
  cut : length (c_string name) ≡ min (length (c_string str)) (14 - i)
  only_allowed : (j : ℕ) → j < length (c_string name) → allowed (get_or (c_string name) j 0) ≡ true

empty-Named :
    (i : ℕ) (str name : List ℕ)
    → c_string name ≡ []
    → min (length (c_string str)) (14 - i) ≡ 0
    → Named i str name
empty-Named i str name e z = record {
  cut = ap length e ∙ sym z;
  only_allowed = λ j p. absurd (omega (arith, ap length e));
}

clean-Named :
    (i c : ℕ) (cs name : List ℕ)
    → c ≢ 0
    → i < 14
    → Named (i + 1) cs name
    → Named i (c ∷ cs) (clean c ∷ name)
clean-Named i c cs name nz lt rest =
    let e = c_string-cons (clean c) name (clean-positive c) in
    record {
      cut = omega (arith, rest.cut, ap length e, ap length (c_string-cons c cs nz));
      only_allowed = λ j p. rw e (at_index j (omega (arith, ap length e)));
    }
  where
    at_index :
        (j : ℕ)
        → j < suc (length (c_string name))
        → allowed (get_or (clean c ∷ c_string name) j 0) ≡ true
    at_index zero p = clean-allowed c
    at_index (suc j) p = rest.only_allowed j (omega arith)

c_string-nil : c_string [] ≡ []
unfolding c_string
c_string-nil = refl

name_from-Named : (i : ℕ) (str : List ℕ) → i ≤ 14 → Named i str (name_from i str)
name_from-Named i [] h =
    rw (name_from-nil i) (empty-Named i [] [] c_string-nil (omega (arith, ap length c_string-nil)))
name_from-Named i (c ∷ cs) h = elim (ℕ_discrete c 0) [
  | yes z ↦
      let e = c_string-zero c cs z in
      rw (name_from-zero i c cs z) (empty-Named i (c ∷ cs) (c ∷ cs) e (omega (arith, ap length e)))
  | no nz ↦ elim (ℕ_discrete i 14) [
    | yes full ↦
        rw (name_from-end i c cs nz full)
          (empty-Named i (c ∷ cs) (0 ∷ cs) (c_string-zero 0 cs refl) (omega arith))
    | no room ↦ rw (name_from-clean i c cs nz (omega arith)) (
        clean-Named i c cs (name_from (i + 1) cs) nz (omega arith)
          (name_from-Named (i + 1) cs (omega arith)))
  ]
]

-- `string_to_name` leaves a name of the length of the string but at most 14, so that it fits an
-- entry with its final 0; every character of it is a digit, a letter or one of . - _ ( ) [ ]; and a
-- second call changes nothing.
pub string_to_name_lem :
    (str : List ℕ)
    → let name = string_to_name str in
      (length (c_string name) ≡ min (length (c_string str)) (sfs_namesize - 1))
      × ((j : ℕ) → j < length (c_string name) → allowed (get_or (c_string name) j 0) ≡ true)
      × (string_to_name name ≡ name)
unfolding string_to_name
string_to_name_lem str =
    let n = name_from-Named 0 str (omega arith) in
    (n.cut, n.only_allowed, name_from-twice 0 str (omega arith))
