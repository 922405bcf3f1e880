-- ===== src/LineInput/Edits.antt =====
-- The keys of LineInput.antt as edits of a string at the cursor, inside the buffer.
use nano_s.Prelude.{
  ℕ, zero, suc, ◌+◌, ◌-◌, ◌^◌, ◌≤◌, ◌<◌, ◌≡◌, ◌≢◌, ◌⊎◌, refl, ap, List, [], ◌∷◌, ◌++◌, take, drop,
  drop-nil, get_or, length, arith, ◌==◌, ltb, if◌then◌else◌, Bool-cases, inl, inr,
}
use nano_s.Memory.{Segment, range, store_byte, memcpy}
use nano_s.Memory.Copy.{memcpy_lem}
use nano_s.Strings.{strlen}
use nano_s.LineInput.{Line, line_length}

-- The string and the cursor after a key.
abbrev pub inserted : ℕ → ℕ → List ℕ → List ℕ
inserted i c s = take i s ++ (c ∷ drop i s)

abbrev pub removed : ℕ → List ℕ → List ℕ
removed i s = take i s ++ drop (i + 1) s

get_or-cons : (x : ℕ) (s : List ℕ) (j : ℕ) → 0 < j → get_or (x ∷ s) j 0 ≡ get_or s (j - 1) 0
get_or-cons x s zero h = absurd (omega arith)
get_or-cons x s (suc j) h = let e : suc j - 1 ≡ j = omega arith in rw e refl

get_or-inserted :
    (i c : ℕ) (s : List ℕ) (j : ℕ)
    → i ≤ length s
    → get_or (inserted i c s) j 0
      ≡ (if ltb j i then get_or s j 0 else if j == i then c else get_or s (j - 1) 0)
get_or-inserted zero c s zero h = refl
get_or-inserted zero c s (suc j) h = ground arith
get_or-inserted (suc i) c [] j h = absurd (omega arith)
get_or-inserted (suc i) c (x ∷ s) zero h = ground arith
get_or-inserted (suc i) c (x ∷ s) (suc j) h =
    let same : suc j - 1 ≡ j = omega arith in
    rw same (ground (arith, get_or-inserted i c s j (omega arith), get_or-cons x s j))

get_or-removed :
    (i : ℕ) (s : List ℕ) (j : ℕ)
    → get_or (removed i s) j 0 ≡ (if ltb j i then get_or s j 0 else get_or s (j + 1) 0)
get_or-removed zero [] j = ground arith
get_or-removed zero (x ∷ s) j = ground arith
get_or-removed (suc i) [] j = ground arith
get_or-removed (suc i) (x ∷ s) zero = ground arith
get_or-removed (suc i) (x ∷ s) (suc j) = ground (arith, get_or-removed i s j)

length-inserted : (i c : ℕ) (s : List ℕ) → length (inserted i c s) ≡ length s + 1
length-inserted zero c s = omega arith
length-inserted (suc i) c [] = refl
length-inserted (suc i) c (x ∷ s) = omega (arith, length-inserted i c s)

pub length-removed :
    (i : ℕ) (s : List ℕ)
    → length (removed i s) ≡ (if ltb i (length s) then length s - 1 else length s)
length-removed zero [] = ground arith
length-removed zero (x ∷ s) = ground arith
length-removed (suc i) [] = ground arith
length-removed (suc i) (x ∷ s) = ground (arith, length-removed i s)

pub removed-beyond : (i : ℕ) (s : List ℕ) → length s ≤ i → removed i s ≡ s
removed-beyond zero [] h = refl
removed-beyond zero (x ∷ s) h = absurd (omega arith)
removed-beyond (suc i) [] h = drop-nil (suc i + 1)
removed-beyond (suc i) (x ∷ s) h =
    let e : suc i + 1 ≡ suc (i + 1) = omega arith in
    rw e (ap (◌∷◌ x) (removed-beyond i s (omega arith)))

-- The buffer holds `s`, with zeros behind it, and the memory around it is as in `old`.
pub record Holds (str max_count : ℕ) (old : Segment) (s : List ℕ) (l : Line) : Type 0 where
  pub bytes : (j : ℕ) → j < max_count → l.mem (str + j) ≡ get_or s j 0
  pub around : (a : ℕ) → (a < str) ⊎ (str + max_count ≤ a) → l.mem a ≡ old a
  pub no_zeros : (j : ℕ) → j < length s → get_or s j 0 ≢ 0
  pub short : length s < max_count
  pub cursor : l.i ≤ length s

pub strlen-range :
    (mem : Segment) (a n : ℕ) (s : List ℕ)
    → ((j : ℕ) → j < n → mem (a + j) ≡ get_or s j 0)
    → ((j : ℕ) → j < length s → get_or s j 0 ≢ 0)
    → length s < n
    → strlen (range mem a n) ≡ length s
unfolding strlen range
strlen-range mem a zero s b z lt = absurd (omega arith)
strlen-range mem a (suc n) [] b z lt =
    let here : a + 0 ≡ a = omega arith in
    let first : mem a ≡ 0 = rw here at (b 0 (omega arith)) in ground arith
strlen-range mem a (suc n) (x ∷ s) b z lt =
    let here : a + 0 ≡ a = omega arith in
    let first : mem a ≡ x = rw here at (b 0 (omega arith)) in
    let rest =
      strlen-range mem (a + 1) n s
        (λ j h. let e : a + 1 + j ≡ a + suc j = omega arith in rw e (b (suc j) (omega arith)))
        (λ j h. z (suc j) (omega arith)) (omega arith) in
    ground (arith, z 0 (omega arith), rest)

pub get_or-beyond : (s : List ℕ) (j : ℕ) → length s ≤ j → get_or s j 0 ≡ 0
get_or-beyond [] j h = refl
get_or-beyond (x ∷ s) zero h = absurd (omega arith)
get_or-beyond (x ∷ s) (suc j) h = get_or-beyond s j (omega arith)

module _ (str max_count : ℕ) (old : Segment) (s : List ℕ) (l : Line)
    (room : str + max_count ≤ 2 ^ 16) (h : Holds str max_count old s l) where
  -- The byte at `k` is closed up.
  pub removed-Holds :
      (k i : ℕ)
      → k < max_count
      → i ≤ length (removed k s)
      → Holds str max_count old
          (removed k s)
          (record { mem = (memcpy (str + k) (str + k + 1) (max_count - k - 1) l.mem).1; i = i })
  removed-Holds k i lt le =
      let moved =
        (memcpy_lem (str + k) (str + k + 1) (max_count - k - 1) l.mem (omega arith)
          (omega arith)).1 in
      record {
        bytes = λ j below. elim (Bool-cases (ltb j k)) [
          | inl before ↦ ground (arith, moved (str + j), h.bytes j below, get_or-removed k s j)
          | inr behind ↦
              let from : str + k + 1 + (str + j - (str + k)) ≡ str + (j + 1) = ground arith in
              ground (
                arith,
                moved (str + j),
                from,
                h.bytes j below,
                h.bytes (j + 1),
                h.short,
                get_or-removed k s j,
                get_or-beyond s j,
                get_or-beyond s (j + 1),
              )
        ];
        around = λ a out. ground (arith, moved a, h.around a out);
        no_zeros = λ j below.
            ground
              (arith, get_or-removed k s j, length-removed k s, h.no_zeros j, h.no_zeros (j + 1));
        short = ground (arith, length-removed k s, h.short);
        cursor = le;
      }

  -- A byte other than 0 is put in at `k`, if there is room for it.
  pub inserted-Holds :
      (k c : ℕ)
      → k ≤ length s
      → length s + 1 < max_count
      → c ≢ 0
      → let moved = (memcpy (str + k + 1) (str + k) (max_count - k - 2) l.mem).1 in
        Holds str max_count old
          (inserted k c s)
          (record { mem = store_byte moved (str + k) c; i = k + 1 })
  inserted-Holds k c le space some_char =
      let moved =
        (memcpy_lem (str + k + 1) (str + k) (max_count - k - 2) l.mem (omega arith)
          (omega arith)).1 in
      record {
        bytes = λ j below. elim (Bool-cases (ltb k j)) [
          | inr before ↦ ground (arith, moved (str + j), h.bytes j below, get_or-inserted k c s j)
          | inl behind ↦
              let from : str + k + (str + j - (str + k + 1)) ≡ str + (j - 1) = ground arith in
              ground (
                arith,
                moved (str + j),
                from,
                h.bytes j below,
                h.bytes (j - 1),
                get_or-inserted k c s j,
                get_or-beyond s j,
                get_or-beyond s (j - 1),
              )
        ];
        around = λ a out. ground (arith, moved a, h.around a out);
        no_zeros = λ j below. ground (
          arith,
          get_or-inserted k c s j,
          length-inserted k c s,
          h.no_zeros j,
          h.no_zeros (j - 1),
        );
        short = omega (arith, length-inserted k c s);
        cursor = omega (arith, length-inserted k c s);
      }

  pub line_length-Holds : line_length str max_count l ≡ length s
  line_length-Holds = strlen-range l.mem str max_count s h.bytes h.no_zeros h.short

  -- The cursor alone.
  pub cursor-Holds : (i : ℕ) → i ≤ length s → Holds str max_count old s (record l { i = i })
  cursor-Holds i le = record {
    bytes = h.bytes;
    around = h.around;
    no_zeros = h.no_zeros;
    short = h.short;
    cursor = le;
  }
