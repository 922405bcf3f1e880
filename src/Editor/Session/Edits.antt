-- ===== src/Editor/Session/Edits.antt =====
-- The keys of Editor/Session.antt that change the text, against edits of a list.
use nano_s.Prelude.{
  ℕ, suc, ◌+◌, ◌-◌, ◌^◌, ◌%◌, ◌≤◌, ◌<◌, ◌≡◌, refl, ap, ap₂, ◌∙◌, List, ◌∷◌, ◌++◌, take, drop, arith,
  length, u32, sub32, ltb, if◌then◌else◌, true, ◌==◌, false, lt→ltb, ltb→lt, Bool-cases, inl, inr,
}
use nano_s.Memory.{Segment, range, lmemcpy}
use nano_s.Memory.Copy.{lmemcpy_lem}
use nano_s.Memory.Range.{range_ext, range-append, take-range, drop-range, length-range}
use nano_s.Editor.Keys
use nano_s.Editor.Session.{
  is_cursor_key, cursor_key, Screen, edit_key, Session, text, setlc, char_of, insert_char,
  delete_before, delete_at,
}

-- The cursor is in the text, which has a byte for the final 0 and less than 64 KB.
pub record IsValid (s : Session) : Type 0 where
  pub within : s.buff_cursor_offset < s.buff_size
  pub small : s.buff_size ≤ 0xFFFF
  pub fits : s.buff + 0x10000 ≤ 2 ^ 32
  pub ended : s.mem (s.buff + (s.buff_size - 1)) ≡ 0

-- A gap of a byte at `k`, which gets `c`.
range-gap :
    (mem : Segment) (a k n c : ℕ)
    → k ≤ n
    → a + n + 1 ≤ 2 ^ 32
    → range (setlc (lmemcpy (a + k + 1) (a + k) (n - k) mem).1 a k c) a (n + 1)
      ≡ take k (range mem a n) ++ ((c % 256) ∷ drop k (range mem a n))
unfolding range
range-gap mem a k n c le room =
    let moved = lmemcpy_lem (a + k + 1) (a + k) (n - k) mem (omega arith) (omega arith) in
    let new = setlc (lmemcpy (a + k + 1) (a + k) (n - k) mem).1 a k c in
    let at : u32 (a + k) ≡ a + k = omega arith in
    let parts : n + 1 ≡ k + suc (n - k) = omega arith in
    let before : range new a k ≡ range mem a k =
      range_ext new mem a a k λ i lt. ground (arith, moved (a + i), at) in
    let here : new (a + k) ≡ c % 256 = ground (arith, at) in
    let behind : range new (a + k + 1) (n - k) ≡ range mem (a + k) (n - k) =
      range_ext new mem (a + k + 1) (a + k) (n - k) λ i lt.
        let e : a + k + 1 + i - (a + k + 1) ≡ i = omega arith in
        ground (arith, moved (a + k + 1 + i), at, e) in
    rw (parts, take-range mem a k n le, drop-range mem a k n le)
      (range-append new a k (suc (n - k)) ∙ ap₂ ◌++◌ before (ap₂ ◌∷◌ here behind))

-- The byte at `k` is closed up.
range-closed :
    (mem : Segment) (a k n : ℕ)
    → k < n
    → a + n ≤ 2 ^ 32
    → range (lmemcpy (a + k) (a + k + 1) (n - k - 1) mem).1 a (n - 1)
      ≡ take k (range mem a n) ++ drop (k + 1) (range mem a n)
range-closed mem a k n lt room =
    let moved = lmemcpy_lem (a + k) (a + k + 1) (n - k - 1) mem (omega arith) (omega arith) in
    let new = (lmemcpy (a + k) (a + k + 1) (n - k - 1) mem).1 in
    let parts : n - 1 ≡ k + (n - (k + 1)) = omega arith in
    let at : a + (k + 1) ≡ a + k + 1 = omega arith in
    let before : range new a k ≡ range mem a k =
      range_ext new mem a a k λ i lt. ground (arith, moved (a + i)) in
    let behind : range new (a + k) (n - (k + 1)) ≡ range mem (a + k + 1) (n - (k + 1)) =
      range_ext new mem (a + k) (a + k + 1) (n - (k + 1)) λ i lt.
        let e : a + k + i - (a + k) ≡ i = omega arith in ground (arith, moved (a + k + i), e) in
    rw (parts, take-range mem a k n (omega arith), drop-range mem a (k + 1) n (omega arith), at)
      (range-append new a k (n - (k + 1)) ∙ ap₂ ◌++◌ before behind)

lmemcpy-eq :
    (mem : Segment) {d d' r r' n n' : ℕ}
    → d ≡ d'
    → r ≡ r'
    → n ≡ n'
    → (lmemcpy d r n mem).1 ≡ (lmemcpy d' r' n' mem).1
lmemcpy-eq mem {d} {d'} {r} {r'} {n} {n'} p q e =
    ap₂ (λ (x y : ℕ). (lmemcpy x y n mem).1) p q ∙ ap (λ (x : ℕ). (lmemcpy d' r' x mem).1) e

module _ (s : Session) (v : IsValid s) where
  abbrev at : ℕ
  at = s.buff_cursor_offset

  pub insert_mem :
      (k : ℕ)
      → (insert_char k s).mem
        ≡ setlc
            (lmemcpy (s.buff + at + 1) (s.buff + at) (s.buff_size - at) s.mem).1
            s.buff
            at
            (char_of k)
  unfolding insert_char
  insert_mem k =
      ap (λ (m : Segment). setlc m s.buff at (char_of k))
        (lmemcpy-eq s.mem (omega arith) (omega arith) (omega arith))

  pub insert_fields :
      (k : ℕ)
      → ((insert_char k s).buff_size ≡ s.buff_size + 1)
        × ((insert_char k s).buff_cursor_offset ≡ at + 1)
        × ((insert_char k s).buff ≡ s.buff)
  unfolding insert_char
  insert_fields k = (omega arith, omega arith, refl)

  -- A byte is put in front of the cursor.
  pub text-insert_char :
      (k : ℕ) → text (insert_char k s) ≡ take at (text s) ++ ((char_of k % 256) ∷ drop at (text s))
  text-insert_char k =
      let (size, _, base) = insert_fields k in
      rw (size, base, insert_mem k)
        (range-gap s.mem s.buff at s.buff_size (char_of k) (omega arith) (omega arith))

  pub before_fields :
      0 < at
      → ((delete_before s).buff_size ≡ s.buff_size - 1)
        × ((delete_before s).buff_cursor_offset ≡ at - 1)
        × ((delete_before s).buff ≡ s.buff)
        × ((delete_before s).mem
            ≡ (lmemcpy
                (s.buff + (at - 1))
                (s.buff + (at - 1) + 1)
                (s.buff_size - (at - 1) - 1)
                s.mem).1)
  unfolding delete_before
  before_fields pos =
      rw (lt→ltb 0 at pos)
        (omega arith, refl, refl, lmemcpy-eq s.mem (omega arith) (omega arith) (omega arith))

  pub at_fields :
      at < s.buff_size - 1
      → ((delete_at s).buff_size ≡ s.buff_size - 1)
        × ((delete_at s).buff_cursor_offset ≡ at)
        × ((delete_at s).buff ≡ s.buff)
        × ((delete_at s).mem
            ≡ (lmemcpy (s.buff + at) (s.buff + at + 1) (s.buff_size - at - 1) s.mem).1)
  unfolding delete_at
  at_fields lt =
      let test : ltb at (sub32 s.buff_size 1) ≡ true = ground arith in
      rw test (omega arith, refl, refl, lmemcpy-eq s.mem (omega arith) (omega arith) (omega arith))

  -- The byte before the cursor is removed.
  pub text-delete_before : text (delete_before s) ≡ take (at - 1) (text s) ++ drop at (text s)
  unfolding delete_before
  text-delete_before = elim (Bool-cases (ltb 0 at)) [
    | inr none_before ↦ start (ground arith)
    | inl some_before ↦
        let (size, _, base, moved) = before_fields (ground arith) in
        let same : at - 1 + 1 ≡ at = omega (arith, ltb→lt 0 at some_before) in
        let closed = range-closed s.mem s.buff (at - 1) s.buff_size (omega arith) (omega arith) in
        rw (size, base, moved) (rw same at closed)
  ]
    where
      start : at ≡ 0 → text (delete_before s) ≡ take (at - 1) (text s) ++ drop at (text s)
      start e = rw e refl

  -- The byte at the cursor is removed, unless it is the last one.
  pub text-delete_at : text (delete_at s) ≡ (
      if ltb (at + 1) (length (text s)) then take at (text s) ++ drop (at + 1) (text s) else text s)
  unfolding delete_at
  text-delete_at = elim (Bool-cases (ltb (at + 1) (length (text s)))) [
    | inl inside ↦
        let lt : at < s.buff_size - 1 = omega (
          arith,
          ltb→lt (at + 1) (length (text s)) inside,
          length-range s.mem s.buff s.buff_size,
        ) in
        let (size, _, base, moved) = at_fields lt in
        rw (inside, size, base, moved)
          (range-closed s.mem s.buff at s.buff_size (omega arith) (omega arith))
    | inr last ↦
        let test : ltb at (sub32 s.buff_size 1) ≡ false =
          ground (arith, length-range s.mem s.buff s.buff_size) in
        rw (last, test) refl
  ]

-- The text after a key, as an edit of a list at the cursor.
abbrev pub edited : ℕ → ℕ → List ℕ → List ℕ
edited k at t =
    if k == Keys.f1
    then t
    else if is_cursor_key k
    then t
    else if k == Keys.backspace
    then take (at - 1) t ++ drop at t
    else if k == Keys.del
    then if ltb (at + 1) (length t) then take at t ++ drop (at + 1) t else t
    else if k == Keys.esc
    then t
    else take at t ++ ((char_of k % 256) ∷ drop at t)

pub cursor_key-same :
    (screen : Screen) (k : ℕ) (s : Session)
    → let s' = cursor_key screen k s in
      (s'.mem ≡ s.mem) × (s'.buff ≡ s.buff) × (s'.buff_size ≡ s.buff_size)
unfolding cursor_key
cursor_key-same screen k s = ground arith

-- `edit_key` makes the edit `edited` of the text.
pub text-edit_key :
    (screen : Screen) (write_file : List ℕ → ℕ → ℕ) (k : ℕ) (s : Session)
    → IsValid s
    → text (edit_key screen write_file k s) ≡ edited k s.buff_cursor_offset (text s)
unfolding edit_key
text-edit_key screen write_file k s v = elim (Bool-cases (k == Keys.f1)) [
  | inl f1 ↦ rw f1 refl
  | inr not_f1 ↦ elim (Bool-cases (is_cursor_key k)) [
    | inl move ↦
        let (mem, base, size) = cursor_key-same screen k s in
        rw (not_f1, move, mem, base, size) refl
    | inr stay ↦ elim (Bool-cases (k == Keys.backspace)) [
      | inl back ↦ rw (not_f1, stay, back) (text-delete_before s v)
      | inr not_back ↦ elim (Bool-cases (k == Keys.del)) [
        | inl del ↦ rw (not_f1, stay, not_back, del) (text-delete_at s v)
        | inr not_del ↦ elim (Bool-cases (k == Keys.esc)) [
          | inl esc ↦ rw (not_f1, stay, not_back, not_del, esc) refl
          | inr char ↦ rw (not_f1, stay, not_back, not_del, char) (text-insert_char s v k)
        ]
      ]
    ]
  ]
]
