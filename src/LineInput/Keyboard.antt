-- ===== src/LineInput/Keyboard.antt =====
-- `getstr` of LineInput.antt against a line editor on lists.
use nano_s.Prelude.{
  ℕ, ◌+◌, ◌-◌, ◌%◌, ◌^◌, ◌≤◌, ◌<◌, ◌≡◌, ◌≢◌, ◌⊎◌, refl, List, [], ◌∷◌, get_or, length, arith, ◌&&◌,
  ◌||◌, not, ◌==◌, ltb, if◌then◌else◌, Bool-cases, subst, inl, inr, Bool, true, false, sub16, u16,
}
use nano_s.Memory.{Segment, store_byte, memset}
use nano_s.Memory.Copy.{memset_lem}
use nano_s.Editor.Keys
use nano_s.LineInput.{Line, key_backspace, key_del, key_char, key_press, key_loop, getstr}
use nano_s.LineInput.Edits.{
  inserted, removed, Holds, removed-Holds, inserted-Holds, line_length-Holds, cursor-Holds,
  length-removed, removed-beyond, get_or-beyond, strlen-range,
}

-- The string and the cursor after a key other than Return, in a line of at most `max_count - 1` bytes.
abbrev pub typed : ℕ → ℕ → List ℕ → ℕ → List ℕ × ℕ
typed max_count k s i =
    if k == Keys.backspace
    then if ltb 0 i then (removed (i - 1) s, i - 1) else (s, i)
    else if k == Keys.del
    then (removed i s, i)
    else if k == Keys.left && ltb 0 i
    then (s, i - 1)
    else if k == Keys.right && ltb i (length s)
    then (s, i + 1)
    else if k == Keys.home
    then (s, 0)
    else if k == Keys.end
    then (s, length s)
    else if not (k == Keys.tab) && (ltb k 0x20 || ltb 0x7E k)
    then (s, i)
    else if ltb (length s) (max_count - 1)
    then (inserted i k s, i + 1)
    else (s, i)

-- The string after keys, up to Return.
abbrev pub typed_line : ℕ → List ℕ → List ℕ → ℕ → List ℕ
typed_line max_count [] s i = s
typed_line max_count (k ∷ keys) s i =
    if k == Keys.enter
    then s
    else let (s', i') = typed max_count k s i in typed_line max_count keys s' i'

if-related {ℓ κ μ} :
    {A : Type ℓ} {B : Type κ} (R : A → B → Type μ) (b : Bool) (x y : A) (u v : B)
    → (b ≡ true → R x u)
    → (b ≡ false → R y v)
    → R (if b then x else y) (if b then u else v)
if-related R true x y u v p q = p refl
if-related R false x y u v p q = q refl

module _ (str max_count : ℕ) (old : Segment) (room : str + max_count ≤ 2 ^ 16) (pos : 0 < max_count)
    (word : max_count < 2 ^ 16) where
  abbrev Related : List ℕ × ℕ → Line → Type 0
  Related p l = Holds str max_count old p.0 l × (l.i ≡ p.1)

  backspace-Related :
      (s : List ℕ) (l : Line)
      → Holds str max_count old s l
      → Related
          (if ltb 0 l.i then (removed (l.i - 1) s, l.i - 1) else (s, l.i))
          (key_backspace str max_count l)
  unfolding key_backspace
  backspace-Related s l h =
      if-related Related (ltb 0 l.i) _ _ _ _
        (λ t.
          let later : 0 < l.i = ground arith in
          let to : u16 (str + l.i - 1) ≡ str + (l.i - 1) = omega (arith, h.cursor, h.short) in
          let from : u16 (str + l.i) ≡ str + (l.i - 1) + 1 = omega (arith, h.cursor, h.short) in
          let size : sub16 max_count l.i ≡ max_count - (l.i - 1) - 1 =
            omega (arith, h.cursor, h.short) in
          (
            rw (to, from, size)
                (removed-Holds str max_count old s l room h (l.i - 1) (l.i - 1)
                  (omega (arith, h.cursor, h.short))
                  (ground (arith, length-removed (l.i - 1) s, h.cursor))),
            refl,
          ))
        (λ t. (h, refl))

  del-Related :
      (s : List ℕ) (l : Line)
      → Holds str max_count old s l
      → Related (removed l.i s, l.i) (key_del str max_count l)
  unfolding key_del
  del-Related s l h = elim (Bool-cases (ltb l.i (sub16 max_count 1))) [
    | inr last ↦
        let end : length s ≤ l.i = ground (arith, h.short) in
        rw (last, removed-beyond l.i s end) (h, refl)
    | inl inside ↦
        let lt : l.i < max_count - 1 = ground arith in
        let from : u16 (str + l.i) ≡ str + l.i = omega arith in
        let next : u16 (str + l.i + 1) ≡ str + l.i + 1 = omega arith in
        let size : sub16 (sub16 max_count l.i) 1 ≡ max_count - l.i - 1 = omega arith in
        (
          rw (inside, from, next, size)
              (removed-Holds str max_count old s l room h l.i l.i (omega arith)
                (ground (arith, length-removed l.i s, h.cursor))),
          rw inside refl,
        )
  ]

  char-Related :
      (k : ℕ) (s : List ℕ) (l : Line)
      → Holds str max_count old s l
      → k ≢ 0
      → k < 256
      → Related
          (if ltb (length s) (max_count - 1) then (inserted l.i k s, l.i + 1) else (s, l.i))
          (key_char str max_count k l)
  unfolding key_char
  char-Related k s l h some_char byte =
      let count = line_length-Holds str max_count old s l room h in
      let last : sub16 max_count 1 ≡ max_count - 1 = omega arith in
      rw (count, last)
        (if-related Related (ltb (length s) (max_count - 1)) _ _ _ _
          (λ t.
            let space : length s + 1 < max_count = ground arith in
            let to : u16 (str + l.i + 1) ≡ str + l.i + 1 = omega (arith, h.cursor, h.short) in
            let from : u16 (str + l.i) ≡ str + l.i = omega (arith, h.cursor, h.short) in
            let size : sub16 (sub16 max_count l.i) 2 ≡ max_count - l.i - 2 =
              omega (arith, h.cursor, h.short) in
            let low : k % 256 ≡ k = omega arith in
            (
              rw (to, from, size, low)
                  (inserted-Holds str max_count old s l room h l.i k h.cursor space some_char),
              refl,
            ))
          (λ t. (h, refl)))

  key_press-Related :
      (k : ℕ) (s : List ℕ) (l : Line)
      → Holds str max_count old s l
      → Related (typed max_count k s l.i) (key_press str max_count k l)
  unfolding key_press
  key_press-Related k s l h =
      let count = line_length-Holds str max_count old s l room h in
      let cursor = cursor-Holds str max_count old s l room h in
      rw count (
        if-related Related (k == Keys.backspace) _ _ _ _ (λ t. backspace-Related s l h)
          (λ t.
            if-related Related (k == Keys.del) _ _ _ _ (λ t. del-Related s l h)
              (λ t.
                if-related Related (k == Keys.left && ltb 0 l.i) _ _ _ _
                  (λ t. (cursor (l.i - 1) (omega (arith, h.cursor)), refl))
                  (λ t.
                    if-related Related (k == Keys.right && ltb l.i (length s)) _ _ _ _
                      (λ t. (cursor (l.i + 1) (ground arith), refl))
                      (λ t.
                        if-related Related (k == Keys.home) _ _ _ _
                          (λ t. (cursor 0 (omega arith), refl))
                          (λ t.
                            if-related Related (k == Keys.end) _ _ _ _
                              (λ t. (cursor (length s) (omega arith), refl))
                              (λ t.
                                if-related Related
                                  (not (k == Keys.tab) && (ltb k 0x20 || ltb 0x7E k)) _ _ _ _
                                  (λ t. (h, refl))
                                  (λ t. char-Related k s l h (ground arith) (ground arith)))))))))

  key_loop-Holds :
      (keys s : List ℕ) (l : Line)
      → Holds str max_count old s l
      → Holds str max_count old (typed_line max_count keys s l.i) (key_loop str max_count keys l)
  unfolding key_loop
  key_loop-Holds [] s l h = h
  key_loop-Holds (k ∷ keys) s l h = elim (Bool-cases (k == Keys.enter)) [
    | inl enter ↦ rw (enter, key_loop) h
    | inr other ↦
        let (next, at) = key_press-Related k s l h in
        let rest =
          key_loop-Holds keys (typed max_count k s l.i).0 (key_press str max_count k l) next in
        rw (other, key_loop)
          (subst
            (λ (i : ℕ).
              Holds str max_count old (typed_line max_count keys (typed max_count k s l.i).0 i)
                (key_loop str max_count keys (key_press str max_count k l)))
            at rest)
  ]

-- Whatever keys are pressed, `getstr` leaves the line that they edit in the buffer, followed by
-- zeros to its end, and returns its length, which is below the size of the buffer; no other byte
-- of the segment changes.
pub getstr_lem :
    (str max_count : ℕ) (keys : List ℕ) (mem : Segment)
    → str + max_count ≤ 2 ^ 16
    → 0 < max_count
    → max_count < 2 ^ 16
    → let s = typed_line max_count keys [] 0 in
      let (ret, after) = getstr str max_count keys mem in
      (ret ≡ length s)
      × (length s < max_count)
      × ((j : ℕ) → j < max_count → after (str + j) ≡ get_or s j 0)
      × ((a : ℕ) → (a < str) ⊎ (str + max_count ≤ a) → after a ≡ mem a)
unfolding getstr
getstr_lem str max_count keys mem room pos word =
    let cleared = (memset str 0 max_count mem).1 in
    let zeros = (memset_lem str 0 max_count mem room).1 in
    let start : Holds str max_count mem [] (record { mem = cleared; i = 0 }) = record {
      bytes = λ j lt. ground (arith, zeros (str + j));
      around = λ a out. ground (arith, zeros a);
      no_zeros = λ j lt. absurd (omega arith);
      short = pos;
      cursor = omega arith;
    } in
    let s = typed_line max_count keys [] 0 in
    let h =
      key_loop-Holds str max_count mem room pos word keys [] (record { mem = cleared; i = 0 })
        start in
    let l = key_loop str max_count keys (record { mem = cleared; i = 0 }) in
    let place : u16 (str + sub16 max_count 1) ≡ str + (max_count - 1) = omega arith in
    let after = store_byte l.mem (u16 (str + sub16 max_count 1)) 0 in
    let bytes : (j : ℕ) → j < max_count → after (str + j) ≡ get_or s j 0 =
      λ j lt. ground (arith, place, h.bytes j lt, get_or-beyond s j, h.short) in
    (
      strlen-range after str max_count s bytes h.no_zeros h.short,
      h.short,
      bytes,
      λ a out. ground (arith, place, h.around a out),
    )
