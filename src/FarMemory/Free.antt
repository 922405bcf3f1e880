-- ===== src/FarMemory/Free.antt =====
-- `lmem_free` of FarMemory.antt: its loop ends, and what it leaves.
use nano_s.Prelude.{
  ℕ, zero, suc, ◌+◌, ◌≤◌, ◌<◌, ◌≡◌, ◌∙◌, ap, subst, refl, true, false, inl, inr, List, [], ◌∷◌,
  ◌++◌, ◌==◌, if◌then◌else◌, get_or, take, drop, arith, length, Bool-cases, length-append,
}
use mathlib.Core.List.{append_assoc, append-nil}
use nano_s.FarMemory.{MemBlock, unused, lmem_max_block, free_loop, lmem_free, remove_at}
use nano_s.FarMemory.Layout.{
  Layout, clear, block, AllUnused, nil, cons, IsValid, Layout-weaken, Layout-snoc, AllUnused-snoc,
}

-- Specification: the entries at `ptr` go, the others keep their order, and cleared entries fill
-- the end.
abbrev pub compact : ℕ → List MemBlock → List MemBlock
compact ptr [] = []
compact ptr (b ∷ bs) =
    let rest = compact ptr bs in if b.start == ptr then rest ++ (unused ∷ []) else b ∷ rest

abbrev matches : ℕ → List MemBlock → ℕ
matches ptr [] = 0
matches ptr (b ∷ bs) = (if b.start == ptr then 1 else 0) + matches ptr bs

matches-le : (ptr : ℕ) (l : List MemBlock) → matches ptr l ≤ length l
matches-le ptr [] = omega arith
matches-le ptr (b ∷ bs) = ground (arith, matches-le ptr bs)

matches-snoc :
    (ptr : ℕ) (l : List MemBlock) → 0 < ptr → matches ptr (l ++ (unused ∷ [])) ≡ matches ptr l
matches-snoc ptr [] h = ground arith
matches-snoc ptr (b ∷ bs) h = omega (arith, matches-snoc ptr bs h)

compact-snoc :
    (ptr : ℕ) (l : List MemBlock)
    → 0 < ptr
    → compact ptr (l ++ (unused ∷ [])) ≡ compact ptr l ++ (unused ∷ [])
compact-snoc ptr [] h = ground arith
compact-snoc ptr (b ∷ bs) h = ground (arith, compact-snoc ptr bs h)

length-compact : (ptr : ℕ) (l : List MemBlock) → length (compact ptr l) ≡ length l
length-compact ptr [] = refl
length-compact ptr (b ∷ bs) =
    ground (arith, length-compact ptr bs, length-append (compact ptr bs) (unused ∷ []))

module _ (pre : List MemBlock) (b : MemBlock) (bs : List MemBlock) where
  entry_here : get_or (pre ++ (b ∷ bs)) (length pre) unused ≡ b
  entry_here = go pre
    where
      go : (p : List MemBlock) → get_or (p ++ (b ∷ bs)) (length p) unused ≡ b
      go = elim [ [] ↦ refl | x ∷ (xs → ih) ↦ ih ]

  remove_here : remove_at (length pre) (pre ++ (b ∷ bs)) ≡ pre ++ (bs ++ (unused ∷ []))
  remove_here = go pre
    where
      go :
          (p : List MemBlock)
          → take (length p) (p ++ (b ∷ bs))
              ++ (drop (length p + 1) (p ++ (b ∷ bs)) ++ (unused ∷ []))
            ≡ p ++ (bs ++ (unused ∷ []))
      go = elim [
        | [] ↦ refl
        | x ∷ (xs → ih) ↦
            let e : suc (length xs) + 1 ≡ suc (length xs + 1) = omega arith in
            rw e (ap (λ t. x ∷ t) ih)
      ]

module _ (fuel ptr : ℕ) (pre : List MemBlock) (b : MemBlock) (bs : List MemBlock)
    (full : length (pre ++ (b ∷ bs)) ≡ lmem_max_block) where
  below : length pre < lmem_max_block
  below = omega (arith, length-append pre (b ∷ bs))

  free_loop-hit :
      (b.start == ptr) ≡ true
      → free_loop (suc fuel) ptr (length pre) (pre ++ (b ∷ bs))
        ≡ free_loop fuel ptr (length pre) (pre ++ (bs ++ (unused ∷ [])))
  free_loop-hit hit =
      subst
        (λ t.
          free_loop (suc fuel) ptr (length pre) (pre ++ (b ∷ bs))
          ≡ free_loop fuel ptr (length pre) t)
        (remove_here pre b bs) step
    where
      step :
          free_loop (suc fuel) ptr (length pre) (pre ++ (b ∷ bs))
          ≡ free_loop fuel ptr (length pre) (remove_at (length pre) (pre ++ (b ∷ bs)))
      step = unfold free_loop in ground (arith, below, entry_here pre b bs)

  free_loop-miss :
      (b.start == ptr) ≡ false
      → free_loop (suc fuel) ptr (length pre) (pre ++ (b ∷ bs))
        ≡ free_loop fuel ptr (length pre + 1) (pre ++ (b ∷ bs))
  unfolding free_loop
  free_loop-miss miss = ground (arith, below, entry_here pre b bs)

-- From index `length pre` on the loop compacts the rest, if the fuel covers it.
free_loop-compact :
    (fuel ptr : ℕ) (pre rest : List MemBlock)
    → 0 < ptr
    → length (pre ++ rest) ≡ lmem_max_block
    → length rest + matches ptr rest < fuel
    → free_loop fuel ptr (length pre) (pre ++ rest) ≡ pre ++ compact ptr rest
free_loop-compact zero ptr pre rest pos full enough = absurd (omega arith)
free_loop-compact (suc fuel) ptr pre [] pos full enough =
    unfold free_loop in ground (arith, length-append pre [], append-nil pre)
free_loop-compact (suc fuel) ptr pre (b ∷ bs) pos full enough = elim (Bool-cases (b.start == ptr)) [
  | inl hit ↦
      free_loop-hit fuel ptr pre b bs full hit
      ∙ free_loop-compact fuel ptr pre (bs ++ (unused ∷ [])) pos
          (omega (
            arith,
            length-append pre (b ∷ bs),
            length-append pre (bs ++ (unused ∷ [])),
            length-append bs (unused ∷ []),
          ))
          (ground (arith, length-append bs (unused ∷ []), matches-snoc ptr bs))
      ∙ ap (λ t. pre ++ t) (compact-snoc ptr bs pos ∙ ground arith)
  | inr miss ↦
      let longer : length (pre ++ (b ∷ [])) ≡ length pre + 1 = length-append pre (b ∷ []) in
      let joined : (pre ++ (b ∷ [])) ++ bs ≡ pre ++ (b ∷ bs) = append_assoc pre (b ∷ []) bs in
      let joined' : (pre ++ (b ∷ [])) ++ compact ptr bs ≡ pre ++ (b ∷ compact ptr bs) =
        append_assoc pre (b ∷ []) (compact ptr bs) in
      let rest : (if b.start == ptr then compact ptr bs ++ (unused ∷ []) else b ∷ compact ptr bs)
          ≡ b ∷ compact ptr bs =
        ground arith in
      free_loop-miss fuel ptr pre b bs full miss
      ∙ rw (← longer, ← joined, rest, ← joined')
          (free_loop-compact fuel ptr (pre ++ (b ∷ [])) bs pos (rw joined full) (ground arith))
]

-- For an address that is not 0 the loop of `lmem_free` ends by its test, and the table is
-- compacted: every entry at that address is gone, the others keep their order, and the freed
-- entries are cleared at the end.
pub lmem_free-compact :
    (ptr : ℕ) (lmem : List MemBlock)
    → 0 < ptr
    → length lmem ≡ lmem_max_block
    → lmem_free ptr lmem ≡ compact ptr lmem
lmem_free-compact ptr lmem pos full =
    enter ∙ free_loop-compact 129 ptr [] lmem pos full (omega (arith, matches-le ptr lmem))
  where
    enter : lmem_free ptr lmem ≡ free_loop 129 ptr 0 lmem
    enter = unfold lmem_free in ground arith

compact-AllUnused :
    {l : List MemBlock} (ptr : ℕ) → 0 < ptr → AllUnused l → AllUnused (compact ptr l)
compact-AllUnused ptr pos nil = nil
compact-AllUnused ptr pos (cons {b = b} e u) = elim (Bool-cases (b.start == ptr)) [
  | inl hit ↦ rw hit (AllUnused-snoc (compact-AllUnused ptr pos u))
  | inr miss ↦ rw miss (cons e (compact-AllUnused ptr pos u))
]

compact-Layout :
    {top lo : ℕ} {l : List MemBlock} (ptr : ℕ)
    → 0 < ptr
    → Layout top lo l
    → Layout top lo (compact ptr l)
compact-Layout ptr pos (clear h nil) = clear h nil
compact-Layout ptr pos (clear h (cons e u)) = clear h (compact-AllUnused ptr pos (cons e u))
compact-Layout ptr pos (block {b = b} h p r) = elim (Bool-cases (b.start == ptr)) [
  | inl hit ↦
      rw hit (Layout-snoc (Layout-weaken (omega arith) (omega arith) (compact-Layout ptr pos r)))
  | inr miss ↦ rw miss (block h p (compact-Layout ptr pos r))
]

-- `lmem_free` of any address keeps a table valid.
pub lmem_free-IsValid :
    (top ptr : ℕ) (lmem : List MemBlock) → IsValid top lmem → IsValid top (lmem_free ptr lmem)
lmem_free-IsValid top ptr lmem v = elim (Bool-cases (ptr == 0)) [
  | inl null ↦ let same : lmem_free ptr lmem ≡ lmem = unfold lmem_free in ground arith in rw same v
  | inr some_ptr ↦ rw (lmem_free-compact ptr lmem (ground arith) v.full_length) (record {
    full_length = length-compact ptr lmem ∙ v.full_length;
    layout = compact-Layout ptr (ground arith) v.layout;
  })
]
