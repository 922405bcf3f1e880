-- ===== src/FarMemory/RoundTrip.antt =====
-- `lmem_free` undoes `lmem_alloc`, both of FarMemory.antt.
use nano_s.Prelude.{
  ℕ, zero, suc, ◌+◌, ◌-◌, ◌^◌, ◌≤◌, ◌<◌, ◌≡◌, ◌≢◌, ◌∙◌, ap, refl, true, false, ◌⊎◌, subst, inl, inr,
  List, [], ◌∷◌, ◌++◌, ◌==◌, get_or, take, drop, arith, length, dec_lt, get_or-beyond,
}
use nano_s.FarMemory.{MemBlock, unused, lmem_max_block, insert_at, align, lmem_alloc, lmem_free}
use nano_s.FarMemory.Layout.{IsValid, Layout-entry, Entry, idle, live}
use nano_s.FarMemory.Slot.{slot}
use nano_s.FarMemory.Alloc.{lmem_alloc_lem, lmem_alloc-disjoint}
use nano_s.FarMemory.Free.{compact, lmem_free-compact}

abbrev Avoids : ℕ → List MemBlock → Type 0
Avoids p l = (j : ℕ) → (get_or l j unused).start ≢ p

compact-Avoids : (p : ℕ) (l : List MemBlock) → Avoids p l → compact p l ≡ l
compact-Avoids p [] h = refl
compact-Avoids p (b ∷ bs) h = ground (arith, h 0, compact-Avoids p bs (λ j. h (suc j)))

take-Avoids : (n p : ℕ) (l : List MemBlock) → 0 < p → Avoids p l → Avoids p (take n l)
take-Avoids zero p l pos h j = ground arith
take-Avoids (suc n) p [] pos h j = ground arith
take-Avoids (suc n) p (b ∷ bs) pos h zero = h 0
take-Avoids (suc n) p (b ∷ bs) pos h (suc j) = take-Avoids n p bs pos (λ k. h (suc k)) j

take-last :
    (m : ℕ) (l : List MemBlock)
    → length l ≡ suc m
    → get_or l m unused ≡ unused
    → take m l ++ (unused ∷ []) ≡ l
take-last m [] e u = absurd (omega arith)
take-last zero (b ∷ []) e u = ground arith
take-last zero (b ∷ c ∷ bs) e u = absurd (omega arith)
take-last (suc m) (b ∷ bs) e u = ap (λ t. b ∷ t) (take-last m bs (omega arith) u)

compact-insert :
    (n i : ℕ) (b : MemBlock) (l : List MemBlock)
    → 0 < b.start
    → i < n
    → length l ≡ n
    → get_or l (n - 1) unused ≡ unused
    → Avoids b.start l
    → compact b.start (take i l ++ (b ∷ take (n - i - 1) (drop i l))) ≡ l
compact-insert zero i b l pos lt e u h = absurd (omega arith)
compact-insert (suc n) zero b l pos lt e u h =
    let k : suc n - 0 - 1 ≡ n = omega arith in
    let k' : suc n - 1 ≡ n = omega arith in
    let self : (b.start == b.start) ≡ true = ground arith in
    rw (self, k, compact-Avoids b.start (take n l) (take-Avoids n b.start l pos h))
      (take-last n l e (rw (← k') u))
compact-insert (suc n) (suc i) b [] pos lt e u h = absurd (omega arith)
compact-insert (suc n) (suc i) b (x ∷ l) pos lt e u h =
    let k : suc n - suc i - 1 ≡ n - i - 1 = omega arith in
    let k' : suc n - 1 ≡ suc (n - 1) = omega arith in
    let u' : get_or l (n - 1) unused ≡ unused =
      subst (λ t. get_or (x ∷ l) t unused ≡ unused) k' u in
    let miss : (x.start == b.start) ≡ false = ground (arith, h 0) in
    rw (k, miss)
      (ap (λ t. x ∷ t) (compact-insert n i b l pos (omega arith) (omega arith) u' (λ j. h (suc j))))

module _ (top size : ℕ) (lmem : List MemBlock) (v : IsValid top lmem) (pos : 0 < size)
    (fits : top + size + 15 < 2 ^ 32) where
  fresh : (lmem_alloc size lmem).0 ≢ 0 → Avoids (lmem_alloc size lmem).0 lmem
  fresh ne j same = elim (dec_lt j lmem_max_block) [
    | no beyond ↦ ne (ground (arith, get_or-beyond lmem j unused, v.full_length))
    | yes inside ↦
        let used : (get_or lmem j unused).start ≢ 0 = λ z. ne (ground arith) in
        overlap (Layout-entry v.layout j)
          (lmem_alloc-disjoint top size lmem v pos fits ne j inside used).0
  ]
    where
      b : MemBlock
      b = get_or lmem j unused

      overlap :
          {lo : ℕ}
          → Entry top lo b
          → (b.start + b.size ≤ (lmem_alloc size lmem).0)
            ⊎ ((lmem_alloc size lmem).0 + size ≤ b.start)
          → ⊥
      overlap (idle e) d = ne (ground arith)
      overlap (live p q t) d = omega arith

  -- Freeing what a call of `lmem_alloc` has just returned gives back the table from before it.
  pub lmem_free-lmem_alloc : let (p, lmem') = lmem_alloc size lmem in lmem_free p lmem' ≡ lmem
  lmem_free-lmem_alloc = elim (lmem_alloc_lem top size lmem v pos fits) [
    | inr e ↦ rw e (unfold lmem_free in refl)
    | inl p ↦
        let start = (lmem_alloc size lmem).0 in
        let ne : start ≢ 0 = λ z. omega (arith, p.address) in
        lmem_free-compact start _ (omega (arith, p.address)) p.valid.full_length
        ∙ ap (compact start) p.table
        ∙ (unfold insert_at in
            compact-insert lmem_max_block p.index (slot start (align size)) lmem
              (omega (arith, p.address)) p.below v.full_length p.last_unused (fresh ne))
  ]
