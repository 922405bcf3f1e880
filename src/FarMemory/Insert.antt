-- ===== src/FarMemory/Insert.antt =====
-- `insert_at` of FarMemory.antt: the two writes and the `memcpy` of `lmem_alloc`, entry by entry.
use nano_s.Prelude.{
  ℕ, zero, suc, ◌-◌, ◌≤◌, ◌<◌, ◌≡◌, ◌∙◌, ap, refl, List, [], ◌∷◌, ◌++◌, ◌==◌, ltb, if◌then◌else◌,
  get_or, take, drop, arith, length, get_or-take, length-take, length-append, length-drop,
}
use nano_s.FarMemory.{MemBlock, unused, lmem_max_block, insert_at}

insert-take :
    (n i : ℕ) (b : MemBlock) (l : List MemBlock)
    → i < n
    → i ≤ length l
    → take i l ++ (b ∷ take (n - i - 1) (drop i l)) ≡ take n (take i l ++ (b ∷ drop i l))
insert-take zero i b l h q = absurd (omega arith)
insert-take (suc n) zero b l h q = ap (λ k. b ∷ take k l) (omega arith)
insert-take (suc n) (suc i) b [] h q = absurd (omega arith)
insert-take (suc n) (suc i) b (x ∷ l) h q =
    let e : suc n - suc i - 1 ≡ n - i - 1 = omega arith in
    rw e (ap (λ t. x ∷ t) (insert-take n i b l (omega arith) (omega arith)))

pub insert_at-take :
    (i : ℕ) (b : MemBlock) (l : List MemBlock)
    → i < lmem_max_block
    → i ≤ length l
    → insert_at i b l ≡ take lmem_max_block (take i l ++ (b ∷ drop i l))
unfolding insert_at
insert_at-take i b l h q = insert-take lmem_max_block i b l h q

get_or-insert :
    (i : ℕ) (b : MemBlock) (l : List MemBlock) (j : ℕ)
    → i ≤ length l
    → get_or (take i l ++ (b ∷ drop i l)) j unused
      ≡ (if ltb j i then get_or l j unused else if j == i then b else get_or l (j - 1) unused)
get_or-insert zero b l zero h = refl
get_or-insert zero b l (suc j) h = ground arith
get_or-insert (suc i) b [] j h = absurd (omega arith)
get_or-insert (suc i) b (x ∷ l) zero h = ground arith
get_or-insert (suc i) b (x ∷ l) (suc zero) h = ground (arith, get_or-insert i b l 0 (omega arith))
get_or-insert (suc i) b (x ∷ l) (suc (suc j)) h =
    ground (arith, get_or-insert i b l (suc j) (omega arith))

module _ (i : ℕ) (b : MemBlock) (l : List MemBlock) (below : i < lmem_max_block)
    (full : length l ≡ lmem_max_block) where
  pub length-insert_at : length (insert_at i b l) ≡ lmem_max_block
  unfolding insert_at
  length-insert_at = omega (
    arith,
    length-append (take i l) (b ∷ take (lmem_max_block - i - 1) (drop i l)),
    length-take i l,
    length-take (lmem_max_block - i - 1) (drop i l),
    length-drop i l,
  )

  pub get_or-insert_at :
      (j : ℕ)
      → j < lmem_max_block
      → get_or (insert_at i b l) j unused
        ≡ (if ltb j i then get_or l j unused else if j == i then b else get_or l (j - 1) unused)
  get_or-insert_at j lt =
      rw (insert_at-take i b l below (omega arith))
        (get_or-take lmem_max_block j _ unused lt ∙ get_or-insert i b l j (omega arith))
