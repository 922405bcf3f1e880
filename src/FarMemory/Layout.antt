-- ===== src/FarMemory/Layout.antt =====
-- The well-formed tables of FarMemory.antt: allocated blocks in address order that do not overlap,
-- then unused entries.
use nano_s.Prelude.{
  ℕ, zero, suc, ◌+◌, ◌≤◌, ◌<◌, ◌≡◌, ◌≢◌, refl, List, [], ◌∷◌, ◌++◌, get_or, take, arith, replicate,
  length,
}
use nano_s.FarMemory.{MemBlock, unused, lmem_start, lmem_init, lmem_max_block}

pub data AllUnused : List MemBlock → Type 0 where
  nil : AllUnused []
  cons : {b : MemBlock} {bs : List MemBlock} → b ≡ unused → AllUnused bs → AllUnused (b ∷ bs)

-- All blocks lie between `lo` and `top`.
pub data Layout (top : ℕ) : ℕ → List MemBlock → Type 0 where
  clear : {lo : ℕ} {l : List MemBlock} → lo ≤ top → AllUnused l → Layout top lo l
  block :
      {lo : ℕ} {b : MemBlock} {bs : List MemBlock}
      → lo ≤ b.start
      → 0 < b.size
      → Layout top (b.start + b.size) bs
      → Layout top lo (b ∷ bs)

-- A valid table with blocks up to `top`.
pub record IsValid (top : ℕ) (lmem : List MemBlock) : Type 0 where
  pub full_length : length lmem ≡ lmem_max_block
  pub layout : Layout top lmem_start lmem

pub Layout-le : {top lo : ℕ} {l : List MemBlock} → Layout top lo l → lo ≤ top
Layout-le (clear h u) = h
Layout-le (block h p r) = omega (arith, Layout-le r)

pub AllUnused-get_or : {l : List MemBlock} → AllUnused l → (j : ℕ) → get_or l j unused ≡ unused
AllUnused-get_or nil j = refl
AllUnused-get_or (cons e u) zero = e
AllUnused-get_or (cons e u) (suc j) = AllUnused-get_or u j

pub AllUnused-replicate : (n : ℕ) → AllUnused (replicate n unused)
AllUnused-replicate zero = nil
AllUnused-replicate (suc n) = cons refl (AllUnused-replicate n)

AllUnused-take : {l : List MemBlock} (n : ℕ) → AllUnused l → AllUnused (take n l)
AllUnused-take zero u = nil
AllUnused-take (suc n) nil = nil
AllUnused-take (suc n) (cons e u) = cons e (AllUnused-take n u)

pub AllUnused-snoc : {l : List MemBlock} → AllUnused l → AllUnused (l ++ (unused ∷ []))
AllUnused-snoc nil = cons refl nil
AllUnused-snoc (cons e u) = cons e (AllUnused-snoc u)

pub Layout-take :
    {top lo : ℕ} {l : List MemBlock} (n : ℕ) → Layout top lo l → Layout top lo (take n l)
Layout-take n (clear h u) = clear h (AllUnused-take n u)
Layout-take zero (block h p r) = clear (omega (arith, Layout-le r)) nil
Layout-take (suc n) (block h p r) = block h p (Layout-take n r)

-- The bounds may be relaxed.
pub Layout-weaken :
    {top top' lo lo' : ℕ} {l : List MemBlock}
    → lo' ≤ lo
    → top ≤ top'
    → Layout top lo l
    → Layout top' lo' l
Layout-weaken p q (clear h u) = clear (omega arith) u
Layout-weaken p q (block h s r) = block (omega arith) s (Layout-weaken (omega arith) q r)

pub Layout-snoc :
    {top lo : ℕ} {l : List MemBlock} → Layout top lo l → Layout top lo (l ++ (unused ∷ []))
Layout-snoc (clear h u) = clear h (AllUnused-snoc u)
Layout-snoc (block h s r) = block h s (Layout-snoc r)

-- Every entry of a layout is unused, or a block between the bounds.
pub data Entry (top lo : ℕ) (b : MemBlock) : Type 0 where
  idle : b ≡ unused → Entry top lo b
  live : lo ≤ b.start → 0 < b.size → b.start + b.size ≤ top → Entry top lo b

pub Layout-entry :
    {top lo : ℕ} {l : List MemBlock} → Layout top lo l → (j : ℕ) → Entry top lo (get_or l j unused)
Layout-entry (clear h u) j = idle (AllUnused-get_or u j)
Layout-entry (block h s r) zero = live h s (Layout-le r)
Layout-entry (block h s r) (suc j) = raise h s (Layout-entry r j)
  where
    raise :
        {top lo : ℕ} {b c : MemBlock}
        → lo ≤ b.start
        → 0 < b.size
        → Entry top (b.start + b.size) c
        → Entry top lo c
    raise h s (idle e) = idle e
    raise h s (live p q t) = live (omega arith) q t

-- Of two allocated entries the first ends before the second begins.
pub Layout-disjoint :
    {top lo : ℕ} {l : List MemBlock}
    → Layout top lo l
    → (i j : ℕ) → i < j
    → (get_or l j unused).start ≢ 0
    → (get_or l i unused).start + (get_or l i unused).size ≤ (get_or l j unused).start
Layout-disjoint (clear h u) i j lt used = absurd (used (ground (arith, AllUnused-get_or u j)))
Layout-disjoint (block h s r) i zero lt used = elim lt [ ]
Layout-disjoint (block h s r) zero (suc j) lt used = first (Layout-entry r j) used
  where
    first : {top lo : ℕ} {c : MemBlock} → Entry top lo c → c.start ≢ 0 → lo ≤ c.start
    first (idle e) used = absurd (used (ground arith))
    first (live p q t) used = p
Layout-disjoint (block h s r) (suc i) (suc j) lt used = Layout-disjoint r i j (omega arith) used

-- `lmem_init` leaves a valid table.
pub lmem_init-IsValid : (top : ℕ) → lmem_start ≤ top → IsValid top lmem_init
unfolding lmem_init
lmem_init-IsValid top h = record {
  full_length = refl;
  layout = clear h (AllUnused-replicate lmem_max_block);
}
