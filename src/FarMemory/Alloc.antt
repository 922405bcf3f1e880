-- ===== src/FarMemory/Alloc.antt =====
-- `lmem_alloc` of FarMemory.antt on a valid table.
use nano_s.Prelude.{
  ℕ, ◌+◌, ◌-◌, ◌%◌, ◌^◌, ◌≤◌, ◌<◌, ◌≡◌, ◌≢◌, ◌∙◌, ap, sym, subst, refl, ◌⊎◌, inl, inr, List, ◌==◌,
  get_or, arith, dec_lt, Bool-cases,
}
use nano_s.FarMemory.{
  MemBlock, unused, lmem_start, lmem_max_block, lmem_block_size, align, find_slot, insert_at,
  lmem_alloc,
}
use nano_s.FarMemory.Insert.{insert_at-take, length-insert_at, get_or-insert_at}
use nano_s.FarMemory.Layout.{
  Layout, IsValid, Layout-take, Layout-weaken, Layout-disjoint, Layout-entry, Entry, idle, live,
}
use nano_s.FarMemory.Slot.{slot, Found, room, find_slot-Found, no_room}

pub align_bounds :
    (size : ℕ)
    → size + 15 < 2 ^ 32
    → (size ≤ align size) × (align size ≤ size + 15) × (align size % lmem_block_size ≡ 0)
unfolding align
align_bounds size h = ground arith

-- What a successful call has done: `align size` bytes at `r.0` are a new block of the table, at
-- `index`; the entry that the move drops was unused.
pub record Placed (top size : ℕ) (lmem : List MemBlock) (r : ℕ × List MemBlock) : Type 0 where
  pub index : ℕ
  pub below : index < lmem_max_block
  pub address : lmem_start ≤ r.0
  pub table : r.1 ≡ insert_at index (slot r.0 (align size)) lmem
  pub last_unused : get_or lmem (lmem_max_block - 1) unused ≡ unused
  pub valid : IsValid (top + align size) r.1

module _ (top size : ℕ) (lmem : List MemBlock) (v : IsValid top lmem) (pos : 0 < size)
    (fits : top + size + 15 < 2 ^ 32) where
  placed :
      {r : ℕ × ℕ}
      → (get_or lmem 63 unused).size ≡ 0
      → Found top lmem_start (align size) 0 lmem r
      → (r.1 ≡ 0) ⊎ Placed top size lmem (r.1, insert_at r.0 (slot r.1 (align size)) lmem)
  placed z (no_room e) = inl e
  placed {r} z (room k e le above new) =
      let at : k ≡ r.0 = omega arith in
      let fact = v.full_length in
      let below : r.0 < lmem_max_block = omega arith in
      let whole : Layout (top + align size) lmem_start
          (insert_at r.0 (slot r.1 (align size)) lmem) =
        rw (insert_at-take r.0 (slot r.1 (align size)) lmem below (omega arith), ← at)
          (Layout-take 64 new) in
      inr (record {
        index = r.0;
        below = below;
        address = above;
        table = refl;
        last_unused = idle_last (Layout-entry v.layout 63);
        valid = record {
          full_length = length-insert_at r.0 (slot r.1 (align size)) lmem below v.full_length;
          layout = whole;
        };
      })
    where
      idle_last : Entry top lmem_start (get_or lmem 63 unused) → get_or lmem 63 unused ≡ unused
      idle_last (idle e) = e
      idle_last (live p q t) = absurd (omega arith)

  found : Found top lmem_start (align size) 0 lmem (find_slot (align size) 0 0 lmem)
  found =
      find_slot-Found top (align size) (omega (arith, align_bounds size))
        (omega (arith, align_bounds size)) 0 0 (omega (arith, v.full_length)) (omega arith)
        (omega arith) (inr (refl, refl)) v.layout

  -- On a valid table `lmem_alloc` either inserts a new block of `align size` bytes and leaves a
  -- valid table, or returns 0 and leaves the table alone.
  pub lmem_alloc_lem :
      Placed top size lmem (lmem_alloc size lmem) ⊎ (lmem_alloc size lmem ≡ (0, lmem))
  unfolding lmem_alloc
  lmem_alloc_lem = elim (Bool-cases ((get_or lmem 63 unused).size == 0)) [
    | inr full ↦ inr (ground arith)
    | inl room_left ↦ elim (placed (ground arith) found) [
      | inl nowhere ↦ inr (ground arith)
      | inr p ↦
          let e : lmem_alloc size lmem ≡ result = ground (arith, p.address) in
          inl (subst (Placed top size lmem) (sym e) p)
    ]
  ]
    where
      result : ℕ × List MemBlock
      result =
          let r = find_slot (align size) 0 0 lmem in
          (r.1, insert_at r.0 (slot r.1 (align size)) lmem)

  -- A successful call leaves a valid table, and so does one that fails.
  pub lmem_alloc-IsValid : IsValid (top + align size) (lmem_alloc size lmem).1
  lmem_alloc-IsValid = elim lmem_alloc_lem [
    | inl p ↦ p.valid
    | inr e ↦ rw e (record {
      full_length = v.full_length;
      layout = Layout-weaken (omega arith) (omega arith) v.layout;
    })
  ]

  disjoint :
      {r : ℕ × List MemBlock}
      → Placed top size lmem r
      → (j : ℕ) → j < lmem_max_block
      → (get_or lmem j unused).start ≢ 0
      → let b = get_or lmem j unused in
        ((b.start + b.size ≤ r.0) ⊎ (r.0 + size ≤ b.start))
        × ((get_or r.1 j unused ≡ b) ⊎ (get_or r.1 (j + 1) unused ≡ b))
  disjoint {r} p j lt used =
      let new = slot r.0 (align size) in
      let at = λ (k : ℕ) (h : k < lmem_max_block).
        ap (λ t. get_or t k unused) p.table
        ∙ get_or-insert_at p.index new lmem p.below v.full_length k h in
      let here : get_or r.1 p.index unused ≡ new = at p.index p.below ∙ ground arith in
      elim (dec_lt j p.index) [
        | yes before ↦
            let same : get_or r.1 j unused ≡ get_or lmem j unused = at j lt ∙ ground arith in
            (
              inl (
                  ground (
                    arith,
                    here,
                    same,
                    Layout-disjoint p.valid.layout j p.index before,
                    p.address,
                  )),
              inl same,
            )
        | no after ↦
            let inside : j + 1 < lmem_max_block = ground (arith, p.last_unused) in
            let same : get_or r.1 (j + 1) unused ≡ get_or lmem j unused =
              at (j + 1) inside ∙ ground arith in
            (
              inr (
                  ground (
                    arith,
                    here,
                    same,
                    Layout-disjoint p.valid.layout p.index (j + 1),
                    align_bounds size,
                  )),
              inr same,
            )
      ]

  -- In a table of 64 blocks in the order of their addresses, none of which overlaps the next or
  -- reaches past `top`, followed by unused entries: if a size that is not 0 is asked for and top
  -- + size + 15 is below 2 ^ 32, so that no sum wraps, the bytes that a successful call returns
  -- overlap no live block, and all of those stay in the table.
  pub lmem_alloc-disjoint :
      (lmem_alloc size lmem).0 ≢ 0
      → (j : ℕ) → j < lmem_max_block
      → (get_or lmem j unused).start ≢ 0
      → let (p, lmem') = lmem_alloc size lmem in
        let b = get_or lmem j unused in
        ((b.start + b.size ≤ p) ⊎ (p + size ≤ b.start))
        × ((get_or lmem' j unused ≡ b) ⊎ (get_or lmem' (j + 1) unused ≡ b))
  lmem_alloc-disjoint ne j lt used = elim lmem_alloc_lem [
    | inr e ↦ absurd (ne (rw e))
    | inl p ↦ disjoint p j lt used
  ]
