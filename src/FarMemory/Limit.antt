-- ===== src/FarMemory/Limit.antt =====
-- Where `lmem_alloc` of FarMemory.antt respects `LMEM_LIMIT`, and where it does not.
use nano_s.Prelude.{ℕ, ◌+◌, ◌^◌, ◌<◌, ◌≡◌, ◌∷◌, if◌then◌else◌, replicate, arith, ltb}
use nano_s.FarMemory.{
  MemBlock, unused, lmem_start, lmem_limit, align, find_slot, insert_at, lmem_alloc, lmem_init,
}
use nano_s.FarMemory.Slot.{slot}
use nano_s.FarMemory.Alloc.{align_bounds}

-- From the empty table a block is given out, at `LMEM_START`, exactly if it ends by `LMEM_LIMIT`.
pub lmem_alloc-empty :
    (size : ℕ)
    → 0 < size
    → size + 15 < 2 ^ 32
    → (lmem_alloc size lmem_init).0
      ≡ (if ltb lmem_limit (lmem_start + align size) then 0 else lmem_start)
unfolding lmem_alloc lmem_init find_slot
lmem_alloc-empty size pos fits = ground (arith, align_bounds size)

-- With one block in the table the next is put right behind it, whatever its size: the comparison
-- with `LMEM_LIMIT` is not made.
pub lmem_alloc-ignores-limit :
    (b : MemBlock) (size : ℕ)
    → 0 < b.start
    → 0 < size
    → b.start + b.size < 2 ^ 32
    → 0 < b.start + b.size
    → lmem_alloc size (b ∷ replicate 63 unused)
      ≡ (b.start + b.size, b ∷ slot (b.start + b.size) (align size) ∷ replicate 62 unused)
unfolding lmem_alloc find_slot insert_at
lmem_alloc-ignores-limit b size p q r s = ground arith
