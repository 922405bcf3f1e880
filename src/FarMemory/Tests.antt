-- ===== src/FarMemory/Tests.antt =====
-- Runs of FarMemory.antt, and its theorems at concrete tables.
use nano_s.Prelude.{◌<◌, ◌^◌, ◌+◌, ◌≤◌, ◌≡◌, ◌≢◌, ◌⊎◌, refl, List, ◌∷◌, get_or, replicate, arith}
use nano_s.FarMemory.{
  MemBlock, unused, lmem_alloc, lmem_free, lmem_init, lmem_start, find_slot, insert_at, align,
}
use nano_s.FarMemory.Layout.{AllUnused-replicate, IsValid, clear, block}
use nano_s.FarMemory.Slot.{slot}
use nano_s.FarMemory.Alloc.{lmem_alloc-disjoint}
use nano_s.FarMemory.Free.{compact, lmem_free-compact}
use nano_s.FarMemory.Reach.{LmemReached-IsValid, started, allocated, freed}
use nano_s.FarMemory.Limit.{lmem_alloc-ignores-limit}

-- Two blocks with a hole of 0x100 bytes between them.
abbrev two_blocks : List MemBlock
two_blocks = slot 0x28000 0x100 ∷ slot 0x28200 0x40 ∷ replicate 62 unused

two_blocks-IsValid : IsValid 0x28240 two_blocks
two_blocks-IsValid = record {
  full_length = refl;
  layout =
      block (omega arith) (omega arith)
        (block (omega arith) (omega arith) (clear (omega arith) (AllUnused-replicate 62)));
}

fills_the_hole : (lmem_alloc 33 two_blocks).0 ≡ 0x28100
unfolding lmem_alloc find_slot insert_at align
fills_the_hole = refl

skips_a_hole_too_small : (lmem_alloc 0x100 two_blocks).0 ≡ 0x28240
unfolding lmem_alloc find_slot insert_at align
skips_a_hole_too_small = refl

succeeds : (lmem_alloc 33 two_blocks).0 ≢ 0
unfolding lmem_alloc find_slot insert_at align
succeeds = omega arith

lmem_alloc-disjoint_example :
    let (p, lmem') = lmem_alloc 33 two_blocks in
    ((0x28240 ≤ p) ⊎ (p + 33 ≤ 0x28200))
    × ((get_or lmem' 1 unused ≡ slot 0x28200 0x40) ⊎ (get_or lmem' 2 unused ≡ slot 0x28200 0x40))
lmem_alloc-disjoint_example =
    lmem_alloc-disjoint 0x28240 33 two_blocks two_blocks-IsValid (omega arith) (omega arith)
      succeeds 1 (omega arith) (omega arith)

lmem_free-compact_example : lmem_free 0x28000 two_blocks ≡ compact 0x28000 two_blocks
lmem_free-compact_example = lmem_free-compact 0x28000 two_blocks (omega arith) refl

small : lmem_start + align 33 + 33 + 15 < 2 ^ 32
unfolding align
small = omega arith

-- 33 bytes twice, then the first block is freed.
LmemReached-IsValid_example :
    let one = (lmem_alloc 33 lmem_init).1 in
    let two = (lmem_alloc 33 one).1 in
    IsValid (lmem_start + align 33 + align 33) (lmem_free lmem_start two)
LmemReached-IsValid_example =
    let one = (lmem_alloc 33 lmem_init).1 in
    let two = (lmem_alloc 33 one).1 in
    LmemReached-IsValid (lmem_start + align 33 + align 33) (lmem_free lmem_start two) (
      freed (lmem_start + align 33 + align 33) lmem_start two (
        allocated (lmem_start + align 33) 33 one (omega arith) small
          (allocated lmem_start 33 lmem_init (omega arith) (omega arith) started)))

-- A block of 512 KB behind one of 448 KB ends 416 KB past the limit.
lmem_alloc-ignores-limit_example :
    lmem_alloc 0x80000 (slot 0x28000 0x70000 ∷ replicate 63 unused)
    ≡ (0x98000, slot 0x28000 0x70000 ∷ slot 0x98000 (align 0x80000) ∷ replicate 62 unused)
lmem_alloc-ignores-limit_example =
    lmem_alloc-ignores-limit (slot 0x28000 0x70000) 0x80000 (omega arith) (omega arith)
      (omega arith) (omega arith)
