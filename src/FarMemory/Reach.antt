-- ===== src/FarMemory/Reach.antt =====
-- The tables that calls of `lmem_init`, `lmem_alloc` and `lmem_free` of source/kernel.c lead to.
use nano_s.Prelude.{ℕ, ◌+◌, ◌<◌, ◌^◌, List, arith}
use nano_s.FarMemory.{MemBlock, lmem_start, lmem_init, lmem_alloc, lmem_free, align}
use nano_s.FarMemory.Layout.{IsValid, lmem_init-IsValid}
use nano_s.FarMemory.Alloc.{lmem_alloc-IsValid}
use nano_s.FarMemory.Free.{lmem_free-IsValid}

-- The tables after a sequence of calls, with the address that blocks of all the sizes asked for,
-- rounded up to 16, would reach one behind the other: it stays below 4 GB.
pub data LmemReached : ℕ → List MemBlock → Type 0 where
  started : LmemReached lmem_start lmem_init
  allocated :
      (top size : ℕ) (lmem : List MemBlock)
      → 0 < size
      → top + size + 15 < 2 ^ 32
      → LmemReached top lmem
      → LmemReached (top + align size) (lmem_alloc size lmem).1
  freed :
      (top p : ℕ) (lmem : List MemBlock) → LmemReached top lmem → LmemReached top (lmem_free p lmem)

-- Whatever is allocated and freed after `lmem_init`, the table has its 64 entries, and they are
-- blocks in the order of their addresses, none of which overlaps the next, followed by unused
-- ones. No size is 0, and at each allocation LMEM_START, all the sizes allocated before, each
-- rounded up to 16, also those freed since, the size asked for and 15 come to less than 2 ^ 32.
pub LmemReached-IsValid : (top : ℕ) (lmem : List MemBlock) → LmemReached top lmem → IsValid top lmem
LmemReached-IsValid top lmem started = lmem_init-IsValid lmem_start (omega arith)
LmemReached-IsValid top lmem (allocated before size old pos small r) =
    lmem_alloc-IsValid before size old (LmemReached-IsValid before old r) pos small
LmemReached-IsValid top lmem (freed t p old r) =
    lmem_free-IsValid top p old (LmemReached-IsValid top old r)
