-- ===== src/Heap/Reach.antt =====
-- The tables that calls of `heap_init`, `heap_alloc` and `heap_free` of source/kernel.c lead to.
use nano_s.Prelude.{ℕ, zero, suc, List, arith}
use nano_s.Heap.{Block, heap_init, heap_alloc, heap_free}
use nano_s.Heap.Invariant.{IsValid, heap_init-IsValid, heap_alloc-IsValid, heap_free-IsValid}

-- The tables after a sequence of calls, with any sizes and any addresses.
pub data Reached (base : ℕ) : List Block → Type 0 where
  started : Reached base heap_init
  allocated :
      (size : ℕ) (heap : List Block)
      → Reached base heap
      → Reached base (heap_alloc base size heap).1
  freed : (p : ℕ) (heap : List Block) → Reached base heap → Reached base (heap_free p heap)

heap_alloc_any :
    (base size : ℕ) (heap : List Block)
    → IsValid base heap
    → IsValid base (heap_alloc base size heap).1
unfolding heap_alloc
heap_alloc_any base zero heap v = v
heap_alloc_any base (suc n) heap v = heap_alloc-IsValid base (suc n) heap (omega arith) v

-- Whatever is allocated and freed after `heap_init`, in any order and with any arguments, every
-- block of the table is free and clear, or belongs to an allocation whose first block is in use.
pub Reached-IsValid : (base : ℕ) (heap : List Block) → Reached base heap → IsValid base heap
Reached-IsValid base heap started = heap_init-IsValid base
Reached-IsValid base heap (allocated size before r) =
    heap_alloc_any base size before (Reached-IsValid base before r)
Reached-IsValid base heap (freed p before r) =
    heap_free-IsValid base p before (Reached-IsValid base before r)
