-- ===== src/Heap.antt =====
-- The kernel's heap, source/kernel.c: `heap_init`, `heap_alloc` and `heap_free` over the table
-- `heap[HEAP_MAX_BLOCK]`. `base` is the address that the linker gives `HEAPADDR`.
pub mod Search
pub mod Alloc
pub mod Invariant
pub mod Reach
mod Tests
use nano_s.Prelude.{
  ℕ, zero, suc, ◌+◌, ◌-◌, ◌*◌, ◌/◌, ◌%◌, Bool, true, false, ◌&&◌, not, Option, none, some, List, [],
  ◌∷◌, map, ◌==◌, leb, if◌then◌else◌, set, replicate,
}

-- `struct heapblock_info`
pub record Block : Type 0 where
  pub used : ℕ
  pub ptr : ℕ

abbrev pub unused : Block
unused = record { used = 0; ptr = 0 }

abbrev pub heap_max_block : ℕ
heap_max_block = 0x80

abbrev pub heap_mem_size : ℕ
heap_mem_size = 0x400

abbrev pub heap_block_size : ℕ
heap_block_size = heap_mem_size / heap_max_block

pub heap_init : List Block
heap_init = replicate heap_max_block unused

-- The number of blocks for `size` bytes.
pub blocks_for : ℕ → ℕ
blocks_for size = size / heap_block_size + (if size % heap_block_size == 0 then 0 else 1)

-- The scan of `heap_alloc` from index `i`, with `n_found` free blocks just before it: the index
-- at which a run of `n_alloc` free blocks is complete.
pub find_run : ℕ → ℕ → ℕ → List Block → Option ℕ
find_run n_alloc i n_found [] = none
find_run n_alloc i n_found (b ∷ bs) = elim (b.used == 0) [
  | false ↦ find_run n_alloc (i + 1) 0 bs
  | true ↦ elim (leb n_alloc (n_found + 1)) [
    | true ↦ some i
    | false ↦ find_run n_alloc (i + 1) (n_found + 1) bs
  ]
]

-- The loop over `j` that takes `k` blocks from index `j` on.
pub mark : ℕ → ℕ → ℕ → List Block → List Block
mark zero j addr heap = heap
mark (suc k) j addr heap = mark k (j + 1) addr (set heap j (record { used = 1; ptr = addr }))

-- The address (0 for NULL) and the table after the call.
pub heap_alloc : ℕ → ℕ → List Block → ℕ × List Block
unfolding blocks_for find_run mark
heap_alloc base size heap =
    if size == 0 then (0, heap) else elim (find_run (blocks_for size) 0 0 heap) [
      | none ↦ (0, heap)
      | some i ↦
          let start = i + 1 - blocks_for size in
          let addr = base + start * heap_block_size in
          (addr, mark (blocks_for size) start addr heap)
    ]

abbrev pub free_block : ℕ → Block → Block
free_block p b = if b.ptr == p && not (b.used == 0) then unused else b

pub heap_free : ℕ → List Block → List Block
heap_free p heap = if p == 0 then heap else map (free_block p) heap
