-- ===== src/Heap/Tests.antt =====
-- Runs of Heap.antt, and its theorems at concrete tables.
use nano_s.Prelude.{ℕ, ◌≡◌, ◌⊎◌, refl, ap, List, ◌∷◌, replicate, arith}
use nano_s.Heap.{Block, unused, heap_init, heap_alloc, heap_free}
use nano_s.Heap.Alloc.{Allocated, Refused, heap_alloc_lem, taken}
use nano_s.Heap.Invariant.{IsValid, heap_alloc-IsValid, heap_free-heap_alloc, heap_init-IsValid}
use nano_s.Heap.Reach.{started, allocated, freed, Reached-IsValid}

abbrev heap_addr : ℕ
heap_addr = 0x5000

-- The table after one request of 20 bytes: three blocks of 8.
abbrev one_live : List Block
one_live = taken heap_addr ∷ taken heap_addr ∷ taken heap_addr ∷ replicate 125 unused

first_request : heap_alloc heap_addr 20 heap_init ≡ (heap_addr, one_live)
unfolding heap_alloc heap_init
first_request = refl

one_live-IsValid : IsValid heap_addr one_live
one_live-IsValid =
    rw (← live)
      (heap_alloc-IsValid heap_addr 20 heap_init (omega arith) (heap_init-IsValid heap_addr))
  where
    live : (heap_alloc heap_addr 20 heap_init).1 ≡ one_live
    live = ap (λ (r : ℕ × List Block). r.1) first_request

heap_alloc_lem_example :
    Allocated heap_addr 9 one_live (heap_alloc heap_addr 9 one_live)
    ⊎ Refused 9 one_live (heap_alloc heap_addr 9 one_live)
heap_alloc_lem_example = heap_alloc_lem heap_addr 9 one_live (omega arith)

-- Twice 20 bytes, then the first is freed.
Reached-IsValid_example :
    let two = (heap_alloc heap_addr 20 (heap_alloc heap_addr 20 heap_init).1).1 in
    IsValid heap_addr (heap_free heap_addr two)
Reached-IsValid_example =
    let one = (heap_alloc heap_addr 20 heap_init).1 in
    let two = (heap_alloc heap_addr 20 one).1 in
    Reached-IsValid heap_addr (heap_free heap_addr two)
      (freed heap_addr two (allocated 20 one (allocated 20 heap_init started)))

heap_free-heap_alloc_example :
    let (p, heap') = heap_alloc heap_addr 9 one_live in heap_free p heap' ≡ one_live
heap_free-heap_alloc_example =
    heap_free-heap_alloc heap_addr 9 one_live (omega arith) (omega arith) one_live-IsValid
