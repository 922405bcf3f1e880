-- ===== src/Heap/Alloc.antt =====
-- `heap_alloc` of Heap.antt against its contract: which blocks it takes, and when it fails.
use nano_s.Prelude.{
  ℕ, zero, suc, ◌+◌, ◌-◌, ◌*◌, ◌≤◌, ◌<◌, ◌≡◌, refl, ◌∙◌, some, none, List, leb, ltb, arith, length,
  get_or, set, get_or-set, length-set, Option-cases, ◌⊎◌, inl, inr, if◌then◌else◌, ◌&&◌,
}
use nano_s.Heap.{Block, unused, find_run, mark, blocks_for, heap_alloc, heap_block_size}
use nano_s.Heap.Search.{IsFree, find_run-some, find_run-none, IsRest-whole}

abbrev pub taken : ℕ → Block
taken addr = record { used = 1; ptr = addr }

pub length-mark : (k j addr : ℕ) (heap : List Block) → length (mark k j addr heap) ≡ length heap
unfolding mark
length-mark zero j addr heap = refl
length-mark (suc k) j addr heap =
    length-mark k (j + 1) addr (set heap j (taken addr)) ∙ length-set heap j (taken addr)

pub get_or-mark :
    (k j addr : ℕ) (heap : List Block) (i : ℕ)
    → j + k ≤ length heap
    → get_or (mark k j addr heap) i unused
      ≡ (if leb j i && ltb i (j + k) then taken addr else get_or heap i unused)
unfolding mark
get_or-mark zero j addr heap i h = ground arith
get_or-mark (suc k) j addr heap i h = ground (
  arith,
  length-set heap j (taken addr),
  get_or-set heap j i (taken addr) unused,
  get_or-mark k (j + 1) addr (set heap j (taken addr)) i,
)

-- The call took `blocks_for size` free blocks in a row and returned the address of the first;
-- every other block is as before.
pub record Allocated (base size : ℕ) (heap : List Block) (r : ℕ × List Block) : Type 0 where
  pub start : ℕ
  pub address : r.0 ≡ base + start * heap_block_size
  pub inside : start + blocks_for size ≤ length heap
  pub was_free : IsFree heap start (start + blocks_for size)
  pub table :
      (j : ℕ)
      → get_or r.1 j unused ≡ (
          if leb start j && ltb j (start + blocks_for size)
          then taken r.0
          else get_or heap j unused)
  pub same_length : length r.1 ≡ length heap

-- The call returned NULL and changed nothing, since no run of free blocks is long enough.
abbrev pub Refused : ℕ → List Block → ℕ × List Block → Type 0
Refused size heap r =
    (r ≡ (0, heap))
    × ((s : ℕ) → s + blocks_for size ≤ length heap → ¬ IsFree heap s (s + blocks_for size))

pub blocks_for_pos : (size : ℕ) → 0 < size → 0 < blocks_for size
unfolding blocks_for
blocks_for_pos size h = ground arith

-- The blocks taken hold at least `size` bytes, and less than one block more.
pub blocks_for_bounds :
    (size : ℕ)
    → (size ≤ blocks_for size * heap_block_size)
      × (blocks_for size * heap_block_size < size + heap_block_size)
unfolding blocks_for
blocks_for_bounds size = ground arith

module _ (base size : ℕ) (heap : List Block) (pos : 0 < size) where
  heap_alloc-none :
      find_run (blocks_for size) 0 0 heap ≡ none → heap_alloc base size heap ≡ (0, heap)
  heap_alloc-none e = unfold heap_alloc in ground arith

  heap_alloc-some :
      (i : ℕ)
      → find_run (blocks_for size) 0 0 heap ≡ some i
      → let start = i + 1 - blocks_for size in
        let addr = base + start * heap_block_size in
        heap_alloc base size heap ≡ (addr, mark (blocks_for size) start addr heap)
  heap_alloc-some i e = unfold heap_alloc in ground arith

  allocated :
      (i : ℕ)
      → find_run (blocks_for size) 0 0 heap ≡ some i
      → let start = i + 1 - blocks_for size in
        let addr = base + start * heap_block_size in
        Allocated base size heap (addr, mark (blocks_for size) start addr heap)
  allocated i e =
      let n = blocks_for size in
      let start = i + 1 - n in
      let addr = base + start * heap_block_size in
      let (ends, inside) =
        find_run-some heap n 0 0 heap (IsRest-whole heap) (omega arith)
          (λ j p q. absurd (omega arith)) e in
      record {
        start = start;
        address = refl;
        inside = omega (arith, blocks_for_pos size pos);
        was_free = λ j p q. ends.1 j (omega arith) (omega arith);
        table = λ j. get_or-mark n start addr heap j (omega arith);
        same_length = length-mark n start addr heap;
      }

  -- A request of at least one byte is met whenever some run of free blocks is long enough, by
  -- such a run, and nothing else in the table changes; otherwise it returns NULL and the table
  -- is unchanged.
  pub heap_alloc_lem :
      Allocated base size heap (heap_alloc base size heap)
      ⊎ Refused size heap (heap_alloc base size heap)
  heap_alloc_lem = elim (Option-cases (find_run (blocks_for size) 0 0 heap)) [
    | inl e ↦ inr (
      heap_alloc-none e,
      λ s fits.
          find_run-none heap (blocks_for size) 0 0 s heap (IsRest-whole heap)
            (blocks_for_pos size pos) (omega arith) (omega arith) e,
    )
    | inr (i, e) ↦ inl (rw (heap_alloc-some i e) (allocated i e))
  ]
