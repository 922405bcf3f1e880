-- ===== src/FarMemory.antt =====
-- Far memory for user programs, source/kernel.c: `lmem_init`, `lmem_alloc` and `lmem_free` over the
-- table `lmem[LMEM_MAX_BLOCK]`, which is kept sorted and packed. Addresses and sizes are `ul_t`.
pub mod Layout
pub mod Insert
pub mod Slot
pub mod Alloc
pub mod Free
pub mod RoundTrip
pub mod Limit
pub mod Reach
mod Tests
use nano_s.Prelude.{
  ℕ, zero, suc, ◌+◌, ◌-◌, ◌*◌, ◌%◌, Bool, true, false, not, ◌||◌, List, [], ◌∷◌, ◌++◌, ◌==◌, ltb,
  if◌then◌else◌, get_or, replicate, take, drop, u32, sub32,
}

-- `struct lmemblock_info`
pub record MemBlock : Type 0 where
  pub start : ℕ
  pub size : ℕ

abbrev pub unused : MemBlock
unused = record { start = 0; size = 0 }

abbrev pub lmem_start : ℕ
lmem_start = 0x28000

abbrev pub lmem_limit : ℕ
lmem_limit = 0x9FC00

abbrev pub lmem_block_size : ℕ
lmem_block_size = 0x10

abbrev pub lmem_max_block : ℕ
lmem_max_block = 64

pub lmem_init : List MemBlock
lmem_init = replicate lmem_max_block unused

-- `size` rounded up to 16 bytes, in `ul_t`.
pub align : ℕ → ℕ
align size =
    if size % lmem_block_size == 0
    then size
    else u32 (size + (lmem_block_size - size % lmem_block_size))

-- The loop of `lmem_alloc` at index `i`, over the entries from `i` on: `i` and `start` as the loop
-- leaves them.
pub find_slot : ℕ → ℕ → ℕ → List MemBlock → ℕ × ℕ
find_slot size i start [] = (i, start)
find_slot size i start (b ∷ bs) = elim (b.start == 0) [
  | false ↦ elim (i == lmem_max_block - 1) [
    | true ↦ (i, 0)
    | false ↦
        let start' = u32 (b.start + b.size) in
        let next = (get_or bs 0 unused).start in
        elim (next == 0 || ltb (u32 (start' + size)) next) [
          | true ↦ (i + 1, start')
          | false ↦ find_slot size (i + 1) start' bs
        ]
  ]
  | true ↦
      let start' = if start == 0 then lmem_start else start in
      (i, (if ltb (sub32 lmem_limit start') size then 0 else start'))
]

-- The entries from `i` on move up by one, the last is overwritten, and `b` is stored at `i`.
pub insert_at : ℕ → MemBlock → List MemBlock → List MemBlock
insert_at i b lmem = take i lmem ++ (b ∷ take (lmem_max_block - i - 1) (drop i lmem))

-- The address (0 if there is none) and the table after the call.
pub lmem_alloc : ℕ → List MemBlock → ℕ × List MemBlock
lmem_alloc size lmem =
    if size == 0 || not ((get_or lmem (lmem_max_block - 1) unused).size == 0)
    then (0, lmem)
    else let (i, start) = find_slot (align size) 0 0 lmem in
      if start == 0
      then (0, lmem)
      else (start, insert_at i (record { start = start; size = align size }) lmem)

-- The entries after `i` move down by one and the last is cleared.
abbrev pub remove_at : ℕ → List MemBlock → List MemBlock
remove_at i lmem = take i lmem ++ (drop (i + 1) lmem ++ (unused ∷ []))

-- The `while` loop of `lmem_free`: it stays at `i` after a removal, so it takes fuel.
pub free_loop : ℕ → ℕ → ℕ → List MemBlock → List MemBlock
free_loop zero ptr i lmem = lmem
free_loop (suc fuel) ptr i lmem = elim (ltb i lmem_max_block) [
  | false ↦ lmem
  | true ↦ elim ((get_or lmem i unused).start == ptr) [
    | true ↦ free_loop fuel ptr i (remove_at i lmem)
    | false ↦ free_loop fuel ptr (i + 1) lmem
  ]
]

pub lmem_free : ℕ → List MemBlock → List MemBlock
lmem_free ptr lmem = if ptr == 0 then lmem else free_loop (2 * lmem_max_block + 1) ptr 0 lmem
