-- ===== src/Heap/Invariant.antt =====
-- The table of Heap.antt between calls: what `heap_alloc` and `heap_free` keep, and how they undo
-- each other.
use nano_s.Prelude.{
  ℕ, zero, suc, ◌+◌, ◌*◌, ◌≤◌, ◌<◌, ◌≡◌, refl, ◌∙◌, ap, sym, List, [], ◌∷◌, ◌==◌, leb, ltb, arith,
  length, get_or, get_or_ext, map, Bool-cases, ◌≢◌, inl, inr, ◌&&◌, get_or-replicate,
}
use nano_s.Heap.{
  Block, unused, blocks_for, heap_init, heap_alloc, heap_free, free_block, heap_block_size,
}
use nano_s.Heap.Search.{used_at}
use nano_s.Heap.Alloc.{Allocated, heap_alloc_lem, blocks_for_pos}

abbrev pub ptr_at : List Block → ℕ → ℕ
ptr_at heap j = (get_or heap j unused).ptr

-- Block `j` is free and clear, or it belongs to the allocation whose first block is `s`.
pub data BlockOk (base : ℕ) (heap : List Block) (j : ℕ) : Type 0 where
  clear : used_at heap j ≡ 0 → ptr_at heap j ≡ 0 → BlockOk base heap j
  owned :
      (s : ℕ)
      → s ≤ j
      → used_at heap j ≡ 1
      → used_at heap s ≡ 1
      → ptr_at heap j ≡ base + s * heap_block_size
      → ptr_at heap s ≡ base + s * heap_block_size
      → BlockOk base heap j

abbrev pub IsValid : ℕ → List Block → Type 0
IsValid base heap = (j : ℕ) → BlockOk base heap j

-- The address that `heap_alloc` returns belongs to no live block.
pub address-fresh :
    (base size : ℕ) (heap : List Block) {r : ℕ × List Block}
    → 0 < size
    → IsValid base heap
    → Allocated base size heap r
    → (j : ℕ) → used_at heap j ≢ 0
    → ptr_at heap j ≢ r.0
address-fresh base size heap pos v a j live e = elim (v j) [
  | clear u p ↦ live u
  | owned s le uj us pj ps ↦
      let same : s ≡ a.start = omega (arith, a.address) in
      ground (arith, a.was_free s, blocks_for_pos size pos)
]

pub length-map {ℓ κ} :
    {A : Type ℓ} {B : Type κ} (f : A → B) (xs : List A) → length (map f xs) ≡ length xs
length-map f [] = refl
length-map f (x ∷ xs) = ap suc (length-map f xs)

free_block-unused : (p : ℕ) → free_block p unused ≡ unused
free_block-unused p = ground arith

pub get_or-map_free :
    (p : ℕ) (heap : List Block) (j : ℕ)
    → get_or (map (free_block p) heap) j unused ≡ free_block p (get_or heap j unused)
get_or-map_free p [] j = sym (free_block-unused p)
get_or-map_free p (b ∷ bs) zero = refl
get_or-map_free p (b ∷ bs) (suc j) = get_or-map_free p bs j

-- Every table that `heap_init` leaves is valid.
pub heap_init-IsValid : (base : ℕ) → IsValid base heap_init
unfolding heap_init
heap_init-IsValid base j =
    let e = get_or-replicate 128 j unused in
    clear (ap (λ (b : Block). b.used) e) (ap (λ (b : Block). b.ptr) e)

-- `heap_alloc` keeps the table valid, whether it succeeds or not.
pub heap_alloc-IsValid :
    (base size : ℕ) (heap : List Block)
    → 0 < size
    → IsValid base heap
    → IsValid base (heap_alloc base size heap).1
heap_alloc-IsValid base size heap pos v j = elim (heap_alloc_lem base size heap pos) [
  | inr refused ↦ rw refused.0 (v j)
  | inl a ↦ elim (Bool-cases (leb a.start j && ltb j (a.start + blocks_for size))) [
    | inl mine ↦
        owned a.start (ground arith) (ground (arith, a.table j)) (ground (arith, a.table a.start))
          (ground (arith, a.table j, a.address)) (ground (arith, a.table a.start, a.address))
    | inr other ↦ elim (v j) [
      | clear u p ↦ clear (ground (arith, a.table j)) (ground (arith, a.table j))
      | owned s le uj us pj ps ↦
          owned s le (ground (arith, a.table j)) (ground (arith, a.table s, a.was_free s))
            (ground (arith, a.table j)) (ground (arith, a.table s, a.was_free s))
    ]
  ]
]

-- `heap_free` of any address keeps the table valid.
pub heap_free-IsValid :
    (base p : ℕ) (heap : List Block) → IsValid base heap → IsValid base (heap_free p heap)
unfolding heap_free
heap_free-IsValid base p heap v j = elim (Bool-cases (p == 0)) [
  | inl null ↦ rw null (v j)
  | inr some_ptr ↦ rw some_ptr (freed (v j))
]
  where
    freed : BlockOk base heap j → BlockOk base (map (free_block p) heap) j
    freed (clear u q) =
        clear (ground (arith, get_or-map_free p heap j)) (ground (arith, get_or-map_free p heap j))
    freed (owned s le uj us pj ps) = elim (Bool-cases (ptr_at heap j == p)) [
      | inl gone ↦
          clear (ground (arith, get_or-map_free p heap j))
            (ground (arith, get_or-map_free p heap j))
      | inr kept ↦
          owned s le (ground (arith, get_or-map_free p heap j))
            (ground (arith, get_or-map_free p heap s)) (ground (arith, get_or-map_free p heap j))
            (ground (arith, get_or-map_free p heap s))
    ]

length-heap_free : (p : ℕ) (heap : List Block) → length (heap_free p heap) ≡ length heap
unfolding heap_free
length-heap_free p heap = ground (arith, length-map (free_block p) heap)

get_or-heap_free :
    (p : ℕ) (heap : List Block) (j : ℕ)
    → 0 < p
    → get_or (heap_free p heap) j unused ≡ free_block p (get_or heap j unused)
unfolding heap_free
get_or-heap_free p heap j pos = ground (arith, get_or-map_free p heap j)

-- A free block of a valid table is the initial one.
free-clear :
    (base : ℕ) (heap : List Block) (j : ℕ)
    → used_at heap j ≡ 0
    → BlockOk base heap j
    → get_or heap j unused ≡ unused
free-clear base heap j u (clear _ p) = ground arith
free-clear base heap j u (owned s le uj us pj ps) = absurd (omega arith)

restores :
    (base size : ℕ) (heap : List Block) {r : ℕ × List Block}
    → 0 < base
    → 0 < size
    → IsValid base heap
    → Allocated base size heap r
    → heap_free r.0 r.1 ≡ heap
restores base size heap {r} pb ps v a =
    get_or_ext unused (heap_free r.0 r.1) heap (length-heap_free r.0 r.1 ∙ a.same_length) λ j lt.
      elim (Bool-cases (leb a.start j && ltb j (a.start + blocks_for size))) [
        | inl mine ↦ ground (
          arith,
          get_or-heap_free r.0 r.1 j positive,
          a.table j,
          free-clear base heap j (a.was_free j (ground arith) (ground arith)) (v j),
        )
        | inr other ↦ ground (
          arith,
          get_or-heap_free r.0 r.1 j positive,
          a.table j,
          address-fresh base size heap ps v a j,
        )
      ]
  where
    positive : 0 < r.0
    positive = omega (arith, a.address)

-- Freeing what `heap_alloc` has just returned gives back the table from before the call.
pub heap_free-heap_alloc :
    (base size : ℕ) (heap : List Block)
    → 0 < base
    → 0 < size
    → IsValid base heap
    → let (p, heap') = heap_alloc base size heap in heap_free p heap' ≡ heap
unfolding heap_free
heap_free-heap_alloc base size heap pb ps v = elim (heap_alloc_lem base size heap ps) [
  | inr refused ↦ rw refused.0
  | inl a ↦ restores base size heap pb ps v a
]
