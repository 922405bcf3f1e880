-- ===== src/FarMemory/Slot.antt =====
-- The search of `lmem_alloc` of FarMemory.antt for a place in a valid table.
use nano_s.Prelude.{
  ℕ, suc, ◌+◌, ◌^◌, ◌≤◌, ◌<◌, ◌≡◌, ◌≢◌, refl, true, false, ◌||◌, ◌⊎◌, inl, inr, List, ◌∷◌, ◌++◌,
  ◌==◌, ltb, if◌then◌else◌, get_or, take, drop, u32, sub32, arith, ℕ_discrete as dec_eq, length,
  Bool-cases,
}
use nano_s.FarMemory.{MemBlock, unused, lmem_start, lmem_limit, lmem_max_block, find_slot}
use nano_s.FarMemory.Layout.{Layout, clear, block, AllUnused, nil, cons, Layout-le, Layout-weaken}

abbrev pub slot : ℕ → ℕ → MemBlock
slot start size = record { start = start; size = size }

-- `find_slot` gave up, or named a place where `size` bytes fit.
pub data Found (top lo size i : ℕ) (l : List MemBlock) (r : ℕ × ℕ) : Type 0 where
  no_room : r.1 ≡ 0 → Found top lo size i l r
  room :
      (k : ℕ)
      → r.0 ≡ i + k
      → k < length l
      → lo ≤ r.1
      → Layout (top + size) lo (take k l ++ (slot r.1 size ∷ drop k l))
      → Found top lo size i l r

-- A hole before the next block, or no next block, leaves room for `size` bytes.
Layout-shift :
    {top lo : ℕ} {l : List MemBlock} (size : ℕ)
    → 0 < lo
    → Layout top lo l
    → ((get_or l 0 unused).start ≡ 0) ⊎ (lo + size ≤ (get_or l 0 unused).start)
    → Layout (top + size) (lo + size) l
Layout-shift size pos (clear h u) gap = clear (omega arith) u
Layout-shift size pos (block h p r) (inl e) = absurd (omega arith)
Layout-shift size pos (block h p r) (inr e) =
    block e p (Layout-weaken (omega arith) (omega arith) r)

module _ (size i start : ℕ) (b : MemBlock) (bs : List MemBlock) where
  abbrev end_of : ℕ
  end_of = u32 (b.start + b.size)

  abbrev next_of : ℕ
  next_of = (get_or bs 0 unused).start

  find_slot-last : (b.start == 0) ≡ false → i ≡ 63 → find_slot size i start (b ∷ bs) ≡ (i, 0)
  unfolding find_slot
  find_slot-last p q = ground arith

  find_slot-gap :
      (b.start == 0) ≡ false
      → i ≢ 63
      → (next_of == 0 || ltb (u32 (end_of + size)) next_of) ≡ true
      → find_slot size i start (b ∷ bs) ≡ (i + 1, end_of)
  unfolding find_slot
  find_slot-gap p q g = ground arith

  find_slot-on :
      (b.start == 0) ≡ false
      → i ≢ 63
      → (next_of == 0 || ltb (u32 (end_of + size)) next_of) ≡ false
      → find_slot size i start (b ∷ bs) ≡ find_slot size (i + 1) end_of bs
  unfolding find_slot
  find_slot-on p q g = ground arith

find_slot-unused :
    (size i start lo : ℕ) (bs : List MemBlock)
    → lmem_start ≤ lo
    → (start ≡ lo) ⊎ ((start ≡ 0) × (lo ≡ lmem_start))
    → find_slot size i start (unused ∷ bs) ≡ (i, (if ltb (sub32 lmem_limit lo) size then 0 else lo))
unfolding find_slot
find_slot-unused size i start lo bs h s = ground arith

module _ (top size : ℕ) (pos : 0 < size) (fits : top + size < 2 ^ 32) where
  room_at_end :
      {lo : ℕ} {l : List MemBlock} (i : ℕ)
      → 0 < length l
      → lo ≤ top
      → AllUnused l
      → Found top lo size i l (i, lo)
  room_at_end {lo} i n h u =
      room 0 (omega arith) (omega arith) (omega arith)
        (block {b = slot lo size} (omega arith) pos (clear (omega arith) u))

  room_after :
      {lo : ℕ} {b : MemBlock} {bs : List MemBlock} (i : ℕ)
      → lo ≤ b.start
      → 0 < b.size
      → lmem_start ≤ lo
      → Layout top (b.start + b.size) bs
      → ((get_or bs 0 unused).start ≡ 0) ⊎ (b.start + b.size + size ≤ (get_or bs 0 unused).start)
      → 0 < length bs
      → Found top lo size i (b ∷ bs) (i + 1, b.start + b.size)
  room_after {b} i p q h r gap n = room 1 (omega arith) (omega arith) (omega arith) (
      block p q (
        block {b = slot (b.start + b.size) size} (omega arith) pos
          (Layout-shift size (omega arith) r gap)))

  room_later :
      {lo : ℕ} {b : MemBlock} {bs : List MemBlock} {a : ℕ × ℕ} (i : ℕ)
      → lo ≤ b.start
      → 0 < b.size
      → Found top (b.start + b.size) size (i + 1) bs a
      → Found top lo size i (b ∷ bs) a
  room_later i p q (no_room e) = no_room e
  room_later i p q (room k e le above new) =
      room (suc k) (omega arith) (omega arith) (omega arith) (block p q new)

  pub find_slot-Found :
      {lo : ℕ} {l : List MemBlock} (i start : ℕ)
      → i + length l ≡ lmem_max_block
      → i < lmem_max_block
      → lmem_start ≤ lo
      → (start ≡ lo) ⊎ ((start ≡ 0) × (lo ≡ lmem_start))
      → Layout top lo l
      → Found top lo size i l (find_slot size i start l)
  find_slot-Found i start n lt h s (clear p nil) = absurd (omega arith)
  find_slot-Found {lo} i start n lt h s (clear p (cons {b = b} {bs = bs} e u)) =
      rw (e, find_slot-unused size i start lo bs h s)
        (elim (Bool-cases (ltb (sub32 lmem_limit lo) size)) [
          | inl full ↦ rw full (no_room refl)
          | inr ok ↦ rw ok (room_at_end i (omega arith) p (cons refl u))
        ])
  find_slot-Found {lo} i start n lt h s (block {b = b} {bs = bs} p q r) = elim (dec_eq i 63) [
    | yes last ↦ rw (find_slot-last size i start b bs used last) (no_room refl)
    | no more ↦ elim (Bool-cases (next == 0 || ltb (u32 (end + size)) next)) [
      | inl gap ↦
          rw (find_slot-gap size i start b bs used more gap, exact)
            (room_after i p q h r
              (elim (dec_eq next 0) [
                | yes none_after ↦ inl none_after
                | no some_after ↦ inr (ground (arith, exact, Layout-le r))
              ])
              (omega arith))
      | inr tight ↦
          rw (find_slot-on size i start b bs used more tight, exact)
            (room_later i p q (
              find_slot-Found (i + 1) (b.start + b.size) (omega arith) (omega arith) (omega arith)
                (inl refl) r))
    ]
  ]
    where
      used : (b.start == 0) ≡ false
      used = ground arith

      next : ℕ
      next = (get_or bs 0 unused).start

      end : ℕ
      end = u32 (b.start + b.size)

      exact : u32 (b.start + b.size) ≡ b.start + b.size
      exact = omega (arith, Layout-le r)
