-- ===== src/Memory/Copy.antt =====
-- `memcpy` and `memset` of Memory.antt against what they are for.
use nano_s.Prelude.{
  ℕ, zero, suc, ◌+◌, ◌-◌, ◌%◌, ◌^◌, ◌≤◌, ◌<◌, ◌≡◌, refl, true, false, Bool-cases, ◌&&◌, ◌==◌, ltb,
  leb, if◌then◌else◌, u16, arith, inl, inr, leb→le, ◌↔◌, ℕ_discrete,
}
use native.Mathlib.Nat.{mod-eq_of_lt}
use nano_s.Memory.{
  Segment, store_byte, memcpy_loop, memcpy, lmemcpy, memset_loop, memset, memcmp_loop, memcmp,
}

-- The bytes `lo` up to `hi` of the destination are those of the source in `old`, and every other
-- byte is as in `old`.
abbrev pub Moved : ℕ → ℕ → ℕ → ℕ → Segment → Segment → Type 0
Moved dst src lo hi old mem =
    (a : ℕ)
    → mem a ≡ (if leb (dst + lo) a && ltb a (dst + hi) then old (src + (a - dst)) else old a)

module _ (span dst src size : ℕ) (old : Segment) (d : dst + size ≤ span)
    (s : src + size ≤ span) where
  forward :
      (left i : ℕ) (mem : Segment)
      → dst < src
      → i + left ≡ size
      → Moved dst src 0 i old mem
      → Moved dst src 0 size old (memcpy_loop span left size false dst src i mem)
  unfolding memcpy_loop
  forward zero i mem lt e m = let same : i ≡ size = omega arith in rw same at m
  forward (suc left) i mem lt e m =
      forward left (i + 1) (store_byte mem ((dst + i) % span) (mem ((src + i) % span))) lt
        (omega arith) λ a. step a
    where
      to : (dst + i) % span ≡ dst + i
      to = mod-eq_of_lt (omega arith)

      from : (src + i) % span ≡ src + i
      from = mod-eq_of_lt (omega arith)

      value : mem (src + i) ≡ old (src + i)
      value = ground (arith, m (src + i))

      step :
          (a : ℕ)
          → store_byte mem ((dst + i) % span) (mem ((src + i) % span)) a
            ≡ (if leb (dst + 0) a && ltb a (dst + (i + 1)) then old (src + (a - dst)) else old a)
      step a = rw (to, from, value) (ground (arith, m a))

  backward :
      (left i : ℕ) (mem : Segment)
      → src ≤ dst
      → i + left ≡ size
      → Moved dst src (size - i) size old mem
      → Moved dst src 0 size old (memcpy_loop span left size true dst src i mem)
  unfolding memcpy_loop
  backward zero i mem le e m = let done : size - i ≡ 0 = omega arith in rw done at m
  backward (suc left) i mem le e m =
      backward left (i + 1) (store_byte mem ((dst + c) % span) (mem ((src + c) % span))) le
        (omega arith) λ a. step a
    where
      c : ℕ
      c = size - (i + 1)

      to : (dst + c) % span ≡ dst + c
      to = mod-eq_of_lt (omega arith)

      from : (src + c) % span ≡ src + c
      from = mod-eq_of_lt (omega arith)

      value : mem (src + c) ≡ old (src + c)
      value = ground (arith, m (src + c))

      step :
          (a : ℕ)
          → store_byte mem ((dst + c) % span) (mem ((src + c) % span)) a
            ≡ (if leb (dst + c) a && ltb a (dst + size) then old (src + (a - dst)) else old a)
      step a = rw (to, from, value) (ground (arith, m a))

-- The loop moves a block that does not go past the last address.
memcpy_loop_lem :
    (span dst src size : ℕ) (mem : Segment)
    → dst + size ≤ span
    → src + size ≤ span
    → Moved dst src 0 size mem (memcpy_loop span size size (leb src dst) dst src 0 mem)
memcpy_loop_lem span dst src size mem d s = elim (Bool-cases (leb src dst)) [
  | inl down ↦ rw down (
      backward span dst src size mem d s size 0 mem (omega (arith, leb→le src dst down))
        (omega arith) start)
  | inr up ↦
      rw up (forward span dst src size mem d s size 0 mem (ground arith) (omega arith) start')
]
  where
    start : Moved dst src (size - 0) size mem mem
    start a = ground arith

    start' : Moved dst src 0 0 mem mem
    start' a = ground arith

-- `memcpy` returns the size and copies the bytes that the source had before the call, even if source
-- and destination overlap, and changes nothing else, for blocks that do not wrap round the segment.
pub memcpy_lem :
    (dst src size : ℕ) (mem : Segment)
    → dst + size ≤ 2 ^ 16
    → src + size ≤ 2 ^ 16
    → ((memcpy dst src size mem).0 ≡ size) × Moved dst src 0 size mem (memcpy dst src size mem).1
unfolding memcpy
memcpy_lem dst src size mem d s = (refl, memcpy_loop_lem (2 ^ 16) dst src size mem d s)

-- The same of `lmemcpy`, for blocks that do not go past the last linear address.
pub lmemcpy_lem :
    (dst src size : ℕ) (mem : Segment)
    → dst + size ≤ 2 ^ 32
    → src + size ≤ 2 ^ 32
    → Moved dst src 0 size mem (lmemcpy dst src size mem).1
unfolding lmemcpy
lmemcpy_lem dst src size mem d s = memcpy_loop_lem (2 ^ 32) dst src size mem d s

memset_loop_lem :
    (left i dst value size : ℕ) (old mem : Segment)
    → dst + size ≤ 2 ^ 16
    → i + left ≡ size
    → ((a : ℕ) → mem a ≡ (if leb dst a && ltb a (dst + i) then value else old a))
    → (a : ℕ)
    → memset_loop left dst value i mem a
      ≡ (if leb dst a && ltb a (dst + size) then value else old a)
unfolding memset_loop
memset_loop_lem zero i dst value size old mem d e m a = ground (arith, m a)
memset_loop_lem (suc left) i dst value size old mem d e m a =
    let to : u16 (dst + i) ≡ dst + i = omega arith in
    memset_loop_lem left (i + 1) dst value size old (store_byte mem (u16 (dst + i)) value) d
      (omega arith) (λ b. rw to (ground (arith, m b))) a

-- `memset` returns the size and sets every byte of the block, and changes nothing else, for a block
-- that does not wrap round the segment.
pub memset_lem :
    (dst value size : ℕ) (mem : Segment)
    → dst + size ≤ 2 ^ 16
    → ((memset dst value size mem).0 ≡ size)
      × ((a : ℕ)
          → (memset dst value size mem).1 a
            ≡ (if leb dst a && ltb a (dst + size) then value else mem a))
unfolding memset
memset_lem dst value size mem d =
    (refl, memset_loop_lem size 0 dst value size mem mem d (omega arith) (λ a. ground arith))

-- Equal bytes from index `i` on.
abbrev Same : ℕ → ℕ → ℕ → ℕ → Segment → Type 0
Same mem1 mem2 i size mem = (j : ℕ) → i ≤ j → j < size → mem (u16 (mem1 + j)) ≡ mem (u16 (mem2 + j))

memcmp_loop_lem :
    (left i mem1 mem2 size : ℕ) (mem : Segment)
    → i + left ≡ size
    → ((a : ℕ) → mem a < 256)
    → (memcmp_loop left mem1 mem2 i mem ≡ 0) ↔ Same mem1 mem2 i size mem
unfolding memcmp_loop
memcmp_loop_lem zero i mem1 mem2 size mem e bytes = (λ z j p q. absurd (omega arith), λ same. refl)
memcmp_loop_lem (suc left) i mem1 mem2 size mem e bytes =
    let rest = memcmp_loop_lem left (i + 1) mem1 mem2 size mem (omega arith) bytes in
    elim (ℕ_discrete (mem (u16 (mem1 + i))) (mem (u16 (mem2 + i)))) [
      | yes here ↦
          let hit : (mem (u16 (mem1 + i)) == mem (u16 (mem2 + i))) ≡ true = ground arith in
          rw hit (
            λ z j p q. elim (ℕ_discrete i j) [
              | yes at ↦ rw at at here
              | no other ↦ rest.0 z j (omega arith) q
            ],
            λ same. rest.1 (λ j p q. same j (omega arith) q),
          )
      | no apart ↦
          let miss : (mem (u16 (mem1 + i)) == mem (u16 (mem2 + i))) ≡ false = ground arith in
          rw miss (
            λ z. absurd (omega (arith, bytes (u16 (mem1 + i)), bytes (u16 (mem2 + i)))),
            λ same. absurd (apart (same i (omega arith) (omega arith))),
          )
    ]

-- `memcmp` gives 0 exactly for blocks with the same bytes.
pub memcmp_lem :
    (mem1 mem2 size : ℕ) (mem : Segment)
    → ((a : ℕ) → mem a < 256)
    → (memcmp mem1 mem2 size mem ≡ 0)
      ↔ ((j : ℕ) → 0 ≤ j → j < size → mem (u16 (mem1 + j)) ≡ mem (u16 (mem2 + j)))
unfolding memcmp
memcmp_lem mem1 mem2 size mem bytes = memcmp_loop_lem size 0 mem1 mem2 size mem (omega arith) bytes
