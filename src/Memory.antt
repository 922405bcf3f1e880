-- ===== src/Memory.antt =====
-- Blocks of memory, source/ulib/ulib.c: `memcpy`, `memset` and `memcmp` over a segment, the bytes of
-- its 16-bit addresses, and `lmemcpy` and `lmemset` over far memory.
pub mod Copy
pub mod Range
use nano_s.Prelude.{
  ℕ, zero, suc, ◌+◌, ◌-◌, ◌%◌, ◌^◌, List, [], ◌∷◌, Bool, true, false, ◌==◌, ltb, leb, if◌then◌else◌,
  u16, u32, sub16,
}

abbrev pub Segment : Type 0
Segment = ℕ → ℕ

-- `mem[addr] = value`
abbrev pub store_byte : Segment → ℕ → ℕ → Segment
store_byte mem addr value a = if a == addr then value else mem a

-- The `n` bytes from an address on.
unfoldable pub range : Segment → ℕ → ℕ → List ℕ
range mem addr zero = []
range mem addr (suc n) = mem addr ∷ range mem (addr + 1) n

-- The loop of `memcpy` and of `lmemcpy` at `i`, with `left` turns to go; there are `span` addresses.
pub memcpy_loop : ℕ → ℕ → ℕ → Bool → ℕ → ℕ → ℕ → Segment → Segment
memcpy_loop span zero size rdir dst src i mem = mem
memcpy_loop span (suc left) size rdir dst src i mem =
    let c = if rdir then size - (i + 1) else i in
    memcpy_loop span left size rdir dst src (i + 1)
      (store_byte mem ((dst + c) % span) (mem ((src + c) % span)))

-- What is returned, and the segment.
pub memcpy : ℕ → ℕ → ℕ → Segment → ℕ × Segment
memcpy dst src size mem = (size, memcpy_loop (2 ^ 16) size size (leb src dst) dst src 0 mem)

-- The same for far memory: `mem` has the bytes of the 32-bit linear addresses.
pub lmemcpy : ℕ → ℕ → ℕ → Segment → ℕ × Segment
lmemcpy dst src size mem = (size, memcpy_loop (2 ^ 32) size size (leb src dst) dst src 0 mem)

-- The loop of `memset` at `i`.
pub memset_loop : ℕ → ℕ → ℕ → ℕ → Segment → Segment
memset_loop zero dst value i mem = mem
memset_loop (suc left) dst value i mem =
    memset_loop left dst value (i + 1) (store_byte mem (u16 (dst + i)) value)

pub memset : ℕ → ℕ → ℕ → Segment → ℕ × Segment
memset dst value size mem = (size, memset_loop size dst value 0 mem)

-- The loop of `lmemset` at `i`.
pub lmemset_loop : ℕ → ℕ → ℕ → ℕ → Segment → Segment
lmemset_loop zero dst value i mem = mem
lmemset_loop (suc left) dst value i mem =
    lmemset_loop left dst value (i + 1) (store_byte mem (u32 (dst + i)) value)

pub lmemset : ℕ → ℕ → ℕ → Segment → ℕ × Segment
lmemset dst value size mem = (size, lmemset_loop size dst value 0 mem)

-- The loop of `memcmp` at `i`.
pub memcmp_loop : ℕ → ℕ → ℕ → ℕ → Segment → ℕ
memcmp_loop zero mem1 mem2 i mem = 0
memcmp_loop (suc left) mem1 mem2 i mem =
    let a = mem (u16 (mem1 + i)) in
    let b = mem (u16 (mem2 + i)) in
    let rest = memcmp_loop left mem1 mem2 (i + 1) mem in if a == b then rest else sub16 a b

pub memcmp : ℕ → ℕ → ℕ → Segment → ℕ
memcmp mem1 mem2 size mem = memcmp_loop size mem1 mem2 0 mem
