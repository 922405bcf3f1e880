-- ===== src/Memory/Range.antt =====
-- Ranges of the memory of Memory.antt, and what `memcpy` does to them.
use nano_s.Prelude.{
  ℕ, zero, suc, ◌+◌, ◌-◌, ◌^◌, ◌≤◌, ◌<◌, ◌≡◌, refl, ap, ap₂, ◌∙◌, ◌∷◌, ◌++◌, arith, take, drop,
  length, get_or,
}
use nano_s.Memory.{Segment, range, memcpy}
use nano_s.Memory.Copy.{memcpy_lem}

pub range_ext :
    (mem mem' : Segment) (a a' n : ℕ)
    → ((i : ℕ) → i < n → mem (a + i) ≡ mem' (a' + i))
    → range mem a n ≡ range mem' a' n
unfolding range
range_ext mem mem' a a' zero h = refl
range_ext mem mem' a a' (suc n) h =
    let e : a + 0 ≡ a = omega arith in
    let e' : a' + 0 ≡ a' = omega arith in
    ap₂ ◌∷◌ (rw (e, e') at (h 0 (omega arith))) (
      range_ext mem mem' (a + 1) (a' + 1) n λ i lt.
        let f : a + 1 + i ≡ a + suc i = omega arith in
        let f' : a' + 1 + i ≡ a' + suc i = omega arith in rw (f, f') (h (suc i) (omega arith)))

pub range-append :
    (mem : Segment) (a m n : ℕ) → range mem a (m + n) ≡ range mem a m ++ range mem (a + m) n
unfolding range
range-append mem a zero n =
    let e : 0 + n ≡ n = omega arith in let f : a + 0 ≡ a = omega arith in rw (e, f) refl
range-append mem a (suc m) n =
    let e : suc m + n ≡ suc (m + n) = omega arith in
    let f : a + suc m ≡ a + 1 + m = omega arith in
    rw (e, f) (ap (◌∷◌ (mem a)) (range-append mem (a + 1) m n))

-- `memcpy` moves a range.
pub range-memcpy :
    (mem : Segment) (dst src n : ℕ)
    → dst + n ≤ 2 ^ 16
    → src + n ≤ 2 ^ 16
    → range (memcpy dst src n mem).1 dst n ≡ range mem src n
range-memcpy mem dst src n d s = range_ext (memcpy dst src n mem).1 mem dst src n λ i lt.
    let moved = (memcpy_lem dst src n mem d s).1 (dst + i) in
    let e : dst + i - dst ≡ i = omega arith in moved ∙ ground arith

pub take-range : (mem : Segment) (a k n : ℕ) → k ≤ n → take k (range mem a n) ≡ range mem a k
unfolding range
take-range mem a zero n h = refl
take-range mem a (suc k) zero h = absurd (omega arith)
take-range mem a (suc k) (suc n) h = ap (◌∷◌ (mem a)) (take-range mem (a + 1) k n (omega arith))

pub drop-range :
    (mem : Segment) (a k n : ℕ) → k ≤ n → drop k (range mem a n) ≡ range mem (a + k) (n - k)
unfolding range
drop-range mem a zero n h =
    let e : a + 0 ≡ a = omega arith in let f : n - 0 ≡ n = omega arith in rw (e, f) refl
drop-range mem a (suc k) zero h = absurd (omega arith)
drop-range mem a (suc k) (suc n) h =
    let e : a + suc k ≡ a + 1 + k = omega arith in
    let f : suc n - suc k ≡ n - k = omega arith in
    rw (e, f) (drop-range mem (a + 1) k n (omega arith))

pub length-range : (mem : Segment) (a n : ℕ) → length (range mem a n) ≡ n
unfolding range
length-range mem a zero = refl
length-range mem a (suc n) = ap suc (length-range mem (a + 1) n)

pub get_or-range : (mem : Segment) (a n i d : ℕ) → i < n → get_or (range mem a n) i d ≡ mem (a + i)
unfolding range
get_or-range mem a zero i d h = absurd (omega arith)
get_or-range mem a (suc n) zero d h = let e : a + 0 ≡ a = omega arith in rw e refl
get_or-range mem a (suc n) (suc i) d h =
    let e : a + suc i ≡ a + 1 + i = omega arith in
    rw e (get_or-range mem (a + 1) n i d (omega arith))
