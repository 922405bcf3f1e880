-- ===== src/Net/Send/Range.antt =====
-- Ranges of memory after the stores of source/net.c.
use nano_s.Prelude.{
  ℕ, suc, ◌+◌, ◌≤◌, ◌<◌, ◌≡◌, ◌⊎◌, inl, refl, ap₂, ◌∙◌, List, [], ◌∷◌, ◌++◌, arith, length,
}
use nano_s.Memory.{Segment, range, store_byte}
use nano_s.Memory.Range.{range_ext}
use nano_s.Net.Send.{put}

put-apart :
    (mem : Segment) (a x : ℕ) (bs : List ℕ) → (x < a) ⊎ (a + length bs ≤ x) → put mem a bs x ≡ mem x
unfolding put
put-apart mem a x [] h = refl
put-apart mem a x (b ∷ bs) h =
    put-apart (store_byte mem a b) (a + 1) x bs (ground arith) ∙ ground arith

pub put-append :
    (mem : Segment) (a : ℕ) (xs ys : List ℕ)
    → put mem a (xs ++ ys) ≡ put (put mem a xs) (a + length xs) ys
unfolding put
put-append mem a [] ys = let e : a + 0 ≡ a = omega arith in rw e refl
put-append mem a (x ∷ xs) ys =
    let e : a + suc (length xs) ≡ a + 1 + length xs = omega arith in
    rw e (put-append (store_byte mem a x) (a + 1) xs ys)

-- A range beside the stores is as before.
pub range-put_apart :
    (mem : Segment) (a c n : ℕ) (bs : List ℕ)
    → (c + n ≤ a) ⊎ (a + length bs ≤ c)
    → range (put mem a bs) c n ≡ range mem c n
range-put_apart mem a c n bs h =
    range_ext (put mem a bs) mem c c n λ i lt. put-apart mem a (c + i) bs (ground arith)

-- The range of the stores has the bytes that are stored.
pub range-put : (mem : Segment) (a : ℕ) (bs : List ℕ) → range (put mem a bs) a (length bs) ≡ bs
unfolding range put
range-put mem a [] = refl
range-put mem a (b ∷ bs) =
    ap₂ ◌∷◌ (put-apart (store_byte mem a b) (a + 1) a bs (inl (omega arith)) ∙ ground arith)
      (range-put (store_byte mem a b) (a + 1) bs)
