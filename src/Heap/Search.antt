-- ===== src/Heap/Search.antt =====
-- What the scan of `heap_alloc` finds: `find_run` of Heap.antt.
use nano_s.Prelude.{
  ℕ, suc, ◌+◌, ◌≤◌, ◌<◌, ◌≡◌, refl, ◌∙◌, ap, sym, true, false, some, none, List, [], ◌∷◌, ◌==◌, leb,
  arith, dec_lt, length, get_or, Bool-cases, inl, inr,
}
use nano_s.Heap.{Block, unused, find_run}

-- `heap[j].used`; an index past the table counts as free.
abbrev pub used_at : List Block → ℕ → ℕ
used_at heap j = (get_or heap j unused).used

-- All blocks of [lo, hi) are free.
abbrev pub IsFree : List Block → ℕ → ℕ → Type 0
IsFree heap lo hi = (j : ℕ) → lo ≤ j → j < hi → used_at heap j ≡ 0

-- `bs` is the rest of `heap` from index `i` on.
abbrev pub IsRest : List Block → ℕ → List Block → Type 0
IsRest heap i bs = (k : ℕ) → get_or bs k unused ≡ get_or heap (i + k) unused

pub IsRest-tail :
    (heap : List Block) (i : ℕ) (b : Block) (bs : List Block)
    → IsRest heap i (b ∷ bs)
    → IsRest heap (i + 1) bs
IsRest-tail heap i b bs h k =
    let e : i + suc k ≡ i + 1 + k = omega arith in h (suc k) ∙ ap (λ j. get_or heap j unused) e

pub IsRest-whole : (heap : List Block) → IsRest heap 0 heap
IsRest-whole heap k = let e : k ≡ 0 + k = omega arith in ap (λ j. get_or heap j unused) e

IsRest-head :
    (heap : List Block) (i : ℕ) (b : Block) (bs : List Block)
    → IsRest heap i (b ∷ bs)
    → b.used ≡ used_at heap i
IsRest-head heap i b bs h =
    let e : i + 0 ≡ i = omega arith in ap (λ (c : Block). c.used) (h 0) ∙ ap (λ j. used_at heap j) e

-- A run grows by a free block.
IsFree-suc :
    (heap : List Block) (lo i : ℕ) → IsFree heap lo i → used_at heap i ≡ 0 → IsFree heap lo (i + 1)
IsFree-suc heap lo i h e j p q = ground (arith, h j)

module _ (n i f : ℕ) (b : Block) (bs : List Block) where
  find_run-used : (b.used == 0) ≡ false → find_run n i f (b ∷ bs) ≡ find_run n (i + 1) 0 bs
  unfolding find_run
  find_run-used u = ground arith

  find_run-last : (b.used == 0) ≡ true → leb n (f + 1) ≡ true → find_run n i f (b ∷ bs) ≡ some i
  unfolding find_run
  find_run-last u l = ground arith

  find_run-more :
      (b.used == 0) ≡ true
      → leb n (f + 1) ≡ false
      → find_run n i f (b ∷ bs) ≡ find_run n (i + 1) (f + 1) bs
  unfolding find_run
  find_run-more u l = ground arith

module _ (heap : List Block) (n : ℕ) where
  -- The blocks of a run that ends at `r` are free.
  abbrev pub Ends : ℕ → Type 0
  Ends r = (n ≤ r + 1) × ((j : ℕ) → r < j + n → j ≤ r → used_at heap j ≡ 0)

  pub find_run-some :
      (i f : ℕ) (bs : List Block) {r : ℕ}
      → IsRest heap i bs
      → f ≤ i
      → ((j : ℕ) → i ≤ j + f → j < i → used_at heap j ≡ 0)
      → find_run n i f bs ≡ some r
      → Ends r × (r < i + length bs)
  find_run-some i f [] {r} rest le free e =
      let e' : find_run n i f [] ≡ none = unfold find_run in refl in cc (e, e')
  find_run-some i f (b ∷ bs) {r} rest le free e = elim (Bool-cases (b.used == 0)) [
    | inl u ↦
        let here : used_at heap i ≡ 0 = ground (arith, IsRest-head heap i b bs rest) in
        elim (Bool-cases (leb n (f + 1))) [
          | inl l ↦
              let at : some i ≡ some r = sym (find_run-last n i f b bs u l) ∙ e in
              let is : i ≡ r = ground arith in
              ((ground arith, λ j p q. ground (arith, free j)), omega arith)
          | inr l ↦
              let (a, c) =
                find_run-some (i + 1) (f + 1) bs (IsRest-tail heap i b bs rest) (omega arith)
                  (λ j p q. ground (arith, free j)) (sym (find_run-more n i f b bs u l) ∙ e) in
              (a, omega arith)
        ]
    | inr u ↦
        let (a, c) =
          find_run-some (i + 1) 0 bs (IsRest-tail heap i b bs rest) (omega arith)
            (λ j p q. absurd (omega arith)) (sym (find_run-used n i f b bs u) ∙ e) in
        (a, omega arith)
  ]

  -- `none`: no run of `n` free blocks starts at or after `i - f`.
  pub find_run-none :
      (i f s : ℕ) (bs : List Block)
      → IsRest heap i bs
      → f < n
      → i ≤ s + f
      → s + n ≤ i + length bs
      → find_run n i f bs ≡ none
      → ¬ IsFree heap s (s + n)
  find_run-none i f s [] rest lt le fits e free = absurd (omega arith)
  find_run-none i f s (b ∷ bs) rest lt le fits e free = elim (Bool-cases (b.used == 0)) [
    | inl u ↦ elim (Bool-cases (leb n (f + 1))) [
      | inl l ↦ cc (find_run-last n i f b bs u l, e)
      | inr l ↦
          find_run-none (i + 1) (f + 1) s bs (IsRest-tail heap i b bs rest) (ground arith)
            (omega arith) (omega arith) (sym (find_run-more n i f b bs u l) ∙ e) free
    ]
    | inr u ↦ elim (dec_lt i s) [
      | yes after ↦
          find_run-none (i + 1) 0 s bs (IsRest-tail heap i b bs rest) (omega arith) (omega arith)
            (omega arith) (sym (find_run-used n i f b bs u) ∙ e) free
      | no inside ↦ ground (arith, IsRest-head heap i b bs rest, free i)
    ]
  ]
