-- ===== src/Fs/Files/Grow.antt =====
-- What the loop of `fs_write_file` in source/fs.c that allocates blocks stores in an entry.
use nano_s.Prelude.{
  ℕ, zero, suc, ◌+◌, ◌≤◌, ◌<◌, ◌≡◌, refl, ap, ◌∙◌, true, false, List, arith, set, get_or, length,
  ltb, leb, get_or-set, length-set, dec_lt,
}
use nano_s.Fs.Types.{sfs_entryrefs, error_any}
use nano_s.Fs.Monad.{World, ok}
use nano_s.Fs.Table.{find_free_block}
use nano_s.Fs.Table.Access.{Healthy}
use nano_s.Fs.Table.Search.{with_super, find_free_block-with_super}
use nano_s.Fs.Files.{Growing, next_of_chain, grow_loop}

-- `k` references from index `i` on, all to the same block.
pub same_refs : ℕ → ℕ → ℕ → List ℕ → List ℕ
same_refs zero i block ref = ref
same_refs (suc k) i block ref = same_refs k (i + 1) block (set ref i block)

same_refs-before :
    (k i block j : ℕ) (ref : List ℕ) → j < i → get_or (same_refs k i block ref) j 0 ≡ get_or ref j 0
unfolding same_refs
same_refs-before zero i block j ref lt = refl
same_refs-before (suc k) i block j ref lt =
    same_refs-before k (i + 1) block j (set ref i block) (omega arith)
    ∙ (get_or-set ref i j block 0 ∙ ground arith)

pub get_or-same_refs :
    (k i block j : ℕ) (ref : List ℕ)
    → i + k ≤ length ref
    → i ≤ j
    → j < i + k
    → get_or (same_refs k i block ref) j 0 ≡ block
unfolding same_refs
get_or-same_refs zero i block j ref fits p q = absurd (omega arith)
get_or-same_refs (suc k) i block j ref fits p q = elim (dec_lt i j) [
  | yes lt ↦
      get_or-same_refs k (i + 1) block j (set ref i block) (omega (arith, length-set ref i block))
        (omega arith) (omega arith)
  | no ge ↦
      let e : j ≡ i = omega arith in
      same_refs-before k (i + 1) block j (set ref i block) (omega arith)
      ∙ (get_or-set ref i j block 0 ∙ ground arith)
]

next_of_chain_lem :
    (fuel disk : ℕ) (s : Growing) (w : World)
    → s.current_block ≤ sfs_entryrefs
    → next_of_chain fuel disk s w ≡ ok s w
unfolding next_of_chain
next_of_chain_lem zero disk s w h = refl
next_of_chain_lem (suc fuel) disk s w h =
    let stay : ltb sfs_entryrefs s.current_block ≡ false = ground arith in rw stay refl

-- The loop at its end, after `k` references to `block`.
abbrev pub with_refs : Growing → ℕ → ℕ → Growing
with_refs s k block = record s {
  current_block = s.final_block;
  tentry = (record s.tentry { ref = same_refs k s.current_block block s.tentry.ref });
}

-- From a world that a search for a free block leaves as it is.
grow_loop-settled :
    (fuel k disk block : ℕ) (s : Growing) (w : World)
    → find_free_block disk w ≡ ok block w
    → block < error_any
    → s.current_block + k ≡ s.final_block
    → s.final_block ≤ sfs_entryrefs
    → k ≤ fuel
    → grow_loop fuel disk s w ≡ ok (with_refs s k block) w
unfolding grow_loop same_refs
grow_loop-settled zero zero disk block s w found low e short enough =
    ap (λ (c : ℕ). ok (record s { current_block = c }) w) (omega arith)
grow_loop-settled zero (suc k) disk block s w found low e short enough = absurd (omega arith)
grow_loop-settled (suc fuel) zero disk block s w found low e short enough =
    let stop : ltb s.current_block s.final_block ≡ false = ground arith in
    rw stop (ap (λ (c : ℕ). ok (record s { current_block = c }) w) (omega arith))
grow_loop-settled (suc fuel) (suc k) disk block s w found low e short enough =
    let go : ltb s.current_block s.final_block ≡ true = ground arith in
    let good : leb error_any block ≡ false = ground arith in
    rw (go, next_of_chain_lem s.current_block disk s w (omega arith), found, good)
      (grow_loop-settled fuel k disk block
        (record s {
          current_block = s.current_block + 1;
          tentry = (record s.tentry { ref = set s.tentry.ref s.current_block block });
        })
        w found low (omega arith) short (omega arith))

-- The loop of `fs_write_file` that allocates blocks, on a disk without failures, where
-- `find_free_block` answers with a block that is no error code. When it needs one block or more,
-- all in the first entry of the file, it sets all the new references to that one block: the entry
-- is written only after the loop, so the search does not see the blocks that the loop has taken.
pub grow_loop-one_block :
    (k disk block : ℕ) (s : Growing) (w : World)
    → Healthy w disk
    → find_free_block disk w ≡ ok block (with_super w disk)
    → block < error_any
    → s.current_block + k ≡ s.final_block
    → s.final_block ≤ sfs_entryrefs
    → length s.tentry.ref ≡ sfs_entryrefs
    → 0 < k
    → (grow_loop s.final_block disk s w ≡ ok (with_refs s k block) (with_super w disk))
      × ((j : ℕ)
          → s.current_block ≤ j
          → j < s.final_block
          → get_or (with_refs s k block).tentry.ref j 0 ≡ block)
unfolding grow_loop same_refs
grow_loop-one_block k disk block s w h found low e short full pos = (
  run k s.final_block e short pos (omega arith),
  λ j p q. get_or-same_refs k s.current_block block j s.tentry.ref (omega arith) p (omega arith),
)
  where
    run :
        (k fuel : ℕ)
        → s.current_block + k ≡ s.final_block
        → s.final_block ≤ sfs_entryrefs
        → 0 < k
        → k ≤ fuel
        → grow_loop fuel disk s w ≡ ok (with_refs s k block) (with_super w disk)
    run zero fuel e short pos enough = absurd (omega arith)
    run (suc k) zero e short pos enough = absurd (omega arith)
    run (suc k) (suc fuel) e short pos enough =
        let go : ltb s.current_block s.final_block ≡ true = ground arith in
        let good : leb error_any block ≡ false = ground arith in
        rw (go, next_of_chain_lem s.current_block disk s w (omega arith), found, good)
          (grow_loop-settled fuel k disk block
            (record s {
              current_block = s.current_block + 1;
              tentry = (record s.tentry { ref = set s.tentry.ref s.current_block block });
            })
            (with_super w disk) (find_free_block-with_super w disk h ∙ found) low (omega arith)
            short (omega arith))
