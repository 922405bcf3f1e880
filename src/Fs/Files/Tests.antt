-- ===== src/Fs/Files/Tests.antt =====
-- Witness for the allocation of blocks of source/fs.c, on the small disk.
use nano_s.Prelude.{ℕ, ◌≤◌, ◌<◌, ◌≡◌, refl, arith, get_or}
use nano_s.Fs.Types.{zero_entry, t_file}
use nano_s.Fs.Monad.{ok}
use nano_s.Fs.Table.Search.{with_super}
use nano_s.Fs.Table.Tests.{small, hd0, small-Healthy, small_free_block}
use nano_s.Fs.Files.{Growing, grow_loop}
use nano_s.Fs.Files.Grow.{grow_loop-one_block, with_refs}

-- An empty file that grows to three blocks.
abbrev growing : Growing
growing = record {
  current_block = 0;
  final_block = 3;
  tentry = record zero_entry { flags = t_file; size = 1500 };
  ntentry = 2;
}

grow_loop-one_block_example :
    (grow_loop 3 hd0 growing small ≡ ok (with_refs growing 3 7) (with_super small hd0))
    × ((j : ℕ) → 0 ≤ j → j < 3 → get_or (with_refs growing 3 7).tentry.ref j 0 ≡ 7)
grow_loop-one_block_example =
    grow_loop-one_block 3 hd0 7 growing small small-Healthy small_free_block (omega arith)
      (omega arith) (omega arith) refl (omega arith)
