-- ===== src/Fs/Table/Search.antt =====
-- The searches of source/fs.c through the table, on a disk without failures.
use nano_s.Prelude.{
  min, get_or, ◌/◌, ◌%◌, ◌&&◌, ℕ, zero, suc, ◌+◌, ◌≤◌, ◌≡◌, refl, Bool, Bool-cases, not, ◌==◌,
  arith, take, bit_and, inl, inr, Searched, Searched-empty, Searched-here, Searched-later, any_from,
}
use nano_s.Disk.Aligned.{read_disk-prefix}
use nano_s.Fs.Types.{SuperBlock, Entry, f_used, error_no_space}
use nano_s.Fs.Image.{decode_super}
use nano_s.Fs.Monad.{World, ok, err}
use nano_s.Fs.Table.{read_super, reading, local, free_entry_from, find_free_entry, find_free_block}
use nano_s.Fs.Table.Access.{Healthy, table, n_limit, entry_at_lem}

-- The superblock of the disk.
unfoldable pub super : World → ℕ → SuperBlock
super w disk = decode_super (take 16 (w.media disk 1))

-- `disk_buff` after the superblock is read.
abbrev pub with_super : World → ℕ → World
with_super w disk = record w { disk_buff = w.media disk 1 }

pub with_super-Healthy : (w : World) (disk : ℕ) → Healthy w disk → Healthy (with_super w disk) disk
with_super-Healthy w disk h = record { known = h.known; reads = h.reads; writes = h.writes }

pub read_super_lem :
    (w : World) (disk : ℕ)
    → Healthy w disk
    → read_super disk w ≡ ok (super w disk) (with_super w disk)
unfolding read_super reading super
read_super_lem w disk h =
    rw
      (read_disk-prefix w.bios w.disk_info w.media w.disk_buff disk 1 16 local h.known (omega arith)
        (omega arith) (omega arith) (omega arith) (h.reads 1 1))
      refl

abbrev pub is_unused : World → ℕ → ℕ → Bool
is_unused w disk n = bit_and (table w disk n).flags f_used == 0

free_entry_from_lem :
    (left : ℕ) (w : World) (disk n hi : ℕ)
    → Healthy w disk
    → n + left ≡ hi
    → hi ≤ n_limit
    → Searched
        (is_unused w disk)
        n
        hi
        (λ k. ok k w)
        (err error_no_space w)
        (free_entry_from left disk n w)
unfolding free_entry_from
free_entry_from_lem zero w disk n hi h e lt = Searched-empty _ _ _ n hi (omega arith) refl
free_entry_from_lem (suc left) w disk n hi h e lt = elim (Bool-cases (is_unused w disk n)) [
  | inl free ↦
      Searched-here _ _ _ n hi (omega arith) free
        (rw (entry_at_lem w disk n h (omega arith), free) refl)
  | inr used ↦ Searched-later _ _ _ n hi used (
      rw (entry_at_lem w disk n h (omega arith), used)
        (free_entry_from_lem left w disk (n + 1) hi h (omega arith) lt))
]

-- On a disk without failures, whose superblock counts at most the entries that a 16-bit block
-- number reaches, `find_free_entry` answers with the first unused entry of the table, or with
-- ERROR_NO_SPACE if all entries that the superblock counts are used.
pub find_free_entry_lem :
    (w : World) (disk : ℕ)
    → Healthy w disk
    → (super w disk).nentries ≤ n_limit
    → Searched
        (is_unused w disk)
        0
        (super w disk).nentries
        (λ k. ok k (with_super w disk))
        (err error_no_space (with_super w disk))
        (find_free_entry disk w)
unfolding find_free_entry table
find_free_entry_lem w disk h lt = rw (read_super_lem w disk h) (
    free_entry_from_lem (super w disk).nentries (with_super w disk) disk 0 _
      (with_super-Healthy w disk h) (omega arith) lt)

-- Whether one of the blocks of a file is `block`: of its 120 references, as many count as blocks of 512
-- bytes are needed for its size modulo 2 ^ 16.
abbrev pub uses : ℕ → Entry → Bool
uses block entry =
    not (bit_and entry.flags 2 == 0)
    && any_from (min ((entry.size % 65536 + 511) / 512) 120) 0 (λ i. get_or entry.ref i 0 == block)

abbrev pub is_referred : World → ℕ → ℕ → Bool
is_referred w disk block = any_from (super w disk).nentries 0 (λ n. uses block (table w disk n))

-- Reading the superblock once more changes nothing.
pub find_free_block-with_super :
    (w : World) (disk : ℕ)
    → Healthy w disk
    → find_free_block disk (with_super w disk) ≡ find_free_block disk w
unfolding find_free_block super
find_free_block-with_super w disk h =
    let again = read_super_lem (with_super w disk) disk (with_super-Healthy w disk h) in
    let once = read_super_lem w disk h in rw (again, once) refl
