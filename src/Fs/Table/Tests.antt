-- ===== src/Fs/Table/Tests.antt =====
-- A small disk, and witnesses for the access to its table (source/fs.c).
use nano_s.Prelude.{
  ap, sym, subst, ◌∙◌, ℕ, zero, suc, ◌<◌, ◌≡◌, ◌≢◌, refl, List, [], ◌∷◌, ◌++◌, ◌==◌, if◌then◌else◌,
  replicate, get_or, arith, ◌^◌, u16, get_or-replicate,
}
use nano_s.Disk.{no_disk, Bios, disk_size, read_disk, fetch}
use nano_s.Fs.Types.{Entry, IsEntry, SuperBlock, zero_entry, sfs_type_id, t_dir, t_file}
use nano_s.Fs.Image.{
  decode_entry-encode_entry, encode_entry, encode_super, decode_super, decode_entry,
}
use nano_s.Fs.Monad.{World, ok}
use nano_s.Fs.Time.{fs_systime_to_fstime}
use nano_s.Fs.Table.Stamp.{Chain, final, link, Apart, stamped, set_entry_time_to_current_lem}
use nano_s.Fs.Table.{
  set_entry_time_to_current, get_entry_n, write_entry, find_free_entry, find_free_block, read_super,
  reading, entry_at, free_block_from, found_from, refers, free_entry_from, needed_blocks, mem_ref,
}
use nano_s.Fs.Table.Access.{
  with_entry-Healthy, table-with_entry, table-with_entry_other, Healthy, table, with_entry,
  get_entry_n-write_entry,
}
use nano_s.Fs.Table.Search.{super, with_super}

-- The BIOS calls all succeed.
abbrev pub no_failures : Bios
no_failures = record { read_status = λ d s n. 0; write_status = λ d s n. 0 }

abbrev pub hd0 : ℕ
hd0 = 0x80

abbrev pub root_dir : Entry
root_dir = record zero_entry {
  flags = t_dir;
  name = 46 ∷ replicate 14 0;
  size = 1;
  ref = 1 ∷ replicate 119 0;
}

-- 700 bytes in the blocks 5 and 6.
abbrev pub notes : Entry
notes = record zero_entry {
  flags = t_file;
  name = 110 ∷ replicate 14 0;
  size = 700;
  ref = 5 ∷ 6 ∷ replicate 118 0;
}

abbrev pub small_super : SuperBlock
small_super = record { kind = sfs_type_id; size = 20; nentries = 3; bootstart = 5 }

abbrev pub small_media : ℕ → ℕ → List ℕ
small_media disk sector =
    if sector == 1
    then encode_super small_super ++ replicate 496 0
    else if sector == 2
    then encode_entry root_dir
    else if sector == 3
    then encode_entry notes
    else replicate 512 0

-- A root directory with one file, and an unused entry.
abbrev pub small : World
small = record {
  bios = no_failures;
  disk_info = record no_disk { id = hd0; size = 1 } ∷ no_disk ∷ no_disk ∷ no_disk ∷ [];
  media = small_media;
  disk_buff = [];
  system_disk = hd0;
  clock = record { year = 2019; month = 1; day = 1; hour = 0; minute = 0; second = 0 };
}

pub small-Healthy : Healthy small hd0
unfolding disk_size
small-Healthy = record { known = λ e. ground arith; reads = λ s n. refl; writes = λ s n. refl }

notes_refs : (i : ℕ) → get_or notes.ref i 0 < 2 ^ 32
notes_refs zero = omega arith
notes_refs (suc zero) = omega arith
notes_refs (suc (suc i)) = omega (arith, get_or-replicate {A = ℕ} 118 i 0)

pub notes-IsEntry : IsEntry notes
notes-IsEntry = record {
  flags_fit = omega arith;
  name_length = refl;
  time_fits = omega arith;
  size_fits = omega arith;
  parent_fits = omega arith;
  next_fits = omega arith;
  ref_length = refl;
  ref_fits = notes_refs;
}

get_entry_n-write_entry_example :
    (write_entry notes hd0 2 small ≡ ok 0 (with_entry small hd0 2 notes))
    × (get_entry_n hd0 2 (with_entry small hd0 2 notes)
        ≡ ok (2, notes) (with_entry small hd0 2 notes))
    × ((d m : ℕ) → (d ≡ hd0 → m ≢ 2) → table (with_entry small hd0 2 notes) d m ≡ table small d m)
get_entry_n-write_entry_example =
    get_entry_n-write_entry small hd0 2 notes small-Healthy notes-IsEntry (omega arith)

pub nentries_small : (super small hd0).nentries ≡ 3
unfolding super decode_super encode_super
nentries_small = refl

-- Runs of the searches on the small disk.
pub small_free_block : find_free_block hd0 small ≡ ok 7 (with_super small hd0)
unfolding find_free_block read_super reading read_disk fetch free_block_from found_from entry_at
    get_entry_n decode_super encode_super decode_entry encode_entry refers needed_blocks mem_ref
small_free_block = refl

pub small_free_entry : find_free_entry hd0 small ≡ ok 2 (with_super small hd0)
unfolding find_free_entry read_super reading read_disk fetch free_entry_from entry_at get_entry_n
    decode_super encode_super decode_entry encode_entry
small_free_entry = refl

-- A file of two entries, 2 and then 1.
abbrev notes_linked : Entry
notes_linked = record notes { next = 1 }

notes_linked-IsEntry : IsEntry notes_linked
notes_linked-IsEntry = record {
  flags_fit = omega arith;
  name_length = refl;
  time_fits = omega arith;
  size_fits = omega arith;
  parent_fits = omega arith;
  next_fits = omega arith;
  ref_length = refl;
  ref_fits = notes_refs;
}

abbrev two_entries : World
two_entries = with_entry small hd0 2 notes_linked

second_entry : table two_entries hd0 1 ≡ notes
second_entry =
    table-with_entry_other small hd0 2 notes_linked hd0 1 (λ e z. absurd (omega arith)) ∙ first_read
  where
    first_read : table small hd0 1 ≡ notes
    first_read = unfold table in decode_entry-encode_entry notes notes-IsEntry

two_entries-Chain : Chain (table two_entries hd0) 2 (2 ∷ 1 ∷ [])
two_entries-Chain =
    let head = table-with_entry small hd0 2 notes_linked notes_linked-IsEntry in
    link (omega arith) (subst IsEntry (sym head) notes_linked-IsEntry)
      (ap (λ (e : Entry). u16 e.next) head) (λ e. absurd (omega arith)) apart
      (final (omega arith) (subst IsEntry (sym second_entry) notes-IsEntry)
        (ap (λ (e : Entry). u16 e.next) second_entry))
  where
    apart : Apart 2 (1 ∷ [])
    apart zero lt e = absurd (omega arith)
    apart (suc i) lt e = absurd (omega arith)

set_entry_time_to_current_lem_example :
    let fstime = fs_systime_to_fstime small.clock in
    let after = stamped two_entries hd0 fstime (2 ∷ 1 ∷ []) in
    (set_entry_time_to_current hd0 2 two_entries ≡ ok 0 after)
    × ((i : ℕ)
        → i < 2
        → table after hd0 (get_or (2 ∷ 1 ∷ []) i 0)
          ≡ record (table two_entries hd0 (get_or (2 ∷ 1 ∷ []) i 0)) { time = fstime })
    × ((d k : ℕ) → (d ≡ hd0 → Apart k (2 ∷ 1 ∷ [])) → table after d k ≡ table two_entries d k)
set_entry_time_to_current_lem_example =
    set_entry_time_to_current_lem two_entries hd0
      (with_entry-Healthy small hd0 2 notes_linked small-Healthy)
      (record {
        year_from = omega arith;
        year_to = omega arith;
        month_from = omega arith;
        month_to = omega arith;
        day_from = omega arith;
        day_to = omega arith;
        hour_to = omega arith;
        minute_to = omega arith;
        second_to = omega arith;
      })
      two_entries-Chain (omega arith)
