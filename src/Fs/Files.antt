-- ===== src/Fs/Files.antt =====
-- Reading and writing files, source/fs.c: `fs_read_file` and `fs_write_file`.
pub mod Grow
mod Tests
use nano_s.Prelude.{
  ℕ, zero, suc, ◌+◌, ◌-◌, ◌*◌, ◌/◌, ◌%◌, ◌&&◌, List, [], ◌++◌, ◌==◌, ltb, if◌then◌else◌, u16, sub16,
  min, take, drop, get_or, set, replicate, inl, inr,
}
use nano_s.Strings.{strcpy_s}
use nano_s.Disk.{block_size, error_not_found}
use nano_s.Fs.Types.{
  Entry, zero_entry, sfs_entryrefs, sfs_namesize, t_file, t_dir, unknown_value, error_io, wf_create,
  wf_truncate,
}
use nano_s.Fs.Monad.{M, pure, fail, ◌>>=◌, ◌>>◌, check, attempt}
use nano_s.Fs.Table.{
  reading, writing, entry_at, put_entry, set_entry_time_to_current, find_free_entry, needed_blocks,
  find_free_block, is_set,
}
use nano_s.Fs.Chain.{
  get_nref_entry_from_entry, set_entry_refcount, set_entry_size, add_ref_in_entry,
}
use nano_s.Fs.Paths.{string_to_name, path_get_disk, path_parse_disk_parent_name, fs_get_entry}

-- The locals of the loop of `fs_read_file`; `out` is what is in `buff`, and `read` its length.
pub record Loading : Type 0 where
  pub nentry : ℕ
  pub entry : Entry
  pub block : ℕ
  pub offset : ℕ
  pub read : ℕ
  pub out : List ℕ

-- Every turn reads a byte at least, so `count` is enough fuel.
pub load_loop : ℕ → ℕ → ℕ → ℕ → Loading → M (ℕ × List ℕ)
load_loop zero disk buff count s = pure (s.read, s.out)
load_loop (suc fuel) disk buff count s =
    if ltb s.read count
    then (let amount = min (block_size - s.offset) (count - s.read) in
        get_nref_entry_from_entry s.entry disk s.nentry s.block >>= λ r.
        let block = s.block % sfs_entryrefs in
        reading disk (u16 (get_or r.1.ref block 0)) s.offset amount (u16 (buff + s.read)) >>= λ t.
        if t.0 == 0
        then load_loop fuel disk buff count (record {
          nentry = r.0;
          entry = r.1;
          block = block + 1;
          offset = 0;
          read = s.read + amount;
          out = s.out ++ t.1;
        })
        else fail error_io)
    else pure (s.read, s.out)

-- `buff` is an address; the results are the number returned and the bytes stored there.
pub fs_read_file : ℕ → List ℕ → ℕ → ℕ → M (ℕ × List ℕ)
unfolding load_loop
fs_read_file buff path offset count = path_get_disk path >>= λ disk.
    fs_get_entry path unknown_value unknown_value >>= λ r.
    if is_set r.1.flags t_file
    then (let from = min offset r.1.size in
        let amount = min count (r.1.size - from) in
        load_loop amount disk buff amount (record {
          nentry = r.0;
          entry = r.1;
          block = from / block_size;
          offset = from % block_size;
          read = 0;
          out = [];
        }))
    else pure (r.0, [])

-- The branch of `fs_write_file` that creates the file: its disk, index and entry.
pub create_file : List ℕ → M (ℕ × ℕ × Entry)
create_file path = path_parse_disk_parent_name path >>= λ p.
    let name = string_to_name (drop p.name path) in
    find_free_entry p.disk >>= λ nentry.
    let entry : Entry = record zero_entry {
      flags = t_file;
      name = (strcpy_s (replicate sfs_namesize 0) name sfs_namesize).1;
      parent = p.parent;
    } in
    put_entry entry p.disk nentry
    >> add_ref_in_entry p.disk (u16 p.parent) nentry
    >> pure (p.disk, nentry, entry)

-- The file to write to, if it is there or is to be created.
pub open_file : List ℕ → ℕ → M (ℕ × ℕ × Entry)
unfolding create_file
open_file path flags = path_get_disk path >>= λ disk.
    attempt (fs_get_entry path unknown_value unknown_value) >>= λ r. elim r [
      | inl found ↦
          if is_set found.1.flags t_dir then fail error_not_found else pure (disk, found.0, found.1)
      | inr code ↦
          if code == error_not_found && is_set flags wf_create then create_file path else fail code
    ]

-- The locals of the loop that allocates blocks.
pub record Growing : Type 0 where
  pub current_block : ℕ
  pub final_block : ℕ
  pub tentry : Entry
  pub ntentry : ℕ

-- The inner loop. A file has at most 128 blocks, so `current_block` is enough fuel.
pub next_of_chain : ℕ → ℕ → Growing → M Growing
next_of_chain zero disk s = pure s
next_of_chain (suc fuel) disk s =
    if ltb sfs_entryrefs s.current_block
    then (let next = u16 s.tentry.next in
        put_entry s.tentry disk s.ntentry
        >> (entry_at disk next >>= λ e. next_of_chain fuel disk (record {
          current_block = s.current_block - sfs_entryrefs;
          final_block = sub16 s.final_block sfs_entryrefs;
          tentry = e;
          ntentry = next;
        })))
    else pure s

pub grow_loop : ℕ → ℕ → Growing → M Growing
grow_loop zero disk s = pure s
grow_loop (suc fuel) disk s =
    if ltb s.current_block s.final_block
    then (next_of_chain s.current_block disk s >>= λ t.
        (find_free_block disk >>= check) >>= λ block. grow_loop fuel disk (record t {
          current_block = t.current_block + 1;
          tentry = (record t.tentry { ref = set t.tentry.ref t.current_block block });
        }))
    else pure s

-- The resize of `fs_write_file` when the file is too short; `size` is `offset + count`.
pub grow_file : ℕ → ℕ → Entry → ℕ → M Entry
unfolding grow_loop
grow_file disk nentry entry size =
    let from = needed_blocks (u16 entry.size) in
    let final = needed_blocks size in
    set_entry_refcount disk nentry final
    >> set_entry_size disk nentry size
    >> (entry_at disk nentry >>= λ tentry.
        grow_loop final disk
          (record { current_block = from; final_block = final; tentry = tentry; ntentry = nentry })
        >>= λ s. put_entry s.tentry disk s.ntentry >> entry_at disk nentry)

-- The other resize. The source leaves out an argument of `set_entry_refcount`: `stale` is the word
-- that the call finds in its place.
pub shrink_file : ℕ → ℕ → ℕ → ℕ → M Entry
shrink_file stale disk nentry size =
    set_entry_refcount disk nentry stale >> set_entry_size disk nentry size >> entry_at disk nentry

-- The locals of the loop that writes.
pub record Saving : Type 0 where
  pub entry : Entry
  pub offset : ℕ
  pub current_block : ℕ

pub skip_entries : ℕ → ℕ → Saving → M Saving
skip_entries zero disk s = pure s
skip_entries (suc fuel) disk s =
    if ltb sfs_entryrefs s.current_block
    then (entry_at disk (u16 s.entry.next) >>= λ e. skip_entries fuel disk (record {
      entry = e;
      offset = sub16 s.offset (sfs_entryrefs * block_size);
      current_block = s.current_block - sfs_entryrefs;
    }))
    else pure s

-- Every turn writes a byte at least, so `count` is enough fuel.
pub save_loop : ℕ → ℕ → ℕ → List ℕ → Entry → ℕ → ℕ → ℕ → M ℕ
unfolding skip_entries
save_loop zero disk buff bytes entry offset count written = pure written
save_loop (suc fuel) disk buff bytes entry offset count written =
    if count == 0
    then pure written
    else let to_copy = min count (block_size - offset % block_size) in
      let current_block = sub16 (needed_blocks (u16 (offset + to_copy))) 1 in
      skip_entries current_block disk
        (record { entry = entry; offset = offset; current_block = current_block })
      >>= λ s.
          writing disk (u16 (get_or s.entry.ref s.current_block 0)) (s.offset % block_size) to_copy
            (u16 (buff + written)) (take to_copy (drop written bytes))
          >>= λ result.
              if result == 0
              then save_loop fuel disk buff bytes s.entry (u16 (s.offset + to_copy))
                  (count - to_copy) (written + to_copy)
              else fail result

pub fs_write_file : ℕ → ℕ → List ℕ → List ℕ → ℕ → ℕ → ℕ → M ℕ
unfolding open_file grow_file shrink_file save_loop
fs_write_file stale buff bytes path offset count flags =
    open_file path flags >>= λ (disk, nentry, opened).
    let size = u16 (offset + count) in
    (if ltb opened.size size then grow_file disk nentry opened size else pure opened) >>= λ grown.
    (if ltb size grown.size && is_set flags wf_truncate
      then shrink_file stale disk nentry size
      else pure grown)
    >>= λ entry. save_loop count disk buff bytes entry offset count 0 >>= λ written.
        set_entry_time_to_current disk nentry >> pure written
