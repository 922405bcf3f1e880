-- ===== src/Fs/Table.antt =====
-- The entries table, source/fs.c: `get_entry_n`, `write_entry`, `set_entry_time_to_current`,
-- `find_free_entry`, `needed_blocks`, `find_free_block` and `get_entry_refcount`.
pub mod Access
pub mod Search
pub mod Stamp
pub mod Tests
use nano_s.Prelude.{
  ℕ, zero, suc, ◌+◌, ◌-◌, ◌*◌, ◌/◌, ◌%◌, ◌^◌, Bool, true, false, not, ◌&&◌, ◌||◌, List, [], ◌∷◌,
  ◌==◌, if◌then◌else◌, min, u16, u32, bit_and, take,
}
use nano_s.Disk.{read_disk, write_disk, block_size}
use nano_s.Fs.Types.{
  Entry, SuperBlock, sfs_entry_size, sfs_entryrefs, t_file, t_dir, f_used, error_io, error_no_space,
}
use nano_s.Fs.Image.{encode_entry, decode_entry, decode_super}
use nano_s.Fs.Time.{fs_systime_to_fstime}
use nano_s.Fs.Monad.{ok, M, pure, fail, ◌>>=◌, ◌>>◌, check, out_of_fuel}

-- A call of `read_disk`: its result and the bytes at `buff`.
pub reading : ℕ → ℕ → ℕ → ℕ → ℕ → M (ℕ × List ℕ)
reading disk block offset size buff w =
    let r = read_disk w.bios w.disk_info w.media w.disk_buff disk block offset size buff in
    ok (r.result, r.out) (record w { disk_buff = r.disk_buff })

-- A call of `write_disk` with `bytes` at `buff`.
pub writing : ℕ → ℕ → ℕ → ℕ → ℕ → List ℕ → M ℕ
writing disk block offset size buff bytes w =
    let r = write_disk w.bios w.disk_info w.media w.disk_buff disk block offset size buff bytes in
    ok r.result (record w { disk_buff = r.disk_buff; media = r.media })

-- `&local`
abbrev pub local : ℕ
local = 1

-- The superblock, or ERROR_IO.
pub read_super : ℕ → M SuperBlock
read_super disk =
    reading disk 1 0 16 local >>= λ r. if r.0 == 0 then pure (decode_super r.1) else fail error_io

abbrev pub entry_block : ℕ → ℕ
entry_block n = u16 (u32 (2 + u32 (n * sfs_entry_size) / block_size))

abbrev pub entry_offset : ℕ → ℕ
entry_offset n = u32 (n * sfs_entry_size) % block_size

pub get_entry_n : ℕ → ℕ → M (ℕ × Entry)
get_entry_n disk n = reading disk (entry_block n) (entry_offset n) sfs_entry_size local >>= λ r.
    pure ((if r.0 == 0 then n else error_io), decode_entry r.1)

-- The call with the return on an error that follows it in every caller.
pub entry_at : ℕ → ℕ → M Entry
entry_at disk n = get_entry_n disk n >>= λ r. check r.0 >> pure r.1

pub write_entry : Entry → ℕ → ℕ → M ℕ
write_entry entry disk n =
    writing disk (entry_block n) (entry_offset n) sfs_entry_size local (encode_entry entry) >>= λ r.
    pure (if r == 0 then 0 else error_io)

pub put_entry : Entry → ℕ → ℕ → M ℕ
put_entry entry disk n = write_entry entry disk n >>= check

-- More than the entries that a 16-bit index tells apart: only a chain with a cycle is longer.
abbrev pub chain_fuel : ℕ
chain_fuel = 2 ^ 16

-- The loop of `set_entry_time_to_current`.
pub stamp_chain : ℕ → ℕ → ℕ → ℕ → M ℕ
stamp_chain zero disk nentry fstime = out_of_fuel
stamp_chain (suc fuel) disk nentry fstime = entry_at disk nentry >>= λ entry.
    put_entry (record entry { time = fstime }) disk nentry
    >> (let next = u16 entry.next in
        if next == 0 then pure 0 else stamp_chain fuel disk next fstime)

pub set_entry_time_to_current : ℕ → ℕ → M ℕ
set_entry_time_to_current disk nentry w =
    stamp_chain chain_fuel disk nentry (fs_systime_to_fstime w.clock) w

-- The loop of `find_free_entry` at `n`, with `left` entries to go.
pub free_entry_from : ℕ → ℕ → ℕ → M ℕ
free_entry_from zero disk n = fail error_no_space
free_entry_from (suc left) disk n = entry_at disk n >>= λ entry.
    if bit_and entry.flags f_used == 0 then pure n else free_entry_from left disk (n + 1)

pub find_free_entry : ℕ → M ℕ
find_free_entry disk = read_super disk >>= λ sb. free_entry_from sb.nentries disk 0

pub needed_blocks : ℕ → ℕ
needed_blocks size = size / block_size + (if size % block_size == 0 then 0 else 1)

abbrev pub is_set : ℕ → ℕ → Bool
is_set flags mask = not (bit_and flags mask == 0)

pub mem_ref : ℕ → List ℕ → Bool
mem_ref block [] = false
mem_ref block (r ∷ rs) = r == block || mem_ref block rs

-- `entry` is a file that refers to the block.
pub refers : ℕ → Entry → Bool
refers block entry =
    is_set entry.flags t_file
    && mem_ref block (take (min (needed_blocks (u16 entry.size)) sfs_entryrefs) entry.ref)

-- The inner loop of `find_free_block`: whether an entry from `n` on refers to the block.
pub found_from : ℕ → ℕ → ℕ → ℕ → M Bool
found_from zero disk block n = pure false
found_from (suc left) disk block n = entry_at disk n >>= λ entry.
    if refers block entry then pure true else found_from left disk block (n + 1)

-- The outer loop, with `left` blocks to go.
pub free_block_from : ℕ → ℕ → ℕ → ℕ → M ℕ
free_block_from zero disk nentries block = fail error_no_space
free_block_from (suc left) disk nentries block = found_from nentries disk block 0 >>= λ found.
    if found then free_block_from left disk nentries (block + 1) else pure block

abbrev pub first_data_block : SuperBlock → ℕ
first_data_block sb = u16 (2 + u32 (sb.nentries * sfs_entry_size) / block_size)

pub find_free_block : ℕ → M ℕ
find_free_block disk = read_super disk >>= λ sb.
    let first = first_data_block sb in free_block_from (u16 sb.size - first) disk sb.nentries first

pub get_entry_refcount : Entry → ℕ
get_entry_refcount entry =
    if is_set entry.flags t_file
    then needed_blocks (u16 entry.size)
    else if is_set entry.flags t_dir
    then u16 entry.size
    else 0
