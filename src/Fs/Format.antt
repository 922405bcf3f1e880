-- ===== src/Fs/Format.antt =====
-- Whole file systems, source/fs.c: `fs_get_info`, `fs_init_info` and `fs_format`.
pub mod Layout
use nano_s.Prelude.{
  ℕ, zero, suc, ◌+◌, ◌-◌, ◌*◌, ◌/◌, true, false, ◌&&◌, List, [], ◌∷◌, ◌++◌, ◌==◌, if◌then◌else◌,
  u16, u32, min, take, get_or, set, replicate, Option, none, some,
}
use nano_s.Strings.{strcpy_s, strcat_s}
use nano_s.Disk.{DiskInfo, block_size, max_disk, no_disk, disk_to_index, index_to_disk}
use nano_s.Fs.Types.{Entry, SuperBlock, zero_entry, sfs_type_id, sfs_entry_size, t_dir, error_io}
use nano_s.Fs.Image.{decode_super, encode_super}
use nano_s.Fs.Monad.{ok, M, pure, fail, ◌>>=◌, ◌>>◌}
use nano_s.Fs.Table.{
  reading, writing, local, entry_at, put_entry, write_entry, set_entry_time_to_current,
}
use nano_s.Fs.Paths.{path_separator, root_dir_name, disk_to_string, blocks_to_mb}
use nano_s.Fs.Dirs.{fs_copy, name_field}

abbrev pub fs_type_unknown : ℕ
fs_type_unknown = 0

abbrev pub fs_type_nsfs : ℕ
fs_type_nsfs = 1

-- `fs_info_t`
pub record FsInfo : Type 0 where
  pub name : List ℕ
  pub id : ℕ
  pub fs_type : ℕ
  pub fs_size : ℕ
  pub disk_size : ℕ

-- The loop of `fs_get_info` at index `i`: `n` and `j`.
pub count_disks : ℕ → ℕ → ℕ → ℕ → List DiskInfo → ℕ × ℕ
count_disks disk_index i j n [] = (n, j)
count_disks disk_index i j n (d ∷ ds) = elim (d.size == 0) [
  | true ↦ count_disks disk_index (i + 1) j n ds
  | false ↦ count_disks disk_index (i + 1) (if n == disk_index then i else j) (n + 1) ds
]

-- The number of disks and what is stored at `info`; `info` is an address, and `name` what is in its
-- field `name` before the call.
pub fs_get_info : List DiskInfo → ℕ → ℕ → List ℕ → ℕ × Option FsInfo
unfolding count_disks
fs_get_info disk_info disk_index info name =
    let (n, j) = count_disks disk_index 0 0xFFFF 0 (take max_disk disk_info) in
    let d = get_or disk_info j no_disk in
    let id = index_to_disk disk_info j in
    if info == 0 then (1, none) else if j == 0xFFFF then (n, none) else (
      n,
      some (record {
        name = (strcpy_s name (disk_to_string disk_info id) 4).1;
        id = id;
        fs_type = d.fstype;
        fs_size = blocks_to_mb d.fssize;
        disk_size = d.size;
      }),
    )

abbrev pub set_fs : ℕ → ℕ → ℕ → M ℕ
set_fs index fstype fssize w =
    let d = get_or w.disk_info index no_disk in
    ok 0 (record w {
      disk_info = set w.disk_info index (record d { fstype = fstype; fssize = fssize });
    })

-- One turn of the loop of `fs_init_info`.
pub init_disk : ℕ → M ℕ
init_disk index w =
    if (get_or w.disk_info index no_disk).size == 0
    then set_fs index fs_type_unknown 0 w
    else (reading (index_to_disk w.disk_info index) 1 0 16 local >>= λ r.
          let sb = decode_super r.1 in
          if r.0 == 0 && sb.kind == sfs_type_id
          then set_fs index fs_type_nsfs sb.size
          else set_fs index fs_type_unknown 0)
        w

pub fs_init_info : M ℕ
unfolding init_disk
fs_init_info = init_disk 0 >> init_disk 1 >> init_disk 2 >> init_disk 3

-- The superblock for a disk of `sectors` sectors.
pub new_super : ℕ → SuperBlock
new_super sectors =
    let nentries = min (u32 (sectors * block_size) / 10 / sfs_entry_size) 1024 in
    record {
      kind = sfs_type_id;
      size = sectors;
      nentries = nentries;
      bootstart = 2 + u32 (nentries * sfs_entry_size) / block_size;
    }

-- The loop that clears the table at `e`, with `left` entries to go: failures are ignored.
pub clear_table : ℕ → ℕ → ℕ → M ℕ
clear_table zero disk e = pure 0
clear_table (suc left) disk e = write_entry zero_entry disk e >> clear_table left disk (e + 1)

abbrev k_path_size : ℕ
k_path_size = 32

-- The path of an entry of a root directory.
pub k_path : List ℕ → List ℕ → List ℕ
k_path disk name =
    let copied = (strcpy_s (replicate k_path_size 0) disk k_path_size).1 in
    let slash = (strcat_s copied (path_separator ∷ []) k_path_size).1 in
    (strcat_s slash name k_path_size).1

-- A call of `read_disk` or `write_disk` that must give 0.
abbrev pub or_io : ℕ → M ℕ
or_io result = if result == 0 then pure 0 else fail error_io

-- `stale` and `copy_buff` are passed to `fs_copy`.
pub fs_format : ℕ → ℕ → ℕ → M ℕ
unfolding new_super clear_table k_path fs_init_info
fs_format stale copy_buff disk w =
    let d = get_or w.disk_info (disk_to_index w.disk_info disk) no_disk in
    let sb = new_super (u32 (u32 (d.sectors * d.sides) * d.cylinders)) in
    let root : Entry = record zero_entry { name = name_field root_dir_name; flags = t_dir } in
    let path : ℕ → Entry → List ℕ = λ id entry. k_path (disk_to_string w.disk_info id) entry.name in
    (reading w.system_disk 0 0 block_size local >>= λ boot.
    or_io boot.0
    >> (writing disk 0 0 block_size local boot.1 >>= or_io)
    >> (writing disk 1 0 block_size local (encode_super sb ++ replicate 496 0) >>= or_io)
    >> put_entry root disk 0
    >> set_entry_time_to_current disk 0
    >> clear_table (u16 sb.nentries - 1) disk 1
    >> entry_at w.system_disk 1
    >>= λ entry. fs_copy stale copy_buff (path w.system_disk entry) (path disk entry) >>= λ result.
        fs_init_info >> pure result)
      w
