-- ===== src/Fs/Dirs.antt =====
-- Directories, source/fs.c: `delete_n`, `fs_delete`, `fs_create_directory`, `fs_copy`, `fs_move`
-- and `fs_list`.
use nano_s.Prelude.{
  ℕ, zero, suc, ◌+◌, ◌-◌, ◌^◌, not, List, [], ◌∷◌, ◌++◌, ◌==◌, ltb, if◌then◌else◌, u16, min, take,
  drop, get_or, replicate, inl, inr,
}
use nano_s.Strings.{strcpy_s, strcat_s}
use nano_s.Disk.{block_size, error_not_found}
use nano_s.Fs.Types.{
  Entry, zero_entry, sfs_entryrefs, sfs_namesize, t_file, t_dir, unknown_value, error_exists,
  wf_create,
}
use nano_s.Fs.Monad.{M, pure, fail, ◌>>=◌, ◌>>◌, check, attempt, value_of, when, out_of_fuel}
use nano_s.Fs.Table.{entry_at, put_entry, set_entry_time_to_current, find_free_entry, is_set}
use nano_s.Fs.Chain.{get_nref_entry_from_entry, add_ref_in_entry, remove_ref_in_entry}
use nano_s.Fs.Paths.{
  string_to_name, path_separator, path_get_disk, path_parse_disk_parent_name, fs_get_entry,
}
use nano_s.Fs.Files.{fs_read_file, fs_write_file}

-- A call for every number of a list; the first error ends it.
pub for_each : (ℕ → M ℕ) → List ℕ → M ℕ
for_each f [] = pure 0
for_each f (n ∷ ns) = f n >> for_each f ns

-- `fuel` bounds the depth of the recursion.
pub delete_n : ℕ → ℕ → ℕ → M ℕ
unfolding for_each
delete_n zero disk n = out_of_fuel
delete_n (suc fuel) disk n = entry_at disk n >>= λ entry.
    remove_ref_in_entry disk (u16 entry.parent) n
    >> when (is_set entry.flags t_dir)
        (for_each (λ r. delete_n fuel disk (u16 r)) (take (min entry.size sfs_entryrefs) entry.ref))
    >> when (not (entry.next == 0)) (delete_n fuel disk (u16 entry.next))
    >> put_entry zero_entry disk n

-- Deeper than any tree of directories that the 16-bit indices allow.
abbrev pub tree_fuel : ℕ
tree_fuel = 2 ^ 16

pub fs_delete : List ℕ → M ℕ
unfolding delete_n
fs_delete path = path_get_disk path >>= λ disk.
    fs_get_entry path unknown_value unknown_value >>= λ r. delete_n tree_fuel disk r.0

-- The path of which `string_to_name` has changed the part from `name` on, in place.
abbrev pub renamed : List ℕ → ℕ → List ℕ
renamed path name = take name path ++ string_to_name (drop name path)

-- "Check target does not exist".
pub check_absent : List ℕ → ℕ → ℕ → M ℕ
check_absent name parent disk = attempt (fs_get_entry name parent disk) >>= λ r. elim r [
  | inl found ↦ fail error_exists
  | inr code ↦ if code == error_not_found then pure 0 else fail code
]

-- A name as `strcpy_s` stores it in a cleared field.
abbrev pub name_field : List ℕ → List ℕ
name_field name = (strcpy_s (replicate sfs_namesize 0) name sfs_namesize).1

pub fs_create_directory : List ℕ → M ℕ
unfolding check_absent
fs_create_directory path = path_parse_disk_parent_name path >>= λ p.
    let name = string_to_name (drop p.name path) in
    check_absent name p.parent p.disk >> find_free_entry p.disk >>= λ nentry.
    let entry : Entry = record zero_entry {
      name = name_field name;
      flags = t_dir;
      parent = p.parent;
    } in
    put_entry entry p.disk nentry
    >> set_entry_time_to_current p.disk nentry
    >> when (not (nentry == p.parent)) (add_ref_in_entry p.disk (u16 p.parent) nentry)
    >> pure nentry

-- The loop of `fs_copy` that copies a file. `buff` is the address of its buffer.
pub copy_loop : ℕ → ℕ → ℕ → List ℕ → List ℕ → ℕ → M ℕ
copy_loop zero stale buff srcpath dstpath offset = out_of_fuel
copy_loop (suc fuel) stale buff srcpath dstpath offset =
    fs_read_file buff srcpath offset block_size >>= λ r.
    if r.0 == 0
    then pure 0
    else check r.0
      >> (value_of (fs_write_file stale buff r.1 dstpath offset r.0 wf_create) >>= check)
      >> copy_loop fuel stale buff srcpath dstpath (u16 (offset + r.0))

abbrev pub path_size : ℕ
path_size = 64

-- `path`, a separator and the name of an entry, in a buffer of `path_size`.
pub child_path : List ℕ → List ℕ → List ℕ
child_path path name =
    let copied = (strcpy_s (replicate path_size 0) path path_size).1 in
    let slash = (strcat_s copied (path_separator ∷ []) path_size).1 in
    (strcat_s slash name path_size).1

-- `fuel` bounds the depth of the recursion; an entry past the end of `ref` counts as 0.
pub fs_copy_at : ℕ → ℕ → ℕ → List ℕ → List ℕ → M ℕ
unfolding check_absent copy_loop child_path for_each
fs_copy_at zero stale buff srcpath dstpath = out_of_fuel
fs_copy_at (suc fuel) stale buff srcpath dstpath = path_parse_disk_parent_name dstpath >>= λ p.
    let dst = renamed dstpath p.name in
    check_absent (drop p.name dst) p.parent p.disk >> path_get_disk srcpath >>= λ src_disk.
    fs_get_entry srcpath unknown_value unknown_value >>= λ r.
    let entry = r.1 in
    if is_set entry.flags t_file
    then copy_loop tree_fuel stale buff srcpath dst 0
    else if is_set entry.flags t_dir
    then (fs_create_directory dst
        >> for_each
            (λ ref. entry_at src_disk (u16 ref) >>= λ tentry.
              fs_copy_at fuel stale buff (child_path srcpath tentry.name)
                (child_path dst tentry.name))
            (take entry.size (entry.ref ++ replicate (entry.size - sfs_entryrefs) 0)))
    else fail error_not_found

pub fs_copy : ℕ → ℕ → List ℕ → List ℕ → M ℕ
unfolding fs_copy_at
fs_copy stale buff srcpath dstpath = fs_copy_at tree_fuel stale buff srcpath dstpath

pub fs_move : ℕ → ℕ → List ℕ → List ℕ → M ℕ
unfolding check_absent
fs_move stale buff srcpath dstpath = path_parse_disk_parent_name dstpath >>= λ p.
    let dst = renamed dstpath p.name in
    let dstname = drop p.name dst in
    check_absent dstname p.parent p.disk >> path_get_disk srcpath >>= λ srcdisk.
    fs_get_entry srcpath unknown_value unknown_value >>= λ r.
    let nentry = r.0 in
    let moved : Entry = record r.1 { name = name_field dstname; parent = p.parent } in
    (if srcdisk == p.disk
      then (remove_ref_in_entry srcdisk (u16 r.1.parent) nentry
          >> put_entry moved p.disk nentry
          >> add_ref_in_entry p.disk (u16 p.parent) nentry)
      else (value_of (fs_copy stale buff srcpath dst) >>= λ result.
          if result == 0 then delete_n tree_fuel srcdisk nentry else fail result))
    >> pure nentry

-- The number returned and the entry.
pub fs_list : List ℕ → ℕ → M (ℕ × Entry)
fs_list path n = path_get_disk path >>= λ disk.
    fs_get_entry path unknown_value unknown_value >>= λ r.
    let size = u16 r.1.size in
    if is_set r.1.flags t_dir
    then (if ltb n size
        then (get_nref_entry_from_entry r.1 disk r.0 n >>= λ d.
            entry_at disk (u16 (get_or d.1.ref n 0)) >>= λ entry. pure (size, entry))
        else pure (size, zero_entry))
    else fail error_not_found
