-- ===== src/Fs/Paths.antt =====
-- Disk names, entry names and paths, source/fs.c: `disk_to_string`, `string_to_disk`,
-- `string_is_disk`, `blocks_to_MB`, `string_to_name`, `path_get_disk`,
-- `path_parse_disk_parent_name` and `fs_get_entry`. A pointer into the path is an index.
pub mod Find
pub mod Names
mod Tests
use nano_s.Prelude.{
  ℕ, zero, suc, ◌+◌, ◌-◌, ◌*◌, ◌/◌, Bool, false, not, ◌&&◌, ◌||◌, List, [], ◌∷◌, ◌==◌, leb,
  if◌then◌else◌, u32, drop, get_or, replicate,
}
use nano_s.Strings.{strcpy_s, strcmp, strchr, strtok}
use nano_s.Disk.{DiskInfo, max_disk, block_size, index_to_disk, error_not_found}
use nano_s.Fs.Types.{Entry, sfs_namesize, f_used, unknown_value}
use nano_s.Fs.Monad.{ok, stuck, M, pure, fail, ◌>>=◌}
use nano_s.Fs.Table.{read_super, entry_at, is_set}

abbrev pub path_separator : ℕ
path_separator = 47

-- "."
abbrev pub root_dir_name : List ℕ
root_dir_name = 46 ∷ []

abbrev unk : List ℕ
unk = 117 ∷ 110 ∷ 107 ∷ []

pub disk_to_string : List DiskInfo → ℕ → List ℕ
disk_to_string [] disk = unk
disk_to_string (d ∷ ds) disk =
    let rest = disk_to_string ds disk in if d.id == disk then d.name else rest

pub string_to_disk : List DiskInfo → List ℕ → ℕ
string_to_disk [] str = error_not_found
string_to_disk (d ∷ ds) str =
    let rest = string_to_disk ds str in if strcmp str d.name == 0 then d.id else rest

-- The loop of `string_is_disk`, with `left` indices to go.
pub is_disk_from : ℕ → List DiskInfo → ℕ → List ℕ → Bool
unfolding disk_to_string
is_disk_from zero disk_info index str = false
is_disk_from (suc left) disk_info index str =
    let disk = index_to_disk disk_info index in
    let rest = is_disk_from left disk_info (index + 1) str in
    strcmp str (disk_to_string disk_info disk) == 0 || rest

pub string_is_disk : List DiskInfo → List ℕ → Bool
unfolding is_disk_from
string_is_disk disk_info str = is_disk_from max_disk disk_info 0 str

-- `blocks_to_MB`
pub blocks_to_mb : ℕ → ℕ
blocks_to_mb blocks = u32 (blocks * block_size) / 1048576

abbrev pub between : ℕ → ℕ → ℕ → Bool
between lo hi c = leb lo c && leb c hi

-- Digits, letters and . - _ ( ) [ ].
pub allowed : ℕ → Bool
allowed c =
    between 48 57 c
    || between 65 90 c
    || between 97 122 c
    || c == 46
    || c == 45
    || c == 95
    || c == 40
    || c == 41
    || c == 91
    || c == 93

-- The loop of `string_to_name` at index `i`.
pub name_from : ℕ → List ℕ → List ℕ
name_from i [] = []
name_from i (c ∷ cs) =
    let rest = name_from (i + 1) cs in
    if c == 0
    then c ∷ cs
    else if i == sfs_namesize - 1
    then 0 ∷ cs
    else (if allowed c then c else 95) ∷ rest

pub string_to_name : List ℕ → List ℕ
string_to_name str = name_from 0 str

-- The copy of the path that is cut into tokens.
abbrev pub tokpath_size : ℕ
tokpath_size = 64

pub tokpath_of : List ℕ → List ℕ
tokpath_of path = (strcpy_s (replicate tokpath_size 0) path tokpath_size).1

pub path_get_disk : List ℕ → M ℕ
unfolding tokpath_of string_is_disk string_to_disk
path_get_disk path w =
    let (tok, nexttok, tokpath) = strtok (tokpath_of path) 0 path_separator in
    let first = drop tok tokpath in
    if not (get_or first 0 0 == 0) && string_is_disk w.disk_info first
    then ok (string_to_disk w.disk_info first) w
    else ok w.system_disk w

-- What `path_parse_disk_parent_name` gives through its pointers.
pub record Parsed : Type 0 where
  pub name : ℕ
  pub parent : ℕ
  pub disk : ℕ

-- The search of `fs_get_entry` through the table at `n`, with `left` entries to go.
pub entry_from : ℕ → ℕ → ℕ → List ℕ → ℕ → M (ℕ × Entry)
entry_from zero disk parent path n = fail error_not_found
entry_from (suc left) disk parent path n = entry_at disk n >>= λ entry.
    if is_set entry.flags f_used && entry.parent == parent && strcmp entry.name path == 0
    then pure (n, entry)
    else entry_from left disk parent path (n + 1)

pub find_entry : List ℕ → ℕ → ℕ → M (ℕ × Entry)
find_entry path parent disk = read_super disk >>= λ sb. entry_from sb.nentries disk parent path 0

-- `get_entry` stands for the recursive call. `n` tells whether the first token was seen. Every
-- turn takes a character at least, or is the last.
module _ (get_entry : List ℕ → ℕ → ℕ → M (ℕ × Entry)) where
  pub parse_loop : ℕ → ℕ → ℕ → ℕ → List ℕ → Parsed → M Parsed
  parse_loop zero n tok nexttok tokpath p w = stuck
  parse_loop (suc fuel) n tok nexttok tokpath p w =
      if get_or tokpath tok 0 == 0 || get_or tokpath nexttok 0 == 0
      then ok p w
      else let (tok', next, buff) = strtok tokpath tok path_separator in
        let named : Parsed = record p { name = tok' } in
        let token = drop tok' buff in
        let some_token = not (get_or token 0 0 == 0) in
        let n' = if some_token then 1 else n in
        let is_disk = some_token && n == 0 && string_is_disk w.disk_info token in
        let more = some_token && not (get_or buff next 0 == 0) in
        if is_disk
        then parse_loop fuel n' next next buff
            (record named { disk = string_to_disk w.disk_info token }) w
        else if more
        then (get_entry token p.parent p.disk >>= λ r.
              parse_loop fuel n' next next buff (record named { parent = r.0 }))
            w
        else parse_loop fuel n' tok' next buff named w

  pub parse_path : List ℕ → M Parsed
  unfolding parse_loop tokpath_of
  parse_path path w =
      parse_loop (tokpath_size + 1) 0 0 0 (tokpath_of path)
        (record { name = 0; parent = 0; disk = w.system_disk }) w

-- `fs_get_entry` calls `path_parse_disk_parent_name`, which calls it for single tokens: `depth`
-- is the number of such calls to go.
pub get_entry_at : ℕ → List ℕ → ℕ → ℕ → M (ℕ × Entry)
unfolding find_entry parse_path
get_entry_at zero path parent disk w = stuck
get_entry_at (suc depth) path parent disk w =
    let rooted = disk == unknown_value && string_is_disk w.disk_info path in
    let path' = if rooted then root_dir_name else path in
    let disk' =
      if rooted
      then string_to_disk w.disk_info path
      else if disk == unknown_value
      then w.system_disk
      else disk in
    let disk'' = if disk' == unknown_value then w.system_disk else disk' in
    let parent' = if parent == unknown_value then 0 else parent in
    if parent' == 0 && not (strchr path' path_separator 0 == 0)
    then (parse_path (get_entry_at depth) path' >>= λ p.
          find_entry (drop p.name path') p.parent p.disk)
        w
    else find_entry path' parent' disk'' w

-- A token has no separator, so the inner call makes none in turn.
pub fs_get_entry : List ℕ → ℕ → ℕ → M (ℕ × Entry)
unfolding get_entry_at
fs_get_entry path parent disk = get_entry_at 2 path parent disk

pub path_parse_disk_parent_name : List ℕ → M Parsed
path_parse_disk_parent_name path = parse_path fs_get_entry path
