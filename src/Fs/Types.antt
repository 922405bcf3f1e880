-- ===== src/Fs/Types.antt =====
-- The on-disk structures and the constants of source/fs.h, with the error codes of
-- source/ulib/ulib.h.
use nano_s.Prelude.{ℕ, ◌^◌, ◌<◌, ◌≡◌, List, length, get_or, replicate}

abbrev pub sfs_type_id : ℕ
sfs_type_id = 0x05F50010

abbrev pub sfs_namesize : ℕ
sfs_namesize = 15

abbrev pub sfs_entryrefs : ℕ
sfs_entryrefs = 120

-- sizeof(sfs_entry_t)
abbrev pub sfs_entry_size : ℕ
sfs_entry_size = 512

abbrev pub t_dir : ℕ
t_dir = 0x01

abbrev pub t_file : ℕ
t_file = 0x02

abbrev pub f_used : ℕ
f_used = 0x03

abbrev pub error_exists : ℕ
error_exists = 0xFFFE

abbrev pub error_io : ℕ
error_io = 0xFFFD

abbrev pub error_no_space : ℕ
error_no_space = 0xFFFC

abbrev pub error_any : ℕ
error_any = 0xFFFB

abbrev pub unknown_value : ℕ
unknown_value = 0xFFFF

abbrev pub wf_create : ℕ
wf_create = 0x0001

abbrev pub wf_truncate : ℕ
wf_truncate = 0x0002

-- `sfs_superblock_t`; `kind` is its field `type`.
pub record SuperBlock : Type 0 where
  pub kind : ℕ
  pub size : ℕ
  pub nentries : ℕ
  pub bootstart : ℕ

-- `sfs_entry_t`
pub record Entry : Type 0 where
  pub flags : ℕ
  pub name : List ℕ
  pub time : ℕ
  pub size : ℕ
  pub parent : ℕ
  pub next : ℕ
  pub ref : List ℕ

-- `memset(&entry, 0, sizeof(entry))`
abbrev pub zero_entry : Entry
zero_entry = record {
  flags = 0;
  name = replicate sfs_namesize 0;
  time = 0;
  size = 0;
  parent = 0;
  next = 0;
  ref = replicate sfs_entryrefs 0;
}

-- The values of the C types of the fields.
pub record IsEntry (e : Entry) : Type 0 where
  pub flags_fit : e.flags < 2 ^ 8
  pub name_length : length e.name ≡ sfs_namesize
  pub time_fits : e.time < 2 ^ 32
  pub size_fits : e.size < 2 ^ 32
  pub parent_fits : e.parent < 2 ^ 32
  pub next_fits : e.next < 2 ^ 32
  pub ref_length : length e.ref ≡ sfs_entryrefs
  pub ref_fits : (i : ℕ) → get_or e.ref i 0 < 2 ^ 32
