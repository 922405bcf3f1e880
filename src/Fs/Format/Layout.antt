-- ===== src/Fs/Format/Layout.antt =====
-- The superblock that `fs_format` of source/fs.c writes.
use nano_s.Prelude.{ℕ, ◌+◌, ◌*◌, ◌/◌, ◌%◌, ◌^◌, ◌≤◌, ◌<◌, ◌≡◌, List, ◌++◌, arith, take}
use nano_s.Disk.{block_size}
use nano_s.Fs.Types.{SuperBlock, sfs_entry_size}
use nano_s.Fs.Image.{encode_super, decode_super}
use nano_s.Fs.Table.{first_data_block}
use nano_s.Fs.Format.{new_super}

-- For a disk below 4 GB the superblock of a new file system counts at most 1024 entries, the table
-- takes at most a tenth of the disk, the boot program starts at the first data block that
-- `find_free_block` looks at, and the superblock is read back from its block as it was written.
pub new_super_lem :
    (sectors : ℕ) (zeros : List ℕ)
    → sectors < 2 ^ 23
    → let sb = new_super sectors in
      (sb.nentries ≤ 1024)
      × (sb.nentries * sfs_entry_size * 10 ≤ sectors * block_size)
      × (first_data_block sb ≡ sb.bootstart)
      × (decode_super (take 16 (encode_super sb ++ zeros)) ≡ sb)
unfolding new_super decode_super encode_super
new_super_lem sectors zeros small = (
  omega arith,
  omega arith,
  omega arith,
  same (new_super sectors) (omega arith) (omega arith) (omega arith) (omega arith),
)
  where
    same :
        (s : SuperBlock)
        → s.kind < 2 ^ 32
        → s.size < 2 ^ 32
        → s.nentries < 2 ^ 32
        → s.bootstart < 2 ^ 32
        → decode_super (take 16 (encode_super s ++ zeros)) ≡ s
    same s a b c d = λ i. record {
      kind = word s.kind a i;
      size = word s.size b i;
      nentries = word s.nentries c i;
      bootstart = word s.bootstart d i;
    }
      where
        word :
            (v : ℕ)
            → v < 2 ^ 32
            → v % 256
                + 256 * (v / 256 % 256)
                + 65536 * (v / 65536 % 256)
                + 16777216 * (v / 16777216 % 256)
              ≡ v
        word v h = omega arith
