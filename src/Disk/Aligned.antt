-- ===== src/Disk/Aligned.antt =====
-- Whole sectors through `read_disk` and `write_disk` of source/fs.c, when the BIOS succeeds.
use nano_s.Prelude.{ℕ, ◌+◌, ◌^◌, ◌<◌, ◌≡◌, refl, ap, ◌≢◌, List, [], ◌∷◌, ◌++◌, u16, arith, take}
use nano_s.Disk.{
  Media, Bios, DiskInfo, read_disk, write_disk, disk_size, put_sector, put_sectors, sectors_at,
  read_head, read_whole, read_tail, fetch, write_head, write_whole, write_tail,
}

append-nil : (xs : List ℕ) → xs ++ [] ≡ xs
append-nil [] = refl
append-nil (x ∷ xs) = ap (λ t. x ∷ t) (append-nil xs)

pub read_disk-sector :
    (bios : Bios) (disk_info : List DiskInfo) (media : Media) (disk_buff : List ℕ)
    (disk block buff : ℕ)
    → disk_size disk_info disk ≢ 0
    → buff ≢ 0
    → block < 2 ^ 16
    → bios.read_status disk block 1 ≡ 0
    → read_disk bios disk_info media disk_buff disk block 0 512 buff ≡ record {
      result = 0;
      sector = u16 (block + 1);
      left = 0;
      out = media disk block;
      disk_buff = disk_buff;
    }
unfolding read_disk read_head read_whole read_tail sectors_at
read_disk-sector bios disk_info media disk_buff disk block buff known pointer lt status =
    ground (arith, append-nil (media disk block))

pub write_disk-sector :
    (bios : Bios) (disk_info : List DiskInfo) (media : Media) (disk_buff : List ℕ)
    (disk block buff : ℕ) (bytes : List ℕ)
    → disk_size disk_info disk ≢ 0
    → buff ≢ 0
    → block < 2 ^ 16
    → bios.write_status disk block 1 ≡ 0
    → write_disk bios disk_info media disk_buff disk block 0 512 buff bytes ≡ record {
      result = 0;
      sector = u16 (block + 1);
      left = 0;
      done = 512;
      disk_buff = disk_buff;
      media = put_sector media disk block (take 512 bytes);
    }
unfolding write_disk write_head write_whole write_tail put_sectors
write_disk-sector bios disk_info media disk_buff disk block buff bytes known pointer lt status =
    ground arith

-- The start of one sector, which goes through `disk_buff`.
pub read_disk-prefix :
    (bios : Bios) (disk_info : List DiskInfo) (media : Media) (disk_buff : List ℕ)
    (disk block size buff : ℕ)
    → disk_size disk_info disk ≢ 0
    → buff ≢ 0
    → block < 2 ^ 16
    → 0 < size
    → size < 512
    → bios.read_status disk block 1 ≡ 0
    → read_disk bios disk_info media disk_buff disk block 0 size buff ≡ record {
      result = 0;
      sector = block;
      left = size;
      out = take size (media disk block);
      disk_buff = media disk block;
    }
unfolding read_disk read_head read_whole read_tail fetch
read_disk-prefix bios disk_info media disk_buff disk block size buff known pointer lt pos short
      status =
    ground arith
