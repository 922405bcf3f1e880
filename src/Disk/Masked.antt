-- ===== src/Disk/Masked.antt =====
-- `write_disk` of Disk.antt adds two statuses in a 16-bit `result`.
use nano_s.Prelude.{ℕ, ◌+◌, ◌%◌, ◌^◌, ◌≤◌, ◌≡◌, ◌≢◌, List, arith}
use nano_s.Disk.{Media, Bios, DiskInfo, sector_size, disk_size, store, write_disk, first_sector}

-- A part of a sector is to be written, and the read before it and the write both fail with
-- statuses that add up to 2 ^ 16 (as 0x8000 and 0x8000 do). `write_disk` returns 0, for success,
-- and the disk is unchanged.
pub write_disk-masks_errors :
    (bios : Bios) (disk_info : List DiskInfo) (media : Media) (disk_buff : List ℕ)
    (disk block offset buff_size buff : ℕ) (bytes : List ℕ)
    → disk_size disk_info disk ≢ 0
    → buff ≢ 0
    → offset % sector_size ≢ 0
    → buff_size + offset % sector_size ≤ sector_size
    → let s = first_sector block offset in
      bios.read_status disk s 1 + bios.write_status disk s 1 ≡ 2 ^ 16
      → bios.write_status disk s 1 ≢ 0
      → let w = write_disk bios disk_info media disk_buff disk block offset buff_size buff bytes in
        (w.result ≡ 0) × (w.media ≡ media)
unfolding write_disk store
write_disk-masks_errors bios disk_info media disk_buff disk block offset buff_size buff bytes known
      pointer inside short sum failed =
    ground arith
