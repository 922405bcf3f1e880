-- ===== src/Disk/Success.antt =====
-- `read_disk` and `write_disk` of Disk.antt succeed when the BIOS does.
use nano_s.Prelude.{ℕ, ◌≡◌, ◌≢◌, List, [], refl, arith, ◌%◌, ◌/◌, ◌==◌, ◌||◌, false}
use nano_s.Disk.{
  first_sector, Media, Bios, DiskInfo, disk_size, sector_size, read_disk, read_head, read_whole,
  read_tail, write_disk, write_head, write_whole, write_tail, Reading, Writing,
}

module _ (bios : Bios) (media : Media) (disk : ℕ)
    (ok : (s n : ℕ) → bios.read_status disk s n ≡ 0) where
  read_head-result :
      (offset : ℕ) (r : Reading) → r.result ≡ 0 → (read_head bios media disk offset r).result ≡ 0
  unfolding read_head
  read_head-result offset r e = ground (arith, ok r.sector 1)

  read_whole-result : (r : Reading) → r.result ≡ 0 → (read_whole bios media disk r).result ≡ 0
  unfolding read_whole
  read_whole-result r e =
      let status = ok r.sector (r.left / sector_size) in rw status (ground arith)

  read_tail-result : (r : Reading) → r.result ≡ 0 → (read_tail bios media disk r).result ≡ 0
  unfolding read_tail
  read_tail-result r e = ground (arith, ok r.sector 1)

-- For a known disk and a buffer that is not at NULL, if every BIOS read of the disk succeeds,
-- `read_disk` returns 0.
pub read_disk-succeeds :
    (bios : Bios) (disk_info : List DiskInfo) (media : Media) (disk_buff : List ℕ)
    (disk block offset buff_size buff : ℕ)
    → disk_size disk_info disk ≢ 0
    → buff ≢ 0
    → ((s n : ℕ) → bios.read_status disk s n ≡ 0)
    → (read_disk bios disk_info media disk_buff disk block offset buff_size buff).result ≡ 0
unfolding read_disk
read_disk-succeeds bios disk_info media disk_buff disk block offset buff_size buff known pointer
      ok =
    let good : (buff == 0 || disk_size disk_info disk == 0) ≡ false = ground arith in
    let start : Reading = record {
      result = 0;
      sector = first_sector block offset;
      left = buff_size;
      out = [];
      disk_buff = disk_buff;
    } in
    let head = read_head bios media disk (offset % sector_size) start in
    rw good (
      read_tail-result bios media disk ok (read_whole bios media disk head) (
        read_whole-result bios media disk ok head
          (read_head-result bios media disk ok (offset % sector_size) start refl)))

module _ (bios : Bios) (disk : ℕ) (buff : List ℕ) (ok : (s n : ℕ) → bios.read_status disk s n ≡ 0)
    (ok' : (s n : ℕ) → bios.write_status disk s n ≡ 0) where
  write_head-result :
      (offset : ℕ) (w : Writing) → w.result ≡ 0 → (write_head bios disk buff offset w).result ≡ 0
  unfolding write_head
  write_head-result offset w e = ground (arith, ok w.sector 1, ok' w.sector 1)

  write_whole-result : (w : Writing) → w.result ≡ 0 → (write_whole bios disk buff w).result ≡ 0
  unfolding write_whole
  write_whole-result w e =
      let status = ok' w.sector (w.left / sector_size) in rw status (ground arith)

  write_tail-result : (w : Writing) → w.result ≡ 0 → (write_tail bios disk buff w).result ≡ 0
  unfolding write_tail
  write_tail-result w e = ground (arith, ok w.sector 1, ok' w.sector 1)

-- For a known disk and a buffer that is not at NULL, if every BIOS read and write of the disk
-- succeeds, `write_disk` returns 0.
pub write_disk-succeeds :
    (bios : Bios) (disk_info : List DiskInfo) (media : Media) (disk_buff : List ℕ)
    (disk block offset buff_size buff : ℕ) (bytes : List ℕ)
    → disk_size disk_info disk ≢ 0
    → buff ≢ 0
    → ((s n : ℕ) → bios.read_status disk s n ≡ 0)
    → ((s n : ℕ) → bios.write_status disk s n ≡ 0)
    → (write_disk bios disk_info media disk_buff disk block offset buff_size buff bytes).result ≡ 0
unfolding write_disk
write_disk-succeeds bios disk_info media disk_buff disk block offset buff_size buff bytes known
      pointer ok ok' =
    let good : (buff == 0 || disk_size disk_info disk == 0) ≡ false = ground arith in
    let start : Writing = record {
      result = 0;
      sector = first_sector block offset;
      left = buff_size;
      done = 0;
      disk_buff = disk_buff;
      media = media;
    } in
    let head = write_head bios disk bytes (offset % sector_size) start in
    rw good (
      write_tail-result bios disk bytes ok ok' (write_whole bios disk bytes head) (
        write_whole-result bios disk bytes ok ok' head
          (write_head-result bios disk bytes ok ok' (offset % sector_size) start refl)))
