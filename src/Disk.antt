-- ===== src/Disk.antt =====
-- Byte access to disks, source/fs.c: `disk_to_index`, `index_to_disk`, `read_disk` and
-- `write_disk`, over the table `disk_info[MAX_DISK]` of source/kernel.c and .h.
-- The BIOS is outside the program. `read_disk_sector` and `write_disk_sector` of source/hw86.s are
-- its front end: they give a status for a disk, a first sector and a count, and a call with status
-- 0 moves whole sectors. The statuses are the parameter `bios`.
pub mod Bytes
pub mod Stored
pub mod Read
pub mod Write
pub mod Masked
pub mod Aligned
pub mod Success
mod Tests
use nano_s.Prelude.{
  ℕ, zero, suc, ◌+◌, ◌-◌, ◌*◌, ◌/◌, ◌%◌, Bool, true, false, not, ◌&&◌, ◌||◌, List, [], ◌∷◌, ◌++◌,
  ◌==◌, ltb, if◌then◌else◌, get_or, take, drop, u16, min, length,
}

abbrev pub max_disk : ℕ
max_disk = 4

abbrev pub sector_size : ℕ
sector_size = 512

abbrev pub block_size : ℕ
block_size = 512

-- Error codes of source/ulib/ulib.h.
abbrev pub error_not_found : ℕ
error_not_found = 0xFFFF

-- `struct diskinfo`
pub record DiskInfo : Type 0 where
  pub id : ℕ
  pub name : List ℕ
  pub fstype : ℕ
  pub fssize : ℕ
  pub sectors : ℕ
  pub sides : ℕ
  pub cylinders : ℕ
  pub size : ℕ
  pub last_access : ℕ

abbrev pub no_disk : DiskInfo
no_disk = record {
  id = 0;
  name = [];
  fstype = 0;
  fssize = 0;
  sectors = 0;
  sides = 0;
  cylinders = 0;
  size = 0;
  last_access = 0;
}

-- The contents of the disks: disk id, sector, byte of the sector.
abbrev pub Media : Type 0
Media = ℕ → ℕ → List ℕ

-- The statuses that the BIOS gives to calls (disk, first sector, number of sectors). A call that is made
-- again has the same status, whatever buffer it is for.
pub record Bios : Type 0 where
  pub read_status : ℕ → ℕ → ℕ → ℕ
  pub write_status : ℕ → ℕ → ℕ → ℕ

-- The loop of `disk_to_index` at `index`.
pub index_from : ℕ → ℕ → List DiskInfo → ℕ
index_from disk index [] = error_not_found
index_from disk index (d ∷ ds) =
    let rest = index_from disk (index + 1) ds in if d.id == disk then index else rest

pub disk_to_index : List DiskInfo → ℕ → ℕ
unfolding index_from
disk_to_index disk_info disk = index_from disk 0 disk_info

pub index_to_disk : List DiskInfo → ℕ → ℕ
index_to_disk disk_info index =
    if ltb index max_disk then (get_or disk_info index no_disk).id else error_not_found

-- `disk_info[disk_to_index(disk)].size`. For an unknown disk the source reads past the table;
-- here that is a disk of size 0.
unfoldable pub disk_size : List DiskInfo → ℕ → ℕ
unfolding disk_to_index
disk_size disk_info disk = (get_or disk_info (disk_to_index disk_info disk) no_disk).size

-- `n` sectors of a disk, one after the other.
pub sectors_at : Media → ℕ → ℕ → ℕ → List ℕ
sectors_at media disk sector zero = []
sectors_at media disk sector (suc n) = media disk sector ++ sectors_at media disk (sector + 1) n

-- The locals of `read_disk` and the global `disk_buff`: `out` is what has been stored in `buff`,
-- `left` is `buff_size`.
pub record Reading : Type 0 where
  pub result : ℕ
  pub sector : ℕ
  pub left : ℕ
  pub out : List ℕ
  pub disk_buff : List ℕ

module _ (bios : Bios) (media : Media) (disk : ℕ) where
  -- One sector into `disk_buff`; a call that fails leaves it alone.
  unfoldable pub fetch : ℕ → List ℕ → List ℕ
  fetch sector disk_buff =
      if bios.read_status disk sector 1 == 0 then media disk sector else disk_buff

  -- An unaligned start: part of one sector, through `disk_buff`.
  pub read_head : ℕ → Reading → Reading
  read_head offset r =
      if offset == 0
      then r
      else let i = min (sector_size - offset) r.left in
        record {
          result = bios.read_status disk r.sector 1;
          sector = u16 (r.sector + 1);
          left = r.left - i;
          out = take i (drop offset (fetch r.sector r.disk_buff));
          disk_buff = fetch r.sector r.disk_buff;
        }

  -- Sector by sector through `disk_buff`, after a DMA error.
  pub read_each : ℕ → Reading → Reading
  read_each zero r = r
  read_each (suc n_sectors) r =
      let status = bios.read_status disk r.sector 1 in
      let next : Reading = record {
        result = status;
        sector = u16 (r.sector + 1);
        left = r.left - sector_size;
        out = r.out ++ media disk r.sector;
        disk_buff = fetch r.sector r.disk_buff;
      } in
      let rest = read_each n_sectors next in
      if status == 0 then rest else record r { result = status }

  -- Whole sectors, at once if the BIOS allows it.
  pub read_whole : Reading → Reading
  unfolding read_each sectors_at
  read_whole r =
      let n_sectors = r.left / sector_size in
      let status = bios.read_status disk r.sector n_sectors in
      let at_once : Reading = record {
        result = status;
        sector = u16 (r.sector + n_sectors);
        left = r.left - sector_size * n_sectors;
        out = r.out ++ sectors_at media disk r.sector n_sectors;
        disk_buff = r.disk_buff;
      } in
      if not (n_sectors == 0) && r.result == 0
      then (if status == 0x900 then read_each n_sectors (record r { result = status }) else at_once)
      else r

  -- The rest, the start of one more sector.
  pub read_tail : Reading → Reading
  read_tail r =
      if not (r.left == 0) && r.result == 0
      then record r {
        result = bios.read_status disk r.sector 1;
        out = r.out ++ take r.left (fetch r.sector r.disk_buff);
        disk_buff = fetch r.sector r.disk_buff;
      }
      else r

-- The first sector and the offset in it.
abbrev pub first_sector : ℕ → ℕ → ℕ
first_sector block offset = u16 (block * (block_size / sector_size) + offset / sector_size)

-- The locals at the end. `buff` is an address; what it points to is in `out`.
unfoldable pub read_disk : Bios → List DiskInfo → Media → List ℕ → ℕ → ℕ → ℕ → ℕ → ℕ → Reading
unfolding disk_size read_head read_whole read_tail
read_disk bios disk_info media disk_buff disk block offset buff_size buff =
    let start : Reading = record {
      result = 0;
      sector = first_sector block offset;
      left = buff_size;
      out = [];
      disk_buff = disk_buff;
    } in
    if buff == 0 || disk_size disk_info disk == 0
    then record start { result = 1 }
    else read_tail bios media disk
        (read_whole bios media disk (read_head bios media disk (offset % sector_size) start))

-- The locals of `write_disk` and the globals: `done` is `i`, the number of bytes written.
pub record Writing : Type 0 where
  pub result : ℕ
  pub sector : ℕ
  pub left : ℕ
  pub done : ℕ
  pub disk_buff : List ℕ
  pub media : Media

abbrev pub put_sector : Media → ℕ → ℕ → List ℕ → Media
put_sector media disk sector bytes d s = if d == disk && s == sector then bytes else media d s

pub put_sectors : Media → ℕ → ℕ → ℕ → List ℕ → Media
put_sectors media disk sector zero bytes = media
put_sectors media disk sector (suc n) bytes =
    put_sectors (put_sector media disk sector (take sector_size bytes)) disk (sector + 1) n
      (drop sector_size bytes)

-- `memcpy(&disk_buff[offset], bytes, …)`
abbrev pub overlay : ℕ → List ℕ → List ℕ → List ℕ
overlay offset bytes buff = take offset buff ++ (bytes ++ drop (offset + length bytes) buff)

module _ (bios : Bios) (disk : ℕ) (buff : List ℕ) where
  -- One sector from `disk_buff`; a call that fails changes nothing.
  pub store : ℕ → List ℕ → Media → Media
  store sector bytes media =
      if bios.write_status disk sector 1 == 0 then put_sector media disk sector bytes else media

  pub write_head : ℕ → Writing → Writing
  write_head offset w =
      if offset == 0
      then w
      else let i = min (sector_size - offset) w.left in
        let read = fetch bios w.media disk w.sector w.disk_buff in
        let mixed = overlay offset (take i buff) read in
        record {
          result =
              u16 (w.result + bios.read_status disk w.sector 1 + bios.write_status disk w.sector 1);
          sector = u16 (w.sector + 1);
          left = w.left - i;
          done = i;
          disk_buff = mixed;
          media = store w.sector mixed w.media;
        }

  pub write_each : ℕ → Writing → Writing
  write_each zero w = w
  write_each (suc n_sectors) w =
      let bytes = take sector_size (drop w.done buff) in
      let status = bios.write_status disk w.sector 1 in
      let next : Writing = record {
        result = status;
        sector = u16 (w.sector + 1);
        left = w.left - sector_size;
        done = w.done + sector_size;
        disk_buff = bytes;
        media = store w.sector bytes w.media;
      } in
      let rest = write_each n_sectors next in
      if status == 0 then rest else record w { result = status; disk_buff = bytes }

  pub write_whole : Writing → Writing
  unfolding write_each put_sectors
  write_whole w =
      let n_sectors = w.left / sector_size in
      let status = bios.write_status disk w.sector n_sectors in
      let at_once : Writing = record {
        result = status;
        sector = u16 (w.sector + n_sectors);
        left = w.left - sector_size * n_sectors;
        done = w.done + sector_size * n_sectors;
        disk_buff = w.disk_buff;
        media =
            (if status == 0
              then put_sectors w.media disk w.sector n_sectors (drop w.done buff)
              else w.media);
      } in
      if not (n_sectors == 0) && w.result == 0
      then (if status == 0x900
          then write_each n_sectors (record w { result = status })
          else at_once)
      else w

  pub write_tail : Writing → Writing
  write_tail w =
      let read = fetch bios w.media disk w.sector w.disk_buff in
      let mixed = overlay 0 (take w.left (drop w.done buff)) read in
      if not (w.left == 0) && w.result == 0
      then record w {
        result = u16 (bios.read_status disk w.sector 1 + bios.write_status disk w.sector 1);
        disk_buff = mixed;
        media = store w.sector mixed w.media;
      }
      else w

-- `buff` is the address, and `bytes` what is there.
pub write_disk : Bios → List DiskInfo → Media → List ℕ → ℕ → ℕ → ℕ → ℕ → ℕ → List ℕ → Writing
unfolding disk_size write_head write_whole write_tail
write_disk bios disk_info media disk_buff disk block offset buff_size buff bytes =
    let start : Writing = record {
      result = 0;
      sector = first_sector block offset;
      left = buff_size;
      done = 0;
      disk_buff = disk_buff;
      media = media;
    } in
    if buff == 0 || disk_size disk_info disk == 0
    then record start { result = 1 }
    else write_tail bios disk bytes
        (write_whole bios disk bytes (write_head bios disk bytes (offset % sector_size) start))
