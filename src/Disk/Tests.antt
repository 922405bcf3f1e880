-- ===== src/Disk/Tests.antt =====
-- Runs of Disk.antt, and its theorems at a small disk.
use nano_s.Prelude.{
  ◌≡◌, ◌≢◌, refl, List, [], ◌∷◌, ◌==◌, if◌then◌else◌, replicate, arith, length, length-replicate,
}
use nano_s.Disk.{
  Media, Bios, DiskInfo, no_disk, disk_to_index, index_to_disk, disk_size, read_disk, write_disk,
  fetch, store,
}
use nano_s.Disk.Bytes.{Matches, IsSectored}
use nano_s.Disk.Read.{read_disk_lem}
use nano_s.Disk.Stored.{Stored}
use nano_s.Disk.Write.{write_disk_lem}
use nano_s.Disk.Success.{write_disk-succeeds}
use nano_s.Disk.Masked.{write_disk-masks_errors}

abbrev floppy : DiskInfo
floppy = record no_disk { id = 0x00; size = 1 }

abbrev hard_disk : DiskInfo
hard_disk = record no_disk { id = 0x80; size = 10 }

abbrev disks : List DiskInfo
disks = floppy ∷ hard_disk ∷ []

-- Sector `s` is full of the byte `s`.
abbrev striped : Media
striped d s = replicate 512 s

abbrev healthy : Bios
healthy = record { read_status = λ d s n. 0; write_status = λ d s n. 0 }

-- A drive that is not ready: AH = 0x80.
abbrev not_ready : Bios
not_ready = record { read_status = λ d s n. 0x8000; write_status = λ d s n. 0x8000 }

-- A controller that refuses more than one sector at once, with the code of a DMA error.
abbrev dma_limited : Bios
dma_limited = record {
  read_status = λ d s n. if n == 1 then 0 else 0x900;
  write_status = λ d s n. if n == 1 then 0 else 0x900;
}

lookup_by_id :
    (disk_to_index disks 0x80 ≡ 1)
    × (index_to_disk disks 1 ≡ 0x80)
    × (disk_to_index disks 7 ≡ 0xFFFF)
unfolding disk_to_index index_to_disk
lookup_by_id = (refl, refl, refl)

crosses_a_sector : (read_disk healthy disks striped [] 0x80 4 510 4 1).out ≡ 4 ∷ 4 ∷ 5 ∷ 5 ∷ []
unfolding read_disk fetch
crosses_a_sector = refl

striped-IsSectored : IsSectored striped 0x80
striped-IsSectored s = length-replicate 512 s

-- 1100 bytes from the middle of a sector, sector by sector.
reads_through_dma : (read_disk dma_limited disks striped [] 0x80 4 100 1600 1).result ≡ 0
unfolding read_disk fetch
reads_through_dma = refl

read_disk_lem_example :
    let r = read_disk dma_limited disks striped [] 0x80 4 100 1600 1 in
    (length r.out ≡ 1600) × Matches striped 0x80 2148 r.out
read_disk_lem_example =
    read_disk_lem dma_limited disks striped [] 0x80 4 100 1600 1 striped-IsSectored (omega arith)
      reads_through_dma

writes_across : (write_disk healthy disks striped [] 0x80 4 510 4 1 (1 ∷ 2 ∷ 3 ∷ 4 ∷ [])).result ≡ 0
unfolding write_disk fetch store
writes_across = refl

write_disk_lem_example :
    let w = write_disk healthy disks striped [] 0x80 4 510 4 1 (1 ∷ 2 ∷ 3 ∷ 4 ∷ []) in
    Stored striped 0x80 (1 ∷ 2 ∷ 3 ∷ 4 ∷ []) 2558 2562 w.media
write_disk_lem_example =
    write_disk_lem healthy disks striped [] 0x80 4 510 4 1 (1 ∷ 2 ∷ 3 ∷ 4 ∷ []) striped-IsSectored
      (omega arith) (omega arith) (λ s. omega arith) writes_across

known_disk : disk_size disks 0x80 ≢ 0
unfolding disk_size
known_disk = omega arith

write_disk-masks_errors_example :
    let w = write_disk not_ready disks striped [] 0x80 4 5 4 1 (1 ∷ 2 ∷ 3 ∷ 4 ∷ []) in
    (w.result ≡ 0) × (w.media ≡ striped)
write_disk-masks_errors_example =
    write_disk-masks_errors not_ready disks striped [] 0x80 4 5 4 1 (1 ∷ 2 ∷ 3 ∷ 4 ∷ []) known_disk
      (omega arith) (omega arith) (omega arith) refl (omega arith)

hard_disk_known : disk_size disks 0x80 ≢ 0
unfolding disk_size
hard_disk_known e = absurd (ground arith)

write_disk-succeeds_example :
    (write_disk healthy disks striped [] 0x80 4 100 3 1 (7 ∷ 8 ∷ 9 ∷ [])).result ≡ 0
write_disk-succeeds_example =
    write_disk-succeeds healthy disks striped [] 0x80 4 100 3 1 (7 ∷ 8 ∷ 9 ∷ []) hard_disk_known
      (λ e. absurd (omega arith)) (λ s n. refl) λ s n. refl
