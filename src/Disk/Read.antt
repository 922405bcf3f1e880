-- ===== src/Disk/Read.antt =====
-- `read_disk` of Disk.antt delivers the bytes of the disk at the place asked for.
use nano_s.Prelude.{
  ℕ, zero, suc, ◌+◌, ◌-◌, ◌*◌, ◌/◌, ◌%◌, ◌^◌, ◌≤◌, ◌<◌, ◌≡◌, ◌⊎◌, inl, inr, refl, ◌||◌, List, [],
  ◌++◌, ◌==◌, take, drop, u16, min, length, arith, length-append, length-take, length-drop,
  Bool-cases,
}
use nano_s.Disk.{
  Media, Bios, DiskInfo, Reading, sector_size, disk_size, fetch, read_head, read_each, read_whole,
  read_tail, read_disk, sectors_at, first_sector,
}
use nano_s.Disk.Bytes.{
  IsSectored, Matches, Matches-append, Matches-take, Matches-drop, Matches-sector,
  length-sectors_at, Matches-sectors_at,
}

-- Where `read_disk` stands when it has delivered `out`: the next byte is at the start of `sector`.
pub record Good (media : Media) (disk base size : ℕ) (r : Reading) : Type 0 where
  pub delivered : Matches media disk base r.out
  pub count : length r.out + r.left ≡ size
  pub aligned : (r.left ≡ 0) ⊎ (r.sector * sector_size ≡ base + length r.out)

module _ (bios : Bios) (media : Media) (disk base size : ℕ) (sectored : IsSectored media disk)
    (fits : base + size + sector_size ≤ 2 ^ 25) where
  abbrev Ok : Reading → Type 0
  Ok r = r.result ≡ 0 → Good media disk base size r

  fetched :
      (s : ℕ) (buff : List ℕ)
      → bios.read_status disk s 1 ≡ 0
      → fetch bios media disk s buff ≡ media disk s
  unfolding fetch
  fetched s buff e = ground arith

  head-Reads :
      (offset : ℕ) (r : Reading)
      → r.out ≡ []
      → r.left ≡ size
      → offset < sector_size
      → r.sector * sector_size + offset ≡ base
      → Ok (read_head bios media disk offset r)
  unfolding read_head
  head-Reads offset r e l lt at = elim (Bool-cases (offset == 0)) [
    | inl whole ↦ rw whole λ z. record {
      delivered = rw e (λ j h. elim h [ ]);
      count = ground arith;
      aligned = inr (ground arith);
    }
    | inr part ↦ rw part λ z.
        let i = min (sector_size - offset) r.left in
        let got = fetched r.sector r.disk_buff z in
        let n : length (take i (drop offset (media disk r.sector))) ≡ i = omega (
          arith,
          length-take i (drop offset (media disk r.sector)),
          length-drop offset (media disk r.sector),
          sectored r.sector,
        ) in
        record {
          delivered =
              rw (got, ← at)
                (Matches-take media disk (r.sector * sector_size + offset) i _ (
                  Matches-drop media disk (r.sector * sector_size) offset _
                    (Matches-sector media disk sectored r.sector _ refl)));
          count = rw got (omega (arith, n));
          aligned = rw got (ground (arith, n));
        }
  ]

  -- A whole sector more keeps the locals good.
  Good-sector :
      (r r' : Reading)
      → Good media disk base size r
      → sector_size ≤ r.left
      → r'.out ≡ r.out ++ media disk r.sector
      → r'.left ≡ r.left - sector_size
      → r'.sector ≡ u16 (r.sector + 1)
      → Good media disk base size r'
  Good-sector r r' g le o l s =
      let at : r.sector * sector_size ≡ base + length r.out = aligned_at g.aligned in
      let n = length-append r.out (media disk r.sector) in
      record {
        delivered = rw o (
            Matches-append media disk base r.out (media disk r.sector) g.delivered
              (Matches-sector media disk sectored r.sector _ at));
        count = rw (o, l) (omega (arith, n, sectored r.sector, g.count));
        aligned = inr (rw (o, s) (omega (arith, n, sectored r.sector, g.count)));
      }
    where
      aligned_at :
          (r.left ≡ 0) ⊎ (r.sector * sector_size ≡ base + length r.out)
          → r.sector * sector_size ≡ base + length r.out
      aligned_at (inl z) = absurd (omega arith)
      aligned_at (inr e) = e

  -- `n` sectors are done.
  abbrev Advanced : ℕ → Reading → Reading → Type 0
  Advanced n r r' =
      r'.result ≡ 0 → Good media disk base size r' × (r'.left ≡ r.left - sector_size * n)

  each_ok :
      (n : ℕ) (r : Reading)
      → Good media disk base size r
      → sector_size * n ≤ r.left
      → Advanced n r (read_each bios media disk n r)
  unfolding read_each
  each_ok zero r g le = λ z. (g, omega arith)
  each_ok (suc n) r g le = elim (Bool-cases (status == 0)) [
    | inr failed ↦ rw failed λ z. absurd (ground arith)
    | inl fine ↦ rw fine λ z.
        let (good, left) =
          each_ok n next (Good-sector r next g (omega arith) refl refl refl) (omega arith) z in
        (good, omega arith)
  ]
    where
      status : ℕ
      status = bios.read_status disk r.sector 1

      next : Reading
      next = record {
        result = status;
        sector = u16 (r.sector + 1);
        left = r.left - sector_size;
        out = r.out ++ media disk r.sector;
        disk_buff = fetch bios media disk r.sector r.disk_buff;
      }

  Good-sectors :
      (n : ℕ) (r r' : Reading)
      → Good media disk base size r
      → 0 < n
      → sector_size * n ≤ r.left
      → r'.out ≡ r.out ++ sectors_at media disk r.sector n
      → r'.left ≡ r.left - sector_size * n
      → r'.sector ≡ u16 (r.sector + n)
      → Good media disk base size r'
  Good-sectors n r r' g pos le o l s =
      let at : r.sector * sector_size ≡ base + length r.out = aligned_at g.aligned in
      let more = sectors_at media disk r.sector n in
      let len = length-append r.out more in
      let len' = length-sectors_at media disk sectored n r.sector in
      record {
        delivered = rw o (
            Matches-append media disk base r.out more g.delivered
              (Matches-sectors_at media disk sectored n r.sector _ at));
        count = rw (o, l) (omega (arith, len, len', g.count));
        aligned = inr (rw (o, s) (omega (arith, len, len', g.count)));
      }
    where
      aligned_at :
          (r.left ≡ 0) ⊎ (r.sector * sector_size ≡ base + length r.out)
          → r.sector * sector_size ≡ base + length r.out
      aligned_at (inl z) = absurd (omega arith)
      aligned_at (inr e) = e

  -- After `read_whole` less than a sector is left.
  abbrev Ready : Reading → Type 0
  Ready r = r.result ≡ 0 → Good media disk base size r × (r.left < sector_size)

  whole-Reads : (r : Reading) → Ok r → Ready (read_whole bios media disk r)
  unfolding read_whole
  whole-Reads r ok = elim (Bool-cases (r.left / sector_size == 0)) [
    | inl few ↦ rw few λ z. (ok z, ground arith)
    | inr many ↦ elim (Bool-cases (r.result == 0)) [
      | inr failed ↦ rw (many, failed) λ z. absurd (ground arith)
      | inl fine ↦ elim (Bool-cases (status == 0x900)) [
        | inl dma ↦
            rw (many, fine, dma)
              λ z.
                let (good, left) =
                  each_ok n (record r { result = status }) (again (ok (ground arith))) (omega arith)
                    z in
                (good, omega arith)
        | inr direct ↦
            rw (many, fine, direct)
              λ z. (
                Good-sectors n r _ (ok (ground arith)) (ground arith) (omega arith) refl refl refl,
                omega arith,
              )
      ]
    ]
  ]
    where
      n : ℕ
      n = r.left / sector_size

      status : ℕ
      status = bios.read_status disk r.sector n

      again : Good media disk base size r → Good media disk base size (record r { result = status })
      again g = record { delivered = g.delivered; count = g.count; aligned = g.aligned }

  -- What `buff` must hold at the end.
  abbrev pub Delivered : Reading → Type 0
  Delivered r = r.result ≡ 0 → (length r.out ≡ size) × Matches media disk base r.out

  tail-Reads : (r : Reading) → Ready r → Delivered (read_tail bios media disk r)
  unfolding read_tail
  tail-Reads r ok = elim (Bool-cases (r.left == 0)) [
    | inl done ↦ rw done λ z. let (g, lt) = ok z in (ground (arith, g.count), g.delivered)
    | inr more ↦ elim (Bool-cases (r.result == 0)) [
      | inr failed ↦ rw (more, failed) λ z. absurd (ground arith)
      | inl fine ↦
          rw (more, fine)
            λ z.
              let (g, lt) = ok (ground arith) in
              let got = fetched r.sector r.disk_buff z in
              let at : r.sector * sector_size ≡ base + length r.out = ground (arith, g.aligned) in
              (
                rw got (
                    omega (
                      arith,
                      length-append r.out (take r.left (media disk r.sector)),
                      length-take r.left (media disk r.sector),
                      sectored r.sector,
                      g.count,
                    )),
                rw got (
                    Matches-append media disk base r.out _ g.delivered (
                      Matches-take media disk _ r.left _
                        (Matches-sector media disk sectored r.sector _ at))),
              )
    ]
  ]

-- When `read_disk` returns 0 it has stored `buff_size` bytes in the buffer, and they are the bytes
-- of the disk from `block * 512 + offset` on: aligned or not, read at once or, after a DMA error,
-- sector by sector. The range must end at least a sector before the 32 MB that a 16-bit sector
-- number reaches, and sectors have 512 bytes.
pub read_disk_lem :
    (bios : Bios) (disk_info : List DiskInfo) (media : Media) (disk_buff : List ℕ)
    (disk block offset buff_size buff : ℕ)
    → IsSectored media disk
    → block * sector_size + offset + buff_size + sector_size ≤ 2 ^ 25
    → let r = read_disk bios disk_info media disk_buff disk block offset buff_size buff in
      r.result ≡ 0
      → (length r.out ≡ buff_size) × Matches media disk (block * sector_size + offset) r.out
unfolding read_disk
read_disk_lem bios disk_info media disk_buff disk block offset buff_size buff sectored fits =
    elim (Bool-cases (buff == 0 || disk_size disk_info disk == 0)) [
      | inl bad ↦ rw bad λ z. absurd (omega arith)
      | inr good ↦ rw good (
          tail-Reads bios media disk base buff_size sectored fits _ (
            whole-Reads bios media disk base buff_size sectored fits _ (
              head-Reads bios media disk base buff_size sectored fits (offset % sector_size) start
                refl refl (omega arith) (omega arith))))
    ]
  where
    base : ℕ
    base = block * sector_size + offset

    start : Reading
    start = record {
      result = 0;
      sector = first_sector block offset;
      left = buff_size;
      out = [];
      disk_buff = disk_buff;
    }
