-- ===== src/Disk/Write.antt =====
-- `write_disk` of Disk.antt stores the buffer's bytes at the place asked for, and nothing else.
use nano_s.Prelude.{
  ℕ, zero, suc, ◌+◌, ◌-◌, ◌*◌, ◌/◌, ◌%◌, ◌^◌, ◌≤◌, ◌<◌, ◌≡◌, ◌⊎◌, inl, inr, refl, ◌∙◌, ◌&&◌, ◌||◌,
  List, ◌==◌, ltb, leb, true, if◌then◌else◌, get_or, take, drop, u16, min, length, arith,
  get_or-take, get_or-drop, length-take, length-drop, drop-drop, Bool-cases,
}
use nano_s.Disk.{
  Media, Bios, DiskInfo, Writing, sector_size, disk_size, fetch, store, put_sector, put_sectors,
  overlay, write_head, write_each, write_whole, write_tail, write_disk, first_sector,
}
use nano_s.Disk.Bytes.{IsSectored}
use nano_s.Disk.Stored.{length-overlay, get_or-overlay, Stored, Part, Good, Stored-put}

module _ (bios : Bios) (media0 : Media) (disk : ℕ) (bytes : List ℕ) (base size : ℕ)
    (long : size ≤ length bytes) (fits : base + size + sector_size ≤ 2 ^ 25) where
  abbrev Ok : Writing → Type 0
  Ok w = w.result ≡ 0 → Good media0 disk bytes base size w

  IsSectored-put :
      (media : Media) (s : ℕ) (xs : List ℕ)
      → IsSectored media disk
      → length xs ≡ sector_size
      → IsSectored (put_sector media disk s xs) disk
  IsSectored-put media s xs h e j = ground (arith, h j)

  Good-put :
      (w w' : Writing) (off k : ℕ) (xs : List ℕ)
      → Part media0 disk bytes base size w
      → w.sector * sector_size + off ≡ base + w.done
      → off + k ≤ sector_size
      → k ≤ w.left
      → (w.left ≡ k) ⊎ (off + k ≡ sector_size)
      → length xs ≡ sector_size
      → ((j : ℕ)
          → j < sector_size
          → get_or xs j 0 ≡ (
              if leb off j && ltb j (off + k)
              then get_or bytes (w.done + (j - off)) 0
              else get_or (w.media disk w.sector) j 0))
      → w'.media ≡ put_sector w.media disk w.sector xs
      → w'.done ≡ w.done + k
      → w'.left ≡ w.left - k
      → w'.sector ≡ u16 (w.sector + 1)
      → Good media0 disk bytes base size w'
  Good-put w w' off k xs g at room le full len new m d l s = record {
    part = record {
      stored =
          rw (m, d)
            (Stored-put media0 disk bytes base w.media w.done w.sector off k xs g.stored at room
              new);
      count = omega (arith, g.count);
      sectored = rw m (IsSectored-put w.media w.sector xs g.sectored len);
    };
    aligned = ground (arith, g.count);
  }

  fetched :
      (media : Media) (s : ℕ) (buff : List ℕ)
      → bios.read_status disk s 1 ≡ 0
      → fetch bios media disk s buff ≡ media disk s
  unfolding fetch
  fetched media s buff e = ground arith

  stored_one :
      (media : Media) (s : ℕ) (xs : List ℕ)
      → bios.write_status disk s 1 ≡ 0
      → store bios disk bytes s xs media ≡ put_sector media disk s xs
  unfolding store
  stored_one media s xs e = ground arith

  -- The two statuses of a sector that is read and written back do not add up to 2 ^ 16.
  abbrev NoMask : Type 0
  NoMask = (s : ℕ) → bios.read_status disk s 1 + bios.write_status disk s 1 < 2 ^ 16

  -- The content of a sector over which `k` bytes from `done` on are laid at `off`.
  overlaid :
      (sector : List ℕ) (done off k j : ℕ)
      → length sector ≡ sector_size
      → off + k ≤ sector_size
      → done + k ≤ size
      → get_or (overlay off (take k (drop done bytes)) sector) j 0 ≡ (
          if leb off j && ltb j (off + k)
          then get_or bytes (done + (j - off)) 0
          else get_or sector j 0)
  overlaid sector done off k j len room le =
      let xs = take k (drop done bytes) in
      let n : length xs ≡ k =
        omega (arith, length-take k (drop done bytes), length-drop done bytes) in
      ground (
        arith,
        get_or-overlay off xs sector j,
        n,
        get_or-take k (j - off) (drop done bytes) 0,
        get_or-drop done (j - off) bytes 0,
      )

  length-overlaid :
      (sector : List ℕ) (done off k : ℕ)
      → length sector ≡ sector_size
      → off + k ≤ sector_size
      → done + k ≤ size
      → length (overlay off (take k (drop done bytes)) sector) ≡ sector_size
  length-overlaid sector done off k len room le =
      let xs = take k (drop done bytes) in
      let n : length xs ≡ k =
        omega (arith, length-take k (drop done bytes), length-drop done bytes) in
      length-overlay off xs sector (omega arith) ∙ len

  head-Writes :
      (offset : ℕ) (w : Writing)
      → NoMask
      → Part media0 disk bytes base size w
      → w.done ≡ 0
      → w.result ≡ 0
      → offset < sector_size
      → w.sector * sector_size + offset ≡ base
      → Ok (write_head bios disk bytes offset w)
  unfolding write_head
  head-Writes offset w small g d r lt at = elim (Bool-cases (offset == 0)) [
    | inl whole ↦ rw whole λ z. record { part = g; aligned = inr (ground arith) }
    | inr part ↦ rw part λ z.
        let i = min (sector_size - offset) w.left in
        let sector = w.media disk w.sector in
        let got = fetched w.media w.sector w.disk_buff (omega (arith, small w.sector)) in
        let xs = overlay offset (take i bytes) sector in
        Good-put w _ offset i xs g (omega arith) (omega arith) (omega arith) (ground arith)
          (length-overlaid sector 0 offset i (g.sectored w.sector) (omega arith)
            (omega (arith, g.count)))
          (λ j h. rw d (
            overlaid sector 0 offset i j (g.sectored w.sector) (omega arith)
              (omega (arith, g.count))))
          (rw got (stored_one w.media w.sector xs (omega (arith, small w.sector)))) (omega arith)
          refl refl
  ]

  -- A full sector at the place that has been reached.
  Good-full :
      (w w' : Writing)
      → Good media0 disk bytes base size w
      → sector_size ≤ w.left
      → w'.media ≡ put_sector w.media disk w.sector (take sector_size (drop w.done bytes))
      → w'.done ≡ w.done + sector_size
      → w'.left ≡ w.left - sector_size
      → w'.sector ≡ u16 (w.sector + 1)
      → Good media0 disk bytes base size w'
  Good-full w w' g le m d l s =
      Good-put w w' 0 sector_size (take sector_size (drop w.done bytes)) g.part
        (ground (arith, g.aligned)) (omega arith) le (inr (omega arith))
        (omega (
          arith,
          length-take sector_size (drop w.done bytes),
          length-drop w.done bytes,
          g.part.count,
        ))
        (λ j h.
          ground
            (arith, get_or-take sector_size j (drop w.done bytes) 0, get_or-drop w.done j bytes 0))
        m d l s

  -- `n` sectors are done.
  abbrev Advanced : ℕ → Writing → Writing → Type 0
  Advanced n w w' =
      w'.result ≡ 0 → Good media0 disk bytes base size w' × (w'.left ≡ w.left - sector_size * n)

  each_ok :
      (n : ℕ) (w : Writing)
      → Good media0 disk bytes base size w
      → sector_size * n ≤ w.left
      → Advanced n w (write_each bios disk bytes n w)
  unfolding write_each
  each_ok zero w g le = λ z. (g, omega arith)
  each_ok (suc n) w g le = elim (Bool-cases (status == 0)) [
    | inr failed ↦ rw failed λ z. absurd (ground arith)
    | inl fine ↦ rw fine λ z.
        let ok =
          stored_one w.media w.sector (take sector_size (drop w.done bytes)) (ground arith) in
        let (good, left) =
          each_ok n next (Good-full w next g (omega arith) ok refl refl refl) (omega arith) z in
        (good, omega arith)
  ]
    where
      status : ℕ
      status = bios.write_status disk w.sector 1

      next : Writing
      next = record {
        result = status;
        sector = u16 (w.sector + 1);
        left = w.left - sector_size;
        done = w.done + sector_size;
        disk_buff = take sector_size (drop w.done bytes);
        media = store bios disk bytes w.sector (take sector_size (drop w.done bytes)) w.media;
      }

  -- `n` whole sectors at once.
  at_once_ok :
      (n : ℕ) (w w' : Writing)
      → Good media0 disk bytes base size w
      → sector_size * n ≤ w.left
      → w'.sector ≡ u16 (w.sector + n)
      → w'.left ≡ w.left - sector_size * n
      → w'.done ≡ w.done + sector_size * n
      → w'.media ≡ put_sectors w.media disk w.sector n (drop w.done bytes)
      → Good media0 disk bytes base size w'
  unfolding put_sectors
  at_once_ok zero w w' g le s l d m = record {
    part = record {
      stored = let same : w'.done ≡ w.done = omega arith in rw (m, same) g.part.stored;
      count = omega (arith, g.part.count);
      sectored = rw m g.part.sectored;
    };
    aligned = ground (arith, g.aligned, g.part.count);
  }
  at_once_ok (suc n) w w' g le s l d m =
      at_once_ok n next w' (Good-full w next g (omega arith) refl refl refl sector') (omega arith)
        (s ∙ ground arith) (omega arith) (omega arith)
        (m ∙ rw (drop-drop w.done sector_size bytes) refl)
    where
      next : Writing
      next = record w {
        sector = w.sector + 1;
        left = w.left - sector_size;
        done = w.done + sector_size;
        media = put_sector w.media disk w.sector (take sector_size (drop w.done bytes));
      }

      sector' : w.sector + 1 ≡ u16 (w.sector + 1)
      sector' = ground (arith, g.aligned, g.part.count)

  -- After `write_whole` less than a sector is left.
  abbrev Ready : Writing → Type 0
  Ready w = w.result ≡ 0 → Good media0 disk bytes base size w × (w.left < sector_size)

  whole-Writes : (w : Writing) → Ok w → Ready (write_whole bios disk bytes w)
  unfolding write_whole
  whole-Writes w ok = elim (Bool-cases (w.left / sector_size == 0)) [
    | inl few ↦ rw few λ z. (ok z, ground arith)
    | inr many ↦ elim (Bool-cases (w.result == 0)) [
      | inr failed ↦ rw (many, failed) λ z. absurd (ground arith)
      | inl fine ↦ elim (Bool-cases (status == 0x900)) [
        | inl dma ↦
            rw (many, fine, dma)
              λ z.
                let (good, left) =
                  each_ok n (record w { result = status }) (again (ok (ground arith))) (omega arith)
                    z in
                (good, omega arith)
        | inr direct ↦
            rw (many, fine, direct)
              λ z.
                let written : (status == 0) ≡ true = ground arith in
                (
                  at_once_ok n w _ (ok (ground arith)) (omega arith) refl refl refl
                      (rw written refl),
                  omega arith,
                )
      ]
    ]
  ]
    where
      n : ℕ
      n = w.left / sector_size

      status : ℕ
      status = bios.write_status disk w.sector n

      again :
          Good media0 disk bytes base size w
          → Good media0 disk bytes base size (record w { result = status })
      again g = record {
        part = record { stored = g.part.stored; count = g.part.count; sectored = g.part.sectored };
        aligned = g.aligned;
      }

  -- What the disk must hold at the end.
  abbrev pub Written : Writing → Type 0
  Written w = w.result ≡ 0 → Stored media0 disk bytes base (base + size) w.media

  tail-Writes : (w : Writing) → NoMask → Ready w → Written (write_tail bios disk bytes w)
  unfolding write_tail
  tail-Writes w small ok = elim (Bool-cases (w.left == 0)) [
    | inl full ↦ rw full λ z.
        let (g, lt) = ok z in
        let all : w.done ≡ size = ground (arith, g.part.count) in rw (← all) g.part.stored
    | inr more ↦ elim (Bool-cases (w.result == 0)) [
      | inr failed ↦ rw (more, failed) λ z. absurd (ground arith)
      | inl fine ↦
          rw (more, fine)
            λ z.
              let (g, lt) = ok (ground arith) in
              let sector = w.media disk w.sector in
              let k = w.left in
              let got = fetched w.media w.sector w.disk_buff (omega (arith, small w.sector)) in
              let xs = overlay 0 (take k (drop w.done bytes)) sector in
              let put = stored_one w.media w.sector xs (omega (arith, small w.sector)) in
              let at : w.sector * sector_size + 0 ≡ base + w.done = ground (arith, g.aligned) in
              let all : w.done + k ≡ size = g.part.count in
              rw (got, put, ← all)
                (Stored-put media0 disk bytes base w.media w.done w.sector 0 k xs g.part.stored at
                  (omega arith)
                  (λ j h.
                    overlaid sector w.done 0 k j (g.part.sectored w.sector) (omega arith)
                      (omega arith)))
    ]
  ]

-- When `write_disk` returns 0, the bytes of the buffer are on the disk from
-- `block * 512 + offset` on, and every other byte of every disk is as before. The buffer holds
-- `buff_size` bytes, sectors have 512 bytes, the range ends at least a sector before the 32 MB that
-- a 16-bit sector number reaches, and the two statuses that the code adds do not wrap.
pub write_disk_lem :
    (bios : Bios) (disk_info : List DiskInfo) (media : Media) (disk_buff : List ℕ)
    (disk block offset buff_size buff : ℕ) (bytes : List ℕ)
    → IsSectored media disk
    → buff_size ≤ length bytes
    → block * sector_size + offset + buff_size + sector_size ≤ 2 ^ 25
    → ((s : ℕ) → bios.read_status disk s 1 + bios.write_status disk s 1 < 2 ^ 16)
    → let w = write_disk bios disk_info media disk_buff disk block offset buff_size buff bytes in
      w.result ≡ 0
      → let base = block * sector_size + offset in
        Stored media disk bytes base (base + buff_size) w.media
unfolding write_disk
write_disk_lem bios disk_info media disk_buff disk block offset buff_size buff bytes sectored long
      fits small =
    elim (Bool-cases (buff == 0 || disk_size disk_info disk == 0)) [
      | inl bad ↦ rw bad λ z. absurd (omega arith)
      | inr good ↦ rw good (
          tail-Writes bios media disk bytes base buff_size long fits _ small (
            whole-Writes bios media disk bytes base buff_size long fits _ (
              head-Writes bios media disk bytes base buff_size long fits (offset % sector_size)
                start small
                (record { stored = λ d p. ground arith; count = omega arith; sectored = sectored })
                refl refl (omega arith) (omega arith))))
    ]
  where
    base : ℕ
    base = block * sector_size + offset

    start : Writing
    start = record {
      result = 0;
      sector = first_sector block offset;
      left = buff_size;
      done = 0;
      disk_buff = disk_buff;
      media = media;
    }
