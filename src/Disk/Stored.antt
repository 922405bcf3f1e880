-- ===== src/Disk/Stored.antt =====
-- What a write of bytes at an offset leaves on the disks, for `write_disk` of Disk.antt.
use nano_s.Prelude.{
  ℕ, ◌+◌, ◌-◌, ◌*◌, ◌/◌, ◌%◌, ◌≤◌, ◌<◌, ◌≡◌, ◌⊎◌, ◌&&◌, List, ◌++◌, ◌==◌, ltb, leb, if◌then◌else◌,
  get_or, take, drop, length, arith, get_or-append, get_or-take, get_or-drop, length-append,
  length-take, length-drop,
}
use nano_s.Disk.{Media, Writing, sector_size, put_sector, overlay}
use nano_s.Disk.Bytes.{disk_byte, IsSectored}

pub length-overlay :
    (off : ℕ) (xs buff : List ℕ)
    → off + length xs ≤ length buff
    → length (overlay off xs buff) ≡ length buff
length-overlay off xs buff h = omega (
  arith,
  length-append (take off buff) (xs ++ drop (off + length xs) buff),
  length-append xs (drop (off + length xs) buff),
  length-take off buff,
  length-drop (off + length xs) buff,
)

pub get_or-overlay :
    (off : ℕ) (xs buff : List ℕ) (j : ℕ)
    → off + length xs ≤ length buff
    → get_or (overlay off xs buff) j 0
      ≡ (if leb off j && ltb j (off + length xs) then get_or xs (j - off) 0 else get_or buff j 0)
get_or-overlay off xs buff j h = ground (
  arith,
  get_or-append (take off buff) (xs ++ drop (off + length xs) buff) j 0,
  get_or-append xs (drop (off + length xs) buff) (j - off) 0,
  length-take off buff,
  get_or-take off j buff 0,
  get_or-drop (off + length xs) (j - off - length xs) buff 0,
)

-- `media` is `media0` with the bytes written over [base, hi) of `disk`.
abbrev pub Stored : Media → ℕ → List ℕ → ℕ → ℕ → Media → Type 0
Stored media0 disk bytes base hi media =
    (d p : ℕ)
    → disk_byte media d p ≡ (
        if d == disk && (leb base p && ltb p hi)
        then get_or bytes (p - base) 0
        else disk_byte media0 d p)

disk_byte-put :
    (media : Media) (disk s : ℕ) (xs : List ℕ) (d p : ℕ)
    → disk_byte (put_sector media disk s xs) d p ≡ (
        if d == disk && p / sector_size == s
        then get_or xs (p % sector_size) 0
        else disk_byte media d p)
disk_byte-put media disk s xs d p = ground arith

-- What `write_disk` has done when it has written `done` bytes.
pub record Part (media0 : Media) (disk : ℕ) (bytes : List ℕ) (base size : ℕ) (w : Writing)
    : Type 0 where
  pub stored : Stored media0 disk bytes base (base + w.done) w.media
  pub count : w.done + w.left ≡ size
  pub sectored : IsSectored w.media disk

-- The next byte is moreover at the start of `sector`.
pub record Good (media0 : Media) (disk : ℕ) (bytes : List ℕ) (base size : ℕ) (w : Writing)
    : Type 0 where
  pub part : Part media0 disk bytes base size w
  pub aligned : (w.left ≡ 0) ⊎ (w.sector * sector_size ≡ base + w.done)

module _ (media0 : Media) (disk : ℕ) (bytes : List ℕ) (base : ℕ) where
  -- One sector more, of which `k` bytes from `off` on are new.
  pub Stored-put :
      (media : Media) (done s off k : ℕ) (xs : List ℕ)
      → Stored media0 disk bytes base (base + done) media
      → s * sector_size + off ≡ base + done
      → off + k ≤ sector_size
      → ((j : ℕ)
          → j < sector_size
          → get_or xs j 0 ≡ (
              if leb off j && ltb j (off + k)
              then get_or bytes (done + (j - off)) 0
              else get_or (media disk s) j 0))
      → Stored media0 disk bytes base (base + (done + k)) (put_sector media disk s xs)
  Stored-put media done s off k xs old at room new d p =
      ground
        (arith, disk_byte-put media disk s xs d p, old d p, new (p % sector_size) (omega arith))
