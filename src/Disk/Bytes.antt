-- ===== src/Disk/Bytes.antt =====
-- The bytes of a disk by their offset, for `read_disk` and `write_disk` of Disk.antt.
use nano_s.Prelude.{
  ℕ, zero, suc, ◌+◌, ◌-◌, ◌*◌, ◌/◌, ◌%◌, ◌<◌, ◌≡◌, List, ◌++◌, get_or, take, drop, length, arith,
  get_or-append, get_or-take, get_or-drop, length-append, length-take, length-drop, dec_lt,
}
use nano_s.Disk.{Media, sector_size, sectors_at}

-- The byte at offset `p` of a disk.
abbrev pub disk_byte : Media → ℕ → ℕ → ℕ
disk_byte media disk p = get_or (media disk (p / sector_size)) (p % sector_size) 0

-- Every sector of the disk has 512 bytes.
abbrev pub IsSectored : Media → ℕ → Type 0
IsSectored media disk = (s : ℕ) → length (media disk s) ≡ sector_size

module _ (media : Media) (disk : ℕ) where
  -- `out` holds the disk's bytes from `base` on.
  abbrev pub Matches : ℕ → List ℕ → Type 0
  Matches base out = (j : ℕ) → j < length out → get_or out j 0 ≡ disk_byte media disk (base + j)

  pub Matches-append :
      (base : ℕ) (xs ys : List ℕ)
      → Matches base xs
      → Matches (base + length xs) ys
      → Matches base (xs ++ ys)
  Matches-append base xs ys h k j lt = elim (dec_lt j (length xs)) [
    | yes first ↦ ground (arith, get_or-append xs ys j 0, h j)
    | no second ↦
        let at : base + length xs + (j - length xs) ≡ base + j = omega arith in
        rw (← at) (ground (arith, get_or-append xs ys j 0, k (j - length xs), length-append xs ys))
  ]

  pub Matches-take : (base n : ℕ) (xs : List ℕ) → Matches base xs → Matches base (take n xs)
  Matches-take base n xs h j lt = ground (arith, length-take n xs, get_or-take n j xs 0, h j)

  pub Matches-drop : (base n : ℕ) (xs : List ℕ) → Matches base xs → Matches (base + n) (drop n xs)
  Matches-drop base n xs h j lt =
      let at : base + (n + j) ≡ base + n + j = omega arith in
      rw (← at) (ground (arith, length-drop n xs, get_or-drop n j xs 0, h (n + j)))

  module _ (sectored : IsSectored media disk) where
    pub Matches-sector : (s base : ℕ) → s * sector_size ≡ base → Matches base (media disk s)
    Matches-sector s base e j lt =
        let q : (base + j) / sector_size ≡ s = omega (arith, sectored s) in
        let r : (base + j) % sector_size ≡ j = omega (arith, sectored s) in rw (q, r)

    pub length-sectors_at : (n s : ℕ) → length (sectors_at media disk s n) ≡ sector_size * n
    unfolding sectors_at
    length-sectors_at zero s = omega arith
    length-sectors_at (suc n) s = omega (
      arith,
      length-append (media disk s) (sectors_at media disk (s + 1) n),
      sectored s,
      length-sectors_at n (s + 1),
    )

    pub Matches-sectors_at :
        (n s base : ℕ) → s * sector_size ≡ base → Matches base (sectors_at media disk s n)
    unfolding sectors_at
    Matches-sectors_at zero s base e = λ j lt. elim lt [ ]
    Matches-sectors_at (suc n) s base e =
        Matches-append base (media disk s) (sectors_at media disk (s + 1) n)
          (Matches-sector s base e)
          (Matches-sectors_at n (s + 1) (base + length (media disk s)) (omega (arith, sectored s)))
