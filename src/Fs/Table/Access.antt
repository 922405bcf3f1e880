-- ===== src/Fs/Table/Access.antt =====
-- Access to the table of a disk without failures: `get_entry_n` and `write_entry` of source/fs.c
-- against the table as a function from indices to entries.
use nano_s.Prelude.{
  ℕ, zero, suc, ◌+◌, ◌-◌, ◌^◌, ◌<◌, ◌≡◌, refl, ap, ◌∙◌, ◌≢◌, true, false, ◌&&◌, List, [], ◌∷◌, ◌==◌,
  arith, leb, take, length,
}
use nano_s.Disk.{disk_size, put_sector}
use nano_s.Disk.Aligned.{read_disk-sector, write_disk-sector}
use nano_s.Fs.Types.{error_any, Entry, IsEntry}
use nano_s.Fs.Image.{encode_entry, decode_entry, decode_entry-encode_entry, length-encode_entry}
use nano_s.Fs.Monad.{World, ok}
use nano_s.Fs.Table.{
  reading, writing, get_entry_n, entry_at, write_entry, put_entry, entry_block, entry_offset, local,
}

-- A known disk whose BIOS calls all succeed.
pub record Healthy (w : World) (disk : ℕ) : Type 0 where
  pub known : disk_size w.disk_info disk ≢ 0
  pub reads : (s n : ℕ) → w.bios.read_status disk s n ≡ 0
  pub writes : (s n : ℕ) → w.bios.write_status disk s n ≡ 0

-- The table of the disk.
unfoldable pub table : World → ℕ → ℕ → Entry
table w disk n = decode_entry (w.media disk (2 + n))

-- The world in which entry `n` of the table is `entry`.
abbrev pub with_entry : World → ℕ → ℕ → Entry → World
with_entry w disk n entry = record w {
  media = put_sector w.media disk (2 + n) (encode_entry entry);
}

-- The indices whose block number does not wrap.
abbrev pub n_limit : ℕ
n_limit = 2 ^ 16 - 5

pub get_entry_n_lem :
    (w : World) (disk n : ℕ)
    → Healthy w disk
    → n < n_limit
    → get_entry_n disk n w ≡ ok (n, table w disk n) w
unfolding get_entry_n reading table
get_entry_n_lem w disk n h lt =
    let block : entry_block n ≡ 2 + n = omega arith in
    let offset : entry_offset n ≡ 0 = omega arith in
    rw
      (
        block,
        offset,
        read_disk-sector w.bios w.disk_info w.media w.disk_buff disk (2 + n) local h.known
            (omega arith) (omega arith) (h.reads (2 + n) 1),
      )
      refl

pub entry_at_lem :
    (w : World) (disk n : ℕ)
    → Healthy w disk
    → n < n_limit
    → entry_at disk n w ≡ ok (table w disk n) w
unfolding entry_at
entry_at_lem w disk n h lt =
    let low : leb error_any n ≡ false = ground arith in rw (get_entry_n_lem w disk n h lt, low) refl

take-full : (n : ℕ) (xs : List ℕ) → length xs ≡ n → take n xs ≡ xs
take-full zero [] h = refl
take-full zero (x ∷ xs) h = absurd (omega arith)
take-full (suc n) [] h = refl
take-full (suc n) (x ∷ xs) h = ap (λ t. x ∷ t) (take-full n xs (omega arith))

pub write_entry_lem :
    (w : World) (disk n : ℕ) (entry : Entry)
    → Healthy w disk
    → IsEntry entry
    → n < n_limit
    → write_entry entry disk n w ≡ ok 0 (with_entry w disk n entry)
unfolding write_entry writing
write_entry_lem w disk n entry h v lt =
    let block : entry_block n ≡ 2 + n = omega arith in
    let offset : entry_offset n ≡ 0 = omega arith in
    rw
      (
        block,
        offset,
        write_disk-sector w.bios w.disk_info w.media w.disk_buff disk (2 + n) local
            (encode_entry entry) h.known (omega arith) (omega arith) (h.writes (2 + n) 1),
        take-full 512 (encode_entry entry) (length-encode_entry entry v),
      )
      refl

pub put_entry_lem :
    (w : World) (disk n : ℕ) (entry : Entry)
    → Healthy w disk
    → IsEntry entry
    → n < n_limit
    → put_entry entry disk n w ≡ ok 0 (with_entry w disk n entry)
unfolding put_entry
put_entry_lem w disk n entry h v lt = rw (write_entry_lem w disk n entry h v lt) refl

pub table-with_entry :
    (w : World) (disk n : ℕ) (entry : Entry)
    → IsEntry entry
    → table (with_entry w disk n entry) disk n ≡ entry
unfolding table
table-with_entry w disk n entry v =
    let hit : (disk == disk && 2 + n == 2 + n) ≡ true = ground arith in
    rw hit (decode_entry-encode_entry entry v)

pub table-with_entry_other :
    (w : World) (disk n : ℕ) (entry : Entry) (d m : ℕ)
    → (d ≡ disk → m ≢ n)
    → table (with_entry w disk n entry) d m ≡ table w d m
unfolding table
table-with_entry_other w disk n entry d m apart =
    let miss : (d == disk && 2 + m == 2 + n) ≡ false = ground arith in rw miss refl

pub with_entry-Healthy :
    (w : World) (disk n : ℕ) (entry : Entry)
    → Healthy w disk
    → Healthy (with_entry w disk n entry) disk
with_entry-Healthy w disk n entry h = record { known = h.known; reads = h.reads; writes = h.writes }

-- On a disk without failures an entry whose fields fit their types and whose index is one that a
-- 16-bit block number reaches, once written to the table, is read back as it was, and every other
-- entry, of this disk or another one, is as before.
pub get_entry_n-write_entry :
    (w : World) (disk n : ℕ) (entry : Entry)
    → Healthy w disk
    → IsEntry entry
    → n < n_limit
    → (write_entry entry disk n w ≡ ok 0 (with_entry w disk n entry))
      × (get_entry_n disk n (with_entry w disk n entry) ≡ ok (n, entry) (with_entry w disk n entry))
      × ((d m : ℕ) → (d ≡ disk → m ≢ n) → table (with_entry w disk n entry) d m ≡ table w d m)
get_entry_n-write_entry w disk n entry h v lt =
    let read =
      get_entry_n_lem (with_entry w disk n entry) disk n (with_entry-Healthy w disk n entry h) lt in
    (
      write_entry_lem w disk n entry h v lt,
      read ∙ ap (λ e. ok (n, e) (with_entry w disk n entry)) (table-with_entry w disk n entry v),
      λ d m apart. table-with_entry_other w disk n entry d m apart,
    )
