-- ===== src/Fs/Paths/Find.antt =====
-- The search of `fs_get_entry` in source/fs.c through the table, on a disk without failures.
use nano_s.Prelude.{
  ℕ, zero, suc, ◌+◌, ◌≤◌, ◌≡◌, refl, Bool, Bool-cases, ◌&&◌, List, ◌==◌, inl, inr, arith, Searched,
  Searched-empty, Searched-here, Searched-later,
}
use nano_s.Strings.{strcmp}
use nano_s.Disk.{error_not_found}
use nano_s.Fs.Types.{f_used}
use nano_s.Fs.Monad.{World, ok, err}
use nano_s.Fs.Table.{is_set}
use nano_s.Fs.Table.Access.{Healthy, table, n_limit, entry_at_lem}
use nano_s.Fs.Table.Search.{super, with_super, with_super-Healthy, read_super_lem}
use nano_s.Fs.Paths.{entry_from, find_entry}

-- A used entry of the directory `parent` with the name `path`.
abbrev pub is_named : World → ℕ → ℕ → List ℕ → ℕ → Bool
is_named w disk parent path n =
    is_set (table w disk n).flags f_used
    && (table w disk n).parent == parent
    && strcmp (table w disk n).name path == 0

entry_from_lem :
    (left : ℕ) (w : World) (disk parent : ℕ) (path : List ℕ) (n hi : ℕ)
    → Healthy w disk
    → n + left ≡ hi
    → hi ≤ n_limit
    → Searched
        (is_named w disk parent path)
        n
        hi
        (λ k. ok (k, table w disk k) w)
        (err error_not_found w)
        (entry_from left disk parent path n w)
unfolding entry_from
entry_from_lem zero w disk parent path n hi h e lt = Searched-empty _ _ _ n hi (omega arith) refl
entry_from_lem (suc left) w disk parent path n hi h e lt =
    elim (Bool-cases (is_named w disk parent path n)) [
      | inl hit ↦
          Searched-here _ _ _ n hi (omega arith) hit
            (rw (entry_at_lem w disk n h (omega arith), hit) refl)
      | inr miss ↦ Searched-later _ _ _ n hi miss (
          rw (entry_at_lem w disk n h (omega arith), miss)
            (entry_from_lem left w disk parent path (n + 1) hi h (omega arith) lt))
    ]

-- On a disk without failures, whose superblock counts at most the entries that a 16-bit block
-- number reaches, the search for a name in a directory answers with the first used entry of the
-- table that has this parent and for whose name `strcmp` gives 0, or with ERROR_NOT_FOUND if there
-- is none.
pub find_entry_lem :
    (w : World) (path : List ℕ) (parent disk : ℕ)
    → Healthy w disk
    → (super w disk).nentries ≤ n_limit
    → Searched
        (is_named w disk parent path)
        0
        (super w disk).nentries
        (λ k. ok (k, table w disk k) (with_super w disk))
        (err error_not_found (with_super w disk))
        (find_entry path parent disk w)
unfolding find_entry table
find_entry_lem w path parent disk h lt = rw (read_super_lem w disk h) (
    entry_from_lem (super w disk).nentries (with_super w disk) disk parent path 0 _
      (with_super-Healthy w disk h) (omega arith) lt)
