-- ===== src/Fs/Paths/Tests.antt =====
-- Witnesses for the search by name and for names of source/fs.c, on the small disk.
use nano_s.Prelude.{ℕ, List, [], ◌∷◌, arith, Searched}
use nano_s.Disk.{error_not_found}
use nano_s.Fs.Monad.{ok, err}
use nano_s.Fs.Table.Access.{table}
use nano_s.Fs.Table.Search.{super, with_super}
use nano_s.Fs.Table.Tests.{small, hd0, small-Healthy, nentries_small}
use nano_s.Fs.Paths.{find_entry}
use nano_s.Fs.Paths.Find.{is_named, find_entry_lem}

-- "n"
abbrev n_name : List ℕ
n_name = 110 ∷ []

find_entry_lem_example :
    Searched
      (is_named small hd0 0 n_name)
      0
      (super small hd0).nentries
      (λ k. ok (k, table small hd0 k) (with_super small hd0))
      (err error_not_found (with_super small hd0))
      (find_entry n_name 0 hd0 small)
find_entry_lem_example =
    find_entry_lem small n_name 0 hd0 small-Healthy (omega (arith, nentries_small))
