-- ===== src/Fs/Chain/Tests.antt =====
-- Witnesses for the chains of source/fs.c, on the small disk.
use nano_s.Prelude.{ap, ◌≡◌, arith}
use nano_s.Fs.Types.{Entry}
use nano_s.Fs.Image.{decode_entry-encode_entry}
use nano_s.Fs.Monad.{ok}
use nano_s.Fs.Table.Access.{table}
use nano_s.Fs.Table.Tests.{small, hd0, notes, notes-IsEntry, small-Healthy, small_free_entry}
use nano_s.Fs.Chain.{set_entry_refcount}
use nano_s.Fs.Chain.Walk.{set_entry_refcount-appends, with_appended, appended}

small-notes : table small hd0 1 ≡ notes
unfolding table
small-notes = decode_entry-encode_entry notes notes-IsEntry

set_entry_refcount-appends_example :
    let after = with_appended small hd0 1 2 in
    (set_entry_refcount hd0 1 2 small ≡ ok 0 after)
    × (table after hd0 1 ≡ record (table small hd0 1) { next = 2 })
    × (table after hd0 2 ≡ appended 1 (table small hd0 1))
set_entry_refcount-appends_example =
    set_entry_refcount-appends small hd0 1 2 2 small-Healthy (omega arith) (omega arith)
      (λ e. absurd (omega arith)) (rw small-notes notes-IsEntry)
      (ap (λ (e : Entry). e.next) small-notes) small_free_entry (omega arith) (omega arith)
