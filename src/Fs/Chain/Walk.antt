-- ===== src/Fs/Chain/Walk.antt =====
-- Steps along the chain of a file, source/fs.c: `get_nref_entry_from_entry` and
-- `set_entry_refcount`, on a disk without failures.
use nano_s.Prelude.{
  ℕ, zero, suc, ◌-◌, ◌*◌, ◌/◌, ◌%◌, ◌≤◌, ◌<◌, ◌≡◌, ◌≢◌, refl, ap, ◌∙◌, true, false, ◌∷◌, ◌++◌, ◌==◌,
  if◌then◌else◌, u16, arith, take, replicate, get_or-replicate,
}
use nano_s.Fs.Types.{Entry, IsEntry, sfs_entryrefs}
use nano_s.Fs.Monad.{World, ok}
use nano_s.Fs.Table.{find_free_entry}
use nano_s.Fs.Table.Access.{
  Healthy, table, with_entry, with_entry-Healthy, n_limit, entry_at_lem, put_entry_lem,
  table-with_entry, table-with_entry_other,
}
use nano_s.Fs.Table.Search.{with_super, with_super-Healthy}
use nano_s.Fs.Chain.{
  nref_loop, get_nref_entry_from_entry, advance_chain, clear_refs, entries_for, set_entry_refcount,
}

-- On a disk without failures, for an entry that another one follows in the chain, the answer for
-- the references up to 119 is the entry itself, and for every reference from 120 up to 14399 it is
-- the following one. The references from 240 on belong to later entries, but the code advances once
-- for each division by 120 that leaves more than 0.
pub get_nref_entry_from_entry_lem :
    (w : World) (disk nentry nref : ℕ) (entry : Entry)
    → Healthy w disk
    → entry.next ≢ 0
    → u16 entry.next < n_limit
    → nref < sfs_entryrefs * sfs_entryrefs
    → get_nref_entry_from_entry entry disk nentry nref w ≡ (
        if nref / sfs_entryrefs == 0
        then ok (nentry, entry) w
        else ok (u16 entry.next, table w disk (u16 entry.next)) w)
unfolding get_nref_entry_from_entry nref_loop
get_nref_entry_from_entry_lem w disk nentry nref entry h more lt small =
    let stop : (nref / 120 / 120 == 0) ≡ true = ground arith in
    let linked : (entry.next == 0) ≡ false = ground arith in
    rw linked (ground (arith, entry_at_lem w disk (u16 entry.next) h lt, stop))

-- The entry that `set_entry_refcount` appends to the chain.
abbrev pub appended : ℕ → Entry → Entry
appended nentry entry = record {
  flags = entry.flags;
  name = entry.name;
  time = entry.time;
  size = 0;
  parent = nentry;
  next = 0;
  ref = replicate sfs_entryrefs 0;
}

appended-IsEntry :
    (nentry : ℕ) (entry : Entry)
    → nentry < n_limit
    → IsEntry entry
    → IsEntry (appended nentry entry)
appended-IsEntry nentry entry lt v = record {
  flags_fit = v.flags_fit;
  name_length = v.name_length;
  time_fits = v.time_fits;
  size_fits = omega arith;
  parent_fits = omega arith;
  next_fits = omega arith;
  ref_length = refl;
  ref_fits = λ i. omega (arith, get_or-replicate {A = ℕ} 120 i 0);
}

linked-IsEntry :
    (new : ℕ) (entry : Entry)
    → new < n_limit
    → IsEntry entry
    → IsEntry (record entry { next = new })
linked-IsEntry new entry lt v = record {
  flags_fit = v.flags_fit;
  name_length = v.name_length;
  time_fits = v.time_fits;
  size_fits = v.size_fits;
  parent_fits = v.parent_fits;
  next_fits = omega arith;
  ref_length = v.ref_length;
  ref_fits = v.ref_fits;
}

clear_refs-zeros :
    (refcount : ℕ) → clear_refs refcount (replicate sfs_entryrefs 0) ≡ replicate sfs_entryrefs 0
clear_refs-zeros refcount = split (refcount % sfs_entryrefs) sfs_entryrefs (omega arith)
  where
    split :
        (k n : ℕ)
        → k ≤ n
        → take k (replicate {A = ℕ} n 0) ++ replicate {A = ℕ} (n - k) 0 ≡ replicate {A = ℕ} n 0
    split zero n h = ap (λ (t : ℕ). replicate {A = ℕ} t 0) (omega arith)
    split (suc k) zero h = absurd (omega arith)
    split (suc k) (suc n) h =
        ap (λ (t : ℕ). 0 ∷ (take k (replicate {A = ℕ} n 0) ++ replicate {A = ℕ} t 0)) (omega arith)
        ∙ ap (λ t. 0 ∷ t) (split k n (omega arith))

-- The world after `set_entry_refcount` has appended an entry to a lone entry.
abbrev pub with_appended : World → ℕ → ℕ → ℕ → World
with_appended w disk n new =
    let e = table w disk n in
    let linked = with_entry (with_super w disk) disk n (record e { next = new }) in
    let fresh = with_entry linked disk new (appended n e) in
    with_entry fresh disk new (appended n e)

-- On a disk without failures that has a free entry, `set_entry_refcount` of 1 up to 120 references
-- for an entry without a chain appends another entry to it, with no references, and leaves the
-- references of the first one as they are: the loop makes as many steps as there are entries
-- needed, although the first entry is already there.
pub set_entry_refcount-appends :
    (w : World) (disk n new refcount : ℕ)
    → Healthy w disk
    → n < n_limit
    → new < n_limit
    → new ≢ n
    → IsEntry (table w disk n)
    → (table w disk n).next ≡ 0
    → find_free_entry disk w ≡ ok new (with_super w disk)
    → 0 < refcount
    → refcount ≤ sfs_entryrefs
    → let after = with_appended w disk n new in
      (set_entry_refcount disk n refcount w ≡ ok 0 after)
      × (table after disk n ≡ record (table w disk n) { next = new })
      × (table after disk new ≡ appended n (table w disk n))
unfolding set_entry_refcount advance_chain
set_entry_refcount-appends w disk n new refcount h lt lt' apart v lone found pos few =
    let e = table w disk n in
    let one : entries_for refcount ≡ 1 = ground arith in
    let none_next : (e.next == 0) ≡ true = ground arith in
    let fits = linked-IsEntry new e lt' v in
    let fits' = appended-IsEntry n e lt v in
    let w0 = with_super w disk in
    let h0 = with_super-Healthy w disk h in
    let w1 = with_entry w0 disk n (record e { next = new }) in
    let h1 = with_entry-Healthy w0 disk n (record e { next = new }) h0 in
    let w2 = with_entry w1 disk new (appended n e) in
    let h2 = with_entry-Healthy w1 disk new (appended n e) h1 in
    (
      rw
          (
            entry_at_lem w disk n h lt,
            one,
            none_next,
            found,
            put_entry_lem w0 disk n (record e { next = new }) h0 fits lt,
            put_entry_lem w1 disk new (appended n e) h1 fits' lt',
            clear_refs-zeros refcount,
            put_entry_lem w2 disk new (appended n e) h2 fits' lt',
          )
          refl,
      table-with_entry_other w2 disk new (appended n e) disk n (λ p q. absurd (ground arith))
          ∙ (table-with_entry_other w1 disk new (appended n e) disk n (λ p q. absurd (ground arith))
              ∙ table-with_entry w0 disk n (record e { next = new }) fits),
      table-with_entry w2 disk new (appended n e) fits',
    )
