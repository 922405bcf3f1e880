-- ===== src/Fs/Chain.antt =====
-- Chains of entries, source/fs.c: `get_nref_entry_from_entry`, `set_entry_refcount`,
-- `set_entry_size`, `add_ref_in_entry` and `remove_ref_in_entry`.
-- A store past the end of `ref`, which the source does not prevent, changes nothing here.
pub mod Walk
mod Tests
use nano_s.Prelude.{
  ℕ, zero, suc, ◌+◌, ◌-◌, ◌*◌, ◌/◌, ◌%◌, Bool, true, false, ◌||◌, List, ◌++◌, ◌==◌, ltb,
  if◌then◌else◌, u16, sub16, take, get_or, set, replicate, inl, inr,
}
use nano_s.Disk.{block_size, error_not_found}
use nano_s.Fs.Types.{Entry, zero_entry, sfs_entryrefs, t_file, t_dir}
use nano_s.Fs.Monad.{M, pure, fail, ◌>>=◌, ◌>>◌, when, attempt, out_of_fuel}
use nano_s.Fs.Table.{entry_at, put_entry, find_free_entry, get_entry_refcount, is_set, chain_fuel}

-- The loop of `get_nref_entry_from_entry`. A 16-bit index is 0 after three divisions.
pub nref_loop : ℕ → ℕ → ℕ → Entry → ℕ → M (ℕ × Entry)
nref_loop zero disk result outentry nref = out_of_fuel
nref_loop (suc fuel) disk result outentry nref =
    let nref' = nref / sfs_entryrefs in
    if nref' == 0
    then pure (result, outentry)
    else if outentry.next == 0
    then fail error_not_found
    else let next = u16 outentry.next in
      entry_at disk next >>= λ entry. nref_loop fuel disk next entry nref'

pub get_nref_entry_from_entry : Entry → ℕ → ℕ → ℕ → M (ℕ × Entry)
get_nref_entry_from_entry entry disk nentry nref = nref_loop 3 disk nentry entry nref

-- The first loop of `set_entry_refcount`: `nentries` steps along the chain, which grows if needed.
pub advance_chain : ℕ → ℕ → ℕ → Entry → M (ℕ × Entry)
advance_chain zero disk nentry entry = pure (nentry, entry)
advance_chain (suc nentries) disk nentry entry =
    if entry.next == 0
    then (find_free_entry disk >>= λ new.
        put_entry (record entry { next = new }) disk nentry
        >> (let fresh : Entry = record {
          flags = entry.flags;
          name = entry.name;
          time = entry.time;
          size = 0;
          parent = nentry;
          next = 0;
          ref = replicate sfs_entryrefs 0;
        } in
            put_entry fresh disk new >> advance_chain nentries disk new fresh))
    else (let next = u16 entry.next in
        entry_at disk next >>= λ e. advance_chain nentries disk next e)

-- The loop of `set_entry_refcount` that deletes a chain.
pub clear_chain : ℕ → ℕ → ℕ → M ℕ
clear_chain zero disk current = out_of_fuel
clear_chain (suc fuel) disk current = entry_at disk current >>= λ entry.
    put_entry zero_entry disk current
    >> (let next = u16 entry.next in if next == 0 then pure 0 else clear_chain fuel disk next)

-- The references that stay, then zeros.
abbrev pub clear_refs : ℕ → List ℕ → List ℕ
clear_refs refcount ref =
    take (refcount % sfs_entryrefs) ref ++ replicate (sfs_entryrefs - refcount % sfs_entryrefs) 0

abbrev pub entries_for : ℕ → ℕ
entries_for refcount = refcount / sfs_entryrefs + (if refcount % sfs_entryrefs == 0 then 0 else 1)

pub set_entry_refcount : ℕ → ℕ → ℕ → M ℕ
set_entry_refcount disk nentry refcount = entry_at disk nentry >>= λ first.
    advance_chain (entries_for refcount) disk nentry first >>= λ r.
    let final : Entry = record r.1 { ref = clear_refs refcount r.1.ref } in
    put_entry final disk r.0
    >> (if final.next == 0
        then pure 0
        else put_entry (record final { next = 0 }) disk r.0
          >> clear_chain chain_fuel disk (u16 final.next))

-- The loop of `set_entry_size`.
pub size_chain : ℕ → ℕ → ℕ → ℕ → M ℕ
size_chain zero disk nentry size = out_of_fuel
size_chain (suc fuel) disk nentry size = entry_at disk nentry >>= λ entry.
    put_entry (record entry { size = size }) disk nentry
    >> (let rest =
          if is_set entry.flags t_file
          then sub16 size (u16 (sfs_entryrefs * block_size))
          else if is_set entry.flags t_dir
          then sub16 size sfs_entryrefs
          else size in
        let next = u16 entry.next in if next == 0 then pure 0 else size_chain fuel disk next rest)

pub set_entry_size : ℕ → ℕ → ℕ → M ℕ
set_entry_size disk nentry size = size_chain chain_fuel disk nentry size

-- The entry that takes the new reference; `set_entry_refcount` makes one if there is none.
pub entry_for_ref : ℕ → ℕ → Entry → ℕ → M (ℕ × Entry)
unfolding get_nref_entry_from_entry set_entry_refcount
entry_for_ref disk nentry entry refcount =
    attempt (get_nref_entry_from_entry entry disk nentry refcount) >>= λ r. elim r [
      | inl found ↦ pure found
      | inr code ↦
          if code == error_not_found
          then (set_entry_refcount disk nentry (u16 (refcount + 1)) >>= λ nrefentry.
              entry_at disk nrefentry >>= λ e. pure (nrefentry, e))
          else fail code
    ]

pub add_ref_in_entry : ℕ → ℕ → ℕ → M ℕ
unfolding entry_for_ref set_entry_size
add_ref_in_entry disk nentry ref = entry_at disk nentry >>= λ entry.
    let refcount = get_entry_refcount entry in
    entry_for_ref disk nentry entry refcount >>= λ r.
    let changed : Entry = record r.1 { ref = set r.1.ref (refcount % sfs_entryrefs) ref } in
    put_entry changed disk r.0
    >> when (is_set entry.flags t_dir) (set_entry_size disk nentry (u16 (u16 entry.size + 1)))

-- The locals of `remove_ref_in_entry`.
pub record Removing : Type 0 where
  pub currentry : Entry
  pub ncurrentry : ℕ
  pub nextentry : Entry
  pub refcount : ℕ
  pub found : Bool

-- The part of its loop that replaces the reference at `r`.
abbrev pub shift_ref : ℕ → ℕ → Removing → Removing
shift_ref ref r s =
    let found = s.found || get_or s.currentry.ref r 0 == ref in
    if found
    then record s {
      found = true;
      currentry = (record s.currentry {
        ref = set s.currentry.ref r (get_or s.nextentry.ref ((r + 1) % sfs_entryrefs) 0);
      });
    }
    else s

-- The part before: at the end of an entry the next ones of the chain are read. Gives `r`.
pub next_entries : ℕ → ℕ → Removing → M (ℕ × Removing)
next_entries disk r s =
    if r == sfs_entryrefs
    then (let next = u16 s.currentry.next in
        put_entry s.currentry disk s.ncurrentry
        >> (entry_at disk next >>= λ e.
            pure (
              0,
              (record s { currentry = e; ncurrentry = next; refcount = get_entry_refcount e }),
            )))
    else if r + 1 == sfs_entryrefs
    then (if s.nextentry.next == 0
        then pure (r, (record s { nextentry = zero_entry }))
        else entry_at disk (u16 s.nextentry.next) >>= λ e. pure (r, (record s { nextentry = e })))
    else pure (r, s)

pub remove_loop : ℕ → ℕ → ℕ → ℕ → Removing → M Removing
remove_loop zero disk ref r s = out_of_fuel
remove_loop (suc fuel) disk ref r s =
    if ltb r s.refcount
    then (next_entries disk r s >>= λ t.
        remove_loop fuel disk ref (t.0 + 1) (shift_ref ref t.0 t.1))
    else pure s

-- Every reference of a chain without a cycle.
abbrev pub remove_fuel : ℕ
remove_fuel = chain_fuel * (sfs_entryrefs + 1)

pub remove_ref_in_entry : ℕ → ℕ → ℕ → M ℕ
unfolding remove_loop set_entry_refcount set_entry_size
remove_ref_in_entry disk nentry ref = entry_at disk nentry >>= λ entry.
    let start : Removing = record {
      currentry = entry;
      ncurrentry = nentry;
      nextentry = entry;
      refcount = get_entry_refcount entry;
      found = false;
    } in
    remove_loop remove_fuel disk ref 0 start >>= λ s. when s.found (
      put_entry s.currentry disk s.ncurrentry
      >> set_entry_refcount disk nentry (sub16 s.refcount 1)
      >> when (is_set entry.flags t_dir) (set_entry_size disk nentry (sub16 s.refcount 1)))
