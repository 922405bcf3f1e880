-- ===== src/Fs/Table/Stamp.antt =====
-- `set_entry_time_to_current` of source/fs.c along a whole chain, on a disk without failures.
use nano_s.Prelude.{
  ℕ, zero, suc, ◌^◌, ◌≤◌, ◌<◌, ◌≡◌, ◌≢◌, refl, ap, sym, subst, ◌∙◌, List, [], ◌∷◌, length, get_or,
  u16, arith, ◌==◌, false,
}
use nano_s.Fs.Types.{Entry, IsEntry}
use nano_s.Fs.Time.{IsDate, fs_systime_to_fstime, fs_systime_to_fstime_bound}
use nano_s.Fs.Monad.{World, ok}
use nano_s.Fs.Table.{stamp_chain, chain_fuel, set_entry_time_to_current}
use nano_s.Fs.Table.Access.{
  Healthy, table, with_entry, with_entry-Healthy, n_limit, entry_at_lem, put_entry_lem,
  table-with_entry, table-with_entry_other,
}

-- `n` is not in the list.
abbrev pub Apart : ℕ → List ℕ → Type 0
Apart n ns = (i : ℕ) → i < length ns → get_or ns i 0 ≢ n

-- The indices of a chain of a table that starts at `n`, all different.
pub data Chain (t : ℕ → Entry) : ℕ → List ℕ → Type 0 where
  final : {n : ℕ} → n < n_limit → IsEntry (t n) → u16 (t n).next ≡ 0 → Chain t n (n ∷ [])
  link :
      {n m : ℕ} {ns : List ℕ}
      → n < n_limit
      → IsEntry (t n)
      → u16 (t n).next ≡ m
      → m ≢ 0
      → Apart n ns
      → Chain t m ns
      → Chain t n (n ∷ ns)

abbrev timed : ℕ → Entry → Entry
timed fstime entry = record entry { time = fstime }

timed-IsEntry : (fstime : ℕ) (e : Entry) → fstime < 2 ^ 32 → IsEntry e → IsEntry (timed fstime e)
timed-IsEntry fstime e lt v = record {
  flags_fit = v.flags_fit;
  name_length = v.name_length;
  time_fits = lt;
  size_fits = v.size_fits;
  parent_fits = v.parent_fits;
  next_fits = v.next_fits;
  ref_length = v.ref_length;
  ref_fits = v.ref_fits;
}

-- The world in which the entries of the list have the time.
abbrev pub stamp_one : World → ℕ → ℕ → ℕ → World
stamp_one w disk fstime n = with_entry w disk n (timed fstime (table w disk n))

pub stamped : World → ℕ → ℕ → List ℕ → World
stamped w disk fstime [] = w
stamped w disk fstime (n ∷ ns) = stamped (stamp_one w disk fstime n) disk fstime ns

Apart-tail : (n m : ℕ) (ns : List ℕ) → Apart n (m ∷ ns) → Apart n ns
Apart-tail n m ns a i lt = a (suc i) (omega arith)

Apart-head : (n m : ℕ) (ns : List ℕ) → Apart n (m ∷ ns) → m ≢ n
Apart-head n m ns a = a 0 (omega arith)

-- A chain does not see entries outside it.
Chain-cong :
    (t t' : ℕ → Entry) (n : ℕ) {m : ℕ} {ns : List ℕ}
    → ((k : ℕ) → k ≢ n → t' k ≡ t k)
    → Apart n ns
    → Chain t m ns
    → Chain t' m ns
Chain-cong t t' n {m} same a (final lt v e) =
    let eq = same m (Apart-head n m [] a) in
    final lt (subst IsEntry (sym eq) v) (ap (λ (x : Entry). u16 x.next) eq ∙ e)
Chain-cong t t' n {m} same a (link {ns = ns} lt v e nz b rest) =
    let eq = same m (Apart-head n m ns a) in
    link lt (subst IsEntry (sym eq) v) (ap (λ (x : Entry). u16 x.next) eq ∙ e) nz b
      (Chain-cong t t' n same (Apart-tail n m ns a) rest)

stamp_chain_lem :
    (fuel disk fstime : ℕ) (w : World) {n : ℕ} {ns : List ℕ}
    → Healthy w disk
    → fstime < 2 ^ 32
    → Chain (table w disk) n ns
    → length ns ≤ fuel
    → stamp_chain fuel disk n fstime w ≡ ok 0 (stamped w disk fstime ns)
unfolding stamp_chain stamped
stamp_chain_lem zero disk fstime w h lt (final p v e) enough = absurd (omega arith)
stamp_chain_lem zero disk fstime w h lt (link p v e nz a rest) enough = absurd (omega arith)
stamp_chain_lem (suc fuel) disk fstime w {n} h lt (final p v e) enough =
    rw
      (
        entry_at_lem w disk n h p,
        put_entry_lem w disk n (timed fstime (table w disk n)) h
            (timed-IsEntry fstime (table w disk n) lt v) p,
        e,
      )
      refl
stamp_chain_lem (suc fuel) disk fstime w {n} h lt (link {m = m} {ns = ns} p v e nz a rest) enough =
    let go : (m == 0) ≡ false = ground arith in
    rw
      (
        entry_at_lem w disk n h p,
        put_entry_lem w disk n (timed fstime (table w disk n)) h
            (timed-IsEntry fstime (table w disk n) lt v) p,
        e,
        go,
      )
      (stamp_chain_lem fuel disk fstime (stamp_one w disk fstime n)
        (with_entry-Healthy w disk n (timed fstime (table w disk n)) h) lt
        (Chain-cong (table w disk) (table (stamp_one w disk fstime n) disk) n
          (λ k ne. table-with_entry_other w disk n (timed fstime (table w disk n)) disk k λ z. ne) a
          rest)
        (omega arith))

stamped-outside :
    (ns : List ℕ) (w : World) (disk fstime d k : ℕ)
    → (d ≡ disk → Apart k ns)
    → table (stamped w disk fstime ns) d k ≡ table w d k
unfolding stamped
stamped-outside [] w disk fstime d k a = refl
stamped-outside (n ∷ ns) w disk fstime d k a =
    stamped-outside ns (stamp_one w disk fstime n) disk fstime d k (λ e. Apart-tail k n ns (a e))
    ∙ table-with_entry_other w disk n (timed fstime (table w disk n)) d k
        (λ e z. Apart-head k n ns (a e) (sym z))

stamped-inside :
    {n : ℕ} {ns : List ℕ} (w : World) (disk fstime : ℕ)
    → fstime < 2 ^ 32
    → Chain (table w disk) n ns
    → (i : ℕ) → i < length ns
    → table (stamped w disk fstime ns) disk (get_or ns i 0)
      ≡ timed fstime (table w disk (get_or ns i 0))
unfolding stamped
stamped-inside {n} w disk fstime lt (final p v e) zero q =
    table-with_entry w disk n (timed fstime (table w disk n))
      (timed-IsEntry fstime (table w disk n) lt v)
stamped-inside w disk fstime lt (final p v e) (suc i) q = absurd (omega arith)
stamped-inside {n} w disk fstime lt (link {ns = ns} p v e nz a rest) zero q =
    stamped-outside ns (stamp_one w disk fstime n) disk fstime disk n (λ z. a)
    ∙ table-with_entry w disk n (timed fstime (table w disk n))
        (timed-IsEntry fstime (table w disk n) lt v)
stamped-inside {n} w disk fstime lt (link {ns = ns} p v e nz a rest) (suc i) q =
    stamped-inside (stamp_one w disk fstime n) disk fstime lt
      (Chain-cong (table w disk) (table (stamp_one w disk fstime n) disk) n
        (λ k ne. table-with_entry_other w disk n (timed fstime (table w disk n)) disk k λ z. ne) a
        rest)
      i (omega arith)
    ∙ ap (timed fstime) (
        table-with_entry_other w disk n (timed fstime (table w disk n)) disk (get_or ns i 0)
          λ z. a i (omega arith))

-- On a disk without failures, when the clock shows a date, `set_entry_time_to_current` returns 0 for
-- the first entry of a chain of different entries, of at most 2 ^ 16: every entry of the chain gets
-- the time stamp of the date, and nothing else of it changes, nor any other entry of any disk.
pub set_entry_time_to_current_lem :
    {n : ℕ} {ns : List ℕ} (w : World) (disk : ℕ)
    → Healthy w disk
    → IsDate w.clock
    → Chain (table w disk) n ns
    → length ns ≤ chain_fuel
    → let fstime = fs_systime_to_fstime w.clock in
      let after = stamped w disk fstime ns in
      (set_entry_time_to_current disk n w ≡ ok 0 after)
      × ((i : ℕ)
          → i < length ns
          → table after disk (get_or ns i 0)
            ≡ record (table w disk (get_or ns i 0)) { time = fstime })
      × ((d k : ℕ) → (d ≡ disk → Apart k ns) → table after d k ≡ table w d k)
unfolding set_entry_time_to_current
set_entry_time_to_current_lem {n} {ns} w disk h date chain short =
    let lt = fs_systime_to_fstime_bound w.clock date in
    (
      stamp_chain_lem chain_fuel disk (fs_systime_to_fstime w.clock) w h lt chain short,
      stamped-inside w disk (fs_systime_to_fstime w.clock) lt chain,
      λ d k a. stamped-outside ns w disk (fs_systime_to_fstime w.clock) d k a,
    )
