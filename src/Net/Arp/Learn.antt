-- ===== src/Net/Arp/Learn.antt =====
-- What a reply teaches the table of hardware addresses of source/net.c.
use nano_s.Prelude.{
  ℕ, suc, ◌+◌, ◌≤◌, ◌≡◌, ◌≢◌, refl, true, false, ◌⊎◌, inl, inr, List, [], ◌∷◌, ◌==◌, arith, get_or,
  length, if-both, Bool-cases, sym, ◌∙◌,
}
use nano_s.Net.State.{ArpInfo, Net}
use nano_s.Net.Arp.{
  same_address, mac_row, mac_of, nowhere, row, find_mac_from, find_mac_in_table, add_entry, set_mac,
  learn, with_table, word_at, sha, spa, dpa, htype_ether, ptype_ip, op_reply, arp_recv_process,
}

same_address_refl : (ip : List ℕ) → same_address ip ip ≡ true
unfolding same_address
same_address_refl [] = refl
same_address_refl (a ∷ xs) = ground (arith, same_address_refl xs)

find_mac_from-here :
    (ip : List ℕ) (i : ℕ) (info : ArpInfo) (table : List ArpInfo)
    → same_address info.ip ip ≡ true
    → find_mac_from ip i (info ∷ table) ≡ row i
unfolding find_mac_from
find_mac_from-here ip i info table e = rw e refl

find_mac_from-later :
    (ip : List ℕ) (i : ℕ) (info : ArpInfo) (table : List ArpInfo)
    → same_address info.ip ip ≡ false
    → find_mac_from ip i (info ∷ table) ≡ find_mac_from ip (i + 1) table
unfolding find_mac_from
find_mac_from-later ip i info table e = rw e refl

-- After an entry for an address that no row has, the search finds the entry.
Holds : List ℕ → List ℕ → ℕ → List ArpInfo → Type 0
Holds ip mac i table =
    (k : ℕ) × ((find_mac_from ip i table ≡ row (i + k)) × (mac_row k table ≡ mac))

Holds-here :
    (ip mac : List ℕ) (i : ℕ) (table : List ArpInfo)
    → Holds ip mac i (record { ip = ip; mac = mac } ∷ table)
unfolding Holds mac_row
Holds-here ip mac i table =
    let e : i + 0 ≡ i = omega arith in
    (
      0,
      (
        rw e (find_mac_from-here ip i (record { ip = ip; mac = mac }) table (same_address_refl ip)),
        refl,
      ),
    )

Holds-later :
    (ip mac : List ℕ) (i : ℕ) (info : ArpInfo) (table : List ArpInfo)
    → same_address info.ip ip ≡ false
    → Holds ip mac (i + 1) table
    → Holds ip mac i (info ∷ table)
unfolding Holds mac_row
Holds-later ip mac i info table other (k, (found, is)) =
    let e : i + suc k ≡ i + 1 + k = omega arith in
    (suc k, (rw e (find_mac_from-later ip i info table other ∙ found), is))

row≢nowhere : (i : ℕ) → row i ≢ nowhere
row≢nowhere i e = absurd (ground arith)

add_entry-Holds :
    (ip mac : List ℕ) (i : ℕ) (table : List ArpInfo)
    → 1 ≤ length table
    → find_mac_from ip i table ≡ nowhere
    → Holds ip mac i (add_entry ip mac table)
unfolding add_entry
add_entry-Holds ip mac i [] some_row e = absurd (omega arith)
add_entry-Holds ip mac i (info ∷ []) some_row e = Holds-here ip mac i []
add_entry-Holds ip mac i (info ∷ next ∷ table) some_row e =
    elim (Bool-cases (same_address info.ip ip)) [
      | inl same ↦
          absurd (row≢nowhere i (sym (find_mac_from-here ip i info (next ∷ table) same) ∙ e))
      | inr other ↦
          if-both (Holds ip mac i) (get_or info.ip 0 0 == 0)
            (record { ip = ip; mac = mac } ∷ next ∷ table) (info ∷ add_entry ip mac (next ∷ table))
            (Holds-here ip mac i (next ∷ table))
            (Holds-later ip mac i info (add_entry ip mac (next ∷ table)) other (
              add_entry-Holds ip mac (i + 1) (next ∷ table) (omega arith)
                (sym (find_mac_from-later ip i info (next ∷ table) other) ∙ e)))
    ]

-- The row that the search finds keeps its address when its hardware address is stored.
Updates : List ℕ → List ℕ → ℕ → List ArpInfo → Type 0
Updates ip mac i table =
    (find_mac_from ip i table ≡ nowhere)
    ⊎ ((k : ℕ) × ((find_mac_from ip i table ≡ row (i + k)) × Holds ip mac i (set_mac k mac table)))

set_mac-Updates : (ip mac : List ℕ) (i : ℕ) (table : List ArpInfo) → Updates ip mac i table
unfolding Updates set_mac Holds mac_row find_mac_from
set_mac-Updates ip mac i [] = inl refl
set_mac-Updates ip mac i (info ∷ table) = elim (Bool-cases (same_address info.ip ip)) [
  | inl same ↦
      let e : i + 0 ≡ i = omega arith in
      inr (
        0,
        (
          rw e (find_mac_from-here ip i info table same),
          (
            0,
            (rw e (find_mac_from-here ip i (record { ip = info.ip; mac = mac }) table same), refl),
          ),
        ),
      )
  | inr other ↦ elim (set_mac-Updates ip mac (i + 1) table) [
    | inl absent ↦ inl (find_mac_from-later ip i info table other ∙ absent)
    | inr (k, (found, holds)) ↦
        let e : i + suc k ≡ i + 1 + k = omega arith in
        inr (
          suc k,
          (
            rw e (find_mac_from-later ip i info table other ∙ found),
            Holds-later ip mac i info (set_mac k mac table) other holds,
          ),
        )
  ]
]

abbrev Knows : List ℕ → List ℕ → Net → Type 0
Knows ip mac net = mac_of net (find_mac_in_table net ip) ≡ mac

Knows-table :
    (net : Net) (ip mac : List ℕ) (table : List ArpInfo)
    → same_address ip net.local_ip ≡ false
    → Holds ip mac 0 table
    → Knows ip mac (with_table net table)
unfolding find_mac_in_table Holds mac_of
Knows-table net ip mac table other (k, (found, is)) =
    let e : 0 + k ≡ k = omega arith in rw (other, found, e) is

find_mac_in_table-other :
    (net : Net) (ip : List ℕ)
    → same_address ip net.local_ip ≡ false
    → find_mac_in_table net ip ≡ find_mac_from ip 0 net.arp_table
unfolding find_mac_in_table
find_mac_in_table-other net ip other = rw other refl

learn-Knows :
    (net : Net) (ip mac : List ℕ)
    → same_address ip net.local_ip ≡ false
    → 1 ≤ length net.arp_table
    → Knows ip mac (learn net ip mac (find_mac_in_table net ip))
unfolding learn Updates
learn-Knows net ip mac other rows = elim (set_mac-Updates ip mac 0 net.arp_table) [
  | inl absent ↦
      rw (find_mac_in_table-other net ip other, absent)
        (Knows-table net ip mac (add_entry ip mac net.arp_table) other
          (add_entry-Holds ip mac 0 net.arp_table rows absent))
  | inr (k, (found, holds)) ↦
      let e : 0 + k ≡ k = omega arith in
      rw (find_mac_in_table-other net ip other, found, e)
        (Knows-table net ip mac (set_mac k mac net.arp_table) other holds)
]

-- After a reply to this computer from an address other than its own, the table, which has a row,
-- gives the hardware address of the reply for the address that it comes from, whether the address
-- was known before or not.
pub arp_recv_process-learns :
    (net : Net) (buff : List ℕ)
    → word_at buff 0 ≡ htype_ether
    → word_at buff 2 ≡ ptype_ip
    → word_at buff 6 ≡ op_reply
    → same_address (dpa buff) net.local_ip ≡ true
    → same_address (spa buff) net.local_ip ≡ false
    → 1 ≤ length net.arp_table
    → let after = (arp_recv_process net buff).0 in
      mac_of after (find_mac_in_table after (spa buff)) ≡ sha buff
unfolding arp_recv_process
arp_recv_process-learns net buff hrd pro op for_us other rows =
    rw (hrd, pro, op, for_us) (learn-Knows net (spa buff) (sha buff) other rows)
