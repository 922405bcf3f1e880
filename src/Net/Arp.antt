-- ===== src/Net/Arp.antt =====
-- The table of hardware addresses in source/net.c: `get_effective_ip`, `find_mac_in_table` and
-- `arp_recv_process`. An address is the list of its bytes.
pub mod Learn
use nano_s.Prelude.{
  ℕ, zero, suc, ◌+◌, ◌*◌, Bool, true, false, ◌&&◌, ◌||◌, not, List, [], ◌∷◌, ◌==◌, if◌then◌else◌,
  Option, none, some, bit_and, get_or, take, drop,
}
use nano_s.Net.State.{ArpInfo, Net}

-- Whether `memcmp` of two addresses gives 0.
unfoldable pub same_address : List ℕ → List ℕ → Bool
same_address [] [] = true
same_address [] (b ∷ ys) = false
same_address (a ∷ xs) [] = false
same_address (a ∷ xs) (b ∷ ys) = (a == b) && same_address xs ys

-- The loop of `get_effective_ip`: whether it ends before the last byte.
unfoldable pub is_outside : List ℕ → List ℕ → List ℕ → Bool
is_outside (n ∷ ns) (l ∷ ls) (c ∷ cs) = not (bit_and c n == bit_and l n) || is_outside ns ls cs
is_outside ns ls cs = false

unfoldable pub get_effective_ip : Net → List ℕ → List ℕ
get_effective_ip net ip = if is_outside net.local_net net.local_ip ip then net.local_gate else ip

-- The place of a hardware address, as the pointer that is returned tells it.
pub data MacAt : Type 0 where
  nowhere own : MacAt
  row : ℕ → MacAt

-- The bytes at the place that a pointer tells.
unfoldable pub mac_row : ℕ → List ArpInfo → List ℕ
mac_row i [] = []
mac_row zero (info ∷ table) = info.mac
mac_row (suc i) (info ∷ table) = mac_row i table

unfoldable pub mac_of : Net → MacAt → List ℕ
mac_of net nowhere = []
mac_of net own = net.local_mac
mac_of net (row i) = mac_row i net.arp_table

-- The loop over the table from row `i` on.
unfoldable pub find_mac_from : List ℕ → ℕ → List ArpInfo → MacAt
find_mac_from ip i [] = nowhere
find_mac_from ip i (info ∷ table) =
    let rest = find_mac_from ip (i + 1) table in if same_address info.ip ip then row i else rest

unfoldable pub find_mac_in_table : Net → List ℕ → MacAt
find_mac_in_table net ip =
    let found = find_mac_from ip 0 net.arp_table in
    if same_address ip net.local_ip then own else found

-- The loop that adds an entry: the first row whose address starts with 0, or the last row.
unfoldable pub add_entry : List ℕ → List ℕ → List ArpInfo → List ArpInfo
add_entry ip mac [] = []
add_entry ip mac (info ∷ []) = record { ip = ip; mac = mac } ∷ []
add_entry ip mac (info ∷ next ∷ table) =
    let rest = add_entry ip mac (next ∷ table) in
    if get_or info.ip 0 0 == 0 then record { ip = ip; mac = mac } ∷ next ∷ table else info ∷ rest

-- `memcpy` to row `i`.
unfoldable pub set_mac : ℕ → List ℕ → List ArpInfo → List ArpInfo
set_mac i mac [] = []
set_mac zero mac (info ∷ table) = record { ip = info.ip; mac = mac } ∷ table
set_mac (suc i) mac (info ∷ table) = info ∷ set_mac i mac table

abbrev pub with_table : Net → List ArpInfo → Net
with_table net table = record {
  local_mac = net.local_mac;
  local_ip = net.local_ip;
  local_gate = net.local_gate;
  local_net = net.local_net;
  arp_table = table;
  rcv_buff = net.rcv_buff;
  rcv_addr = net.rcv_addr;
  rcv_port = net.rcv_port;
  rcv_size = net.rcv_size;
}

abbrev pub with_mac : Net → List ℕ → Net
with_mac net mac = record {
  local_mac = mac;
  local_ip = net.local_ip;
  local_gate = net.local_gate;
  local_net = net.local_net;
  arp_table = net.arp_table;
  rcv_buff = net.rcv_buff;
  rcv_addr = net.rcv_addr;
  rcv_port = net.rcv_port;
  rcv_size = net.rcv_size;
}

-- What a reply tells is stored where the address is found.
unfoldable pub learn : Net → List ℕ → List ℕ → MacAt → Net
learn net ip mac nowhere = with_table net (add_entry ip mac net.arp_table)
learn net ip mac own = with_mac net mac
learn net ip mac (row i) = with_table net (set_mac i mac net.arp_table)

-- The fields of an ARP packet.
abbrev pub word_at : List ℕ → ℕ → ℕ
word_at buff offset = get_or buff offset 0 + 256 * get_or buff (offset + 1) 0

abbrev pub sha : List ℕ → List ℕ
sha buff = take 6 (drop 8 buff)

abbrev pub spa : List ℕ → List ℕ
spa buff = take 4 (drop 14 buff)

abbrev pub dpa : List ℕ → List ℕ
dpa buff = take 4 (drop 24 buff)

-- Constants of the packet as words of the machine, after BSWAP_16.
abbrev pub htype_ether : ℕ
htype_ether = 0x0100

abbrev pub ptype_ip : ℕ
ptype_ip = 0x0008

abbrev pub op_request : ℕ
op_request = 0x0100

abbrev pub op_reply : ℕ
op_reply = 0x0200

-- What a packet leads to: the globals, and the addresses that a reply is sent to, if one is.
unfoldable pub arp_recv_process : Net → List ℕ → Net × Option (List ℕ × List ℕ)
arp_recv_process net buff =
    let for_us = same_address (dpa buff) net.local_ip in
    let learnt = learn net (spa buff) (sha buff) (find_mac_in_table net (spa buff)) in
    if (word_at buff 0 == htype_ether) && (word_at buff 2 == ptype_ip)
    then if (word_at buff 6 == op_reply) && for_us
      then (learnt, none)
      else if (word_at buff 6 == op_request) && for_us
      then (net, some (sha buff, spa buff))
      else (net, none)
    else (net, none)
