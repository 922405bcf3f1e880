-- ===== src/Net/Send.antt =====
-- The packets that source/net.c sends: `eth_send`, `arp_request`, `arp_reply`, `ip_send` and
-- `udp_send`, which build the headers in front of the data in the memory of the packet. `ne2k_send`
-- is the card: what is sent is the list of the bytes that it is given.
pub mod Range
pub mod Frame
pub mod Packet
pub mod Delivery
use nano_s.Prelude.{
  ℕ, zero, suc, ◌+◌, ◌-◌, ◌*◌, ◌/◌, ◌%◌, ◌^◌, List, [], ◌∷◌, ◌++◌, length, take, Option, none, some,
  u16, min, ltb, if◌then◌else◌, replicate, Bool, true, false,
}
use nano_s.Memory.{Segment, range, store_byte, memcpy, memset}
use nano_s.Net.Crc.{crc32_byte}
use nano_s.Net.Checksum.{bswap_16, net_checksum}
use nano_s.Net.State.{Net}
use nano_s.Net.Arp.{MacAt, nowhere, get_effective_ip, find_mac_in_table, mac_of}

-- `memcpy` from a global array, or the stores to the fields of a header.
unfoldable pub put : Segment → ℕ → List ℕ → Segment
put mem addr [] = mem
put mem addr (b ∷ bs) = put (store_byte mem addr b) (addr + 1) bs

-- The bytes of a word and of a double word in memory.
abbrev pub word_bytes : ℕ → List ℕ
word_bytes w = w % 256 ∷ w / 256 ∷ []

abbrev pub long_bytes : ℕ → List ℕ
long_bytes w = w % 256 ∷ w / 256 % 256 ∷ w / 65536 % 256 ∷ w / 16777216 ∷ []

abbrev pub eth_hdr_len : ℕ
eth_hdr_len = 14

abbrev pub eth_crc_len : ℕ
eth_crc_len = 4

-- The memory with the frame whose data is at `addr`.
unfoldable pub eth_frame : Net → Segment → List ℕ → ℕ → ℕ → ℕ → Segment
eth_frame net mem dst_mac type addr len =
    let moved = (memcpy (addr + eth_hdr_len) addr len mem).1 in
    let addressed = put (put moved addr dst_mac) (addr + 6) net.local_mac in
    let headed = put addressed (addr + 12) (word_bytes (bswap_16 type)) in
    let eth_crc = crc32_byte (range headed addr (eth_hdr_len + len)) in
    put headed (addr + (eth_hdr_len + len)) (long_bytes eth_crc)

-- The bytes that are sent, and the memory.
unfoldable pub eth_send : Net → Segment → List ℕ → ℕ → ℕ → ℕ → List ℕ × Segment
eth_send net mem dst_mac type addr len =
    let framed = eth_frame net mem dst_mac type addr len in
    (range framed addr (eth_hdr_len + len + eth_crc_len), framed)

abbrev pub type_arp : ℕ
type_arp = 0x0806

abbrev pub type_ip : ℕ
type_ip = 0x0800

abbrev pub op_request_code : ℕ
op_request_code = 1

abbrev pub op_reply_code : ℕ
op_reply_code = 2

-- The packet of `arp_request` and `arp_reply` in `snd_buff`.
unfoldable pub arp_packet : Net → ℕ → List ℕ → List ℕ → List ℕ
arp_packet net op dha dpa =
    word_bytes (bswap_16 1)
    ++ (word_bytes (bswap_16 0x0800)
        ++ (6
            ∷ 4
            ∷ (word_bytes (bswap_16 op) ++ (net.local_mac ++ (net.local_ip ++ (dha ++ dpa))))))

unfoldable pub arp_request : Net → Segment → ℕ → List ℕ → List ℕ × Segment
arp_request net mem snd_buff ip =
    let broadcast = replicate 6 0xFF in
    eth_send net (put mem snd_buff (arp_packet net op_request_code broadcast ip)) broadcast type_arp
      snd_buff 28

unfoldable pub arp_reply : Net → Segment → ℕ → List ℕ → List ℕ → List ℕ × Segment
arp_reply net mem snd_buff mac ip =
    eth_send net (put mem snd_buff (arp_packet net op_reply_code mac ip)) mac type_arp snd_buff 28

-- The header of an IP packet with a checksum; `id` is what `++id` gives.
unfoldable pub ip_header : Net → ℕ → ℕ → ℕ → ℕ → List ℕ → List ℕ
ip_header net id protocol len checksum dst_ip =
    69
    ∷ 0
    ∷ (word_bytes (bswap_16 (len + 20))
        ++ (word_bytes (bswap_16 id)
            ++ (0 ∷ 0 ∷ 128 ∷ protocol ∷ (word_bytes checksum ++ (net.local_ip ++ dst_ip)))))

-- The memory with the packet whose data is at `addr`.
unfoldable pub ip_packet : Net → Segment → ℕ → List ℕ → ℕ → ℕ → ℕ → Segment
ip_packet net mem id dst_ip protocol addr len =
    let moved = (memcpy (addr + 20) addr len mem).1 in
    let headed = put moved addr (ip_header net id protocol len 0 dst_ip) in
    let checksum = net_checksum (range headed addr 20) in
    put headed (addr + 10) (word_bytes (bswap_16 checksum))

-- What is sent, if there is a hardware address for it, and the memory.
unfoldable pub ip_send : Net → Segment → ℕ → List ℕ → ℕ → ℕ → ℕ → Option (List ℕ) × Segment
ip_send net mem id dst_ip protocol addr len =
    let packet = ip_packet net mem id dst_ip protocol addr len in
    let place = find_mac_in_table net (get_effective_ip net dst_ip) in
    let (sent, framed) = eth_send net packet (mac_of net place) type_ip addr (20 + len) in
    elim place [ nowhere ↦ (none, packet) | _ ↦ (some sent, framed) ]

abbrev pub snd_buff_size : ℕ
snd_buff_size = 256

-- How many bytes of the data go into `snd_buff` behind the headers.
abbrev pub clamped : ℕ → ℕ
clamped len = min (snd_buff_size - 12 - 8 - 20 - 14) len

-- `snd_buff` with the packet, in front of it the addresses that go into the checksum.
unfoldable pub udp_packet : Net → Segment → ℕ → List ℕ → ℕ → ℕ → List ℕ → Segment
udp_packet net mem snd_buff dst_ip src_port dst_port bytes =
    let len = length bytes in
    let cleared = (memset snd_buff 0 snd_buff_size mem).1 in
    let filled = put cleared (snd_buff + 20) bytes in
    let ports = word_bytes (bswap_16 src_port) ++ word_bytes (bswap_16 dst_port) in
    let size = word_bytes (bswap_16 (len + 8)) in
    let headed = put filled (snd_buff + 12) (ports ++ size) in
    let pseudo = put headed snd_buff (net.local_ip ++ (dst_ip ++ (0 ∷ 17 ∷ size))) in
    let checksum = net_checksum (range pseudo snd_buff (20 + len)) in
    put pseudo (snd_buff + 18) (word_bytes (bswap_16 checksum))

-- The loop of `provide_mac_address`, with at most `n` requests; `wait` is what the packets that come
-- in while the code waits do to the globals and the memory. The frames sent, and the state.
unfoldable pub ask_mac :
    (Net → Segment → Net × Segment) → ℕ → ℕ → List ℕ → Net → Segment → List (List ℕ) × Net × Segment
ask_mac wait zero snd_buff ip net mem = ([], net, mem)
ask_mac wait (suc n) snd_buff ip net mem =
    let (sent, asked) = arp_request net mem snd_buff ip in
    let (net', mem') = wait net asked in
    let (frames, later, after) = ask_mac wait n snd_buff ip net' mem' in
    elim (find_mac_in_table net ip) [ nowhere ↦ (sent ∷ frames, later, after) | _ ↦ ([], net, mem) ]

-- Whether there is an address in the end, the requests and the state.
unfoldable pub provide_mac_address :
    (Net → Segment → Net × Segment)
    → Net
    → Segment
    → ℕ
    → List ℕ
    → Bool × List (List ℕ) × Net × Segment
provide_mac_address wait net mem snd_buff ip =
    let effective = get_effective_ip net ip in
    let (frames, net', mem') = ask_mac wait 16 snd_buff effective net mem in
    elim (find_mac_in_table net' effective) [
      | nowhere ↦ (false, frames, net', mem')
      | _ ↦ (true, frames, net', mem')
    ]

-- The frames sent, whether the packet is sent, and the state.
unfoldable pub udp_send :
    (Net → Segment → Net × Segment)
    → Net
    → Segment
    → ℕ
    → ℕ
    → List ℕ
    → ℕ
    → ℕ
    → List ℕ
    → List (List ℕ) × Option (List ℕ) × Net × Segment
udp_send wait net mem snd_buff id dst_ip src_port dst_port bytes =
    let (has_mac, frames, net', mem') = provide_mac_address wait net mem snd_buff dst_ip in
    let (has_gate, more, net'', mem'') =
      provide_mac_address wait net' mem' snd_buff net'.local_gate in
    let sent = take (clamped (length bytes)) bytes in
    let (frame, done) =
      ip_send net'' (udp_packet net'' mem'' snd_buff dst_ip src_port dst_port sent) id dst_ip 17
        (snd_buff + 12) (8 + length sent) in
    if has_mac
    then if has_gate
      then (frames ++ more, frame, net'', done)
      else (frames ++ more, none, net'', mem'')
    else (frames, none, net', mem')
