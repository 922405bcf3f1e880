-- ===== src/Net/Tests.antt =====
-- Witnesses for source/net.c.
use nano_s.Prelude.{ℕ, ◌-◌, ◌%◌, ◌+◌, ◌≡◌, refl, List, [], ◌∷◌, ◌++◌, arith, replicate, length}
use nano_s.Strings.Compare.{IsBytes}
use nano_s.Net.Crc.{crc32_byte, crc32_loop, xor32, poly8_lookup}
use nano_s.Net.Crc.Reference.{crc32_bits, crc32_byte_lem}
use nano_s.Net.State.{Net}
use nano_s.Net.Arp.{
  mac_of, find_mac_in_table, arp_recv_process, same_address, get_effective_ip, is_outside,
  find_mac_from,
}
use nano_s.Net.Arp.Learn.{arp_recv_process-learns}
use nano_s.Net.Receive.{ip_recv_process, net_recv, payload_size}
use nano_s.Net.Receive.Bounds.{net_recv-ip_recv_process}
use nano_s.Memory.{range, Segment}
use nano_s.Net.Send.{udp_packet, ip_packet, long_bytes, eth_send, ask_mac, provide_mac_address}
use nano_s.Net.Send.Delivery.{net_recv-udp_packet}
use nano_s.Net.Send.Frame.{plain_frame, eth_send_lem}

-- "123456789"
abbrev digits : List ℕ
digits = 49 ∷ 50 ∷ 51 ∷ 52 ∷ 53 ∷ 54 ∷ 55 ∷ 56 ∷ 57 ∷ []

digits-IsBytes : IsBytes digits
digits-IsBytes = IsBytes.cons (omega arith) (
    IsBytes.cons (omega arith) (
      IsBytes.cons (omega arith) (
        IsBytes.cons (omega arith) (
          IsBytes.cons (omega arith) (
            IsBytes.cons (omega arith) (
              IsBytes.cons (omega arith)
                (IsBytes.cons (omega arith) (IsBytes.cons (omega arith) IsBytes.nil))))))))

crc32_byte_lem_example : crc32_byte digits ≡ 0xFFFFFFFF - crc32_bits digits 0xFFFFFFFF
crc32_byte_lem_example = crc32_byte_lem digits digits-IsBytes

-- The check value of CRC-32.
crc32_byte-digits : crc32_byte digits ≡ 0xCBF43926
unfolding crc32_byte crc32_loop xor32 poly8_lookup
crc32_byte-digits = refl

abbrev own_ip : List ℕ
own_ip = 192 ∷ 168 ∷ 0 ∷ 40 ∷ []

abbrev net : Net
net = record {
  local_mac = 82 ∷ 84 ∷ 0 ∷ 18 ∷ 52 ∷ 86 ∷ [];
  local_ip = own_ip;
  local_gate = 192 ∷ 168 ∷ 0 ∷ 1 ∷ [];
  local_net = 255 ∷ 255 ∷ 255 ∷ 0 ∷ [];
  arp_table =
      record { ip = replicate 4 255; mac = replicate 6 255 }
      ∷ replicate 7 (record { ip = replicate 4 0; mac = replicate 6 0 });
  rcv_buff = replicate 256 0;
  rcv_addr = replicate 4 0;
  rcv_port = 0;
  rcv_size = 0;
}

-- A reply of 192.168.0.1 to this computer.
abbrev reply : List ℕ
reply =
    0 ∷ 1 ∷ 8 ∷ 0 ∷ 6 ∷ 4 ∷ 0 ∷ 2 ∷ (1 ∷ 2 ∷ 3 ∷ 4 ∷ 5 ∷ 6 ∷ [])
    ++ ((192 ∷ 168 ∷ 0 ∷ 1 ∷ []) ++ (replicate 6 0 ++ own_ip))

arp_recv_process-learns_example :
    let after = (arp_recv_process net reply).0 in
    mac_of after (find_mac_in_table after (192 ∷ 168 ∷ 0 ∷ 1 ∷ [])) ≡ 1 ∷ 2 ∷ 3 ∷ 4 ∷ 5 ∷ 6 ∷ []
unfolding same_address
arp_recv_process-learns_example =
    arp_recv_process-learns net reply refl refl refl refl refl (omega arith)

-- A UDP packet with two bytes for port 8086.
abbrev packet : List ℕ
packet =
    replicate 9 0
    ++ (17 ∷ 0 ∷ 0 ∷ (192 ∷ 168 ∷ 0 ∷ 7 ∷ [])
        ++ (own_ip ++ (31 ∷ 150 ∷ 31 ∷ 150 ∷ 0 ∷ 10 ∷ 0 ∷ 0 ∷ 104 ∷ 105 ∷ [])))

net_recv-ip_recv_process_example :
    let (ret, addr, bytes, after) =
      net_recv (ip_recv_process (ip_recv_process net packet) packet) 16 in
    (ret ≡ 2)
    × ((addr ≡ 192 ∷ 168 ∷ 0 ∷ 7 ∷ []) × ((bytes ≡ 104 ∷ 105 ∷ []) × (after.rcv_size ≡ 0)))
unfolding payload_size
net_recv-ip_recv_process_example =
    net_recv-ip_recv_process net packet packet 16 2 refl refl refl refl (omega arith) (omega arith)
      (omega arith)

-- A request to all computers.
eth_send_lem_example :
    let mem : Segment = λ a. a % 256 in
    let frame = plain_frame (replicate 6 255) net.local_mac 0x0806 (range mem 100 28) in
    (eth_send net mem (replicate 6 255) 0x0806 100 28).0 ≡ frame ++ long_bytes (crc32_byte frame)
eth_send_lem_example =
    eth_send_lem net (λ a. a % 256) (replicate 6 255) 0x0806 100 28 (omega arith) refl refl
      (omega arith)

-- No computer answers: sixteen requests.
ask_unanswered :
    length (provide_mac_address (λ n. λ s. (n, s)) net (λ a. 0) 100 (192 ∷ 168 ∷ 0 ∷ 9 ∷ [])).1 ≡ 16
unfolding provide_mac_address ask_mac find_mac_in_table same_address get_effective_ip is_outside
    find_mac_from
ask_unanswered = refl

abbrev their_ip : List ℕ
their_ip = 192 ∷ 168 ∷ 0 ∷ 7 ∷ []

-- "hi" from this computer.
net_recv-udp_packet_example :
    let built = udp_packet net (λ a. 0) 0x4000 their_ip 8086 8086 (104 ∷ 105 ∷ []) in
    let sent = ip_packet net built 1 their_ip 17 (0x4000 + 12) 10 in
    let wire = range sent (0x4000 + 12) 30 in
    let (ret, addr, got, after) =
      net_recv (ip_recv_process (ip_recv_process net wire) packet) 256 in
    (ret ≡ 2) × ((addr ≡ own_ip) × ((got ≡ 104 ∷ 105 ∷ []) × (after.rcv_size ≡ 0)))
net_recv-udp_packet_example =
    net_recv-udp_packet net net (λ a. 0) 0x4000 1 8086 their_ip (104 ∷ 105 ∷ []) packet 256
      (omega arith) refl refl refl (omega arith) (omega arith) (omega arith)
