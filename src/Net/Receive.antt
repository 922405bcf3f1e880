-- ===== src/Net/Receive.antt =====
-- The packet that is received in source/net.c: `ip_recv_process`, `net_recv`, and the reset of the
-- tables in `net_init`.
pub mod Bounds
use nano_s.Prelude.{
  ℕ, ◌+◌, ◌*◌, ◌-◌, ◌&&◌, List, ◌++◌, ◌==◌, ltb, if◌then◌else◌, ◌/◌, ◌%◌, get_or, take, drop,
  length, min, [], u16, sub16,
}
use nano_s.Net.State.{ArpInfo, Net}
use nano_s.Net.Checksum.{bswap_16}
use nano_s.Net.Arp.{word_at}

abbrev pub udp : ℕ
udp = 17

abbrev pub proto_port : ℕ
proto_port = 8086

abbrev pub rcv_buff_size : ℕ
rcv_buff_size = 256

-- `memcpy` of `size` bytes to the start of a buffer.
abbrev pub store_front : List ℕ → List ℕ → ℕ → List ℕ
store_front bytes buffer size = take size bytes ++ drop (length (take size bytes)) buffer

unfoldable pub with_packet : Net → List ℕ → ℕ → List ℕ → ℕ → Net
with_packet net buff size addr port = record {
  local_mac = net.local_mac;
  local_ip = net.local_ip;
  local_gate = net.local_gate;
  local_net = net.local_net;
  arp_table = net.arp_table;
  rcv_buff = buff;
  rcv_addr = addr;
  rcv_port = port;
  rcv_size = size;
}

-- How many bytes of a UDP packet are stored: the subtraction is in `uint`.
unfoldable pub payload_size : List ℕ → ℕ
payload_size udp_packet = min (sub16 (bswap_16 (word_at udp_packet 4)) 8) rcv_buff_size

-- `buff` is the IP packet with what stands behind it in memory.
unfoldable pub ip_recv_process : Net → List ℕ → Net
ip_recv_process net buff =
    let packet = drop 20 buff in
    let size = payload_size packet in
    if ltb 0 net.rcv_size
    then net
    else if (get_or buff 9 0 == udp) && (bswap_16 (word_at packet 2) == proto_port)
    then with_packet net (store_front (drop 8 packet) net.rcv_buff size) size
        (take 4 (drop 12 buff)) (bswap_16 (word_at packet 0))
    else net

-- What is returned, the address and the bytes that are stored for the caller, and the globals. The
-- pending requests of the card have been handled before.
unfoldable pub net_recv : Net → ℕ → ℕ × List ℕ × List ℕ × Net
net_recv net buff_size =
    let ret = min net.rcv_size buff_size in
    if ltb 0 net.rcv_size
    then (
      ret,
      net.rcv_addr,
      take ret net.rcv_buff,
      with_packet net net.rcv_buff 0 net.rcv_addr net.rcv_port,
    )
    else (0, [], [], net)
