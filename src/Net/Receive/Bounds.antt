-- ===== src/Net/Receive/Bounds.antt =====
-- What the received packet of source/net.c leaves: one packet at a time, never more than the buffer.
use nano_s.Prelude.{
  subst, ◌+◌, ◌^◌, sub16, ℕ, ◌≤◌, ◌<◌, ◌≡◌, refl, List, [], ◌++◌, ◌==◌, ◌&&◌, ltb, lt→ltb,
  if◌then◌else◌, take-take_append, arith, if-both, length, get_or, take, drop, min, length-append,
  length-take, length-drop, sym, ap, ◌∙◌, take-take,
}
use nano_s.Net.State.{Net}
use nano_s.Net.Checksum.{bswap_16}
use nano_s.Net.Arp.{word_at}
use nano_s.Net.Receive.{
  udp, proto_port, rcv_buff_size, store_front, with_packet, payload_size, ip_recv_process, net_recv,
}

-- The packet is in the buffer.
pub record IsBounded (net : Net) : Type 0 where
  pub buffer : length net.rcv_buff ≡ rcv_buff_size
  pub size : net.rcv_size ≤ rcv_buff_size

length-store_front :
    (bytes buffer : List ℕ) (size : ℕ)
    → size ≤ length buffer
    → length (store_front bytes buffer size) ≡ length buffer
length-store_front bytes buffer size h =
    let t = length-take size bytes in
    omega (
      arith,
      length-append (take size bytes) (drop (length (take size bytes)) buffer),
      length-drop (length (take size bytes)) buffer,
      t,
    )

payload_size_le : (packet : List ℕ) → payload_size packet ≤ rcv_buff_size
unfolding payload_size
payload_size_le packet = omega arith

ip_recv_process-IsBounded :
    (net : Net) (buff : List ℕ) → IsBounded net → IsBounded (ip_recv_process net buff)
unfolding ip_recv_process with_packet
ip_recv_process-IsBounded net buff h =
    let packet = drop 20 buff in
    let size = payload_size packet in
    let le = payload_size_le packet in
    let stored =
      with_packet net (store_front (drop 8 packet) net.rcv_buff size) size (take 4 (drop 12 buff))
        (bswap_16 (word_at packet 0)) in
    let bounded : IsBounded stored = record {
      buffer =
          length-store_front (drop 8 packet) net.rcv_buff size (omega (arith, le, h.buffer))
          ∙ h.buffer;
      size = le;
    } in
    let test = (get_or buff 9 0 == udp) && (bswap_16 (word_at packet 2) == proto_port) in
    if-both IsBounded (ltb 0 net.rcv_size) net (if test then stored else net) h
      (if-both IsBounded test stored net bounded h)

net_recv-IsBounded : (net : Net) (size : ℕ) → IsBounded net → IsBounded (net_recv net size).3
unfolding net_recv with_packet
net_recv-IsBounded net size h =
    let empty : IsBounded (with_packet net net.rcv_buff 0 net.rcv_addr net.rcv_port) = record {
      buffer = h.buffer;
      size = omega arith;
    } in
    if-both (λ (r : ℕ × List ℕ × List ℕ × Net). IsBounded r.3) (ltb 0 net.rcv_size)
      (
        min net.rcv_size size,
        net.rcv_addr,
        take (min net.rcv_size size) net.rcv_buff,
        with_packet net net.rcv_buff 0 net.rcv_addr net.rcv_port,
      )
      (0, [], [], net) empty h

-- A packet for the port, when none is stored.
step-stored :
    (net : Net) (buff : List ℕ)
    → net.rcv_size ≡ 0
    → get_or buff 9 0 ≡ udp
    → bswap_16 (word_at (drop 20 buff) 2) ≡ proto_port
    → let packet = drop 20 buff in
      let size = payload_size packet in
      ip_recv_process net buff
      ≡ with_packet net
          (store_front (drop 8 packet) net.rcv_buff size)
          size
          (take 4 (drop 12 buff))
          (bswap_16 (word_at packet 0))
unfolding ip_recv_process
step-stored net buff none protocol port = rw (none, protocol, port) refl

step-full : (net : Net) (buff : List ℕ) → 0 < net.rcv_size → ip_recv_process net buff ≡ net
unfolding ip_recv_process
step-full net buff full = rw (lt→ltb 0 net.rcv_size full) refl

step-delivered :
    (net : Net) (buff_size : ℕ)
    → 0 < net.rcv_size
    → net_recv net buff_size ≡ (
      min net.rcv_size buff_size,
      net.rcv_addr,
      take (min net.rcv_size buff_size) net.rcv_buff,
      with_packet net net.rcv_buff 0 net.rcv_addr net.rcv_port,
    )
unfolding net_recv
step-delivered net buff_size full = rw (lt→ltb 0 net.rcv_size full) refl

take-store_front :
    (bytes buffer : List ℕ) (size k : ℕ)
    → size ≤ length bytes
    → k ≤ size
    → take k (store_front bytes buffer size) ≡ take k bytes
take-store_front bytes buffer size k in_bytes le =
    let n : length (take size bytes) ≡ size = omega (arith, length-take size bytes) in
    let rest = drop (length (take size bytes)) buffer in
    let front : take size (take size bytes ++ rest) ≡ take size bytes =
      take-take_append size bytes rest in_bytes in
    sym (take-take k size (store_front bytes buffer size) le)
    ∙ (ap (take k) front ∙ take-take k size bytes le)

-- The packet that is stored is what the next `net_recv` delivers.
pub net_recv-payload :
    (net : Net) (buff later : List ℕ) (buff_size : ℕ)
    → net.rcv_size ≡ 0
    → get_or buff 9 0 ≡ udp
    → bswap_16 (word_at (drop 20 buff) 2) ≡ proto_port
    → 0 < payload_size (drop 20 buff)
    → payload_size (drop 20 buff) ≤ length (drop 8 (drop 20 buff))
    → let (ret, addr, bytes, after) =
        net_recv (ip_recv_process (ip_recv_process net buff) later) buff_size in
      let size = min (payload_size (drop 20 buff)) buff_size in
      (ret ≡ size)
      × ((addr ≡ take 4 (drop 12 buff))
          × ((bytes ≡ take size (drop 8 (drop 20 buff))) × (after.rcv_size ≡ 0)))
unfolding with_packet
net_recv-payload net buff later buff_size none protocol port some_bytes present =
    let packet = drop 20 buff in
    let size = payload_size packet in
    let stored =
      with_packet net (store_front (drop 8 packet) net.rcv_buff size) size (take 4 (drop 12 buff))
        (bswap_16 (word_at packet 0)) in
    rw
      (
        step-stored net buff none protocol port,
        step-full stored later some_bytes,
        step-delivered stored buff_size some_bytes,
      )
      (
        refl,
        (
          refl,
          (
            take-store_front (drop 8 packet) net.rcv_buff size (min size buff_size) present
                (omega arith),
            refl,
          ),
        ),
      )

payload_size_lem :
    (packet : List ℕ) (n : ℕ)
    → bswap_16 (word_at packet 4) ≡ 8 + n
    → 8 + n < 2 ^ 16
    → payload_size packet ≡ min n 256
unfolding payload_size
payload_size_lem packet n length_field fits =
    let rest : sub16 (8 + n) 8 ≡ n = omega arith in rw (length_field, rest) refl

-- A packet of UDP for port 8086 whose header gives the length of 8 bytes for itself and n > 0 for the
-- program, which arrives when none is stored and has the first n or 256 of these bytes, the fewer, is
-- what the next `net_recv` delivers, whatever packet arrives in between: the sender's address, and the
-- bytes of the packet, n of them, but no more than 256 and than the caller asks for. The buffer is
-- free again after that.
pub net_recv-ip_recv_process :
    (net : Net) (buff later : List ℕ) (buff_size n : ℕ)
    → net.rcv_size ≡ 0
    → get_or buff 9 0 ≡ 17
    → bswap_16 (word_at (drop 20 buff) 2) ≡ 8086
    → bswap_16 (word_at (drop 20 buff) 4) ≡ 8 + n
    → 8 + n < 2 ^ 16
    → 0 < n
    → min n 256 ≤ length (drop 8 (drop 20 buff))
    → let (ret, addr, bytes, after) =
        net_recv (ip_recv_process (ip_recv_process net buff) later) buff_size in
      let size = min (min n 256) buff_size in
      (ret ≡ size)
      × ((addr ≡ take 4 (drop 12 buff))
          × ((bytes ≡ take size (drop 8 (drop 20 buff))) × (after.rcv_size ≡ 0)))
net_recv-ip_recv_process net buff later buff_size n none protocol port length_field fits pos
      present =
    let size = payload_size_lem (drop 20 buff) n length_field fits in
    subst
      (λ (m : ℕ).
        let (ret, addr, bytes, after) =
          net_recv (ip_recv_process (ip_recv_process net buff) later) buff_size in
        (ret ≡ min m buff_size)
        × ((addr ≡ take 4 (drop 12 buff))
            × ((bytes ≡ take (min m buff_size) (drop 8 (drop 20 buff))) × (after.rcv_size ≡ 0))))
      size
      (net_recv-payload net buff later buff_size none protocol port (rw size (omega arith))
        (rw size present))
