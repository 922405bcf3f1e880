-- ===== src/Net/Send/Delivery.antt =====
-- A packet that `udp_send` of source/net.c builds, at the computer that gets it.
use nano_s.Prelude.{
  ℕ, ◌+◌, ◌^◌, ◌≤◌, ◌<◌, ◌≡◌, inl, inr, refl, ap, ap₂, ◌∙◌, List, [], ◌∷◌, ◌++◌, arith, length,
  length-append, take, drop, drop-append, min,
}
use nano_s.Memory.{range, Segment, memset}
use nano_s.Net.Checksum.{bswap_16, net_checksum}
use nano_s.Net.State.{Net}
use nano_s.Net.Arp.{word_at}
use nano_s.Net.Receive.{ip_recv_process, net_recv, payload_size}
use nano_s.Net.Receive.Bounds.{net_recv-payload}
use nano_s.Net.Send.{put, word_bytes, udp_packet, ip_packet, snd_buff_size}
use nano_s.Memory.Range.{range-append}
use nano_s.Net.Send.Range.{range-put_apart, range-put}
use nano_s.Net.Send.Packet.{range-ip_packet, header_front}

take-append_append : (xs ys zs : List ℕ) → take (length xs) ((xs ++ ys) ++ zs) ≡ xs
take-append_append [] ys zs = refl
take-append_append (x ∷ xs) ys zs = ap (◌∷◌ x) (take-append_append xs ys zs)

take-all : (xs : List ℕ) → take (length xs) xs ≡ xs
take-all [] = refl
take-all (x ∷ xs) = ap (◌∷◌ x) (take-all xs)

-- The header of UDP, and the data.
abbrev pub udp_bytes : ℕ → ℕ → ℕ → List ℕ → List ℕ
udp_bytes src dst word bytes =
    (word_bytes (bswap_16 src)
      ++ (word_bytes (bswap_16 dst) ++ word_bytes (bswap_16 (length bytes + 8))))
    ++ (word_bytes word ++ bytes)

module _ (net : Net) (mem : Segment) (a : ℕ) (dst_ip : List ℕ) (src dst : ℕ) (bytes : List ℕ)
    (own_len : length net.local_ip ≡ 4) (dst_len : length dst_ip ≡ 4) where
  abbrev filled : Segment
  filled = put (memset a 0 snd_buff_size mem).1 (a + 20) bytes

  abbrev ports : List ℕ
  ports =
      (word_bytes (bswap_16 src) ++ word_bytes (bswap_16 dst))
      ++ word_bytes (bswap_16 (length bytes + 8))

  abbrev pseudo_header : List ℕ
  pseudo_header = net.local_ip ++ (dst_ip ++ (0 ∷ 17 ∷ word_bytes (bswap_16 (length bytes + 8))))

  abbrev pseudo : Segment
  pseudo = put (put filled (a + 12) ports) a pseudo_header

  abbrev word : ℕ
  word = bswap_16 (net_checksum (range pseudo a (20 + length bytes)))

  pseudo_len : length pseudo_header ≡ 12
  pseudo_len = omega (
    arith,
    length-append net.local_ip (dst_ip ++ (0 ∷ 17 ∷ word_bytes (bswap_16 (length bytes + 8)))),
    length-append dst_ip (0 ∷ 17 ∷ word_bytes (bswap_16 (length bytes + 8))),
  )

  range-udp_packet :
      range (udp_packet net mem a dst_ip src dst bytes) (a + 12) (8 + length bytes)
      ≡ udp_bytes src dst word bytes
  unfolding udp_packet
  range-udp_packet =
      let headed = put filled (a + 12) ports in
      let last = put pseudo (a + 18) (word_bytes word) in
      let size : 8 + length bytes ≡ 6 + (2 + length bytes) = omega arith in
      let at_word : a + 12 + 6 ≡ a + 18 = omega arith in
      let at_data : a + 18 + 2 ≡ a + 20 = omega arith in
      let first : range last (a + 12) 6 ≡ ports =
        range-put_apart pseudo (a + 18) (a + 12) 6 (word_bytes word) (inl (omega arith))
        ∙ (range-put_apart headed a (a + 12) 6 pseudo_header (inr (omega (arith, pseudo_len)))
            ∙ range-put filled (a + 12) ports) in
      let payload : range last (a + 20) (length bytes) ≡ bytes =
        range-put_apart pseudo (a + 18) (a + 20) (length bytes) (word_bytes word)
          (inr (omega arith))
        ∙ (range-put_apart headed a (a + 20) (length bytes) pseudo_header
              (inr (omega (arith, pseudo_len)))
            ∙ (range-put_apart filled (a + 12) (a + 20) (length bytes) ports (inr (omega arith))
                ∙ range-put (memset a 0 snd_buff_size mem).1 (a + 20) bytes)) in
      rw size (
        range-append last (a + 12) 6 (2 + length bytes)
        ∙ ap₂ ◌++◌ first (
            rw (at_word) (
              range-append last (a + 18) 2 (length bytes)
              ∙ ap₂ ◌++◌ (range-put pseudo (a + 18) (word_bytes word)) (rw at_data payload))))

payload_size-udp_bytes :
    (src dst word : ℕ) (bytes : List ℕ)
    → length bytes ≤ 202
    → payload_size (udp_bytes src dst word bytes) ≡ length bytes
unfolding payload_size
payload_size-udp_bytes src dst word bytes le = omega arith

-- A wire packet: the front and the checksum of the header of IP, the addresses and the data.
abbrev pub wire_bytes : List ℕ → List ℕ → List ℕ → List ℕ → List ℕ → List ℕ
wire_bytes front word own dst bytes = (front ++ (word ++ (own ++ dst))) ++ bytes

drop-wire_bytes :
    (id protocol len w : ℕ) (own dst bytes : List ℕ)
    → length own ≡ 4
    → length dst ≡ 4
    → drop 20 (wire_bytes (header_front id protocol len) (word_bytes w) own dst bytes) ≡ bytes
drop-wire_bytes id protocol len w own dst bytes o d =
    let e : length (own ++ dst) ≡ 8 = omega (arith, length-append own dst) in
    rw e at (drop-append (own ++ dst) bytes)

take-wire_bytes :
    (id protocol len w : ℕ) (own dst bytes : List ℕ)
    → length own ≡ 4
    → take 4 (drop 12 (wire_bytes (header_front id protocol len) (word_bytes w) own dst bytes))
      ≡ own
take-wire_bytes id protocol len w own dst bytes o = rw o at (take-append_append own dst bytes)

-- What a computer that gets such a packet hands out.
deliver-wire_bytes :
    (to : Net) (later : List ℕ) (id len w src ck size : ℕ) (own dst bytes : List ℕ)
    → to.rcv_size ≡ 0
    → length own ≡ 4
    → length dst ≡ 4
    → 0 < length bytes
    → length bytes ≤ 202
    → length bytes ≤ size
    → let wire =
        wire_bytes (header_front id 17 len) (word_bytes w) own dst (udp_bytes src 8086 ck bytes) in
      let (ret, addr, got, after) =
        net_recv (ip_recv_process (ip_recv_process to wire) later) size in
      (ret ≡ length bytes) × ((addr ≡ own) × ((got ≡ bytes) × (after.rcv_size ≡ 0)))
deliver-wire_bytes to later id len w src ck size own dst bytes none o d pos le fits =
    let udp_part = udp_bytes src 8086 ck bytes in
    let wire = wire_bytes (header_front id 17 len) (word_bytes w) own dst udp_part in
    let dropped = drop-wire_bytes id 17 len w own dst udp_part o d in
    let count = payload_size-udp_bytes src 8086 ck bytes le in
    let got =
      net_recv-payload to wire later size none refl (ap (λ p. bswap_16 (word_at p 2)) dropped)
        (omega (arith, ap payload_size dropped, count))
        (omega (arith, ap payload_size dropped, count, ap (λ p. length (drop 8 p)) dropped)) in
    let all : min (payload_size (drop 20 wire)) size ≡ length bytes =
      ap (λ p. min (payload_size p) size) dropped ∙ omega (arith, count) in
    let whole : take (length bytes) (drop 8 (drop 20 wire)) ≡ bytes =
      ap (λ p. take (length bytes) (drop 8 p)) dropped ∙ take-all bytes in
    (
      got.0 ∙ all,
      (
        got.1.0 ∙ take-wire_bytes id 17 len w own dst udp_part o,
        (got.1.1.0 ∙ (ap (λ n. take n (drop 8 (drop 20 wire))) all ∙ whole), got.1.1.1),
      ),
    )

-- The packet of `udp_send` for port 8086 with 1 to 202 bytes of data, as `ip_send` puts it behind a
-- header, reaches a computer that has no packet stored: `net_recv` there, with a buffer that is
-- large enough, gives the number of bytes, the sender's address and the data, whatever packet
-- arrives in between, and the stored packet is gone.
pub net_recv-udp_packet :
    (from to : Net) (mem : Segment) (snd_buff id src_port : ℕ) (dst_ip bytes later : List ℕ)
    (size : ℕ)
    → snd_buff + 256 ≤ 2 ^ 16
    → length from.local_ip ≡ 4
    → length dst_ip ≡ 4
    → to.rcv_size ≡ 0
    → 0 < length bytes
    → length bytes ≤ 202
    → length bytes ≤ size
    → let len = 8 + length bytes in
      let built = udp_packet from mem snd_buff dst_ip src_port 8086 bytes in
      let sent = ip_packet from built id dst_ip 17 (snd_buff + 12) len in
      let wire = range sent (snd_buff + 12) (20 + len) in
      let (ret, addr, got, after) =
        net_recv (ip_recv_process (ip_recv_process to wire) later) size in
      (ret ≡ length bytes) × ((addr ≡ from.local_ip) × ((got ≡ bytes) × (after.rcv_size ≡ 0)))
net_recv-udp_packet from to mem snd_buff id src_port dst_ip bytes later size room o d none pos le
      fits =
    let len = 8 + length bytes in
    let built = udp_packet from mem snd_buff dst_ip src_port 8086 bytes in
    let outer = range-ip_packet from built id dst_ip 17 (snd_buff + 12) len (omega arith) o d in
    let inner = range-udp_packet from mem snd_buff dst_ip src_port 8086 bytes o d in
    rw (outer, inner)
      (deliver-wire_bytes to later id len _ src_port _ size from.local_ip dst_ip bytes none o d pos
        le fits)
