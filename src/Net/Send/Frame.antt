-- ===== src/Net/Send/Frame.antt =====
-- The frames that `eth_send` of source/net.c gives to the card.
use nano_s.Prelude.{
  ℕ, ◌+◌, ◌/◌, ◌%◌, ◌^◌, ◌≤◌, ◌<◌, ◌≡◌, inl, inr, refl, ap, ap₂, sym, ◌∙◌, List, [], ◌∷◌, ◌++◌,
  arith, length,
}
use nano_s.Memory.{range, Segment, memcpy}
use nano_s.Net.Crc.{crc32_byte}
use nano_s.Net.Checksum.{bswap_16}
use nano_s.Net.State.{Net}
use nano_s.Net.Send.{put, word_bytes, long_bytes, eth_hdr_len, eth_crc_len, eth_frame, eth_send}
use nano_s.Memory.Range.{range-append, range-memcpy}
use nano_s.Net.Send.Range.{range-put_apart, range-put}

-- A frame without its checksum.
abbrev pub plain_frame : List ℕ → List ℕ → ℕ → List ℕ → List ℕ
plain_frame dst src type payload = dst ++ (src ++ (type / 256 ∷ type % 256 ∷ payload))

-- Four ranges one after the other.
range-four :
    (mem : Segment) (a k m n p : ℕ)
    → range mem a (k + (m + (n + p)))
      ≡ range mem a k
        ++ (range mem (a + k) m ++ (range mem (a + k + m) n ++ range mem (a + k + m + n) p))
range-four mem a k m n p =
    range-append mem a k (m + (n + p))
    ∙ ap (◌++◌ (range mem a k)) (
        range-append mem (a + k) m (n + p)
        ∙ ap (◌++◌ (range mem (a + k) m)) (range-append mem (a + k + m) n p))

module _ (net : Net) (mem : Segment) (dst : List ℕ) (type addr len : ℕ)
    (room : addr + (eth_hdr_len + len) + eth_crc_len ≤ 2 ^ 16) (dst_len : length dst ≡ 6)
    (mac_len : length net.local_mac ≡ 6) (type_lt : type < 2 ^ 16) where
  abbrev moved : Segment
  moved = (memcpy (addr + 14) addr len mem).1

  abbrev headed : Segment
  headed =
      put (put (put moved addr dst) (addr + 6) net.local_mac) (addr + 12)
        (word_bytes (bswap_16 type))

  type_bytes : word_bytes (bswap_16 type) ≡ type / 256 ∷ type % 256 ∷ []
  type_bytes =
      let e : bswap_16 type % 256 ≡ type / 256 = omega arith in
      let f : bswap_16 type / 256 ≡ type % 256 = omega arith in rw (e, f) refl

  headed-range :
      range headed addr (eth_hdr_len + len)
      ≡ plain_frame dst net.local_mac type (range mem addr len)
  headed-range =
      let one = put moved addr dst in
      let two = put one (addr + 6) net.local_mac in
      let size : eth_hdr_len + len ≡ 6 + (6 + (2 + len)) = omega arith in
      let at_six : addr + 6 + 6 ≡ addr + 12 = omega arith in
      let at_data : addr + 12 + 2 ≡ addr + 14 = omega arith in
      let to : range headed addr 6 ≡ dst =
        range-put_apart two (addr + 12) addr 6 (word_bytes (bswap_16 type)) (inl (omega arith))
        ∙ (range-put_apart one (addr + 6) addr 6 net.local_mac (inl (omega arith))
            ∙ (ap (range one addr) (sym dst_len) ∙ range-put moved addr dst)) in
      let from : range headed (addr + 6) 6 ≡ net.local_mac =
        range-put_apart two (addr + 12) (addr + 6) 6 (word_bytes (bswap_16 type))
          (inl (omega arith))
        ∙ (ap (range two (addr + 6)) (sym mac_len) ∙ range-put one (addr + 6) net.local_mac) in
      let kind : range headed (addr + 12) 2 ≡ type / 256 ∷ type % 256 ∷ [] =
        range-put two (addr + 12) (word_bytes (bswap_16 type)) ∙ type_bytes in
      let payload : range headed (addr + 14) len ≡ range mem addr len =
        range-put_apart two (addr + 12) (addr + 14) len (word_bytes (bswap_16 type))
          (inr (omega arith))
        ∙ (range-put_apart one (addr + 6) (addr + 14) len net.local_mac (inr (omega arith))
            ∙ (range-put_apart moved addr (addr + 14) len dst (inr (omega arith))
                ∙ range-memcpy mem (addr + 14) addr len (omega arith) (omega arith))) in
      rw size (
        rw (at_six, at_data) at (range-four headed addr 6 6 2 len)
        ∙ ap₂ ◌++◌ to (ap₂ ◌++◌ from (ap₂ ◌++◌ kind payload)))

  -- The card is given the addresses of the receiver and of this computer, the type with its high byte
  -- first, the data as it was in memory before the call, and the CRC-32 of all of these, for a frame
  -- that does not go past the end of the segment.
  pub eth_send_lem :
      let frame = plain_frame dst net.local_mac type (range mem addr len) in
      (eth_send net mem dst type addr len).0 ≡ frame ++ long_bytes (crc32_byte frame)
  unfolding eth_send eth_frame
  eth_send_lem =
      let crc = crc32_byte (range headed addr (eth_hdr_len + len)) in
      range-append (put headed (addr + (eth_hdr_len + len)) (long_bytes crc)) addr
        (eth_hdr_len + len) eth_crc_len
      ∙ ap₂ ◌++◌
          (range-put_apart headed (addr + (eth_hdr_len + len)) addr (eth_hdr_len + len)
              (long_bytes crc) (inl (omega arith))
            ∙ headed-range)
          (range-put headed (addr + (eth_hdr_len + len)) (long_bytes crc)
            ∙ ap (λ t. long_bytes (crc32_byte t)) headed-range)
