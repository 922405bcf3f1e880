-- ===== src/Net/Send/Packet.antt =====
-- The packets that `ip_send` of source/net.c builds in memory.
use nano_s.Prelude.{
  ℕ, ◌+◌, ◌^◌, ◌≤◌, ◌≡◌, inl, inr, refl, ap, ap₂, sym, ◌∙◌, List, [], ◌∷◌, ◌++◌, arith, length,
  length-append,
}
use nano_s.Memory.{range, Segment, memcpy}
use nano_s.Net.Checksum.{bswap_16, net_checksum}
use nano_s.Net.State.{Net}
use nano_s.Net.Send.{put, word_bytes, ip_header, ip_packet}
use nano_s.Memory.Range.{range-append, range-memcpy}
use nano_s.Net.Send.Range.{range-put_apart, range-put, put-append}

-- The header up to the checksum.
abbrev pub header_front : ℕ → ℕ → ℕ → List ℕ
header_front id protocol len =
    69
    ∷ 0
    ∷ (word_bytes (bswap_16 (len + 20))
        ++ (word_bytes (bswap_16 id) ++ (0 ∷ 0 ∷ 128 ∷ protocol ∷ [])))

-- The three parts of a header whose middle is stored once more.
range-header :
    (under : Segment) (a : ℕ) (front zeros rest word : List ℕ)
    → length front ≡ 10
    → length zeros ≡ 2
    → length rest ≡ 8
    → length word ≡ 2
    → range (put (put (put (put under a front) (a + 10) zeros) (a + 12) rest) (a + 10) word) a 20
      ≡ front ++ (word ++ rest)
range-header under a front zeros rest word f z r w =
    let one = put under a front in
    let two = put one (a + 10) zeros in
    let three = put two (a + 12) rest in
    let last = put three (a + 10) word in
    let at_rest : a + 10 + 2 ≡ a + 12 = omega arith in
    let first : range last a 10 ≡ front =
      range-put_apart three (a + 10) a 10 word (inl (omega arith))
      ∙ (range-put_apart two (a + 12) a 10 rest (inl (omega arith))
          ∙ (range-put_apart one (a + 10) a 10 zeros (inl (omega arith))
              ∙ (ap (range one a) (sym f) ∙ range-put under a front))) in
    let middle : range last (a + 10) 2 ≡ word =
      ap (range last (a + 10)) (sym w) ∙ range-put three (a + 10) word in
    let end : range last (a + 12) 8 ≡ rest =
      range-put_apart three (a + 10) (a + 12) 8 word (inr (omega arith))
      ∙ (ap (range three (a + 12)) (sym r) ∙ range-put two (a + 12) rest) in
    range-append last a 10 10
    ∙ ap₂ ◌++◌ first (range-append last (a + 10) 2 8 ∙ ap₂ ◌++◌ middle (rw at_rest end))

module _ (net : Net) (mem : Segment) (id : ℕ) (dst_ip : List ℕ) (protocol addr len : ℕ)
    (room : addr + 20 + len ≤ 2 ^ 16) (own_len : length net.local_ip ≡ 4)
    (dst_len : length dst_ip ≡ 4) where
  abbrev moved : Segment
  moved = (memcpy (addr + 20) addr len mem).1

  abbrev front : List ℕ
  front = header_front id protocol len

  abbrev rest : List ℕ
  rest = net.local_ip ++ dst_ip

  abbrev filled : Segment
  filled = put (put (put moved addr front) (addr + 10) (0 ∷ 0 ∷ [])) (addr + 12) rest

  abbrev stored : ℕ → Segment
  stored word = put filled (addr + 10) (word_bytes word)

  rest_len : length rest ≡ 8
  rest_len = omega (arith, length-append net.local_ip dst_ip)

  headed : put moved addr (ip_header net id protocol len 0 dst_ip) ≡ filled
  unfolding ip_header
  headed =
      let e : addr + 10 + 2 ≡ addr + 12 = omega arith in
      put-append moved addr front (0 ∷ 0 ∷ rest)
      ∙ rw e at (put-append (put moved addr front) (addr + 10) (0 ∷ 0 ∷ []) rest)

  front_header : range filled addr 20 ≡ front ++ (0 ∷ 0 ∷ rest)
  unfolding ip_header
  front_header =
      let size : length (ip_header net id protocol len 0 dst_ip) ≡ 20 = omega (arith, rest_len) in
      ap (λ m. range m addr 20) (sym headed)
      ∙ (ap (range (put moved addr (ip_header net id protocol len 0 dst_ip)) addr) (sym size)
          ∙ range-put moved addr (ip_header net id protocol len 0 dst_ip))

  abbrev word : ℕ
  word = bswap_16 (net_checksum (front ++ (0 ∷ 0 ∷ rest)))

  packet-stored : ip_packet net mem id dst_ip protocol addr len ≡ stored word
  unfolding ip_packet
  packet-stored =
      ap (λ m. put m (addr + 10) (word_bytes (bswap_16 (net_checksum (range m addr 20))))) headed
      ∙ ap (λ h. put filled (addr + 10) (word_bytes (bswap_16 (net_checksum h)))) front_header

  stored-header : range (stored word) addr 20 ≡ front ++ (word_bytes word ++ rest)
  stored-header =
      range-header moved addr front (0 ∷ 0 ∷ []) rest (word_bytes word) refl refl rest_len refl

  stored-payload : range (stored word) (addr + 20) len ≡ range mem addr len
  stored-payload =
      let one = put moved addr front in
      let two = put one (addr + 10) (0 ∷ 0 ∷ []) in
      range-put_apart filled (addr + 10) (addr + 20) len (word_bytes word) (inr (omega arith))
      ∙ (range-put_apart two (addr + 12) (addr + 20) len rest (inr (omega (arith, rest_len)))
          ∙ (range-put_apart one (addr + 10) (addr + 20) len (0 ∷ 0 ∷ []) (inr (omega arith))
              ∙ (range-put_apart moved addr (addr + 20) len front (inr (omega arith))
                  ∙ range-memcpy mem (addr + 20) addr len (omega arith) (omega arith))))

  pub range-ip_packet :
      range (ip_packet net mem id dst_ip protocol addr len) addr (20 + len)
      ≡ (front ++ (word_bytes word ++ rest)) ++ range mem addr len
  range-ip_packet =
      rw packet-stored
        (range-append (stored word) addr 20 len ∙ ap₂ ◌++◌ stored-header stored-payload)
