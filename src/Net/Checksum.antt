-- ===== src/Net/Checksum.antt =====
-- The checksums of IP and UDP in source/net.c.
pub mod Verify
use nano_s.Prelude.{ℕ, ◌+◌, ◌*◌, ◌-◌, ◌/◌, ◌%◌, List, [], ◌∷◌, u16, u32}

-- BSWAP_16.
abbrev pub bswap_16 : ℕ → ℕ
bswap_16 value = value % 256 * 256 + value / 256

-- The sum of the words of a buffer; a last byte on its own counts as a word.
unfoldable pub net_checksum_acc : List ℕ → ℕ
net_checksum_acc [] = 0
net_checksum_acc (c ∷ []) = c
net_checksum_acc (c ∷ d ∷ bytes) = u32 (c + 256 * d + net_checksum_acc bytes)

-- `~sum`, cut to 16 bits, with its bytes swapped.
unfoldable pub net_checksum_final : ℕ → ℕ
net_checksum_final sum =
    let folded = u32 (sum % 65536 + sum / 65536) in bswap_16 (65535 - u16 folded)

unfoldable pub net_checksum : List ℕ → ℕ
net_checksum bytes = net_checksum_final (net_checksum_acc bytes)
