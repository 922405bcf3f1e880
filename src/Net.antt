-- ===== src/Net.antt =====
-- The network stack source/net.c above the card: checksums, the table of hardware addresses and the
-- packets that are received.
pub mod Crc
pub mod Checksum
pub mod State
pub mod Arp
pub mod Receive
pub mod Send
mod Tests
