-- ===== src/Net/State.antt =====
-- The globals of source/net.c: the addresses of this computer, `arp_table` and the packet that has
-- been received.
use nano_s.Prelude.{ℕ, List}

-- A row of `arp_table`.
pub record ArpInfo : Type 0 where
  pub ip : List ℕ
  pub mac : List ℕ

pub record Net : Type 0 where
  pub local_mac : List ℕ
  pub local_ip : List ℕ
  pub local_gate : List ℕ
  pub local_net : List ℕ
  pub arp_table : List ArpInfo
  pub rcv_buff : List ℕ
  pub rcv_addr : List ℕ
  pub rcv_port : ℕ
  pub rcv_size : ℕ
