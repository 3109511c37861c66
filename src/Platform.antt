-- ===== src/Platform.antt =====
-- What the program takes from outside of this repository: DPDK, the network devices behind it and
-- the compiler. A value of `Platform` is an argument of every definition that uses one of these.
use natasha.Base.{ℕ, Bool, List}
use natasha.Bytes.{Bytes}

-- `struct rte_mbuf`, its fields that the program uses; `bytes` starts at `rte_pktmbuf_mtod`.
pub record Mbuf : Type 0 where
  pub ol_flags : ℕ
  pub vlan_tci : ℕ
  pub pkt_len : ℕ
  pub l2_len : ℕ
  pub l3_len : ℕ
  pub bytes : Bytes

-- Packets by address: the memory behind every `struct rte_mbuf *`.
abbrev pub Heap : Type 0
Heap = ℕ → Mbuf

-- The first argument of a device operation is the number of device calls made before it, so that
-- a device may answer differently each time.
pub record Platform : Type 0 where
  -- `rte_eth_dev_count()`, and `rte_eth_macaddr_get` as a 48-bit number, first byte lowest
  pub eth_dev_count : ℕ
  pub macaddr : ℕ → ℕ
  -- `rte_eth_tx_prepare(port, queue, pkts)` may change the packets that it is given
  pub tx_prepare : ℕ → ℕ → ℕ → List ℕ → Heap → Heap
  -- `rte_eth_tx_burst(port, queue, pkts)`: how many packets, from the first, the device takes
  pub tx_burst : ℕ → ℕ → ℕ → List ℕ → Heap → ℕ
  -- `rte_eth_rx_burst(port, queue, pkts, 32)`: the packets received, each with its address
  pub rx_burst : ℕ → ℕ → ℕ → List (ℕ × Mbuf)
  -- `rte_ipv4_cksum` and `rte_raw_cksum` of the bytes from an offset on
  pub ipv4_cksum : Bytes → ℕ → ℕ
  pub raw_cksum : Bytes → ℕ → ℕ → ℕ
  -- `unlikely` of rte_branch_prediction.h, from the 64-bit pattern of its argument to that of its
  -- value, a `long`
  pub unlikely : ℕ → ℕ
  -- `~0 << n` on a 32-bit `int` for `n` of 32 and more, where C defines no value
  pub shift_out_of_range : ℕ → ℕ
  -- what `is_natasha_ip` finds behind the array `ports`, where C defines no value
  pub ports_out_of_range : Bool
  -- the flags `PKT_TX_*` and `PKT_RX_*` of rte_mbuf.h
  pub pkt_tx_vlan_pkt : ℕ
  pub pkt_tx_ipv4 : ℕ
  pub pkt_tx_tcp_cksum : ℕ
  pub pkt_tx_udp_cksum : ℕ
  pub pkt_rx_ip_cksum_mask : ℕ
  pub pkt_rx_ip_cksum_bad : ℕ
  pub pkt_rx_l4_cksum_mask : ℕ
  pub pkt_rx_l4_cksum_bad : ℕ
