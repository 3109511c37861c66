-- ===== src/Dispatch.antt =====
-- The worker of src/core.c: `dispatch_packet`, `handle_port` and the body of `main_loop`.
pub mod Ownership
pub mod Rounds
pub mod Loop
use natasha.Base.{
  ℕ, zero, suc, ◌+◌, ◌-◌, ℤ, pos, minus_one, is_neg, if◌then◌else◌, ◌==◌, bit_and, bit_or,
}
use natasha.Base.{List, [], ◌∷◌, length}
use natasha.Word.{incr64, bswap16}
use natasha.Platform.{Platform, Mbuf}
use natasha.Packet.{get16, ether_type}
use natasha.Core.{Core, pktmbuf_free, put_mbuf, bytes_of}
use natasha.TxQueue.{tx_flush}
use natasha.Arp.{arp_handle}
use natasha.Ipv4.{ipv4_handle}

-- ETHER_TYPE_IPv4 and ETHER_TYPE_ARP
abbrev pub ether_type_ipv4 : ℕ
ether_type_ipv4 = 0x0800

abbrev pub ether_type_arp : ℕ
ether_type_arp = 0x0806

-- NAT_FLAG_USED
abbrev pub nat_flag_used : ℕ
nat_flag_used = 1

unfoldable pub count_bad_l3 : Core → Core
count_bad_l3 c = record c {
  stats = record c.stats { drop_bad_l3_cksum = incr64 c.stats.drop_bad_l3_cksum };
}

unfoldable pub count_bad_l4 : Core → Core
count_bad_l4 c = record c {
  stats = record c.stats { rx_bad_l4_cksum = incr64 c.stats.rx_bad_l4_cksum };
}

unfoldable pub count_unhandled : Core → Core
count_unhandled c = record c {
  stats = record c.stats { drop_unhandled_ethertype = incr64 c.stats.drop_unhandled_ethertype };
}

module _ (e : Platform) where
  -- the switch on the Ethernet type, which is compared in network order
  unfoldable pub handle_type : ℕ → ℕ → Core → ℤ × Core
  handle_type p port c =
      let eth_type = get16 (bytes_of p c) ether_type in
      if eth_type == bswap16 ether_type_ipv4
      then ipv4_handle e p port c
      else if eth_type == bswap16 ether_type_arp
      then arp_handle e p port c
      else (minus_one, c)

  unfoldable pub dispatch_packet : ℕ → ℕ → Core → ℤ × Core
  dispatch_packet p port c =
      let flags = (c.heap p).ol_flags in
      let c1 =
        if bit_and flags e.pkt_rx_l4_cksum_mask == e.pkt_rx_l4_cksum_bad
        then count_bad_l4 c
        else c in
      let (status, c2) = handle_type p port c1 in
      if bit_and flags e.pkt_rx_ip_cksum_mask == e.pkt_rx_ip_cksum_bad
      then (minus_one, pktmbuf_free p (count_bad_l3 c))
      else if is_neg status
      then (pos 0, pktmbuf_free p (count_unhandled c2))
      else (pos 0, c2)

  -- the packets of a burst, one after the other
  unfoldable pub dispatch_all : ℕ → List ℕ → Core → Core
  dispatch_all port [] c = c
  dispatch_all port (p ∷ ps) c = dispatch_all port ps (dispatch_packet p port c).1

  -- the device writes the packets to memory
  unfoldable pub receive : List (ℕ × Mbuf) → Core → Core
  receive [] c = c
  receive ((p, m) ∷ ps) c = receive ps (put_mbuf p m c)

  abbrev pub pointers : List (ℕ × Mbuf) → List ℕ
  pointers [] = []
  pointers ((p, m) ∷ ps) = p ∷ pointers ps

  -- The result is the index of the last packet.
  unfoldable pub handle_port : ℕ → Core → ℕ × Core
  handle_port port c =
      let pkts = e.rx_burst c.calls port (c.rx_queues port) in
      let c1 = receive pkts (record c { calls = c.calls + 1 }) in
      if length pkts == 0 then (0, c1) else (length pkts - 1, dispatch_all port (pointers pkts) c1)

  -- `for (port = ...; port < eth_dev_count; ++port)`, on the rounds that are left
  unfoldable pub handle_ports : ℕ → ℕ → Core → Core
  handle_ports port zero c = c
  handle_ports port (suc rounds) c = handle_ports (port + 1) rounds (handle_port port c).1

  unfoldable pub flush_ports : ℕ → ℕ → Core → Core
  flush_ports port zero c = c
  flush_ports port (suc rounds) c = flush_ports (port + 1) rounds (tx_flush e port c).1

  unfoldable pub mark_used : Core → Core
  mark_used c = record c {
    app_config = record c.app_config { flags = bit_or c.app_config.flags nat_flag_used };
  }

  -- one round of `while (!force_quit)`
  unfoldable pub main_loop_round : Core → Core
  main_loop_round c = flush_ports 0 e.eth_dev_count (handle_ports 0 e.eth_dev_count (mark_used c))
