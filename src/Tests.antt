-- ===== src/Tests.antt =====
-- A small configuration, a platform and packets, with runs of the code on them.
pub mod Nat
pub mod Worker
pub mod Parts
pub mod Reloads
pub mod Transport
pub mod Server
pub mod Startups
pub mod Files
pub mod Sessions
use natasha.Base.{
  ℕ, ◌+◌, ◌-◌, ◌/◌, ◌%◌, ◌^◌, ◌≡◌, ◌≢◌, ◌≤◌, ◌<◌, ◌↔◌, refl, arith, Bool, true, false, ◌==◌, ◌&&◌,
  if◌then◌else◌, Option, none, some,
}
use natasha.Base.{List, [], ◌∷◌, length, count, is_neg, pos, ℤ, inl, inr}
use natasha.Word.{bswap16, bswap32}
use natasha.Bytes.{Bytes, IsBytes, store, load, store-IsBytes}
use natasha.Platform.{Platform, Mbuf, Heap}
use natasha.Packet.{
  get16, get32, put16, put32, ether_type, total_length, src_addr, icmp_type, icmp_header,
  ipv4_header, arp_op,
}
use natasha.NatTable.{Table, Row, Rows, nat_lookup_ip}
use natasha.Config.{
  AppConfig, IpVlan, PortConfig, Node, RewriteField, ipv4_src_addr, ipv4_dst_addr, Ipv4Network,
}
use natasha.Core.{Core, Stats, TxQueue, max_queues}
use natasha.Parse.{
  Content, Cond, nothing, followed_by, if_else, command, rewrite, send_out, drop_it, in_network,
  build_content,
}
use natasha.Rules.Ending.{ends}
use natasha.Rules.Ownership.{InRange}
use natasha.NatRewrite.Guard.{IsBoolean}
use natasha.TxQueue.Custody.{QueuesValid}
use natasha.Dispatch.Ownership.{Serves}

-- 10.0.0.1 and 212.47.0.1
abbrev pub inside : ℕ
inside = 0x0a000001

abbrev pub outside : ℕ
outside = 0xd42f0001

-- both directions of `nat rule 10.0.0.1 212.47.0.1`, in network order
abbrev pub cell : ℕ → ℕ → ℕ → ℕ → Option Rows
cell sndb l2b value i = some (λ j. some (λ k. if (j == sndb) && (k == l2b) then value else 0))

abbrev pub test_table : Table
test_table = some (λ i.
    if i == 10 then cell 0 1 0x01002fd4 i else if i == 212 then cell 47 1 0x0100000a i else none)

-- an ICMP error from the inside, about a packet to the inside
abbrev pub test_bytes : Bytes
test_bytes =
    store
      (store (store (store (store (λ _. 0) ether_type 2 0x0008) total_length 2 0x5400) 23 1 1)
        src_addr 4 0x0100000a)
      icmp_type 1 3

-- the same with the inner destination
abbrev pub error_bytes : Bytes
error_bytes = store test_bytes 58 4 0x0100000a

abbrev pub test_mbuf : Bytes → Mbuf
test_mbuf b = record { ol_flags = 0; vlan_tci = 0; pkt_len = 98; l2_len = 0; l3_len = 0; bytes = b }

-- The device of port 0 delivers packet 7 once.
abbrev pub test_platform : Platform
test_platform = record {
  eth_dev_count = 2;
  macaddr = λ port. port + 1;
  tx_prepare = λ calls port queue pkts h. h;
  tx_burst = λ calls port queue pkts h. length pkts;
  rx_burst = λ calls port queue. if port == 0 then (7, test_mbuf error_bytes) ∷ [] else [];
  ipv4_cksum = λ b at. 0;
  raw_cksum = λ b at n. 0;
  unlikely = λ n. if n == 0 then 0 else 1;
  shift_out_of_range = λ n. 0;
  ports_out_of_range = false;
  pkt_tx_vlan_pkt = 1;
  pkt_tx_ipv4 = 2;
  pkt_tx_tcp_cksum = 4;
  pkt_tx_udp_cksum = 8;
  pkt_rx_ip_cksum_mask = 16;
  pkt_rx_ip_cksum_bad = 16;
  pkt_rx_l4_cksum_mask = 32;
  pkt_rx_l4_cksum_bad = 32;
}

-- `if (ipv4.src_addr in 10.0.0.0/8) { nat rewrite ipv4.src_addr; out port 1 ...; } else drop;`
abbrev pub test_rules : Content
test_rules = followed_by nothing (
    if_else (in_network ipv4_src_addr (record { ip = 0x0a000000; mask = 8 }))
      (followed_by (followed_by nothing (command (rewrite ipv4_src_addr)))
        (command (send_out 1 0x0605040302 none)))
      (followed_by nothing (command drop_it)))

abbrev pub test_core : Core
test_core = record {
  app_config = record {
    ports = λ port. record { ip_addresses = record { ip = 0x0a0000fe; vlan = 0 } ∷ []; mtu = 1500 };
    nat_lookup = test_table;
    rules = build_content test_rules;
    flags = 0;
  };
  rx_queues = λ port. 0;
  tx_queues = λ port. record {
    pkts =
        0 ∷ 0 ∷ 0 ∷ 0 ∷ 0 ∷ 0 ∷ 0 ∷ 0 ∷ 0 ∷ 0 ∷ 0 ∷ 0 ∷ 0 ∷ 0 ∷ 0 ∷ 0 ∷ 0 ∷ 0 ∷ 0 ∷ 0 ∷ 0 ∷ 0 ∷ 0
        ∷ 0 ∷ 0 ∷ 0 ∷ 0 ∷ 0 ∷ 0 ∷ 0 ∷ 0 ∷ 0 ∷ [];
    id = 0;
    len = 0;
  };
  stats = record {
    drop_no_rule = 0;
    drop_nat_condition = 0;
    drop_bad_l3_cksum = 0;
    rx_bad_l4_cksum = 0;
    drop_unknown_icmp = 0;
    drop_unhandled_ethertype = 0;
    drop_tx_notsent = 0;
  };
  id = 1;
  heap = λ p. test_mbuf error_bytes;
  freed = [];
  sent = [];
  calls = 0;
}

pub test_boolean : IsBoolean test_platform
test_boolean n = ground arith

pub test_packet-IsBytes : IsBytes error_bytes
test_packet-IsBytes = store-IsBytes _ 58 4 _ (
    store-IsBytes _ icmp_type 1 3 (
      store-IsBytes _ src_addr 4 _ (
        store-IsBytes _ 23 1 1 (
          store-IsBytes _ total_length 2 _
            (store-IsBytes (λ _. 0) ether_type 2 _ (λ i. omega arith))))))

pub test_core-QueuesValid : QueuesValid test_core
test_core-QueuesValid port h = (refl, omega arith)

pub test_core-InRange : InRange test_core.app_config.rules
unfolding build_content natasha.Parse.build_stmt natasha.Parse.build_cond
    natasha.Parse.build_sequence natasha.Parse.build_action
test_core-InRange = (((tt, (tt, omega arith)), tt))

pub test_core-Serves : Serves test_platform test_boolean test_core
unfolding ends
test_core-Serves = record {
  source = test_rules;
  loaded = refl;
  ending = refl;
  range = test_core-InRange;
  valid = test_core-QueuesValid;
}

nat_lookup_ip_runs : nat_lookup_ip test_table inside ≡ some (bswap32 outside)
unfolding nat_lookup_ip natasha.NatTable.fstb natasha.NatTable.sndb natasha.NatTable.l2b
    natasha.NatTable.entry bswap32
nat_lookup_ip_runs = refl
