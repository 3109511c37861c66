-- ===== src/Tests/Sessions.antt =====
-- A UDP packet from the inside, and the answer to it.
use natasha.Base.{◌≡◌, refl, arith, true, none, pos, [], ◌∷◌}
use natasha.Word.{bswap32}
use natasha.Bytes.{Bytes, store, load}
use natasha.Packet.{get32, src_addr, dst_addr}
use natasha.Config.{ipv4_src_addr, ipv4_dst_addr}
use natasha.NatTable.{
  Table, nat_lookup_ip, fstb, sndb, l2b, entry, add_rule_to_table, add_rules_to_table,
}
use natasha.NatTable.Load.{load_nat_rules}
use natasha.Core.{Core, bytes_of}
use natasha.NatRewrite.{
  lookup_and_rewrite, update_ipv4, l4_proto, action_nat_rewrite, action_nat_rewrite_impl,
}
use natasha.NatRewrite.Session.{session_roundtrip}
use natasha.Tests.{inside, outside, test_platform, test_core, test_mbuf}

abbrev table : Table
table = (load_nat_rules (λ i. true) none ((inside, outside) ∷ []) 0).1

abbrev with_packets : Bytes → Core
with_packets b = record test_core {
  app_config = record test_core.app_config { nat_lookup = table };
  heap = λ p. test_mbuf b;
}

abbrev leaves : Core
leaves = with_packets (store (store (λ _. 0) 23 1 17) 26 4 0x0100000a)

abbrev comes : Core
comes = with_packets (store (store (λ _. 0) 23 1 17) 30 4 0x01002fd4)

target :
    get32 (bytes_of 8 comes) dst_addr
    ≡ get32 (bytes_of 7 (action_nat_rewrite test_platform 7 ipv4_src_addr leaves).1) src_addr
unfolding action_nat_rewrite action_nat_rewrite_impl lookup_and_rewrite nat_lookup_ip fstb sndb l2b
    entry bswap32 load store update_ipv4 l4_proto natasha.Packet.is_frag load_nat_rules
    add_rules_to_table add_rule_to_table natasha.NatRewrite.update_l4 natasha.Word.bswap16
target = refl

session_roundtrip_example :
    ((action_nat_rewrite test_platform 7 ipv4_src_addr leaves).0 ≡ pos 0)
    × (get32 (bytes_of 7 (action_nat_rewrite test_platform 7 ipv4_src_addr leaves).1) src_addr
        ≡ bswap32 outside)
    × ((action_nat_rewrite test_platform 8 ipv4_dst_addr comes).0 ≡ pos 0)
    × (get32 (bytes_of 8 (action_nat_rewrite test_platform 8 ipv4_dst_addr comes).1) dst_addr
        ≡ get32 (bytes_of 7 leaves) src_addr)
unfolding load store bswap32 l4_proto natasha.Packet.is_frag natasha.Word.bswap16
session_roundtrip_example =
    session_roundtrip test_platform (λ i. true) inside outside [] [] 0 7 8 leaves comes (λ i. refl)
      (((ground arith, omega arith), (ground arith, omega arith), ground arith, tt, tt, tt)) refl
      refl refl target refl refl
