-- ===== src/Tests/Transport.antt =====
-- The theorems on TCP and UDP checksums at a first fragment from the inside.
use natasha.Base.{ℕ, ◌≡◌, refl, arith, inl, false, is_neg, ◌==◌, ◌||◌}
use natasha.Word.{bswap16, bswap32}
use natasha.Bytes.{Bytes, IsBytes, load, store, store-IsBytes}
use natasha.Platform.{Mbuf}
use natasha.Packet.{get16, get32, tcp_cksum, dgram_cksum, is_frag, is_first_frag, src_addr}
use natasha.Config.{ipv4_src_addr}
use natasha.NatTable.{nat_lookup_ip, fstb, sndb, l2b, entry}
use natasha.Core.{Core}
use natasha.NatRewrite.{
  action_nat_rewrite, action_nat_rewrite_impl, lookup_and_rewrite, update_ipv4, l4_proto,
}
use natasha.NatRewrite.Cases.{SameData, Maintains}
use natasha.NatRewrite.Transport.{action_nat_rewrite_tcp, action_nat_rewrite_udp}
use natasha.Tests.{test_platform, test_core, test_mbuf}

-- with the flag for more fragments, both checksums, and 10.0.0.1 as the source
abbrev first_bytes : ℕ → Bytes
first_bytes proto =
    store
      (store (store (store (store (λ _. 0) 20 2 0x0020) 23 1 proto) 26 4 0x0100000a) 40 2 0x1234) 50
      2 0x5678

first_packet-IsBytes : (proto : ℕ) → IsBytes (first_bytes proto)
first_packet-IsBytes proto = store-IsBytes _ 50 2 _ (
    store-IsBytes _ 40 2 _ (
      store-IsBytes _ 26 4 _
        (store-IsBytes _ 23 1 _ (store-IsBytes (λ _. 0) 20 2 _ (λ i. omega arith)))))

abbrev first_core : ℕ → Core
first_core proto = record test_core { heap = λ p. test_mbuf (first_bytes proto) }

abbrev rewritten : ℕ → Mbuf
rewritten proto = (action_nat_rewrite test_platform 7 ipv4_src_addr (first_core proto)).1.heap 7

tcp_runs : is_neg (action_nat_rewrite test_platform 7 ipv4_src_addr (first_core 6)).0 ≡ false
unfolding action_nat_rewrite action_nat_rewrite_impl lookup_and_rewrite nat_lookup_ip fstb sndb l2b
    entry bswap16 bswap32 load store update_ipv4 l4_proto is_frag
tcp_runs = refl

udp_runs : is_neg (action_nat_rewrite test_platform 7 ipv4_src_addr (first_core 17)).0 ≡ false
unfolding action_nat_rewrite action_nat_rewrite_impl lookup_and_rewrite nat_lookup_ip fstb sndb l2b
    entry bswap16 bswap32 load store update_ipv4 l4_proto is_frag
udp_runs = refl

action_nat_rewrite_tcp_example :
    SameData tcp_cksum (test_mbuf (first_bytes 6)) (rewritten 6)
    × Maintains
        (is_frag (first_bytes 6))
        (is_first_frag (first_bytes 6))
        tcp_cksum
        4
        (get32 (first_bytes 6) src_addr)
        (get32 (rewritten 6).bytes src_addr)
        (test_mbuf (first_bytes 6))
        (rewritten 6)
unfolding store
action_nat_rewrite_tcp_example =
    action_nat_rewrite_tcp test_platform 7 ipv4_src_addr (first_core 6) (first_packet-IsBytes 6)
      refl tcp_runs

action_nat_rewrite_udp_example :
    SameData dgram_cksum (test_mbuf (first_bytes 17)) (rewritten 17)
    × Maintains
        (is_frag (first_bytes 17) || (get16 (first_bytes 17) dgram_cksum == 0))
        (is_first_frag (first_bytes 17))
        dgram_cksum
        8
        (get32 (first_bytes 17) src_addr)
        (get32 (rewritten 17).bytes src_addr)
        (test_mbuf (first_bytes 17))
        (rewritten 17)
unfolding store
action_nat_rewrite_udp_example =
    action_nat_rewrite_udp test_platform 7 ipv4_src_addr (first_core 17) (first_packet-IsBytes 17)
      (inl refl) udp_runs
