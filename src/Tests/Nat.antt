-- ===== src/Tests/Nat.antt =====
-- The theorems on src/action_nat.c at the test configuration.
use natasha.Base.{
  ℕ, Option, ◌+◌, ◌%◌, ◌^◌, ◌≡◌, ◌<◌, refl, arith, true, false, ◌==◌, if◌then◌else◌, none, some,
}
use natasha.Base.{[], ◌∷◌, is_neg, pos}
use natasha.Word.{bswap16, bswap32}
use natasha.Bytes.{load, store}
use natasha.Checksum.{cksum_update}
use natasha.Checksum.Congruence.{cksum_update_congruence}
use natasha.Packet.{get32, icmp_header, ipv4_header}
use natasha.NatTable.{Rows, fstb, sndb, l2b, entry, nat_lookup_ip, add_rules_to_table}
use natasha.NatTable.Lookup.{lookup-add_rules, found}
use natasha.NatTable.Load.{load_nat_rules, load-Translates, Translates}
use natasha.NatTable.Failure.{add_rules_to_table_loses}
use natasha.NatTable.Iter.{visited, entries, visited-eq-entries}
use natasha.Config.{ipv4_src_addr, ipv4_dst_addr}
use natasha.Core.{bytes_of}
use natasha.TxQueue.Custody.{disposed}
use natasha.NatRewrite.{
  action_nat_rewrite, action_nat_rewrite_impl, lookup_and_rewrite, update_ipv4, l4_proto,
  icmp_nat_handle, is_too_short, is_icmp_error,
}
use natasha.Packet.{is_frag, icmp_type, inner_dst_addr}
use natasha.Base.{◌↔◌}
use natasha.NatRewrite.Guard.{icmp_nat_handle_fails_iff}
use natasha.NatRewrite.HeaderSum.{word_sum}
use natasha.NatRewrite.Sums.{inner_header}
use natasha.NatRewrite.Checksums.{icmp_nat_handle_sums}
use natasha.NatRewrite.Header.{action_nat_rewrite_header_sum, action_nat_rewrite_address}
use natasha.NatRewrite.Ownership.{action_nat_rewrite_owners}
use natasha.Tests.{
  inside, outside, test_platform, test_core, test_boolean, test_packet-IsBytes, test_table,
}

-- the translation of the test packet succeeds
rewrite_runs : is_neg (action_nat_rewrite test_platform 7 ipv4_src_addr test_core).0 ≡ false
unfolding action_nat_rewrite action_nat_rewrite_impl lookup_and_rewrite nat_lookup_ip fstb sndb l2b
    entry bswap16 bswap32 load store update_ipv4 l4_proto is_frag icmp_nat_handle is_too_short
rewrite_runs = refl

icmp_runs : is_neg (icmp_nat_handle test_platform 7 ipv4_dst_addr test_core).0 ≡ false
unfolding icmp_nat_handle lookup_and_rewrite nat_lookup_ip fstb sndb l2b entry bswap16 bswap32 load
    store is_too_short
icmp_runs = refl

address_runs :
    nat_lookup_ip test_core.app_config.nat_lookup (bswap32 (get32 (bytes_of 7 test_core) 26))
    ≡ some 0x01002fd4
unfolding bswap32 load store nat_lookup_ip fstb sndb l2b entry
address_runs = refl

cksum_update_congruence_example :
    (cksum_update 0x1234 5 6 < 2 ^ 16)
    × ((cksum_update 0x1234 5 6 + 6) % 65535 ≡ (0x1234 + 5) % 65535)
cksum_update_congruence_example =
    cksum_update_congruence 0x1234 5 6 (omega arith) (omega arith) (omega arith)

load-Translates_example :
    let (ret, t, n) = load_nat_rules (λ i. true) none ((inside, outside) ∷ []) 0 in
    (ret ≡ 0) × Translates t ((inside, outside) ∷ [])
load-Translates_example =
    load-Translates (λ i. true) (λ i. refl) ((inside, outside) ∷ []) none 0
      (((ground arith, omega arith), (ground arith, omega arith), ground arith, tt, tt, tt))

lookup-add_rules_example :
    let (ret, t, n) = add_rules_to_table (λ i. true) none inside outside 0 in
    (ret ≡ pos 0)
    × (nat_lookup_ip t inside ≡ (
        if outside == inside
        then found (bswap32 inside)
        else if inside == inside
        then found (bswap32 outside)
        else nat_lookup_ip none inside))
lookup-add_rules_example =
    lookup-add_rules (λ i. true) (λ i. refl) none inside outside 0 inside (omega arith)
      (omega arith) (omega arith)

visited-eq-entries_example : visited test_table ≡ entries test_table 0 (2 ^ 32)
visited-eq-entries_example = visited-eq-entries test_table

icmp_nat_handle_fails_iff_example :
    (is_neg (icmp_nat_handle test_platform 7 ipv4_dst_addr test_core).0 ≡ true) ↔ (
      (is_icmp_error (bytes_of 7 test_core icmp_type) ≡ true)
      × (nat_lookup_ip test_table (bswap32 (get32 (bytes_of 7 test_core) inner_dst_addr)) ≡ none))
icmp_nat_handle_fails_iff_example =
    icmp_nat_handle_fails_iff test_platform 7 ipv4_dst_addr test_core test_boolean

action_nat_rewrite_header_sum_example :
    word_sum
        (bytes_of 7 (action_nat_rewrite test_platform 7 ipv4_src_addr test_core).1)
        ipv4_header
        10
      % 65535
    ≡ word_sum (bytes_of 7 test_core) ipv4_header 10 % 65535
action_nat_rewrite_header_sum_example =
    action_nat_rewrite_header_sum test_platform 7 ipv4_src_addr test_core test_packet-IsBytes
      rewrite_runs

action_nat_rewrite_address_example :
    (get32 (bytes_of 7 (action_nat_rewrite test_platform 7 ipv4_src_addr test_core).1) 26
      ≡ 0x01002fd4)
    × (get32 (bytes_of 7 (action_nat_rewrite test_platform 7 ipv4_src_addr test_core).1) 30
        ≡ get32 (bytes_of 7 test_core) 30)
action_nat_rewrite_address_example =
    action_nat_rewrite_address test_platform 7 ipv4_src_addr test_core 0x01002fd4 address_runs
      (omega arith) rewrite_runs

icmp_nat_handle_sums_example :
    (word_sum
          (bytes_of 7 (icmp_nat_handle test_platform 7 ipv4_dst_addr test_core).1)
          inner_header
          10
        % 65535
      ≡ word_sum (bytes_of 7 test_core) inner_header 10 % 65535)
    × (word_sum
            (bytes_of 7 (icmp_nat_handle test_platform 7 ipv4_dst_addr test_core).1)
            icmp_header
            32
          % 65535
        ≡ word_sum (bytes_of 7 test_core) icmp_header 32 % 65535)
icmp_nat_handle_sums_example =
    icmp_nat_handle_sums test_platform 7 ipv4_dst_addr test_core 32 test_packet-IsBytes
      (omega arith) icmp_runs

action_nat_rewrite_owners_example :
    disposed 7 (action_nat_rewrite test_platform 7 ipv4_src_addr test_core).1
    ≡ disposed 7 test_core
      + (if 7 == 7
          then (if is_neg (action_nat_rewrite test_platform 7 ipv4_src_addr test_core).0
              then 1
              else 0)
          else 0)
action_nat_rewrite_owners_example =
    action_nat_rewrite_owners test_platform test_boolean 7 ipv4_src_addr test_core 7

-- a table with rules on addresses from 10.0.0.0 to 10.255.255.255
abbrev small_table : ℕ → Option Rows
small_table i = if i == 10 then some (λ j. none) else none

gap_runs : small_table (fstb outside) ≡ none
unfolding fstb
gap_runs = refl

add_rules_to_table_loses_example :
    ((add_rules_to_table (λ i. false) (some small_table) outside inside 0).0 ≡ pos 0)
    × (nat_lookup_ip (add_rules_to_table (λ i. false) (some small_table) outside inside 0).1 inside
        ≡ none)
add_rules_to_table_loses_example =
    add_rules_to_table_loses (λ i. false) (λ i. refl) small_table outside inside 0 inside gap_runs
