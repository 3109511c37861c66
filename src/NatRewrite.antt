-- ===== src/NatRewrite.antt =====
-- `action_nat_rewrite` of src/action_nat.c: the translation of one address of a packet, with the
-- checksums that cover it. A field is given by its offset. The packet is the one at address `p`.
pub mod Ownership
pub mod Guard
pub mod Frame
pub mod Switch
pub mod HeaderSum
pub mod Sums
pub mod Checksums
pub mod Header
pub mod SameHeaders
pub mod Cases
pub mod Transport
pub mod Session
use natasha.Base.{ℕ, ◌+◌, ◌-◌, ◌^◌, Bool, not, ◌||◌, ◌==◌, leb, if◌then◌else◌}
use natasha.Base.{none, some, ℤ, pos, minus_one, is_neg, bit_or}
use natasha.Word.{u64, bswap16, bswap32}
use natasha.Bytes.{Bytes}
use natasha.Checksum.{cksum_update}
use natasha.Platform.{Platform, Mbuf}
use natasha.Packet.{
  get16, get32, put16, put32, total_length, next_proto_id, hdr_checksum, src_addr, dst_addr,
  icmp_type, icmp_cksum, tcp_cksum, dgram_cksum, inner_hdr_checksum, inner_src_addr, inner_dst_addr,
  ipv4_len, icmp_len, is_frag, is_first_frag,
}
use natasha.NatTable.{nat_lookup_ip}
use natasha.Config.{RewriteField, ipv4_src_addr, ipv4_dst_addr}
use natasha.Core.{Core, pktmbuf_free, put_mbuf, bytes_of, put_bytes, count_no_rule}

-- ICMP_DEST_UNREACH, ICMP_TIME_EXCEEDED, ICMP_PARAMETERPROB of linux/icmp.h
abbrev pub is_icmp_error : ℕ → Bool
is_icmp_error type = (type == 3) || ((type == 11) || (type == 12))

-- IPPROTO_ICMP, IPPROTO_TCP, IPPROTO_UDP, IPPROTO_UDPLITE
abbrev pub ipproto_icmp : ℕ
ipproto_icmp = 1

abbrev pub ipproto_tcp : ℕ
ipproto_tcp = 6

abbrev pub ipproto_udp : ℕ
ipproto_udp = 17

abbrev pub ipproto_udplite : ℕ
ipproto_udplite = 136

-- The address at `field` is replaced by its translation; without one the packet is freed.
unfoldable pub lookup_and_rewrite : ℕ → ℕ → ℕ → Core → ℤ × Core
lookup_and_rewrite p ip field c = elim (nat_lookup_ip c.app_config.nat_lookup ip) [
  | none ↦ (minus_one, pktmbuf_free p c)
  | some value ↦ (pos 0, put_bytes p (put32 (bytes_of p c) field value) c)
]

-- the offset of the inner address that is translated
abbrev pub inner_field : RewriteField → ℕ
inner_field ipv4_src_addr = inner_src_addr
inner_field ipv4_dst_addr = inner_dst_addr

-- the updates after the inner address went from `old` to what `b` holds: the inner header's
-- checksum, then the ICMP checksum for that checksum and for the address
unfoldable pub update_inner : ℕ → ℕ → ℕ → Bytes → Bytes
update_inner field old old_cksum b =
    let b1 =
      put16 b inner_hdr_checksum (cksum_update (get16 b inner_hdr_checksum) old (get32 b field)) in
    let b2 =
      put16 b1 icmp_cksum
        (cksum_update (get16 b1 icmp_cksum) old_cksum (get16 b1 inner_hdr_checksum)) in
    put16 b2 icmp_cksum (cksum_update (get16 b2 icmp_cksum) old (get32 b2 field))

-- the IPv4 header's checksum, after the address at `field` was `old`
unfoldable pub update_ipv4 : ℕ → ℕ → Bytes → Bytes
update_ipv4 field old b =
    put16 b hdr_checksum (cksum_update (get16 b hdr_checksum) old (get32 b field))

-- the value that the switch is on: 0 for a fragment with an offset
unfoldable pub l4_proto : Bytes → ℕ
l4_proto b = if is_frag b then 0 else b next_proto_id

module _ (e : Platform) where
  -- `unlikely(total_length - 20 - 8 - 20) < 0`, computed as a `size_t` and compared as a `long`
  unfoldable pub is_too_short : Bytes → Bool
  is_too_short b =
      leb (2 ^ 63) (
        e.unlikely (u64 (bswap16 (get16 b total_length) + 2 ^ 64 - ipv4_len - icmp_len - ipv4_len)))

  unfoldable pub icmp_nat_handle : ℕ → RewriteField → Core → ℤ × Core
  icmp_nat_handle p inner c =
      let b = bytes_of p c in
      let field = inner_field inner in
      let old = get32 b field in
      let old_cksum = get16 b inner_hdr_checksum in
      let (ret, c') = lookup_and_rewrite p (bswap32 old) field c in
      if not (is_icmp_error (b icmp_type))
      then (pos 0, c)
      else if is_too_short b
      then (minus_one, c)
      else if is_neg ret
      then (minus_one, count_no_rule c')
      else (pos 0, put_bytes p (update_inner field old old_cksum (bytes_of p c')) c')

  -- the switch on `l4_proto` but for its case ICMP, after the address went from `old` to `new`
  unfoldable pub update_l4 : ℕ → ℕ → Mbuf → Mbuf
  unfolding l4_proto
  update_l4 old new m =
      let proto = l4_proto m.bytes in
      if proto == ipproto_tcp
      then (if is_first_frag m.bytes
          then record m {
            bytes = put16 m.bytes tcp_cksum (cksum_update (get16 m.bytes tcp_cksum) old new);
          }
          else record m {
            bytes = put16 m.bytes tcp_cksum 0;
            ol_flags = bit_or m.ol_flags e.pkt_tx_tcp_cksum;
          })
      else if (proto == ipproto_udplite) || (proto == ipproto_udp)
      then (if get16 m.bytes dgram_cksum == 0
          then m
          else if is_first_frag m.bytes
          then record m {
            bytes = put16 m.bytes dgram_cksum (cksum_update (get16 m.bytes dgram_cksum) old new);
          }
          else record m {
            bytes = put16 m.bytes dgram_cksum 0;
            ol_flags = bit_or m.ol_flags e.pkt_tx_udp_cksum;
          })
      else m

  unfoldable pub action_nat_rewrite_impl : ℕ → ℕ → RewriteField → Core → ℤ × Core
  action_nat_rewrite_impl p field inner c =
      let save = get32 (bytes_of p c) field in
      let (ret, c1) = lookup_and_rewrite p (bswap32 save) field c in
      let b = update_ipv4 field save (bytes_of p c1) in
      let c2 = put_bytes p b c1 in
      if is_neg ret
      then (minus_one, count_no_rule c1)
      else if l4_proto b == ipproto_icmp
      then icmp_nat_handle p inner c2
      else (pos 0, put_mbuf p (update_l4 save (get32 b field) (c2.heap p)) c2)

  unfoldable pub action_nat_rewrite : ℕ → RewriteField → Core → ℤ × Core
  action_nat_rewrite p ipv4_src_addr c = action_nat_rewrite_impl p src_addr ipv4_dst_addr c
  action_nat_rewrite p ipv4_dst_addr c = action_nat_rewrite_impl p dst_addr ipv4_src_addr c
