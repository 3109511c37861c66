-- ===== src/Ipv4.antt =====
-- The IPv4 input of src/ipv4.c: the padding fix, the answers to ICMP echo requests, and the rules.
pub mod Ownership
pub mod Padding
pub mod Echo
use natasha.Base.{ℕ, ◌+◌, ◌-◌, ◌^◌, ℤ, pos, minus_one, is_neg, if◌then◌else◌, ltb, ◌==◌, ◌&&◌}
use natasha.Word.{u16, u32, u64, not16, incr64, bswap16, bswap32}
use natasha.Bytes.{Bytes, zero_fill, update}
use natasha.Platform.{Platform, Mbuf}
use natasha.Packet.{
  get16, get32, put16, put32, get_ether, put_ether, d_addr, s_addr, ether_len, ipv4_len,
  ipv4_header, total_length, next_proto_id, hdr_checksum, src_addr, dst_addr, icmp_header,
  icmp_type, icmp_cksum, vlan_id,
}
use natasha.Config.{Node, null}
use natasha.Core.{Core, pktmbuf_free, bytes_of, put_bytes}
use natasha.TxQueue.{tx_send}
use natasha.Ports.{is_natasha_ip}
use natasha.NatRewrite.{ipproto_icmp}
use natasha.Rules.{process_rules}

-- IP_ICMP_ECHO_REQUEST and IP_ICMP_ECHO_REPLY
abbrev pub icmp_echo_request : ℕ
icmp_echo_request = 8

abbrev pub icmp_echo_reply : ℕ
icmp_echo_reply = 0

-- the low 32 bits of `pkt->pkt_len - sizeof(struct ether_hdr) - ipv4_len`, stored in an `int`
unfoldable pub padding_len : ℕ → ℕ → ℕ
padding_len pkt_len len = u32 (u64 (pkt_len + 2 ^ 64 - ether_len - len))

-- `padding_len > 0` for the `int`
unfoldable pub fix_nexus9000_padding_bug : Mbuf → Bytes
unfolding padding_len
fix_nexus9000_padding_bug m =
    let len = bswap16 (get16 m.bytes total_length) in
    let padding = padding_len m.pkt_len len in
    if ltb 0 padding && ltb padding (2 ^ 31)
    then zero_fill m.bytes (ether_len + len) padding
    else m.bytes

module _ (e : Platform) where
  -- the request becomes the reply
  unfoldable pub echo_reply : Bytes → Bytes
  echo_reply b =
      let b1 = update b icmp_type icmp_echo_reply in
      let tmp_eth = get_ether b1 s_addr in
      let b2 = put_ether b1 s_addr (get_ether b1 d_addr) in
      let b3 = put_ether b2 d_addr tmp_eth in
      let tmp_ip = get32 b3 src_addr in
      let b4 = put32 b3 src_addr (get32 b3 dst_addr) in
      let b5 = put32 b4 dst_addr tmp_ip in
      let b6 = put16 b5 hdr_checksum 0 in
      let b7 = put16 b6 hdr_checksum (u16 (e.ipv4_cksum b6 ipv4_header)) in
      let b8 = put16 b7 icmp_cksum 0 in
      let len = u64 (bswap16 (get16 b8 total_length) + 2 ^ 64 - ipv4_len) in
      put16 b8 icmp_cksum (not16 (u16 (e.raw_cksum b8 icmp_header len)))

  unfoldable pub icmp_echo : ℕ → ℕ → Core → ℤ × Core
  icmp_echo p port c =
      let (n, c') = tx_send e p port (put_bytes p (echo_reply (bytes_of p c)) c) in (pos n, c')

  unfoldable pub icmp_dispatch : ℕ → ℕ → Core → ℤ × Core
  icmp_dispatch p port c =
      if bytes_of p c icmp_type == icmp_echo_request then icmp_echo p port c else (minus_one, c)

  unfoldable pub count_unknown_icmp : Core → Core
  count_unknown_icmp c = record c {
    stats = record c.stats { drop_unknown_icmp = incr64 c.stats.drop_unknown_icmp };
  }

  unfoldable pub icmp_answer : ℕ → ℕ → Core → ℤ × Core
  icmp_answer p port c =
      let dst_ip = bswap32 (get32 (bytes_of p c) dst_addr) in
      let (ret, c') = icmp_dispatch p port c in
      if is_natasha_ip e c.app_config dst_ip (vlan_id (c.heap p))
      then (if is_neg ret then (pos 0, pktmbuf_free p (count_unknown_icmp c')) else (pos 0, c'))
      else (minus_one, c)

  -- the rules of the configuration, if there are any; their result is dropped
  unfoldable pub apply_rules : ℕ → ℕ → Core → ℤ × Core
  apply_rules p port c = elim c.app_config.rules [
    | null ↦ (minus_one, c)
    | _ ↦ (let (ret, c') = process_rules e c.app_config.rules p port c in (pos 0, c'))
  ]

  unfoldable pub ipv4_handle : ℕ → ℕ → Core → ℤ × Core
  ipv4_handle p port c =
      let c1 = put_bytes p (fix_nexus9000_padding_bug (c.heap p)) c in
      let (ret, c2) = icmp_answer p port c1 in
      let rest = apply_rules p port c1 in
      if bytes_of p c1 next_proto_id == ipproto_icmp
      then (if is_neg ret then apply_rules p port c2 else (ret, c2))
      else rest
