-- ===== src/Arp.antt =====
-- `arp_request` and `arp_handle` of src/arp.c. Logging is left out.
pub mod Reply
use natasha.Base.{ℕ, ℤ, pos, minus_one, if◌then◌else◌, ◌==◌, not}
use natasha.Word.{bswap16, bswap32}
use natasha.Bytes.{Bytes}
use natasha.Platform.{Platform}
use natasha.Packet.{
  get16, get32, put16, put32, get_ether, put_ether, d_addr, s_addr, arp_op, arp_sha, arp_sip,
  arp_tha, arp_tip, vlan_id,
}
use natasha.Core.{Core, bytes_of, put_bytes}
use natasha.TxQueue.{tx_send}
use natasha.Ports.{is_natasha_port_ip}

-- ARP_OP_REQUEST and ARP_OP_REPLY
abbrev pub arp_op_request : ℕ
arp_op_request = 1

abbrev pub arp_op_reply : ℕ
arp_op_reply = 2

-- The request becomes the reply, with `mac` for the port's own address.
unfoldable pub forge_reply : ℕ → Bytes → Bytes
forge_reply mac b =
    let source_ip = bswap32 (get32 b arp_sip) in
    let target_ip = bswap32 (get32 b arp_tip) in
    let b1 = put16 b arp_op (bswap16 arp_op_reply) in
    let b2 = put_ether b1 d_addr (get_ether b1 s_addr) in
    let b3 = put_ether b2 s_addr mac in
    let b4 = put_ether b3 arp_tha (get_ether b3 arp_sha) in
    let b5 = put_ether b4 arp_sha mac in
    let b6 = put32 b5 arp_tip (bswap32 source_ip) in put32 b6 arp_sip (bswap32 target_ip)

module _ (e : Platform) where
  unfoldable pub arp_request : ℕ → ℕ → Core → ℤ × Core
  arp_request p port c =
      let b = bytes_of p c in
      let target_ip = bswap32 (get32 b arp_tip) in
      let (n, c') = tx_send e p port (put_bytes p (forge_reply (e.macaddr port) b) c) in
      if is_natasha_port_ip c.app_config target_ip (vlan_id (c.heap p)) port
      then (pos n, c')
      else (minus_one, c)

  unfoldable pub arp_handle : ℕ → ℕ → Core → ℤ × Core
  arp_handle p port c =
      if bswap16 (get16 (bytes_of p c) arp_op) == arp_op_request
      then arp_request p port c
      else (minus_one, c)
