-- ===== src/Packet.antt =====
-- The headers of src/network_headers.h: where `eth_header`, `arp_header`, `ipv4_header`,
-- `icmp_header`, `tcp_header` and `udp_header` put each field, counted from `rte_pktmbuf_mtod`, with
-- access in the host's order. The layouts are those of the packed structures of DPDK.
use natasha.Base.{ℕ, Bool, not, ◌&&◌, ◌==◌, bit_and}
use natasha.Word.{bswap16}
use natasha.Bytes.{Bytes, load, store}
use natasha.Platform.{Mbuf}

-- `sizeof` of the header structures
abbrev pub ether_len : ℕ
ether_len = 14

abbrev pub ipv4_len : ℕ
ipv4_len = 20

abbrev pub icmp_len : ℕ
icmp_len = 8

-- `struct ether_hdr`
abbrev pub d_addr : ℕ
d_addr = 0

abbrev pub s_addr : ℕ
s_addr = 6

abbrev pub ether_type : ℕ
ether_type = 12

-- `struct ipv4_hdr`, from 14 on, and from 42 on for the inner packet of an ICMP error
abbrev pub ipv4_header : ℕ
ipv4_header = 14

abbrev pub total_length : ℕ
total_length = 16

abbrev pub fragment_offset : ℕ
fragment_offset = 20

abbrev pub next_proto_id : ℕ
next_proto_id = 23

abbrev pub hdr_checksum : ℕ
hdr_checksum = 24

abbrev pub src_addr : ℕ
src_addr = 26

abbrev pub dst_addr : ℕ
dst_addr = 30

-- `struct icmp_hdr`, `struct tcp_hdr`, `struct udp_hdr`, all from 34 on: the code takes the IPv4
-- header to be 20 bytes long
abbrev pub icmp_header : ℕ
icmp_header = 34

abbrev pub icmp_type : ℕ
icmp_type = 34

abbrev pub icmp_cksum : ℕ
icmp_cksum = 36

abbrev pub tcp_cksum : ℕ
tcp_cksum = 50

abbrev pub dgram_cksum : ℕ
dgram_cksum = 40

-- the IPv4 header inside an ICMP error
abbrev pub inner_hdr_checksum : ℕ
inner_hdr_checksum = 52

abbrev pub inner_src_addr : ℕ
inner_src_addr = 54

abbrev pub inner_dst_addr : ℕ
inner_dst_addr = 58

-- `struct arp_hdr`, from 14 on
abbrev pub arp_op : ℕ
arp_op = 20

abbrev pub arp_sha : ℕ
arp_sha = 22

abbrev pub arp_sip : ℕ
arp_sip = 28

abbrev pub arp_tha : ℕ
arp_tha = 32

abbrev pub arp_tip : ℕ
arp_tip = 38

abbrev pub get16 : Bytes → ℕ → ℕ
get16 b p = load b p 2

abbrev pub get32 : Bytes → ℕ → ℕ
get32 b p = load b p 4

abbrev pub put16 : Bytes → ℕ → ℕ → Bytes
put16 b p v = store b p 2 v

abbrev pub put32 : Bytes → ℕ → ℕ → Bytes
put32 b p v = store b p 4 v

-- `ether_addr_copy` and `rte_eth_macaddr_get` move the six bytes of an address.
abbrev pub get_ether : Bytes → ℕ → ℕ
get_ether b p = load b p 6

abbrev pub put_ether : Bytes → ℕ → ℕ → Bytes
put_ether b p v = store b p 6 v

-- `IPV4_HDR_MF_FLAG` and `IPV4_HDR_OFFSET_MASK`
abbrev pub mf_flag : ℕ
mf_flag = 0x2000

abbrev pub offset_mask : ℕ
offset_mask = 0x1fff

-- `NATA_IS_FRAG`: the fragment has an offset, so it is not the first one
unfoldable pub is_frag : Bytes → Bool
is_frag b = not (bit_and (get16 b fragment_offset) (bswap16 offset_mask) == 0)

-- `NATA_IS_FIRST_FRAG`: more fragments follow, and this one has no offset
unfoldable pub is_first_frag : Bytes → Bool
is_first_frag b =
    not (bit_and (get16 b fragment_offset) (bswap16 mf_flag) == 0)
    && (bit_and (get16 b fragment_offset) (bswap16 offset_mask) == 0)

-- `VLAN_ID`: the low 12 bits of the TCI
unfoldable pub vlan_id : Mbuf → ℕ
vlan_id pkt = bit_and pkt.vlan_tci 0xfff
