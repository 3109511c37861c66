-- ===== src/Rules/Print.antt =====
-- `action_print` of src/action_log.c: what is logged about a packet.
use natasha.Base.{ℕ, ℤ, pos, List, [], ◌∷◌, ◌==◌, if◌then◌else◌}
use natasha.Word.{bswap16, bswap32}
use natasha.Bytes.{Bytes}
use natasha.Packet.{get16, get32, src_addr, dst_addr, next_proto_id, icmp_type}

-- The calls of RTE_LOG, with the numbers that they print. An address is the four numbers of
-- IPV4_FMTARGS, as one number in host order.
pub data Line : Type 0 where
  packet_line : ℕ → ℕ → ℕ → ℕ → Line
  tcp_line : ℕ → ℕ → ℕ → Line
  udp_line : ℕ → ℕ → Line
  icmp_line : ℕ → ℕ → Line
  other_line : ℕ → Line

-- `src_port` and `dst_port` of `struct tcp_hdr` and of `struct udp_hdr`, `tcp_flags` and `icmp_code`
abbrev src_port : ℕ
src_port = 34

abbrev dst_port : ℕ
dst_port = 36

abbrev tcp_flags : ℕ
tcp_flags = 47

abbrev icmp_code : ℕ
icmp_code = 35

-- the switch on `next_proto_id`: IPPROTO_TCP, IPPROTO_UDP and IPPROTO_ICMP
abbrev pub proto_line : Bytes → Line
proto_line b =
    let proto = b next_proto_id in
    if proto == 6
    then tcp_line (bswap16 (get16 b src_port)) (bswap16 (get16 b dst_port)) (b tcp_flags)
    else if proto == 17
    then udp_line (bswap16 (get16 b src_port)) (bswap16 (get16 b dst_port))
    else if proto == 1
    then icmp_line (b icmp_type) (b icmp_code)
    else other_line proto

-- for a packet from `port` on the core `id`
abbrev pub action_print : ℕ → ℕ → Bytes → ℤ × List Line
action_print port id b = (
  pos 0,
  packet_line port id (bswap32 (get32 b src_addr)) (bswap32 (get32 b dst_addr)) ∷ proto_line b ∷ [],
)
