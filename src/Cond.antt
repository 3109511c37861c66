-- ===== src/Cond.antt =====
-- The conditions of src/cond_network.c and src/cond_vlan.c.
pub mod Network
use natasha.Base.{ℕ, ◌+◌, ◌-◌, ◌*◌, ◌^◌, Bool, ◌==◌, ltb, if◌then◌else◌, bit_and}
use natasha.Word.{u32, bswap32}
use natasha.Platform.{Platform, Mbuf}
use natasha.Packet.{src_addr, dst_addr, get32, vlan_id}
use natasha.Config.{Ipv4Network}

module _ (e : Platform) where
  -- `~0 << (32 - mask)`; the count is a `uint32_t`
  unfoldable pub network_mask : ℕ → ℕ
  network_mask mask =
      let n = u32 (32 + 2 ^ 32 - mask) in
      if ltb n 32 then u32 ((2 ^ 32 - 1) * 2 ^ n) else e.shift_out_of_range n

  unfoldable pub ipv4_in_network : ℕ → Ipv4Network → Bool
  unfolding network_mask
  ipv4_in_network ip network =
      bit_and ip (network_mask network.mask) == bit_and network.ip (network_mask network.mask)

  unfoldable pub cond_ipv4_dst_in_network : Mbuf → Ipv4Network → Bool
  cond_ipv4_dst_in_network pkt network =
      ipv4_in_network (bswap32 (get32 pkt.bytes dst_addr)) network

  unfoldable pub cond_ipv4_src_in_network : Mbuf → Ipv4Network → Bool
  cond_ipv4_src_in_network pkt network =
      ipv4_in_network (bswap32 (get32 pkt.bytes src_addr)) network

unfoldable pub cond_vlan : Mbuf → ℕ → Bool
cond_vlan pkt vlan = vlan_id pkt == vlan
