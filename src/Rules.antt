-- ===== src/Rules.antt =====
-- The actions of src/action_drop.c, src/action_out.c and src/action_log.c, and `process_rules` of
-- src/ipv4.c, which walks the tree of rules for the packet at address `p`, received on `port`.
pub mod Print
pub mod Meaning
pub mod Outcome
pub mod Ownership
pub mod Ending
use natasha.Base.{ℕ, ℤ, pos, negsuc, minus_one, Bool, false, if◌then◌else◌, bit_or, ◌==◌}
use natasha.Word.{u16, incr64}
use natasha.Platform.{Platform, Mbuf}
use natasha.Packet.{put_ether, d_addr, s_addr}
use natasha.Rules.Print.{action_print}
use natasha.Config.{
  Action, print, nat_rewrite, out, src_in_network, dst_in_network, vlan, Node, null, noop, action,
  seq, if_node, cond_node, and_node, or_node, OutPacket,
}
use natasha.Core.{Core, bytes_of, pktmbuf_free, put_mbuf}
use natasha.TxQueue.{tx_send}
use natasha.Cond.{cond_ipv4_src_in_network, cond_ipv4_dst_in_network, cond_vlan}
use natasha.NatRewrite.{action_nat_rewrite}

unfoldable pub action_drop : ℕ → Core → ℤ × Core
action_drop p c = (
  minus_one,
  pktmbuf_free p (record c {
    stats = record c.stats { drop_nat_condition = incr64 c.stats.drop_nat_condition };
  }),
)

-- the value of a condition as an `int`
abbrev pub of_bool : Bool → ℤ
of_bool b = if b then pos 1 else pos 0

-- the macro `X`: return -1 at once on a negative result
abbrev pub checked : ℤ × Core → (ℤ → Core → ℤ × Core) → ℤ × Core
checked (pos n, c) k = k (pos n) c
checked (negsuc n, c) k = (minus_one, c)

-- `ret == 0`
abbrev pub is_zero : ℤ → Bool
is_zero (pos n) = n == 0
is_zero (negsuc n) = false

module _ (e : Platform) where
  -- the packet as it goes out: the addresses of the Ethernet header, the flag for the checksum
  -- offload and the VLAN
  unfoldable pub out_mbuf : ℕ → OutPacket → Mbuf → Mbuf
  out_mbuf port data' m = record m {
    bytes = put_ether (put_ether m.bytes s_addr (e.macaddr port)) d_addr data'.next_hop;
    ol_flags = bit_or m.ol_flags e.pkt_tx_ipv4;
    vlan_tci = u16 data'.vlan;
  }

  unfoldable pub action_out : ℕ → ℕ → OutPacket → Core → ℤ × Core
  action_out p port data' c =
      let (n, c') = tx_send e p data'.port (put_mbuf p (out_mbuf port data' (c.heap p)) c) in
      (minus_one, c')

  -- the call of `node->action` with `node->data`; what is logged is no part of the state
  unfoldable pub run_action : Action → ℕ → ℕ → Core → ℤ × Core
  run_action Action.drop p port c = action_drop p c
  run_action print p port c = ((action_print port c.id (bytes_of p c)).0, c)
  run_action (nat_rewrite field) p port c = action_nat_rewrite e p field c
  run_action (out data') p port c = action_out p port data' c
  run_action (src_in_network n) p port c = (of_bool (cond_ipv4_src_in_network e (c.heap p) n), c)
  run_action (dst_in_network n) p port c = (of_bool (cond_ipv4_dst_in_network e (c.heap p) n), c)
  run_action (vlan v) p port c = (of_bool (cond_vlan (c.heap p) v), c)

  unfoldable pub process_rules : Node → ℕ → ℕ → Core → ℤ × Core
  process_rules null p port c = (pos 0, c)
  process_rules (noop l r) p port c = (pos 0, c)
  process_rules (action a) p port c = run_action a p port c
  process_rules (seq l r) p port c =
      checked (process_rules l p port c)
        λ _ c1. checked (process_rules r p port c1) λ _ c2. (pos 0, c2)
  process_rules (if_node l r) p port c = checked (process_rules l p port c) λ ret c1.
      let rest = checked (process_rules r p port c1) (λ _ c2. (pos 0, c2)) in
      if is_zero ret then rest else (pos 0, c1)
  process_rules (cond_node l r) p port c = checked (process_rules l p port c) λ ret c1.
      let rest = checked (process_rules r p port c1) (λ _ c2. (pos 1, c2)) in
      if is_zero ret then (pos 0, c1) else rest
  process_rules (and_node l r) p port c = checked (process_rules l p port c) λ ret c1.
      let rest = checked (process_rules r p port c1) (λ ret2 c2. (ret2, c2)) in
      if is_zero ret then (pos 0, c1) else rest
  process_rules (or_node l r) p port c = checked (process_rules l p port c) λ ret c1.
      let rest = checked (process_rules r p port c1) (λ ret2 c2. (ret2, c2)) in
      if is_zero ret then rest else (pos 1, c1)
