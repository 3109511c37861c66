-- ===== src/Startup.antt =====
-- The start-up of src/core.c: the calls that a program of DPDK makes before its workers run.
pub mod Plan
pub mod Queues
pub mod Ids
pub mod Port
pub mod App
pub mod Links
pub mod Main
mod Device
unfoldable pub use Device.*
use mathlib.Core.Option.{map}
use natasha.Base.{
  ℕ, zero, suc, ◌+◌, ◌-◌, ◌^◌, Bool, true, false, ◌&&◌, ◌||◌, ℤ, pos, negsuc, minus_one,
}
use natasha.Base.{
  List, [], ◌∷◌, ◌++◌, if◌then◌else◌, ◌==◌, ltb, is_neg, bit_and, bit_or, Option, none, some,
}
use natasha.Word.{u8, u16, u32, not32}
use natasha.Bytes.{update}
use natasha.Config.{IpVlan, PortConfig, AppConfig}

-- `if (ret < 0) return ret;`, then the rest
abbrev pub and_then : ℤ × Setup → (Setup → ℤ × Setup) → ℤ × Setup
and_then (pos n, s) f = f s
and_then (negsuc n, s) f = (negsuc n, s)

-- `if (ret < 0) return -1;`, then the rest
abbrev pub or_minus_one : ℤ × Setup → (Setup → ℤ × Setup) → ℤ × Setup
or_minus_one (pos n, s) f = f s
or_minus_one (negsuc n, s) f = (minus_one, s)

-- `if (... && set_vlan_offload(...)) return -1;`, then the rest
abbrev pub with_confs : Option (TxConf × RxConf) → Setup → (TxConf × RxConf → ℤ × Setup) → ℤ × Setup
with_confs none s f = (minus_one, s)
with_confs (some confs) s f = f confs

-- `flags & mask`, as a condition
abbrev pub has_flag : ℕ → ℕ → Bool
has_flag flags mask = if bit_and flags mask == 0 then false else true

-- `support_per_queue_statistics` of src/config.c
abbrev pub support_per_queue_statistics : DevInfo → Bool
support_per_queue_statistics i = if i.no_queue_stats then false else true

abbrev pub set_id : (ℕ → ℕ → ℕ) → ℕ → ℕ → ℕ → ℕ → ℕ → ℕ
set_id ids core port id = update ids core (update (ids core) port id)

-- `cores[core].rx_queues[port].id = queue_id; cores[core].tx_queues[port].id = queue_id;`
abbrev pub store_ids : ℕ → ℕ → ℕ → Setup → Setup
store_ids core port id s = record s {
  rx_ids = set_id s.rx_ids core port id;
  tx_ids = set_id s.tx_ids core port id;
}

-- ETHER_MAX_LEN is 1518
abbrev pub eth_conf : ℕ → EthConf
eth_conf mtu = record { jumbo_frame = ltb 1518 mtu; max_rx_pkt_len = mtu }

-- `enable_vlan_offload` after the loop over the addresses
unfoldable pub any_vlan : List IpVlan → Bool
any_vlan [] = false
any_vlan (ip ∷ ips) = (if ip.vlan == 0 then false else true) || any_vlan ips

-- `ip_addresses != NULL`
abbrev pub has_ips : List IpVlan → Bool
has_ips [] = false
has_ips (ip ∷ ips) = true

module _ (d : Dpdk) where
  -- one call
  unfoldable pub perform : Call → Setup → ℤ × Setup
  perform c s = (d.result s.log c, record s { log = s.log ++ c ∷ [] })

  -- the configurations with the offloads for VLANs, or `none` for -1
  unfoldable pub set_vlan_offload : ℕ → DevInfo → Option (TxConf × RxConf)
  set_vlan_offload port i =
      let tx = i.default_txconf in
      let rx = i.default_rxconf in
      if has_flag (d.vlan_offload port) d.vlan_extend_offload
      then none
      else if has_flag i.tx_offload_capa d.tx_vlan_insert
      then some (
        record {
          txq_flags = bit_and tx.txq_flags (not32 d.txq_flags_nooffloads);
          offloads = bit_or tx.offloads d.tx_vlan_insert;
        },
        record { offloads = bit_or rx.offloads d.rx_vlan_filter_strip },
      )
      else none

  unfoldable pub set_rx_chksum_offload : DevInfo → RxConf → RxConf
  set_rx_chksum_offload i rx =
      if has_flag i.rx_offload_capa d.rx_checksum
      then record rx { offloads = bit_or rx.offloads d.rx_checksum }
      else rx

  -- what `setup_queues` makes of the configurations before its loop
  unfoldable pub queue_confs : ℕ → Bool → Option (TxConf × RxConf)
  unfolding set_vlan_offload set_rx_chksum_offload
  queue_confs port enable_vlan_offload =
      let i = d.dev_info port in
      let confs =
        if enable_vlan_offload
        then set_vlan_offload port i
        else some (d.stack_txconf, d.stack_rxconf) in
      map (λ c. (c.0, set_rx_chksum_offload i c.1)) confs

  -- the calls on one queue: its pool, the ring that receives and the ring that sends
  unfoldable pub setup_queue : ℕ → ℕ → ℕ → ℕ → TxConf × RxConf → Setup → ℤ × Setup
  unfolding perform
  setup_queue port ncores core queue_id confs s =
      let socket = d.socket_id core in
      let stats = support_per_queue_statistics (d.dev_info port) in
      let tx_stats_idx = u32 (queue_id + ncores + (2 ^ 32 - 1)) in
      or_minus_one (perform (pool_create port queue_id socket) s) (λ s1.
        and_then (perform (rx_queue_setup port queue_id 256 socket confs.1) s1) (λ s2.
          and_then
            (if stats then perform (rx_stats_mapping port queue_id queue_id) s2 else (pos 0, s2))
            (λ s3. and_then (perform (tx_queue_setup port queue_id 512 socket confs.0) s3) (λ s4.
              and_then
                (if stats
                  then perform (tx_stats_mapping port queue_id tx_stats_idx) s4
                  else (pos 0, s4))
                (λ s5. (pos 0, store_ids core port queue_id s5))))))

  -- the loop over the worker cores
  unfoldable pub setup_core_queues : ℕ → ℕ → TxConf × RxConf → List ℕ → ℕ → Setup → ℤ × Setup
  unfolding setup_queue
  setup_core_queues port ncores confs [] queue_id s = (pos 0, s)
  setup_core_queues port ncores confs (core ∷ cores) queue_id s =
      and_then (setup_queue port ncores core queue_id confs s)
        (λ s'. setup_core_queues port ncores confs cores (u16 (queue_id + 1)) s')

  unfoldable pub setup_queues : ℕ → ℕ → Bool → Setup → ℤ × Setup
  unfolding queue_confs setup_core_queues
  setup_queues port ncores enable_vlan_offload s =
      with_confs (queue_confs port enable_vlan_offload) s
        (λ confs. setup_core_queues port ncores confs d.slaves 0 s)

  -- the loop that accepts the VLANs of the addresses
  unfoldable pub filter_vlans : ℕ → List IpVlan → Setup → ℤ × Setup
  unfolding perform
  filter_vlans port [] s = (pos 0, s)
  filter_vlans port (ip ∷ ips) s =
      or_minus_one (if ip.vlan == 0 then (pos 0, s) else perform (vlan_filter port ip.vlan) s)
        (λ s'. filter_vlans port ips s')

  -- the checksums that the rewriting of packets leaves to the device
  abbrev pub has_cksums : DevInfo → Bool
  has_cksums i =
      has_flag i.tx_offload_capa d.tx_ipv4_cksum
      && has_flag i.tx_offload_capa d.tx_tcp_cksum
      && has_flag i.tx_offload_capa d.tx_udp_cksum

  -- `setup_port` from `rte_eth_dev_configure` on
  unfoldable pub configure_port : AppConfig → ℕ → ℕ → Setup → ℤ × Setup
  unfolding setup_queues filter_vlans any_vlan
  configure_port config port nqueues s =
      let ips = (config.ports port).ip_addresses in
      let conf = eth_conf (config.ports port).mtu in
      and_then (perform (dev_configure port nqueues nqueues conf) s) (λ s1.
        and_then (filter_vlans port ips s1) (λ s2.
          and_then (setup_queues port d.lcore_count (any_vlan ips) s2)
            (λ s3. and_then (perform (dev_start port) s3) (λ s4. (pos 0, s4)))))

  unfoldable pub setup_port : AppConfig → ℕ → Setup → ℤ × Setup
  unfolding configure_port
  setup_port config port s =
      if has_cksums (d.dev_info port) && has_ips (config.ports port).ip_addresses
      then configure_port config port (u16 (d.lcore_count + (2 ^ 16 - 1))) s
      else (minus_one, s)
