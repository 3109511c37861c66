-- ===== src/Startup/Device.antt =====
-- DPDK as the start-up of src/core.c uses it: its calls, what they tell, and the state they leave.
use natasha.Base.{ℕ, Bool, ℤ}
use natasha.Base.{List}

-- the fields of `struct rte_eth_txconf` and `struct rte_eth_rxconf` that the code changes
pub record TxConf : Type 0 where
  pub txq_flags : ℕ
  pub offloads : ℕ

pub record RxConf : Type 0 where
  pub offloads : ℕ

-- what `rte_eth_dev_info_get` tells of a port
pub record DevInfo : Type 0 where
  pub tx_offload_capa : ℕ
  pub rx_offload_capa : ℕ
  pub default_txconf : TxConf
  pub default_rxconf : RxConf
  -- whether `driver_name` is one of "net_i40e", "net_mlx5" and "net_e1000_igb"
  pub no_queue_stats : Bool

-- the fields of `struct rte_eth_conf` that depend on the configuration
pub record EthConf : Type 0 where
  pub jumbo_frame : Bool
  pub max_rx_pkt_len : ℕ

-- The calls that can fail or that act on a device, with their arguments, the port first. A memory
-- pool is named by its port and its queue, and a null pointer is a negative result.
pub data Call : Type 0 where
  dev_configure : ℕ → ℕ → ℕ → EthConf → Call
  vlan_filter : ℕ → ℕ → Call
  pool_create : ℕ → ℕ → ℕ → Call
  rx_queue_setup : ℕ → ℕ → ℕ → ℕ → RxConf → Call
  rx_stats_mapping : ℕ → ℕ → ℕ → Call
  tx_queue_setup : ℕ → ℕ → ℕ → ℕ → TxConf → Call
  tx_stats_mapping : ℕ → ℕ → ℕ → Call
  dev_start : ℕ → Call
  -- `app_config_load`, `init_natasha_app_stats` for a core, and `app_config_reload_all`
  config_load : Call
  stats_alloc : ℕ → Call
  reload_all : Call
  remote_launch : ℕ → Call
  wait_lcore : ℕ → Call
  dev_stop : ℕ → Call
  dev_close : ℕ → Call

-- DPDK. The calls so far are an argument of the result of a call; a pool that is not made is a
-- negative result. The masks are the constants of its headers.
pub record Dpdk : Type 0 where
  pub result : List Call → Call → ℤ
  pub dev_info : ℕ → DevInfo
  pub vlan_offload : ℕ → ℕ
  -- the worker cores, the number of all cores, and the NUMA socket of each
  pub slaves : List ℕ
  pub lcore_count : ℕ
  pub socket_id : ℕ → ℕ
  pub eth_dev_count : ℕ
  -- whether the link of a port is up, after so many milliseconds of waiting
  pub link_up : ℕ → ℕ → Bool
  -- what the stack holds where `setup_queues` puts its configurations
  pub stack_txconf : TxConf
  pub stack_rxconf : RxConf
  pub vlan_extend_offload : ℕ
  pub tx_vlan_insert : ℕ
  pub txq_flags_nooffloads : ℕ
  pub rx_vlan_filter_strip : ℕ
  pub rx_checksum : ℕ
  pub tx_ipv4_cksum : ℕ
  pub tx_tcp_cksum : ℕ
  pub tx_udp_cksum : ℕ

-- The calls so far in order, `cores[core].rx_queues[port].id` and `cores[core].tx_queues[port].id`,
-- the milliseconds that were waited, how often `app_config_free` was called on the configuration of
-- the master, `cores[core].id`, whether `cores[core].app_config` is set, and `force_quit`.
pub record Setup : Type 0 where
  pub log : List Call
  pub rx_ids : ℕ → ℕ → ℕ
  pub tx_ids : ℕ → ℕ → ℕ
  pub waited : ℕ
  pub config_frees : ℕ
  pub core_ids : ℕ → ℕ
  pub has_config : ℕ → Bool
  pub force_quit : Bool
