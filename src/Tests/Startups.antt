-- ===== src/Tests/Startups.antt =====
-- The start-up of a machine with two worker cores and one port, with a VLAN.
use natasha.Base.{ℕ, ◌≡◌, refl, arith, true, false, pos}
use natasha.Base.{[], ◌∷◌, none, some, leb}
use mathlib.Core.Option.{map}
use natasha.Config.{AppConfig, null}
use natasha.Startup.{Dpdk, Setup, Call, TxConf, RxConf, setup_queues, queue_confs}
use natasha.Startup.App.{check_ports_link_status, main}
use natasha.Startup.Port.{setup_queues_ids}
use natasha.Startup.Links.{Waits, check_ports_link_status-Waits}
use natasha.Startup.Main.{main_plan, reached, main-reached}
use natasha.Startup.Plan.{run}

abbrev tx_conf : TxConf
tx_conf = record { txq_flags = 0; offloads = 0 }

abbrev rx_conf : RxConf
rx_conf = record { offloads = 0 }

abbrev dpdk : Dpdk
dpdk = record {
  result = λ log c. pos 0;
  dev_info = λ port. record {
    tx_offload_capa = 15;
    rx_offload_capa = 1;
    default_txconf = tx_conf;
    default_rxconf = rx_conf;
    no_queue_stats = false;
  };
  vlan_offload = λ port. 0;
  slaves = 1 ∷ 2 ∷ [];
  lcore_count = 3;
  socket_id = λ core. 0;
  eth_dev_count = 1;
  link_up = λ waited port. leb 300 waited;
  stack_txconf = tx_conf;
  stack_rxconf = rx_conf;
  vlan_extend_offload = 4;
  tx_vlan_insert = 1;
  txq_flags_nooffloads = 256;
  rx_vlan_filter_strip = 3;
  rx_checksum = 1;
  tx_ipv4_cksum = 2;
  tx_tcp_cksum = 4;
  tx_udp_cksum = 8;
}

abbrev config : AppConfig
config = record {
  ports = λ port. record { ip_addresses = record { ip = 0x0a000001; vlan = 7 } ∷ []; mtu = 1500 };
  nat_lookup = none;
  rules = null;
  flags = 0;
}

abbrev start : Setup
start = record {
  log = [];
  rx_ids = λ core port. 0;
  tx_ids = λ core port. 0;
  waited = 0;
  config_frees = 0;
  core_ids = λ core. 0;
  has_config = λ core. false;
  force_quit = false;
}

-- with the offloads for VLANs and checksums
abbrev confs : ℕ → TxConf × RxConf
confs port = (record { txq_flags = 0; offloads = 1 }, record { offloads = 3 })

setup_queues_ids_example :
    let s' = (setup_queues dpdk 0 3 true start).1 in (s'.rx_ids 2 0 ≡ 1) × (s'.tx_ids 2 0 ≡ 1)
unfolding setup_queues natasha.Startup.queue_confs natasha.Startup.set_vlan_offload
    natasha.Startup.set_rx_chksum_offload natasha.Startup.setup_core_queues
    natasha.Startup.setup_queue natasha.Startup.perform
setup_queues_ids_example =
    setup_queues_ids dpdk 0 2 (1 ∷ []) [] true start refl refl (omega arith) refl

check_ports_link_status-Waits_example :
    Waits dpdk 1 0 0 (check_ports_link_status dpdk 1 start).waited
check_ports_link_status-Waits_example = check_ports_link_status-Waits dpdk 1 start

confs-at : (port : ℕ) → queue_confs dpdk port true ≡ some (confs port)
unfolding queue_confs
confs-at port = refl

main-reached_example :
    map (λ (s' : Setup). s'.log) (main dpdk config start)
    ≡ reached (run dpdk (main_plan dpdk config confs) [])
unfolding natasha.Startup.any_vlan
main-reached_example =
    main-reached dpdk config confs start refl (omega arith) (omega arith) (omega arith)
      (omega arith) (λ port h. (refl, refl, confs-at port))
