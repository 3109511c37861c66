-- ===== src/Startup/Port.antt =====
-- `setup_queues` and `setup_port` of src/core.c against their plans.
use natasha.Base.{ℕ, suc, ◌+◌, ◌-◌, ◌^◌, ◌<◌, ◌≡◌, sym, ap, subst, ◌∙◌, arith}
use natasha.Base.{
  Bool, true, false, ℤ, List, [], ◌∷◌, ◌++◌, length, is_neg, count, Option, none, some,
}
use natasha.Word.{u16}
use natasha.Config.{AppConfig}
use natasha.Startup.{
  Dpdk, Setup, Call, TxConf, RxConf, dev_configure, dev_start, eth_conf, any_vlan, has_ips,
  has_cksums, queue_confs, with_confs, setup_queues, setup_core_queues, configure_port, setup_port,
}
use natasha.Startup.Plan.{
  queues_plan, vlans_plan, Runs, Runs-perform, Runs-and_then, Runs-last, Runs-nothing,
  filter_vlans-Runs,
}
use natasha.Startup.Queues.{setup_core_queues-Runs}
use natasha.Startup.Ids.{Ids, assign, assign-at, Leaves, setup_core_queues-Leaves}

unfoldable pub port_plan : Dpdk → AppConfig → ℕ → ℕ → TxConf × RxConf → List Call
port_plan d config port nqueues confs =
    let ips = (config.ports port).ip_addresses in
    dev_configure port nqueues nqueues (eth_conf (config.ports port).mtu)
    ∷ (vlans_plan port ips
        ++ (queues_plan d port d.lcore_count confs d.slaves 0 ++ dev_start port ∷ []))

module _ (d : Dpdk) (port : ℕ) where
  setup_queues-Runs :
      (vlan : Bool) (confs : TxConf × RxConf) (s : Setup)
      → d.lcore_count ≡ suc (length d.slaves)
      → d.lcore_count < 2 ^ 16
      → queue_confs d port vlan ≡ some confs
      → Runs d
          (queues_plan d port d.lcore_count confs d.slaves 0)
          s
          (setup_queues d port d.lcore_count vlan s)
  unfolding setup_queues
  setup_queues-Runs vlan confs s cores few h =
      subst
        (λ o.
          Runs d (queues_plan d port d.lcore_count confs d.slaves 0) s
            (with_confs o s (λ c. setup_core_queues d port d.lcore_count c d.slaves 0 s)))
        (sym h)
        (setup_core_queues-Runs d port d.lcore_count confs d.slaves 0 s (omega arith) few
          (omega arith))

  configure_port-Runs :
      (config : AppConfig) (confs : TxConf × RxConf) (n : ℕ) (s : Setup)
      → d.lcore_count ≡ suc (length d.slaves)
      → d.lcore_count < 2 ^ 16
      → queue_confs d port (any_vlan (config.ports port).ip_addresses) ≡ some confs
      → Runs d (port_plan d config port n confs) s (configure_port d config port n s)
  unfolding configure_port port_plan
  configure_port-Runs config confs n s cores few vlan =
      let ips = (config.ports port).ip_addresses in
      let conf = eth_conf (config.ports port).mtu in
      Runs-and_then d (dev_configure port n n conf ∷ []) _ s _ _ (Runs-perform d _ s) (λ s1.
        Runs-and_then d _ _ s1 _ _ (filter_vlans-Runs d port ips s1) (λ s2.
          Runs-and_then d _ _ s2 _ _ (setup_queues-Runs (any_vlan ips) confs s2 cores few vlan)
            (λ s3.
              Runs-last d _ s3 _ _ (Runs-perform d (dev_start port) s3) (λ s4. Runs-nothing d s4))))

  -- With one core besides the worker cores, less than 65536 cores in all, a port that can leave
  -- checksums to the device, has addresses, and accepts VLANs if any is configured: the set-up of
  -- the port makes the calls of the plan in order (the configuration with one queue for each worker
  -- core, the VLANs, for each worker core the pool, the two rings and, if the driver has them, the
  -- statistics, and the start of the port), up to the first that fails, and fails if one does.
  pub setup_port-Runs :
      (config : AppConfig) (confs : TxConf × RxConf) (s : Setup)
      → d.lcore_count ≡ suc (length d.slaves)
      → d.lcore_count < 2 ^ 16
      → has_cksums d (d.dev_info port) ≡ true
      → has_ips (config.ports port).ip_addresses ≡ true
      → queue_confs d port (any_vlan (config.ports port).ip_addresses) ≡ some confs
      → Runs d (port_plan d config port (length d.slaves) confs) s (setup_port d config port s)
  unfolding setup_port
  setup_port-Runs config confs s cores few cksums ips vlan =
      let n : u16 (d.lcore_count + (2 ^ 16 - 1)) ≡ length d.slaves = omega arith in
      rw (cksums, ips)
        (subst
          (λ k.
            Runs d (port_plan d config port k confs) s
              (configure_port d config port (u16 (d.lcore_count + (2 ^ 16 - 1))) s))
          n
          (configure_port-Runs config confs (u16 (d.lcore_count + (2 ^ 16 - 1))) s cores few vlan))

with_confs-Leaves :
    (ids : Ids) (o : Option (TxConf × RxConf)) (s : Setup) (f : TxConf × RxConf → ℤ × Setup)
    → ((confs : TxConf × RxConf) → Leaves ids (f confs))
    → Leaves ids (with_confs o s f)
with_confs-Leaves ids none s f h = λ e. cc
with_confs-Leaves ids (some confs) s f h = h confs

setup_queues-Leaves :
    (d : Dpdk) (port : ℕ) (vlan : Bool) (s : Setup)
    → length d.slaves < 2 ^ 16
    → Leaves
        (assign s.rx_ids port d.slaves 0, assign s.tx_ids port d.slaves 0)
        (setup_queues d port d.lcore_count vlan s)
unfolding setup_queues
setup_queues-Leaves d port vlan s few =
    with_confs-Leaves _ (queue_confs d port vlan) s _
      (λ confs. setup_core_queues-Leaves d port d.lcore_count confs d.slaves 0 s (omega arith))

-- With less than 65536 worker cores, a set-up of the queues of a port that succeeds gives each
-- worker core, for receiving and for sending, the queue whose number is the place of the core among
-- the worker cores, if the core is not named again after that place.
pub setup_queues_ids :
    (d : Dpdk) (port core : ℕ) (before after : List ℕ) (vlan : Bool) (s : Setup)
    → d.slaves ≡ before ++ core ∷ after
    → count core after ≡ 0
    → length d.slaves < 2 ^ 16
    → is_neg (setup_queues d port d.lcore_count vlan s).0 ≡ false
    → let s' = (setup_queues d port d.lcore_count vlan s).1 in
      (s'.rx_ids core port ≡ length before) × (s'.tx_ids core port ≡ length before)
setup_queues_ids d port core before after vlan s split once few ok =
    let left = setup_queues-Leaves d port vlan s few ok in
    let placed = λ (ids : ℕ → ℕ → ℕ).
      ap (λ l. assign ids port l 0 core port) split ∙ assign-at ids port core before after 0 once in
    (
      ap (λ (i : Ids). i.0 core port) left ∙ placed s.rx_ids ∙ omega arith,
      ap (λ (i : Ids). i.1 core port) left ∙ placed s.tx_ids ∙ omega arith,
    )
