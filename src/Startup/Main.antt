-- ===== src/Startup/Main.antt =====
-- `setup_app`, `run_workers` and `main` of src/core.c against the plan of the whole start-up.
use mathlib.Core.List.{append_assoc}
use mathlib.Core.Option.{map}
use natasha.Base.{ℕ, zero, suc, ◌+◌, ◌^◌, ◌≤◌, ◌<◌, ◌≡◌, refl, sym, ap, ◌∙◌, arith}
use natasha.Base.{
  Bool, true, false, ℤ, pos, negsuc, is_neg, List, [], ◌∷◌, ◌++◌, length, if◌then◌else◌,
}
use natasha.Base.{Option, none, some, ltb, ◌==◌}
use natasha.Word.{u8}
use natasha.Config.{AppConfig}
use natasha.Startup.{
  Dpdk, Setup, Call, TxConf, RxConf, config_load, stats_alloc, reload_all, remote_launch,
  has_cksums, has_ips, any_vlan, queue_confs,
}
use natasha.Startup.Plan.{run, run-append, Runs, Runs-nothing, Runs-perform, Runs-or_minus_one}
use natasha.Startup.Port.{port_plan, setup_port-Runs}
use natasha.Startup.App.{
  init_core, check_ports_link_status, setup_ports, init_cores, setup_app, run_workers, main,
}

-- `confs` is what the queues of each port are set up with
unfoldable pub ports_plan : Dpdk → AppConfig → (ℕ → TxConf × RxConf) → ℕ → ℕ → List Call
ports_plan d config confs port zero = []
ports_plan d config confs port (suc rounds) =
    port_plan d config port (length d.slaves) (confs port)
    ++ ports_plan d config confs (port + 1) rounds

unfoldable pub each_core : (ℕ → Call) → List ℕ → List Call
each_core call [] = []
each_core call (core ∷ cores) = call core ∷ each_core call cores

unfoldable pub main_plan : Dpdk → AppConfig → (ℕ → TxConf × RxConf) → List Call
main_plan d config confs =
    config_load
    ∷ (ports_plan d config confs 0 d.eth_dev_count
        ++ (each_core stats_alloc d.slaves ++ (reload_all ∷ each_core remote_launch d.slaves)))

-- The port can leave checksums to the device, has addresses, and accepts VLANs if any is configured.
abbrev pub IsSuitable : Dpdk → AppConfig → (ℕ → TxConf × RxConf) → ℕ → Type 0
IsSuitable d config confs port =
    (has_cksums d (d.dev_info port) ≡ true)
    × (has_ips (config.ports port).ip_addresses ≡ true)
    × (queue_confs d port (any_vlan (config.ports port).ip_addresses) ≡ some (confs port))

module _ (d : Dpdk) (config : AppConfig) (confs : ℕ → TxConf × RxConf)
    (cores : d.lcore_count ≡ suc (length d.slaves)) (few : d.lcore_count < 2 ^ 16) where
  setup_ports-Runs :
      (port rounds : ℕ) (s : Setup)
      → ((p : ℕ) → port ≤ p → p < port + rounds → IsSuitable d config confs p)
      → Runs d (ports_plan d config confs port rounds) s (setup_ports d config port rounds s)
  unfolding setup_ports ports_plan
  setup_ports-Runs port zero s h = Runs-nothing d s
  setup_ports-Runs port (suc rounds) s h =
      let (cksums, ips, vlan) = h port (omega arith) (omega arith) in
      Runs-or_minus_one d _ _ s _ _
        (setup_port-Runs d port config (confs port) s cores few cksums ips vlan)
        (λ s'. setup_ports-Runs (port + 1) rounds s' (λ p lo hi. h p (omega arith) (omega arith)))

  init_cores-Runs : (l : List ℕ) (s : Setup) → Runs d (each_core stats_alloc l) s (init_cores d l s)
  unfolding init_cores each_core
  init_cores-Runs [] s = Runs-nothing d s
  init_cores-Runs (core ∷ l) s =
      Runs-or_minus_one d (stats_alloc core ∷ []) _ s _ _
        (Runs-perform d (stats_alloc core) (init_core core s)) (init_cores-Runs l)

  run_workers-Runs :
      (l : List ℕ) (s : Setup) → Runs d (each_core remote_launch l) s (run_workers d l s)
  unfolding run_workers each_core
  run_workers-Runs [] s = Runs-nothing d s
  run_workers-Runs (core ∷ l) s =
      Runs-or_minus_one d (remote_launch core ∷ []) _ s _ _ (Runs-perform d (remote_launch core) s)
        (run_workers-Runs l)

  -- the start-up before the workers are launched
  abbrev app_plan : ℕ → List Call
  app_plan n =
      config_load
      ∷ (ports_plan d config confs 0 n ++ (each_core stats_alloc d.slaves ++ reload_all ∷ []))

  setup_app-Runs :
      (s : Setup)
      → (u8 d.eth_dev_count == 0) ≡ false
      → ltb d.lcore_count 2 ≡ false
      → ((p : ℕ) → p < u8 d.eth_dev_count → IsSuitable d config confs p)
      → Runs d (app_plan (u8 d.eth_dev_count)) s (setup_app d config s)
  unfolding setup_app check_ports_link_status
  setup_app-Runs s ports two h =
      let n = u8 d.eth_dev_count in
      Runs-or_minus_one d (config_load ∷ []) _ s _ _ (Runs-perform d config_load s) (λ s1.
        rw (ports, two)
          (Runs-or_minus_one d (ports_plan d config confs 0 n) _ s1 _ _
            (setup_ports-Runs 0 n s1 (λ p lo hi. h p (omega arith)))
            (λ s2.
              let s4 : Setup =
                let s3 = check_ports_link_status d n s2 in
                record s3 { config_frees = s3.config_frees + 1 } in
              Runs-or_minus_one d (each_core stats_alloc d.slaves) _ s4 _ _
                (init_cores-Runs d.slaves s4)
                (λ s5.
                  Runs-or_minus_one d (reload_all ∷ []) [] s5 _ _ (Runs-perform d reload_all s5)
                    (λ s6. Runs-nothing d s6)))))

-- the calls of a run, if none of them failed
abbrev pub reached : Bool × List Call → Option (List Call)
reached (ok, log) = if ok then some log else none

module _ (d : Dpdk) where
  then-reached :
      (calls calls' : List Call) (s : Setup) (r : ℤ × Setup) (f : Setup → ℤ × Setup)
      → Runs d calls s r
      → ((s' : Setup) → Runs d calls' s' (f s'))
      → map
          (λ (s' : Setup). s'.log)
          (if is_neg r.0 then none else if is_neg (f r.1).0 then none else some (f r.1).1)
        ≡ reached (run d (calls ++ calls') s.log)
  then-reached calls calls' s (pos n, s') f h g =
      rw (run-append d calls calls' s.log, sym h) (last (f s') (g s'))
    where
      last :
          (r : ℤ × Setup)
          → Runs d calls' s' r
          → map (λ (s'' : Setup). s''.log) (if is_neg r.0 then none else some r.1)
            ≡ reached (run d calls' s'.log)
      last (pos m, s'') e = ap reached e
      last (negsuc m, s'') e = ap reached e
  then-reached calls calls' s (negsuc n, s') f h g =
      rw (run-append d calls calls' s.log, sym h) refl

-- With one core besides the worker cores, at least one worker core, less than 65536 cores in all,
-- between 1 and 255 ports, each of which can leave checksums to the device, has addresses, and accepts
-- VLANs if any is configured: `main`, once DPDK is initialised, reaches the server exactly if no
-- call of the plan fails (the configuration, the set-up of each port up to its start, the counters
-- of each worker core, the configurations of the worker cores, and the launch of each), and has then
-- made the calls of the plan in this order and no other.
pub main-reached :
    (d : Dpdk) (config : AppConfig) (confs : ℕ → TxConf × RxConf) (s : Setup)
    → d.lcore_count ≡ suc (length d.slaves)
    → 0 < length d.slaves
    → d.lcore_count < 2 ^ 16
    → 0 < d.eth_dev_count
    → d.eth_dev_count < 256
    → ((port : ℕ) → port < d.eth_dev_count → IsSuitable d config confs port)
    → map (λ (s' : Setup). s'.log) (main d config s)
      ≡ reached (run d (main_plan d config confs) s.log)
unfolding main main_plan
main-reached d config confs s cores some_core few some_port ports suitable =
    let n : u8 d.eth_dev_count ≡ d.eth_dev_count = omega arith in
    let s0 : Setup = record s { force_quit = false } in
    let launches = each_core remote_launch d.slaves in
    let app =
      setup_app-Runs d config confs cores few s0 (ground arith) (ground arith)
        (λ p h. suitable p (omega arith)) in
    let assoc : app_plan d config confs cores few (u8 d.eth_dev_count) ++ launches
        ≡ main_plan d config confs =
      ap (λ l. config_load ∷ l)
        (append_assoc (ports_plan d config confs 0 (u8 d.eth_dev_count))
            (each_core stats_alloc d.slaves ++ reload_all ∷ []) launches
          ∙ ap (λ l. ports_plan d config confs 0 (u8 d.eth_dev_count) ++ l)
              (append_assoc (each_core stats_alloc d.slaves) (reload_all ∷ []) launches)
          ∙ ap
              (λ k.
                ports_plan d config confs 0 k
                ++ (each_core stats_alloc d.slaves ++ (reload_all ∷ launches)))
              n) in
    then-reached d (app_plan d config confs cores few (u8 d.eth_dev_count)) launches s0
      (setup_app d config s0) (run_workers d d.slaves) app
      (run_workers-Runs d config confs cores few d.slaves)
    ∙ ap (λ l. reached (run d l s.log)) assoc
