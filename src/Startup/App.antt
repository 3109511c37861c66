-- ===== src/Startup/App.antt =====
-- `check_ports_link_status`, `setup_app`, `run_workers`, `natasha_exit` and `main` of src/core.c.
use natasha.Base.{ℕ, zero, suc, ◌+◌, Bool, true, false, ℤ, pos, minus_one, is_neg}
use natasha.Base.{List, [], ◌∷◌, ◌++◌, if◌then◌else◌, ◌==◌, ltb, Option, none, some}
use natasha.Word.{u8}
use natasha.Bytes.{update}
use natasha.Config.{AppConfig}
use natasha.Startup.{
  Dpdk, Setup, Call, config_load, stats_alloc, reload_all, remote_launch, wait_lcore, dev_stop,
  dev_close, perform, or_minus_one, setup_port,
}

-- MAX_CHECK_TIME and CHECK_INTERVAL
abbrev pub max_check_time : ℕ
max_check_time = 90

abbrev pub check_interval : ℕ
check_interval = 100

-- a call whose result only decides what is logged
abbrev pub tell : Call → Setup → Setup
tell c s = record s { log = s.log ++ c ∷ [] }

-- `cores[core].id = core;` and the zeroing of `cores[core].app_config`
abbrev pub init_core : ℕ → Setup → Setup
init_core core s = record s {
  core_ids = update s.core_ids core core;
  has_config = update s.has_config core false;
}

-- the loop over the worker cores of `natasha_exit`
unfoldable pub wait_workers : List ℕ → Setup → Setup
wait_workers [] s = s
wait_workers (core ∷ cores) s = wait_workers cores (tell (wait_lcore core) s)

-- `RTE_ETH_FOREACH_DEV(portid)`
unfoldable pub stop_ports : ℕ → ℕ → Setup → Setup
stop_ports port zero s = s
stop_ports port (suc rounds) s =
    stop_ports (port + 1) rounds (tell (dev_close port) (tell (dev_stop port) s))

module _ (d : Dpdk) where
  -- `all_ports_up` after the loop over the ports, from `port` on
  unfoldable pub ports_up : ℕ → ℕ → ℕ → Bool
  ports_up waited port zero = true
  ports_up waited port (suc rounds) =
      let rest = ports_up waited (port + 1) rounds in if d.link_up waited port then rest else false

  -- the loop over `count`, with the rounds that its condition leaves; the wait after it
  unfoldable pub check_links : ℕ → ℕ → ℕ → ℕ → ℕ
  unfolding ports_up
  check_links port_max count zero waited = waited
  check_links port_max count (suc rounds) waited =
      let up = ports_up waited 0 port_max in
      let waited' = if up then waited else waited + check_interval in
      let rest = check_links port_max (count + 1) rounds waited' in
      if up then waited' else if suc count == max_check_time then waited' else rest

  unfoldable pub check_ports_link_status : ℕ → Setup → Setup
  unfolding check_links
  check_ports_link_status port_max s = record s {
    waited = check_links port_max 0 (max_check_time + 1) s.waited;
  }

  -- the loop over the ports of `setup_app`
  unfoldable pub setup_ports : AppConfig → ℕ → ℕ → Setup → ℤ × Setup
  unfolding setup_port
  setup_ports config port zero s = (pos 0, s)
  setup_ports config port (suc rounds) s =
      or_minus_one (setup_port d config port s) (λ s'. setup_ports config (port + 1) rounds s')

  -- the loop over the worker cores of `setup_app`
  unfoldable pub init_cores : List ℕ → Setup → ℤ × Setup
  unfolding perform
  init_cores [] s = (pos 0, s)
  init_cores (core ∷ cores) s =
      or_minus_one (perform d (stats_alloc core) (init_core core s)) (λ s'. init_cores cores s')

  -- `app_config` is what `app_config_load` returns when it does not fail
  unfoldable pub setup_app : AppConfig → Setup → ℤ × Setup
  unfolding setup_ports init_cores check_ports_link_status
  setup_app config s =
      let eth_dev_count = u8 d.eth_dev_count in
      or_minus_one (perform d config_load s) (λ s1.
        if eth_dev_count == 0
        then (minus_one, s1)
        else if ltb d.lcore_count 2
        then (minus_one, s1)
        else or_minus_one (setup_ports config 0 eth_dev_count s1) (λ s2.
          let s3 = check_ports_link_status eth_dev_count s2 in
          let s4 : Setup = record s3 { config_frees = s3.config_frees + 1 } in
          or_minus_one (init_cores d.slaves s4)
            (λ s5. or_minus_one (perform d reload_all s5) (λ s6. (pos 0, s6)))))

  unfoldable pub run_workers : List ℕ → Setup → ℤ × Setup
  unfolding perform
  run_workers [] s = (pos 0, s)
  run_workers (core ∷ cores) s =
      or_minus_one (perform d (remote_launch core) s) (λ s'. run_workers cores s')

  unfoldable pub natasha_exit : Setup → Setup
  unfolding wait_workers stop_ports
  natasha_exit s =
      stop_ports 0 d.eth_dev_count (wait_workers d.slaves (record s { force_quit = true }))

  -- `main` after `rte_eal_init`: the state in which it enters `adm_server`, or `none` for `rte_exit`
  unfoldable pub main : AppConfig → Setup → Option Setup
  unfolding setup_app run_workers
  main config s =
      let (ret, s1) = setup_app config (record s { force_quit = false }) in
      let (ret', s2) = run_workers d.slaves s1 in
      if is_neg ret then none else if is_neg ret' then none else some s2
