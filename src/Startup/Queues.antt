-- ===== src/Startup/Queues.antt =====
-- The set-up of the queues of a port in src/core.c against its plan, and which core gets which queue.
use natasha.Base.{ℕ, ◌+◌, ◌-◌, ◌^◌, ◌<◌, ◌≡◌, refl, sym, subst, arith}
use natasha.Base.{Bool, true, false, pos, List, [], ◌∷◌, if◌then◌else◌, length}
use natasha.Word.{u16, u32}
use natasha.Startup.{
  Dpdk, Setup, Call, TxConf, RxConf, pool_create, rx_queue_setup, tx_queue_setup,
  support_per_queue_statistics, perform, store_ids, setup_queue, setup_core_queues,
}
use natasha.Startup.Plan.{
  queue_plan, queues_plan, Runs, Runs-nothing, Runs-perform, Runs-and_then, Runs-or_minus_one,
  Runs-last, Runs-silent,
}

module _ (d : Dpdk) where
  Runs-optional :
      (b : Bool) (c : Call) (s : Setup)
      → Runs d (if b then c ∷ [] else []) s (if b then perform d c s else (pos 0, s))
  Runs-optional true c s = Runs-perform d c s
  Runs-optional false c s = Runs-nothing d s

  -- for the index that the code computes, whatever it wraps to
  setup_queue-wraps :
      (port ncores core queue_id : ℕ) (confs : TxConf × RxConf) (s : Setup)
      → let idx = u32 (queue_id + ncores + (2 ^ 32 - 1)) in
        Runs d
          (queue_plan d port core queue_id idx confs)
          s
          (setup_queue d port ncores core queue_id confs s)
  unfolding setup_queue queue_plan
  setup_queue-wraps port ncores core queue_id confs s =
      let socket = d.socket_id core in
      let b = support_per_queue_statistics (d.dev_info port) in
      Runs-or_minus_one d (pool_create port queue_id socket ∷ []) _ s _ _ (Runs-perform d _ s)
        (λ s1.
          Runs-and_then d (rx_queue_setup port queue_id 256 socket confs.1 ∷ []) _ s1 _ _
            (Runs-perform d _ s1)
            (λ s2. Runs-and_then d _ _ s2 _ _ (Runs-optional b _ s2) (λ s3.
              Runs-and_then d (tx_queue_setup port queue_id 512 socket confs.0 ∷ []) _ s3 _ _
                (Runs-perform d _ s3)
                (λ s4.
                  Runs-last d _ s4 _ _ (Runs-optional b _ s4)
                    (λ s5. Runs-silent d s5 (store_ids core port queue_id s5) refl)))))

  setup_queue-Runs :
      (port ncores core queue_id : ℕ) (confs : TxConf × RxConf) (s : Setup)
      → 0 < ncores
      → queue_id + ncores < 2 ^ 32
      → Runs d
          (queue_plan d port core queue_id (queue_id + (ncores - 1)) confs)
          s
          (setup_queue d port ncores core queue_id confs s)
  setup_queue-Runs port ncores core queue_id confs s h fits =
      let idx : u32 (queue_id + ncores + (2 ^ 32 - 1)) ≡ queue_id + (ncores - 1) = omega arith in
      subst
        (λ i.
          Runs d (queue_plan d port core queue_id i confs) s
            (setup_queue d port ncores core queue_id confs s))
        idx (setup_queue-wraps port ncores core queue_id confs s)

  pub setup_core_queues-Runs :
      (port ncores : ℕ) (confs : TxConf × RxConf) (cores : List ℕ) (queue_id : ℕ) (s : Setup)
      → 0 < ncores
      → ncores < 2 ^ 16
      → queue_id + length cores < 2 ^ 16
      → Runs d
          (queues_plan d port ncores confs cores queue_id)
          s
          (setup_core_queues d port ncores confs cores queue_id s)
  unfolding setup_core_queues queues_plan
  setup_core_queues-Runs port ncores confs [] queue_id s h h' few = Runs-nothing d s
  setup_core_queues-Runs port ncores confs (core ∷ cores) queue_id s h h' few =
      let next : u16 (queue_id + 1) ≡ queue_id + 1 = omega arith in
      Runs-and_then d _ _ s _ _ (setup_queue-Runs port ncores core queue_id confs s h (omega arith))
        (λ s'.
          subst
            (λ q.
              Runs d (queues_plan d port ncores confs cores (queue_id + 1)) s'
                (setup_core_queues d port ncores confs cores q s'))
            (sym next)
            (setup_core_queues-Runs port ncores confs cores (queue_id + 1) s' h h' (omega arith)))
