-- ===== src/Startup/Ids.antt =====
-- The numbers of the queues that the start-up of src/core.c gives to the worker cores.
use natasha.Base.{ℕ, ◌+◌, ◌-◌, ◌^◌, ◌<◌, ◌≡◌, refl, sym, ap, subst, ◌∙◌, arith}
use natasha.Base.{
  Bool, true, false, ℤ, pos, negsuc, List, [], ◌∷◌, ◌++◌, if◌then◌else◌, length, is_neg, ==_refl,
  ◌==◌, count,
}
use natasha.Word.{u16, u32}
use natasha.Startup.{
  Dpdk, Setup, Call, pool_create, rx_queue_setup, rx_stats_mapping, tx_queue_setup,
  tx_stats_mapping, support_per_queue_statistics, TxConf, RxConf, perform, and_then, or_minus_one,
  set_id, setup_queue, setup_core_queues,
}

abbrev pub Ids : Type 0
Ids = (ℕ → ℕ → ℕ) × (ℕ → ℕ → ℕ)

abbrev pub ids_of : Setup → Ids
ids_of s = (s.rx_ids, s.tx_ids)

-- the queue numbers that the loop gives out, from `id` on
abbrev pub assign : (ℕ → ℕ → ℕ) → ℕ → List ℕ → ℕ → ℕ → ℕ → ℕ
assign ids port [] id = ids
assign ids port (core ∷ cores) id = assign (set_id ids core port id) port cores (id + 1)

-- a success leaves these numbers
abbrev pub Leaves : Ids → ℤ × Setup → Type 0
Leaves ids r = is_neg r.0 ≡ false → ids_of r.1 ≡ ids

module _ (mid ids : Ids) where
  Leaves-and_then :
      (r : ℤ × Setup) (f : Setup → ℤ × Setup)
      → Leaves mid r
      → ((s' : Setup) → ids_of s' ≡ mid → Leaves ids (f s'))
      → Leaves ids (and_then r f)
  Leaves-and_then (pos n, s') f h g = g s' (h refl)
  Leaves-and_then (negsuc n, s') f h g = λ e. cc

  Leaves-or_minus_one :
      (r : ℤ × Setup) (f : Setup → ℤ × Setup)
      → Leaves mid r
      → ((s' : Setup) → ids_of s' ≡ mid → Leaves ids (f s'))
      → Leaves ids (or_minus_one r f)
  Leaves-or_minus_one (pos n, s') f h g = g s' (h refl)
  Leaves-or_minus_one (negsuc n, s') f h g = λ e. cc

assign-other :
    (ids : ℕ → ℕ → ℕ) (port core : ℕ) (cores : List ℕ) (id : ℕ)
    → count core cores ≡ 0
    → assign ids port cores id core ≡ ids core
assign-other ids port core [] id h = refl
assign-other ids port core (c ∷ cores) id h =
    let other : (c == core) ≡ false = ground arith in
    assign-other (set_id ids c port id) port core cores (id + 1) (ground arith) ∙ rw other refl

pub assign-at :
    (ids : ℕ → ℕ → ℕ) (port core : ℕ) (before after : List ℕ) (id : ℕ)
    → count core after ≡ 0
    → assign ids port (before ++ core ∷ after) id core port ≡ id + length before
assign-at ids port core [] after id h =
    ap (λ f. f port) (assign-other (set_id ids core port id) port core after (id + 1) h)
    ∙ rw (==_refl core, ==_refl port) (omega arith)
assign-at ids port core (c ∷ before) after id h =
    assign-at (set_id ids c port id) port core before after (id + 1) h ∙ omega arith

module _ (d : Dpdk) where
  Leaves-perform : (c : Call) (s : Setup) → Leaves (ids_of s) (perform d c s)
  unfolding perform
  Leaves-perform c s e = refl

  Leaves-optional :
      (b : Bool) (c : Call) (s : Setup)
      → Leaves (ids_of s) (if b then perform d c s else (pos 0, s))
  Leaves-optional true c s = Leaves-perform c s
  Leaves-optional false c s = λ e. refl

  setup_queue-Leaves :
      (port ncores core queue_id : ℕ) (confs : TxConf × RxConf) (s : Setup)
      → Leaves
          (set_id s.rx_ids core port queue_id, set_id s.tx_ids core port queue_id)
          (setup_queue d port ncores core queue_id confs s)
  unfolding setup_queue
  setup_queue-Leaves port ncores core queue_id confs s =
      let socket = d.socket_id core in
      let b = support_per_queue_statistics (d.dev_info port) in
      let idx = u32 (queue_id + ncores + (2 ^ 32 - 1)) in
      let ids : Ids = (set_id s.rx_ids core port queue_id, set_id s.tx_ids core port queue_id) in
      Leaves-or_minus_one (ids_of s) ids _ _ (Leaves-perform (pool_create port queue_id socket) s)
        (λ s1 e1.
          Leaves-and_then (ids_of s1) ids _ _
            (Leaves-perform (rx_queue_setup port queue_id 256 socket confs.1) s1)
            (λ s2 e2.
              Leaves-and_then (ids_of s2) ids _ _
                (Leaves-optional b (rx_stats_mapping port queue_id queue_id) s2)
                (λ s3 e3.
                  Leaves-and_then (ids_of s3) ids _ _
                    (Leaves-perform (tx_queue_setup port queue_id 512 socket confs.0) s3)
                    (λ s4 e4.
                      Leaves-and_then (ids_of s4) ids _ _
                        (Leaves-optional b (tx_stats_mapping port queue_id idx) s4)
                        (λ s5 e5 e.
                          ap
                            (λ (i : Ids).
                              (set_id i.0 core port queue_id, set_id i.1 core port queue_id))
                            (e5 ∙ e4 ∙ e3 ∙ e2 ∙ e1))))))

  pub setup_core_queues-Leaves :
      (port ncores : ℕ) (confs : TxConf × RxConf) (cores : List ℕ) (queue_id : ℕ) (s : Setup)
      → queue_id + length cores < 2 ^ 16
      → Leaves
          (assign s.rx_ids port cores queue_id, assign s.tx_ids port cores queue_id)
          (setup_core_queues d port ncores confs cores queue_id s)
  unfolding setup_core_queues
  setup_core_queues-Leaves port ncores confs [] queue_id s few = λ e. refl
  setup_core_queues-Leaves port ncores confs (core ∷ cores) queue_id s few =
      let next : u16 (queue_id + 1) ≡ queue_id + 1 = omega arith in
      let ids : Ids = (
        assign s.rx_ids port (core ∷ cores) queue_id,
        assign s.tx_ids port (core ∷ cores) queue_id,
      ) in
      Leaves-and_then _ ids _ _ (setup_queue-Leaves port ncores core queue_id confs s) (λ s' e'.
        subst (λ q. Leaves ids (setup_core_queues d port ncores confs cores q s')) (sym next)
          (subst
            (λ i.
              Leaves (assign i.0 port cores (queue_id + 1), assign i.1 port cores (queue_id + 1))
                (setup_core_queues d port ncores confs cores (queue_id + 1) s'))
            e' (setup_core_queues-Leaves port ncores confs cores (queue_id + 1) s' (omega arith))))
