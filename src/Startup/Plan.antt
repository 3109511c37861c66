-- ===== src/Startup/Plan.antt =====
-- What the start-up of a port in src/core.c is meant to call: a plan, made before any call, and
-- its run up to the first call that fails.
use mathlib.Core.List.{append-nil}
use natasha.Base.{ℕ, ◌+◌, ◌-◌, ◌≡◌, refl, sym, ap, subst, inl, inr}
use natasha.Base.{
  Bool, true, false, Bool-cases, ℤ, pos, negsuc, List, [], ◌∷◌, ◌++◌, if◌then◌else◌, ◌==◌, is_neg,
  not,
}
use natasha.Config.{IpVlan}
use natasha.Startup.{
  Dpdk, Setup, Call, TxConf, RxConf, vlan_filter, pool_create, rx_queue_setup, rx_stats_mapping,
  tx_queue_setup, tx_stats_mapping, support_per_queue_statistics, perform, and_then, or_minus_one,
  filter_vlans,
}

-- The calls of a plan in order, up to the first that fails: whether none did, and all calls so far.
unfoldable pub run : Dpdk → List Call → List Call → Bool × List Call
run d [] log = (true, log)
run d (c ∷ calls) log =
    let rest = run d calls (log ++ c ∷ []) in
    if is_neg (d.result log c) then (false, log ++ c ∷ []) else rest

-- what is planned for the queue of a core, with the index of its statistics for sending
unfoldable pub queue_plan : Dpdk → ℕ → ℕ → ℕ → ℕ → TxConf × RxConf → List Call
queue_plan d port core queue_id tx_stats_idx confs =
    let socket = d.socket_id core in
    let stats : Call → List Call =
      λ c. if support_per_queue_statistics (d.dev_info port) then c ∷ [] else [] in
    pool_create port queue_id socket
    ∷ rx_queue_setup port queue_id 256 socket confs.1
    ∷ (stats (rx_stats_mapping port queue_id queue_id)
        ++ (tx_queue_setup port queue_id 512 socket confs.0
            ∷ stats (tx_stats_mapping port queue_id tx_stats_idx)))

-- The statistics for sending stand behind those for receiving, one of each per worker core.
unfoldable pub queues_plan : Dpdk → ℕ → ℕ → TxConf × RxConf → List ℕ → ℕ → List Call
queues_plan d port ncores confs [] queue_id = []
queues_plan d port ncores confs (core ∷ cores) queue_id =
    queue_plan d port core queue_id (queue_id + (ncores - 1)) confs
    ++ queues_plan d port ncores confs cores (queue_id + 1)

unfoldable pub vlans_plan : ℕ → List IpVlan → List Call
vlans_plan port [] = []
vlans_plan port (ip ∷ ips) =
    (if ip.vlan == 0 then [] else vlan_filter port ip.vlan ∷ []) ++ vlans_plan port ips

-- A routine does what is planned: it fails when a call fails, and has made the calls up to then.
abbrev pub Runs : Dpdk → List Call → Setup → ℤ × Setup → Type 0
Runs d calls s r = (not (is_neg r.0), r.1.log) ≡ run d calls s.log

module _ (d : Dpdk) where
  pub Runs-nothing : (s : Setup) → Runs d [] s (pos 0, s)
  unfolding run
  Runs-nothing s = refl

  pub Runs-silent : (s s' : Setup) → s'.log ≡ s.log → Runs d [] s (pos 0, s')
  unfolding run
  Runs-silent s s' h = ap (λ l. (true, l)) h

  pub Runs-perform : (c : Call) (s : Setup) → Runs d (c ∷ []) s (perform d c s)
  unfolding run perform
  Runs-perform c s = elim (Bool-cases (is_neg (d.result s.log c))) [
    | inl h ↦ rw h refl
    | inr h ↦ rw h refl
  ]

  pub run-append :
      (calls calls' log : List Call)
      → run d (calls ++ calls') log
        ≡ (let (ok, log') = run d calls log in if ok then run d calls' log' else (false, log'))
  unfolding run
  run-append [] calls' log = refl
  run-append (c ∷ calls) calls' log = elim (Bool-cases (is_neg (d.result log c))) [
    | inl h ↦ rw h refl
    | inr h ↦ rw h (run-append calls calls' (log ++ c ∷ []))
  ]

  pub Runs-and_then :
      (calls calls' : List Call) (s : Setup) (r : ℤ × Setup) (f : Setup → ℤ × Setup)
      → Runs d calls s r
      → ((s' : Setup) → Runs d calls' s' (f s'))
      → Runs d (calls ++ calls') s (and_then r f)
  Runs-and_then calls calls' s (pos n, s') f h g = rw (run-append calls calls' s.log, sym h) (g s')
  Runs-and_then calls calls' s (negsuc n, s') f h g = rw (run-append calls calls' s.log, sym h) refl

  pub Runs-or_minus_one :
      (calls calls' : List Call) (s : Setup) (r : ℤ × Setup) (f : Setup → ℤ × Setup)
      → Runs d calls s r
      → ((s' : Setup) → Runs d calls' s' (f s'))
      → Runs d (calls ++ calls') s (or_minus_one r f)
  Runs-or_minus_one calls calls' s (pos n, s') f h g =
      rw (run-append calls calls' s.log, sym h) (g s')
  Runs-or_minus_one calls calls' s (negsuc n, s') f h g =
      rw (run-append calls calls' s.log, sym h) refl

  -- a rest that makes no call and returns 0
  pub Runs-last :
      (calls : List Call) (s : Setup) (r : ℤ × Setup) (f : Setup → ℤ × Setup)
      → Runs d calls s r
      → ((s' : Setup) → Runs d [] s' (f s'))
      → Runs d calls s (and_then r f)
  Runs-last calls s r f h g =
      subst (λ l. Runs d l s (and_then r f)) (append-nil calls) (Runs-and_then calls [] s r f h g)

  pub filter_vlans-Runs :
      (port : ℕ) (ips : List IpVlan) (s : Setup)
      → Runs d (vlans_plan port ips) s (filter_vlans d port ips s)
  unfolding filter_vlans vlans_plan
  filter_vlans-Runs port [] s = Runs-nothing s
  filter_vlans-Runs port (ip ∷ ips) s = elim (Bool-cases (ip.vlan == 0)) [
    | inl z ↦ rw z (filter_vlans-Runs port ips s)
    | inr nz ↦ rw nz (
        Runs-or_minus_one (vlan_filter port ip.vlan ∷ []) (vlans_plan port ips) s _ _
          (Runs-perform (vlan_filter port ip.vlan) s) (filter_vlans-Runs port ips))
  ]
