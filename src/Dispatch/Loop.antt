-- ===== src/Dispatch/Loop.antt =====
-- `main_loop` of src/core.c over many rounds, with the configurations that `app_config_reload_all`
-- of src/config.c may put in place before each.
use natasha.Base.{
  ℕ, ◌+◌, ◌≤◌, ◌<◌, ◌≡◌, refl, arith, true, List, [], ◌∷◌, ◌++◌, count, count-append, Option, none,
  some,
}
use natasha.Platform.{Platform}
use natasha.Config.{AppConfig}
use natasha.Core.{Core, max_queues}
use natasha.Parse.{Content, build_content}
use natasha.Rules.Ending.{ends}
use natasha.Rules.Ownership.{InRange}
use natasha.TxQueue.Custody.{disposed}
use natasha.NatRewrite.Guard.{IsBoolean}
use natasha.Dispatch.{handle_ports, mark_used, main_loop_round}
use natasha.Dispatch.Ownership.{Serves}
use natasha.Dispatch.Rounds.{
  received, Moves-Disposes, Serves-Moves, used-Serves, handle_ports-Moves, flush_ports-Disposes,
  flush_ports_empty, main_loop_round_owners,
}

-- what the master has put in `core->app_config` since the last round, if anything
abbrev pub reconfigured : Option AppConfig → Core → Core
reconfigured none c = c
reconfigured (some config) c = record c { app_config = config }

-- as many rounds as the list is long, until `force_quit` is set
unfoldable pub main_loop : Platform → List (Option AppConfig) → Core → Core
main_loop e [] c = c
main_loop e (config ∷ configs) c = main_loop e configs (main_loop_round e (reconfigured config c))

-- the packets that the devices deliver in these rounds
unfoldable pub delivered : Platform → List (Option AppConfig) → Core → List ℕ
delivered e [] c = []
delivered e (config ∷ configs) c =
    received e 0 e.eth_dev_count (mark_used e (reconfigured config c))
    ++ delivered e configs (main_loop_round e (reconfigured config c))

-- Rules of a file that drop or send on every path and name ports below 16 only.
pub record IsServing (config : AppConfig) : Type 0 where
  pub source : Content
  pub loaded : config.rules ≡ build_content source
  pub ending : ends source ≡ true
  pub range : InRange config.rules

abbrev pub AreServing : List (Option AppConfig) → Type 0
AreServing [] = Unit
AreServing (none ∷ configs) = AreServing configs
AreServing (some config ∷ configs) = IsServing config × AreServing configs

module _ (e : Platform) (boolean : IsBoolean e) (ports : e.eth_dev_count ≤ max_queues) where
  main_loop_round-Serves : (c : Core) → Serves e boolean c → Serves e boolean (main_loop_round e c)
  unfolding main_loop_round
  main_loop_round-Serves c s =
      let s1 = used-Serves e boolean c s in
      let x =
        handle_ports-Moves e boolean 0 0 e.eth_dev_count (mark_used e c) (omega (arith, ports))
          s1 in
      let y =
        flush_ports-Disposes e 0 0 e.eth_dev_count
          (handle_ports e 0 e.eth_dev_count (mark_used e c)) (omega (arith, ports)) in
      Serves-Moves e boolean 0 _ (Moves-Disposes 0 0 0 y) (Serves-Moves e boolean 0 _ x s1)

  reconfigured-Serves :
      (config : AppConfig) (c : Core)
      → IsServing config
      → Serves e boolean c
      → Serves e boolean (reconfigured (some config) c)
  reconfigured-Serves config c i s = record {
    source = i.source;
    loaded = i.loaded;
    ending = i.ending;
    range = i.range;
    valid = s.valid;
  }

  -- one round, then the others
  main_loop-step :
      (config : Option AppConfig) (configs : List (Option AppConfig)) (c : Core) (q : ℕ)
      → Serves e boolean (reconfigured config c)
      → disposed q (reconfigured config c) ≡ disposed q c
      → let d = main_loop_round e (reconfigured config c) in
        disposed q (main_loop e configs d) ≡ disposed q d + count q (delivered e configs d)
        → disposed q (main_loop e (config ∷ configs) c)
          ≡ disposed q c + count q (delivered e (config ∷ configs) c)
  unfolding main_loop delivered
  main_loop-step config configs c q s same later =
      let c' = reconfigured config c in
      let d = main_loop_round e c' in
      let round = main_loop_round_owners e boolean c' q ports s in
      omega (
        arith,
        later,
        round,
        same,
        count-append q (received e 0 e.eth_dev_count (mark_used e c')) (delivered e configs d),
      )

  owners-none :
      (c : Core) (q : ℕ) → disposed q (main_loop e [] c) ≡ disposed q c + count q (delivered e [] c)
  unfolding main_loop delivered
  owners-none c q = omega arith

  owners-main_loop :
      (configs : List (Option AppConfig)) (c : Core) (q : ℕ)
      → AreServing configs
      → Serves e boolean c
      → disposed q (main_loop e configs c) ≡ disposed q c + count q (delivered e configs c)
  owners-main_loop [] c q a s = owners-none c q
  owners-main_loop (none ∷ configs) c q a s =
      main_loop-step none configs c q s refl
        (owners-main_loop configs (main_loop_round e c) q a (main_loop_round-Serves c s))
  owners-main_loop (some config ∷ configs) c q a s =
      let c' = reconfigured (some config) c in
      let s' = reconfigured-Serves config c a.0 s in
      main_loop-step (some config) configs c q s' refl
        (owners-main_loop configs (main_loop_round e c') q a.1 (main_loop_round-Serves c' s'))

  queues_empty :
      (config : Option AppConfig) (configs : List (Option AppConfig)) (c : Core) (port : ℕ)
      → port < e.eth_dev_count
      → ((main_loop e (config ∷ configs) c).tx_queues port).len ≡ 0
  unfolding main_loop main_loop_round
  queues_empty config [] c port h =
      flush_ports_empty e 0 e.eth_dev_count port
        (handle_ports e 0 e.eth_dev_count (mark_used e (reconfigured config c))) (omega arith)
        (omega arith)
  queues_empty config (next ∷ configs) c port h =
      queues_empty next configs (main_loop_round e (reconfigured config c)) port h

  -- Where `unlikely` is a Boolean and there are at most 16 ports, with queues in order, and rules at
  -- the start and in every configuration put in place before a round that come from a file, drop or
  -- send on every path and name ports below 16 only: over any rounds but none, the times that a
  -- packet was freed, taken by a device or stands in a queue grow by exactly the times that the
  -- devices delivered it, and the queues of the ports that there are are empty at the end.
  pub main_loop_owners :
      (config : Option AppConfig) (configs : List (Option AppConfig)) (c : Core)
      → AreServing (config ∷ configs)
      → Serves e boolean c
      → let end = main_loop e (config ∷ configs) c in
        ((q : ℕ) → disposed q end ≡ disposed q c + count q (delivered e (config ∷ configs) c))
        × ((port : ℕ) → port < e.eth_dev_count → (end.tx_queues port).len ≡ 0)
  main_loop_owners config configs c a s = (
    λ q. owners-main_loop (config ∷ configs) c q a s,
    λ port h. queues_empty config configs c port h,
  )
