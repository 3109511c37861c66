-- ===== src/Dispatch/Rounds.antt =====
-- Whole bursts and rounds of the worker: `handle_port` and the body of `main_loop`.
use natasha.Base.{
  ℕ, zero, suc, ◌+◌, ◌-◌, ◌≤◌, ◌<◌, ◌≡◌, refl, sym, ap, ◌∙◌, subst, List, [], ◌∷◌, ◌++◌, count,
  count-append, length, arith,
}
use natasha.Base.{if◌then◌else◌, ◌==◌, ==_ne, Bool-cases, inl, inr}
use natasha.Platform.{Platform, Mbuf}
use natasha.Core.{Core, max_queues}
use natasha.Config.{AppConfig}
use natasha.Rules.Ownership.{InRange}
use natasha.TxQueue.{tx_flush}
use natasha.TxQueue.Custody.{
  Disposes, Disposes-refl, Disposes-trans, Disposes-same, disposed, QueuesValid,
}
use natasha.TxQueue.Ownership.{tx_flush-Disposes, tx_flush_len}
use natasha.NatRewrite.Guard.{IsBoolean}
use natasha.Dispatch.{
  dispatch_all, receive, pointers, handle_port, handle_ports, flush_ports, mark_used,
  main_loop_round,
}
use natasha.Dispatch.Ownership.{Serves, dispatch_packet-Disposes}

receive-Disposes :
    (e : Platform) (q : ℕ) (ps : List (ℕ × Mbuf)) (c : Core) → Disposes q 0 c (receive e ps c)
unfolding receive
receive-Disposes e q [] c = Disposes-refl q c
receive-Disposes e q ((p, m) ∷ ps) c =
    Disposes-trans q 0 0 (Disposes-same q refl refl refl refl) (receive-Disposes e q ps _)

pub flush_ports-Disposes :
    (e : Platform) (q port rounds : ℕ) (c : Core)
    → port + rounds ≤ max_queues
    → Disposes q 0 c (flush_ports e port rounds c)
unfolding flush_ports
flush_ports-Disposes e q port zero c h = Disposes-refl q c
flush_ports-Disposes e q port (suc rounds) c h =
    Disposes-trans q 0 0 (tx_flush-Disposes e port q c (omega arith))
      (flush_ports-Disposes e q (port + 1) rounds _ (omega arith))

flush_ports_le :
    (e : Platform) (port rounds i : ℕ) (c : Core)
    → ((flush_ports e port rounds c).tx_queues i).len ≤ (c.tx_queues i).len
unfolding flush_ports
flush_ports_le e port zero i c = omega arith
flush_ports_le e port (suc rounds) i c =
    ground
      (arith, tx_flush_len e port i c, flush_ports_le e (port + 1) rounds i (tx_flush e port c).1)

-- The flushes of consecutive ports leave nothing in the queue of any of them.
pub flush_ports_empty :
    (e : Platform) (port rounds i : ℕ) (c : Core)
    → port ≤ i
    → i < port + rounds
    → ((flush_ports e port rounds c).tx_queues i).len ≡ 0
unfolding flush_ports
flush_ports_empty e port zero i c lo hi = absurd (omega arith)
flush_ports_empty e port (suc rounds) i c lo hi = elim (Bool-cases (port == i)) [
  | inl here ↦
      ground
        (arith, tx_flush_len e port i c, flush_ports_le e (port + 1) rounds i (tx_flush e port c).1)
  | inr later ↦ flush_ports_empty e (port + 1) rounds i _ (ground arith) (omega arith)
]

module _ (e : Platform) where
  -- the packets that the ports deliver in a round
  unfoldable pub received : ℕ → ℕ → Core → List ℕ
  received port zero c = []
  received port (suc rounds) c =
      pointers e (e.rx_burst c.calls port (c.rx_queues port))
      ++ received (port + 1) rounds (handle_port e port c).1

-- From `c` to `d` the packet `q` was disposed of `n` times.
pub record Moves (q n : ℕ) (c d : Core) : Type 0 where
  pub owners : disposed q d ≡ disposed q c + n
  pub valid : QueuesValid c → QueuesValid d
  pub config : d.app_config ≡ c.app_config

pub Moves-Disposes :
    (q p k : ℕ) {c d : Core} → Disposes p k c d → Moves q (if p == q then k else 0) c d
Moves-Disposes q p k x = record { owners = x.owners q; valid = x.valid; config = x.config }

Moves-trans : (q k l : ℕ) {c d f : Core} → Moves q k c d → Moves q l d f → Moves q (k + l) c f
Moves-trans q k l x y = record {
  owners = omega (arith, x.owners, y.owners);
  valid = λ v. y.valid (x.valid v);
  config = y.config ∙ x.config;
}

Moves-eq : (q k l : ℕ) {c d : Core} → k ≡ l → Moves q k c d → Moves q l c d
Moves-eq q k l {c} {d} h = subst (λ n. Moves q n c d) h

module _ (e : Platform) (boolean : IsBoolean e) where
  pub Serves-Moves :
      {c d : Core} (q k : ℕ) → Moves q k c d → Serves e boolean c → Serves e boolean d
  Serves-Moves q k x s = record {
    source = s.source;
    loaded = ap (λ (a : AppConfig). a.rules) x.config ∙ s.loaded;
    ending = s.ending;
    range = subst (λ (a : AppConfig). InRange a.rules) (sym x.config) s.range;
    valid = x.valid s.valid;
  }

  dispatch_all-Moves :
      (q port : ℕ) (ps : List ℕ) (c : Core)
      → port < max_queues
      → Serves e boolean c
      → Moves q (count q ps) c (dispatch_all e port ps c)
  unfolding dispatch_all
  dispatch_all-Moves q port [] c room s = record {
    owners = omega arith;
    valid = λ v. v;
    config = refl;
  }
  dispatch_all-Moves q port (p ∷ ps) c room s =
      let x = Moves-Disposes q p 1 (dispatch_packet-Disposes e boolean p port c room s) in
      Moves-eq q ((if p == q then 1 else 0) + count q ps) _ (ground arith)
        (Moves-trans q _ _ x (dispatch_all-Moves q port ps _ room (Serves-Moves q _ x s)))

  burst-Moves :
      (q port : ℕ) (ps : List (ℕ × Mbuf)) {c d : Core}
      → port < max_queues
      → Serves e boolean c
      → Moves q 0 c d
      → Moves q
          (count q (pointers e ps))
          c
          (if◌then◌else◌ {A = ℕ × Core}
            (length ps == 0)
            (0, d)
            (length ps - 1, dispatch_all e port (pointers e ps) d)).1
  burst-Moves q port [] room s x = x
  burst-Moves q port ((p, m) ∷ ps) {d = d} room s x =
      let tail = dispatch_all-Moves q port (p ∷ pointers e ps) d room (Serves-Moves q 0 x s) in
      rw (==_ne (suc (length ps)) 0 (omega arith))
        (Moves-eq q (0 + count q (p ∷ pointers e ps)) _ (ground arith) (Moves-trans q 0 _ x tail))

  handle_port-Moves :
      (q port : ℕ) (c : Core)
      → port < max_queues
      → Serves e boolean c
      → Moves q
          (count q (pointers e (e.rx_burst c.calls port (c.rx_queues port))))
          c
          (handle_port e port c).1
  unfolding handle_port
  handle_port-Moves q port c room s =
      let ps = e.rx_burst c.calls port (c.rx_queues port) in
      let x : Moves q 0 c (receive e ps (record c { calls = c.calls + 1 })) =
        Moves-eq q _ 0 (ground arith) (
          Moves-Disposes q q 0 (
            Disposes-trans q 0 0 (Disposes-same q refl refl refl refl)
              (receive-Disposes e q ps (record c { calls = c.calls + 1 })))) in
      burst-Moves q port ps room s x

  pub handle_ports-Moves :
      (q port rounds : ℕ) (c : Core)
      → port + rounds ≤ max_queues
      → Serves e boolean c
      → Moves q (count q (received e port rounds c)) c (handle_ports e port rounds c)
  unfolding handle_ports received
  handle_ports-Moves q port zero c room s = record {
    owners = omega arith;
    valid = λ v. v;
    config = refl;
  }
  handle_ports-Moves q port (suc rounds) c room s =
      let x = handle_port-Moves q port c (omega arith) s in
      Moves-eq q _ _
        (sym (count-append q (pointers e (e.rx_burst c.calls port (c.rx_queues port))) _))
        (Moves-trans q _ _ x
          (handle_ports-Moves q (port + 1) rounds _ (omega arith) (Serves-Moves q _ x s)))

  pub used-Serves : (c : Core) → Serves e boolean c → Serves e boolean (mark_used e c)
  unfolding mark_used
  used-Serves c s = record {
    source = s.source;
    loaded = s.loaded;
    ending = s.ending;
    range = s.range;
    valid = s.valid;
  }

  -- Where `unlikely` is a Boolean, in one round of the main loop, on at most 16 ports, with queues
  -- in order and the tree of rules of a file that drops or sends on every path and names ports
  -- below 16 only: the times that a packet was freed, taken by a device or stands in a queue grow
  -- by exactly the times that the devices delivered it in this round.
  pub main_loop_round_owners :
      (c : Core) (q : ℕ)
      → e.eth_dev_count ≤ max_queues
      → Serves e boolean c
      → disposed q (main_loop_round e c)
        ≡ disposed q c + count q (received e 0 e.eth_dev_count (mark_used e c))
  unfolding main_loop_round mark_used
  main_loop_round_owners c q ports s =
      let x =
        handle_ports-Moves q 0 e.eth_dev_count (mark_used e c) (omega (arith, ports))
          (used-Serves c s) in
      let y =
        flush_ports-Disposes e q 0 e.eth_dev_count
          (handle_ports e 0 e.eth_dev_count (mark_used e c)) (omega (arith, ports)) in
      ground (arith, x.owners, y.owners q)
