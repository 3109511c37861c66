-- ===== src/TxQueue/Counting.antt =====
-- Counts of the packets in the queues of src/pkt.c, and what a burst of one leaves.
use native.Mathlib.Decide.{ℕ_discrete}
use natasha.Base.{
  ℕ, zero, suc, ◌+◌, ◌≤◌, ◌<◌, ◌≡◌, ◌≢◌, refl, ◌∙◌, ap, sym, arith, List, [], ◌∷◌, ◌++◌,
}
use natasha.Base.{take, drop, length, count, take-set, count-append}
use natasha.Base.{take-append-drop, ◌==◌, if◌then◌else◌, ◌%◌, ◌^◌}
use natasha.Word.{incr64}
use natasha.Bytes.{update}
use natasha.Platform.{Heap}
use natasha.Core.{Core, TxQueue, Sent, max_queues, pktmbuf_free}
use natasha.TxQueue.{free_notsent, taken, enqueue}
use natasha.TxQueue.Custody.{in_queue, waiting, addresses, disposed, QueueValid, QueuesValid}

waiting_beyond :
    (p : ℕ) (qs : ℕ → TxQueue) (port n : ℕ) (x : TxQueue)
    → n ≤ port
    → waiting p (update qs port x) n ≡ waiting p qs n
unfolding waiting
waiting_beyond p qs port zero x h = refl
waiting_beyond p qs port (suc n) x h = ground (arith, waiting_beyond p qs port n x (omega arith))

pub waiting-update :
    (p : ℕ) (qs : ℕ → TxQueue) (port n : ℕ) (x : TxQueue)
    → port < n
    → waiting p (update qs port x) n + count p (in_queue (qs port))
      ≡ waiting p qs n + count p (in_queue x)
unfolding waiting
waiting-update p qs port zero x h = absurd (omega arith)
waiting-update p qs port (suc n) x h = elim (ℕ_discrete port n) [
  | yes e ↦ ground (arith, waiting_beyond p qs port n x (omega arith))
  | no ne ↦ ground (arith, waiting-update p qs port n x (omega arith))
]

pub count-taken :
    (p port : ℕ) (h : Heap) (ps : List ℕ) (s : List Sent)
    → count p (addresses (taken port h ps ++ s)) ≡ count p ps + count p (addresses s)
count-taken p port h [] s = omega arith
count-taken p port h (x ∷ ps) s = omega (arith, count-taken p port h ps s)

-- What freeing the packets `ps` does, each of them counted.
pub record NotSent (ps : List ℕ) (c c' : Core) : Type 0 where
  pub freed : (q : ℕ) → count q c'.freed ≡ count q ps + count q c.freed
  pub counted : c'.stats.drop_tx_notsent % 2 ^ 64 ≡ (c.stats.drop_tx_notsent + length ps) % 2 ^ 64
  pub sent : c'.sent ≡ c.sent
  pub queues : c'.tx_queues ≡ c.tx_queues
  pub config : c'.app_config ≡ c.app_config

pub free_notsent-NotSent : (ps : List ℕ) (c : Core) → NotSent ps c (free_notsent ps c)
unfolding free_notsent
free_notsent-NotSent [] c = record {
  freed = λ q. omega arith;
  counted = omega arith;
  sent = refl;
  queues = refl;
  config = refl;
}
free_notsent-NotSent (p ∷ ps) c =
    let c1 : Core =
      pktmbuf_free p (record c {
        stats = record c.stats { drop_tx_notsent = incr64 c.stats.drop_tx_notsent };
      }) in
    let rest = free_notsent-NotSent ps c1 in
    record {
      freed = λ q. omega (arith, rest.freed q);
      counted = omega (arith, rest.counted);
      sent = rest.sent;
      queues = rest.queues;
      config = rest.config;
    }

pub count-split : (p n : ℕ) (ps : List ℕ) → count p (take n ps) + count p (drop n ps) ≡ count p ps
count-split p n ps =
    sym (count-append p (take n ps) (drop n ps)) ∙ ap (count p) (take-append-drop n ps)

-- What a burst leaves: an empty queue, and every packet of it taken or freed.
pub record Flushed (port : ℕ) (c c' : Core) : Type 0 where
  pub owners : (p : ℕ) → port < max_queues → disposed p c' ≡ disposed p c
  pub queue : c'.tx_queues ≡ update c.tx_queues port (record (c.tx_queues port) { len = 0 })
  pub config : c'.app_config ≡ c.app_config

-- A flushed queue is valid if its array is whole, and the others are as before.
pub Flushed-QueuesValid :
    (port : ℕ) {c c' : Core}
    → Flushed port c c'
    → length (c.tx_queues port).pkts ≡ 32
    → ((i : ℕ) → i < max_queues → port ≢ i → QueueValid (c.tx_queues i))
    → QueuesValid c'
Flushed-QueuesValid port f whole others i h = rw f.queue (elim (ℕ_discrete port i) [
  | yes same ↦ ground (arith, same)
  | no ne ↦ ground (arith, others i h ne)
])

-- One more packet in a queue with room.
pub count-enqueue :
    (p q : ℕ) (x : TxQueue)
    → QueueValid x
    → count q (in_queue (enqueue p x)) ≡ count q (in_queue x) + (if p == q then 1 else 0)
unfolding enqueue
count-enqueue p q x v =
    let len : (x.len + 1) % 2 ^ 16 ≡ suc x.len = omega arith in
    let room : x.len < length x.pkts = omega arith in
    rw (len, take-set x.len x.pkts p room)
      (omega (arith, count-append q (take x.len x.pkts) (p ∷ [])))
