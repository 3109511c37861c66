-- ===== src/TxQueue/Ownership.antt =====
-- Who has the packets after `tx_flush` and `tx_send` of src/pkt.c.
use native.Mathlib.Decide.{ℕ_discrete}
use natasha.Base.{ℕ, ◌+◌, ◌<◌, ◌≡◌, ◌≢◌, refl, ◌∙◌, ap, arith, ◌++◌}
use natasha.Base.{take, drop, count, length-set}
use natasha.Base.{==_ne, Bool-cases, inl, inr}
use natasha.Base.{◌==◌, if◌then◌else◌, leb}
use natasha.Bytes.{update}
use natasha.Platform.{Platform}
use natasha.Core.{Core, max_queues, put_mbuf}
use natasha.TxQueue.{taken, send_burst, tx_flush, tx_send, enqueue, offload, set_queue}
use natasha.TxQueue.Custody.{in_queue, addresses, disposed, QueuesValid, Disposes}
use natasha.TxQueue.Counting.{
  waiting-update, count-taken, free_notsent-NotSent, count-split, Flushed, Flushed-QueuesValid,
  count-enqueue,
}

module _ (e : Platform) where
  -- the state when the device has taken what it takes
  abbrev after_burst : ℕ → Core → ℕ × Core
  after_burst port c =
      let q = c.tx_queues port in
      let pkts = take q.len q.pkts in
      let h = e.tx_prepare c.calls port q.id pkts c.heap in
      let n = e.tx_burst (c.calls + 1) port q.id pkts h in
      (n, record c { heap = h; sent = taken port h (take n pkts) ++ c.sent; calls = c.calls + 2 })

  send_burst-Flushed : (port : ℕ) (c : Core) → Flushed port c (send_burst e port c).1
  unfolding send_burst
  send_burst-Flushed port c =
      let q = c.tx_queues port in
      let pkts = in_queue q in
      let (n, c') = after_burst port c in
      let same = free_notsent-NotSent (drop n pkts) c' in
      record {
        owners = λ p h. rw same.queues (
            omega (
              arith,
              same.freed p,
              ap (λ s. count p (addresses s)) same.sent,
              count-taken p port c'.heap (take n pkts) c.sent,
              count-split p n pkts,
              waiting-update p c.tx_queues port max_queues (record q { len = 0 }) h,
            ));
        queue = ap (λ qs. update qs port (record q { len = 0 })) same.queues;
        config = same.config;
      }

  -- A flush hands each packet of a port's queue to the device or frees it, once.
  pub tx_flush-Disposes :
      (port p : ℕ) (c : Core) → port < max_queues → Disposes p 0 c (tx_flush e port c).1
  unfolding tx_flush
  tx_flush-Disposes port p c h = elim (Bool-cases ((c.tx_queues port).len == 0)) [
    | inl none ↦ rw none (record { owners = λ q. ground arith; valid = λ v. v; config = refl })
    | inr some ↦ rw some (record {
      owners = λ q. ground (arith, (send_burst-Flushed port c).owners q h);
      valid = λ v.
          Flushed-QueuesValid port (send_burst-Flushed port c) (v port h).0 (λ i hi ne. v i hi);
      config = (send_burst-Flushed port c).config;
    })
  ]

  tx_flush-Flushed :
      (port : ℕ) (c : Core) → (c.tx_queues port).len ≢ 0 → Flushed port c (tx_flush e port c).1
  unfolding tx_flush
  tx_flush-Flushed port c ne = rw (==_ne (c.tx_queues port).len 0 ne) (send_burst-Flushed port c)

  -- the state of `tx_send` before it tests whether the queue is full
  abbrev queued : ℕ → ℕ → Core → Core
  queued p port c =
      set_queue port (enqueue p (c.tx_queues port)) (put_mbuf p (offload e (c.heap p)) c)

  queued_owners :
      (p port q : ℕ) (c : Core)
      → port < max_queues
      → QueuesValid c
      → disposed q (queued p port c) ≡ disposed q c + (if p == q then 1 else 0)
  queued_owners p port q c h v =
      let x = c.tx_queues port in
      omega (
        arith,
        waiting-update q c.tx_queues port max_queues (enqueue p x) h,
        count-enqueue p q x (v port h),
      )

  -- `tx_send` puts its packet, and no other, into the custody of the port: it is queued, taken by
  -- the device or freed, once.
  pub tx_send-Disposes :
      (p port : ℕ) (c : Core)
      → port < max_queues
      → QueuesValid c
      → Disposes p 1 c (tx_send e p port c).1
  unfolding tx_send enqueue
  tx_send-Disposes p port c h v =
      let c1 = queued p port c in
      elim (Bool-cases (leb 32 (enqueue p (c.tx_queues port)).len)) [
        | inl full ↦
            let f = tx_flush-Flushed port c1 (ground arith) in
            rw full (record {
              owners = λ q. f.owners q h ∙ queued_owners p port q c h v;
              valid = λ _.
                  Flushed-QueuesValid port f
                    (ground (
                      arith,
                      v port h,
                      length-set (c.tx_queues port).pkts (c.tx_queues port).len p,
                    ))
                    (λ i hi ne. ground (arith, v i hi));
              config = f.config;
            })
        | inr room ↦ rw room (record {
          owners = λ q. queued_owners p port q c h v;
          valid = λ _ i hi. ground (
            arith,
            v i hi,
            v port h,
            length-set (c.tx_queues port).pkts (c.tx_queues port).len p,
          );
          config = refl;
        })
      ]

  -- A flush empties its queue and no other.
  pub tx_flush_len :
      (port i : ℕ) (c : Core)
      → ((tx_flush e port c).1.tx_queues i).len ≡ (if port == i then 0 else (c.tx_queues i).len)
  unfolding tx_flush
  tx_flush_len port i c = elim (Bool-cases ((c.tx_queues port).len == 0)) [
    | inl none ↦ rw none (elim (ℕ_discrete port i) [
      | yes same ↦ ground (arith, ap (λ n. (c.tx_queues n).len) same)
      | no ne ↦ ground arith
    ])
    | inr some ↦
        rw (some, (send_burst-Flushed port c).queue)
          (elim (ℕ_discrete port i) [ yes same ↦ ground arith | no ne ↦ ground arith ])
  ]

  -- A packet that is sent to a port below 16 of queues in order ends up once in a queue, with the
  -- device or freed, no packet besides it changes its place, and the queues stay in order.
  pub tx_send_owners :
      (p port : ℕ) (c : Core) (q : ℕ)
      → port < max_queues
      → QueuesValid c
      → (disposed q (tx_send e p port c).1 ≡ disposed q c + (if p == q then 1 else 0))
        × QueuesValid (tx_send e p port c).1
  tx_send_owners p port c q h v = let x = tx_send-Disposes p port c h v in (x.owners q, x.valid v)

  -- A flush of a port below 16 loses no packet and disposes of none twice: a packet is freed, with
  -- a device or in a queue as often as before. The queue of the port is empty after it, and the
  -- other queues are as long as before.
  pub tx_flush_owners :
      (port : ℕ) (c : Core) (q i : ℕ)
      → port < max_queues
      → (disposed q (tx_flush e port c).1 ≡ disposed q c)
        × (((tx_flush e port c).1.tx_queues i).len ≡ (if port == i then 0 else (c.tx_queues i).len))
  tx_flush_owners port c q i h =
      (ground (arith, (tx_flush-Disposes port q c h).owners q), tx_flush_len port i c)
