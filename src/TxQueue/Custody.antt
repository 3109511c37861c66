-- ===== src/TxQueue/Custody.antt =====
-- Where packets are: freed, taken by a device, or waiting in a queue, and steps that change it.
use natasha.Base.{ℕ, zero, suc, ◌+◌, ◌<◌, ◌≡◌, refl, ◌∙◌, ap, arith, List}
use natasha.Base.{map, take, length, count}
use natasha.Base.{true, false, ℤ, pos, negsuc, is_neg}
use natasha.Base.{◌==◌, if◌then◌else◌}
use natasha.Core.{Core, TxQueue, Sent, max_queues, pktmbuf_free}

abbrev pub in_queue : TxQueue → List ℕ
in_queue q = take q.len q.pkts

-- how often the packet `p` stands in the queues of the first `n` ports
unfoldable pub waiting : ℕ → (ℕ → TxQueue) → ℕ → ℕ
waiting p qs zero = 0
waiting p qs (suc n) = waiting p qs n + count p (in_queue (qs n))

abbrev pub addresses : List Sent → List ℕ
addresses = map (λ s. s.pkt)

-- How often the packet `p` was freed, taken by a device or queued for one.
abbrev pub disposed : ℕ → Core → ℕ
disposed p c = count p c.freed + (count p (addresses c.sent) + waiting p c.tx_queues max_queues)

-- No queue is full, and every array has its 32 entries.
abbrev pub QueueValid : TxQueue → Type 0
QueueValid q = (length q.pkts ≡ 32) × (q.len < 32)

abbrev pub QueuesValid : Core → Type 0
QueuesValid c = (port : ℕ) → port < max_queues → QueueValid (c.tx_queues port)

-- From `c` to `c'` the packet `p` was disposed of `k` times, and no other packet was touched.
pub record Disposes (p k : ℕ) (c c' : Core) : Type 0 where
  pub owners : (q : ℕ) → disposed q c' ≡ disposed q c + (if p == q then k else 0)
  pub valid : QueuesValid c → QueuesValid c'
  pub config : c'.app_config ≡ c.app_config

pub Disposes-refl : (p : ℕ) (c : Core) → Disposes p 0 c c
Disposes-refl p c = record { owners = λ q. ground arith; valid = λ v. v; config = refl }

pub Disposes-trans :
    (p k l : ℕ) {c d f : Core} → Disposes p k c d → Disposes p l d f → Disposes p (k + l) c f
Disposes-trans p k l x y = record {
  owners = λ q. ground (arith, x.owners q, y.owners q);
  valid = λ v. y.valid (x.valid v);
  config = y.config ∙ x.config;
}

-- Steps before which nothing was disposed of.
pub Disposes-later :
    (p k : ℕ) {c d f : Core} → Disposes p 0 c d → Disposes p k d f → Disposes p k c f
Disposes-later p k x y = record {
  owners = λ q. ground (arith, x.owners q, y.owners q);
  valid = λ v. y.valid (x.valid v);
  config = y.config ∙ x.config;
}

-- Steps that leave the packets' whereabouts and the configuration alone.
pub Disposes-same :
    (p : ℕ) {c d : Core}
    → d.freed ≡ c.freed
    → d.sent ≡ c.sent
    → d.tx_queues ≡ c.tx_queues
    → d.app_config ≡ c.app_config
    → Disposes p 0 c d
Disposes-same p {c} {d} fr se qu co = record {
  owners = λ q. rw qu (ground (arith, ap (count q) fr, ap (λ s. count q (addresses s)) se));
  valid = λ v i h. rw qu (v i h);
  config = co;
}

pub Disposes-pktmbuf_free : (p : ℕ) (c : Core) → Disposes p 1 c (pktmbuf_free p c)
unfolding pktmbuf_free
Disposes-pktmbuf_free p c = record { owners = λ q. omega arith; valid = λ v. v; config = refl }

-- A handler with the result `r` has disposed of the packet, once, exactly if the result is
-- negative.
pub record Settles (p : ℕ) (c : Core) (r : ℤ × Core) : Type 0 where
  pub custody : Disposes p (if is_neg r.0 then 1 else 0) c r.1

-- A result of a known sign.
pub Settles-keep : (p n : ℕ) {c d : Core} → Disposes p 0 c d → Settles p c (pos n, d)
Settles-keep p n x = record { custody = x }

pub Settles-drop : (p n : ℕ) {c d : Core} → Disposes p 1 c d → Settles p c (negsuc n, d)
Settles-drop p n x = record { custody = x }

-- What a settled result says when its sign is known.
pub Settles-failed :
    (p : ℕ) {c : Core} {r : ℤ × Core} → Settles p c r → is_neg r.0 ≡ true → Disposes p 1 c r.1
Settles-failed p s h = rw h at s.custody

pub Settles-done :
    (p : ℕ) {c : Core} {r : ℤ × Core} → Settles p c r → is_neg r.0 ≡ false → Disposes p 0 c r.1
Settles-done p s h = rw h at s.custody

-- A handler that goes on after steps that left the packet with the program.
pub Settles-after :
    (p : ℕ) {c d : Core} {r : ℤ × Core} → Disposes p 0 c d → Settles p d r → Settles p c r
Settles-after p {r = (pos n, f)} x s = record { custody = Disposes-trans p 0 0 x s.custody }
Settles-after p {r = (negsuc n, f)} x s = record { custody = Disposes-trans p 0 1 x s.custody }
