-- ===== src/Core.antt =====
-- `struct core` of src/natasha.h with the memory that a worker reads and writes while it handles
-- packets: the packets by address, and a record of where each packet went.
use natasha.Base.{ℕ, List, ◌∷◌, ◌≡◌, refl, ==_refl}
use natasha.Word.{incr64}
use natasha.Bytes.{Bytes, update}
use natasha.Platform.{Mbuf, Heap}
use natasha.Config.{AppConfig}

-- `struct natasha_app_stats`
pub record Stats : Type 0 where
  pub drop_no_rule : ℕ
  pub drop_nat_condition : ℕ
  pub drop_bad_l3_cksum : ℕ
  pub rx_bad_l4_cksum : ℕ
  pub drop_unknown_icmp : ℕ
  pub drop_unhandled_ethertype : ℕ
  pub drop_tx_notsent : ℕ

-- MAX_TX_BURST
abbrev pub max_tx_burst : ℕ
max_tx_burst = 32

-- NATASHA_MAX_QUEUES
abbrev pub max_queues : ℕ
max_queues = 16

-- `struct tx_queue`: an array of 32 packet addresses, of which the first `len` are used
pub record TxQueue : Type 0 where
  pub pkts : List ℕ
  pub id : ℕ
  pub len : ℕ

-- a packet as the device took it
pub record Sent : Type 0 where
  pub pkt : ℕ
  pub port : ℕ
  pub mbuf : Mbuf

pub record Core : Type 0 where
  pub app_config : AppConfig
  pub rx_queues : ℕ → ℕ
  pub tx_queues : ℕ → TxQueue
  pub stats : Stats
  pub id : ℕ
  -- the packets in memory
  pub heap : Heap
  -- the calls of `rte_pktmbuf_free`, the last one first
  pub freed : List ℕ
  -- what the devices took, the last burst first
  pub sent : List Sent
  -- the number of device calls so far
  pub calls : ℕ

-- `rte_pktmbuf_free`
unfoldable pub pktmbuf_free : ℕ → Core → Core
pktmbuf_free p c = record c { freed = p ∷ c.freed }

-- writes to the packet at `p`
abbrev pub put_mbuf : ℕ → Mbuf → Core → Core
put_mbuf p m c = record c { heap = update c.heap p m }

abbrev pub bytes_of : ℕ → Core → Bytes
bytes_of p c = (c.heap p).bytes

abbrev pub put_bytes : ℕ → Bytes → Core → Core
put_bytes p b c = put_mbuf p (record (c.heap p) { bytes = b }) c

unfoldable pub count_no_rule : Core → Core
count_no_rule c = record c { stats = record c.stats { drop_no_rule = incr64 c.stats.drop_no_rule } }

-- A write to a packet is what a later read of it gives.
pub bytes_of-put_mbuf : (p : ℕ) (m : Mbuf) (c : Core) → bytes_of p (put_mbuf p m c) ≡ m.bytes
bytes_of-put_mbuf p m c = rw (bytes_of, put_mbuf, update, ==_refl p) refl
