-- ===== src/TxQueue.antt =====
-- `tx_flush` and `tx_send` of src/pkt.c: the burst that waits for each port.
pub mod Counting
pub mod Custody
pub mod Ownership
use natasha.Base.{ℕ, zero, suc, ◌+◌, ◌-◌, List, [], ◌∷◌, ◌++◌, map, take, drop, set, length}
use natasha.Base.{leb, ◌==◌, if◌then◌else◌, bit_or, ◌%◌}
use natasha.Word.{incr64, u16}
use natasha.Bytes.{update}
use natasha.Platform.{Platform, Mbuf, Heap}
use natasha.Packet.{ether_len, ipv4_len}
use natasha.Core.{Core, TxQueue, Stats, Sent, max_tx_burst, pktmbuf_free, put_mbuf}

abbrev pub set_queue : ℕ → TxQueue → Core → Core
set_queue port q c = record c { tx_queues = update c.tx_queues port q }

-- `while (n < queue->len) { drop_tx_notsent++; rte_pktmbuf_free(queue->pkts[n]); n++; }`
unfoldable pub free_notsent : List ℕ → Core → Core
unfolding pktmbuf_free
free_notsent [] c = c
free_notsent (p ∷ ps) c = free_notsent ps (
    pktmbuf_free p
      (record c { stats = record c.stats { drop_tx_notsent = incr64 c.stats.drop_tx_notsent } }))

-- what the device has when it took the packets `ps`
abbrev pub taken : ℕ → Heap → List ℕ → List Sent
taken port h ps = map (λ p. record { pkt = p; port = port; mbuf = h p }) ps

-- `queue->pkts[queue->len] = pkt; queue->len++;`
unfoldable pub enqueue : ℕ → TxQueue → TxQueue
enqueue p q = record q { pkts = set q.pkts q.len p; len = u16 (q.len + 1) }

module _ (e : Platform) where
  -- `rte_eth_tx_prepare` and `rte_eth_tx_burst` on the packets that wait; those that the device
  -- does not take are freed
  unfoldable pub send_burst : ℕ → Core → ℕ × Core
  send_burst port c =
      let q = c.tx_queues port in
      let pkts = take q.len q.pkts in
      let h = e.tx_prepare c.calls port q.id pkts c.heap in
      let n = e.tx_burst (c.calls + 1) port q.id pkts h in
      let c' : Core = record c {
        heap = h;
        sent = taken port h (take n pkts) ++ c.sent;
        calls = c.calls + 2;
      } in
      (n, set_queue port (record q { len = 0 }) (free_notsent (drop n pkts) c'))

  unfoldable pub tx_flush : ℕ → Core → ℕ × Core
  tx_flush port c = if (c.tx_queues port).len == 0 then (0, c) else send_burst port c

  -- the packet as it is queued
  unfoldable pub offload : Mbuf → Mbuf
  offload m = record m {
    ol_flags = if m.vlan_tci == 0 then m.ol_flags else bit_or m.ol_flags e.pkt_tx_vlan_pkt;
    l2_len = ether_len;
    l3_len = ipv4_len;
  }

  unfoldable pub tx_send : ℕ → ℕ → Core → ℕ × Core
  unfolding offload enqueue
  tx_send p port c =
      let q = enqueue p (c.tx_queues port) in
      let c' = set_queue port q (put_mbuf p (offload (c.heap p)) c) in
      if leb max_tx_burst q.len then tx_flush port c' else (0, c')
