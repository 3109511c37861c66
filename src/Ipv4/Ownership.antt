-- ===== src/Ipv4/Ownership.antt =====
-- Who has the packet after the handlers of src/ipv4.c and src/arp.c.
use natasha.Base.{
  ℕ, ◌≤◌, ◌<◌, ◌≡◌, refl, sym, subst, arith, ℤ, pos, negsuc, minus_one, is_neg, true, false,
}
use natasha.Base.{Bool, ◌==◌, if◌then◌else◌}
use natasha.Word.{bswap32, bswap16}
use natasha.Bytes.{Bytes}
use natasha.Platform.{Platform}
use natasha.Packet.{get32, get16, icmp_type, dst_addr, vlan_id, next_proto_id, arp_op, arp_tip}
use natasha.Config.{AppConfig, Node, null}
use natasha.Core.{Core, max_queues, pktmbuf_free, put_bytes, bytes_of}
use natasha.TxQueue.{tx_send}
use natasha.TxQueue.Custody.{
  Disposes, Disposes-refl, Disposes-trans, Disposes-later, Disposes-same, Disposes-pktmbuf_free,
  QueuesValid,
}
use natasha.TxQueue.Ownership.{tx_send-Disposes}
use natasha.Ports.{is_natasha_ip, is_natasha_port_ip}
use natasha.NatRewrite.{ipproto_icmp}
use natasha.NatRewrite.Guard.{IsBoolean}
use natasha.Rules.{process_rules}
use natasha.Rules.Ownership.{InRange, process_rules-Settles}
use natasha.Rules.Ending.{IsBreaking}
use natasha.Arp.{arp_request, arp_handle, forge_reply, arp_op_request}
use natasha.Ipv4.{
  echo_reply, icmp_echo, icmp_dispatch, count_unknown_icmp, icmp_answer, apply_rules, ipv4_handle,
  fix_nexus9000_padding_bug, icmp_echo_request,
}

-- A handler either refuses the packet with a negative result and leaves it to its caller, or it
-- has taken charge of it: then it was disposed of at most once, and once if `P` holds.
pub data Handled (p : ℕ) (P : Type 0) (c : Core) : ℤ × Core → Type 0 where
  refused : (n : ℕ) (d : Core) → Disposes p 0 c d → Handled p P c (negsuc n, d)
  took : (n k : ℕ) (d : Core) → k ≤ 1 → (P → k ≡ 1) → Disposes p k c d → Handled p P c (pos n, d)

pub Handled-after :
    (p : ℕ) {P : Type 0} {c d : Core} {r : ℤ × Core}
    → Disposes p 0 c d
    → Handled p P d r
    → Handled p P c r
Handled-after p x (refused n f y) = refused n f (Disposes-trans p 0 0 x y)
Handled-after p x (took n k f h w y) = took n k f h w (Disposes-later p k x y)

-- A test between two handlers.
pub Handled-if :
    (p : ℕ) (P : Type 0) (c : Core) (b : Bool) (x y : ℤ × Core)
    → Handled p P c x
    → Handled p P c y
    → Handled p P c (if b then x else y)
Handled-if p P c true x y h k = h
Handled-if p P c false x y h k = k

pub refuse : (p : ℕ) (P : Type 0) (c : Core) → Handled p P c (minus_one, c)
refuse p P c = refused 0 c (Disposes-refl p c)

-- The packet was disposed of.
disposed_once : (p n : ℕ) (P : Type 0) {c d : Core} → Disposes p 1 c d → Handled p P c (pos n, d)
disposed_once p n P {d = d} x = took n 1 d (omega arith) (λ _. refl) x

written : (p : ℕ) (b : Bytes) (c : Core) → Disposes p 0 c (put_bytes p b c)
written p b c = Disposes-same p refl refl refl refl

module _ (e : Platform) (p port : ℕ) (room : port < max_queues) (P : Type 0) where
  send-Handled :
      (b : Bytes) (c : Core) → QueuesValid c → Disposes p 1 c (tx_send e p port (put_bytes p b c)).1
  send-Handled b c v =
      Disposes-later p 1 (written p b c) (tx_send-Disposes e p port (put_bytes p b c) room v)

  pub arp_handle-Handled : (c : Core) → QueuesValid c → Handled p P c (arp_handle e p port c)
  unfolding arp_handle arp_request
  arp_handle-Handled c v =
      Handled-if p P c (bswap16 (get16 (bytes_of p c) arp_op) == arp_op_request) _ _
        (Handled-if p P c
          (is_natasha_port_ip c.app_config (bswap32 (get32 (bytes_of p c) arp_tip))
            (vlan_id (c.heap p)) port)
          _ _ (disposed_once p _ P (send-Handled (forge_reply (e.macaddr port) (bytes_of p c)) c v))
          (refuse p P c))
        (refuse p P c)

  icmp_dispatch-Handled : (c : Core) → QueuesValid c → Handled p P c (icmp_dispatch e p port c)
  unfolding icmp_dispatch icmp_echo
  icmp_dispatch-Handled c v =
      Handled-if p P c (bytes_of p c icmp_type == icmp_echo_request) _ _
        (disposed_once p _ P (send-Handled (echo_reply e (bytes_of p c)) c v)) (refuse p P c)

  drop_unknown :
      (c : Core) (r : ℤ × Core)
      → Handled p P c r
      → Handled p P c
          (if is_neg r.0 then (pos 0, pktmbuf_free p (count_unknown_icmp e r.1)) else (pos 0, r.1))
  unfolding count_unknown_icmp
  drop_unknown c r (refused n d x) = disposed_once p 0 P (
      Disposes-later p 1 (Disposes-trans p 0 0 x (Disposes-same p refl refl refl refl))
        (Disposes-pktmbuf_free p _))
  drop_unknown c r (took n k d h w x) = took 0 k d h w x

  icmp_answer-Handled : (c : Core) → QueuesValid c → Handled p P c (icmp_answer e p port c)
  unfolding icmp_answer
  icmp_answer-Handled c v =
      Handled-if p P c
        (is_natasha_ip e c.app_config (bswap32 (get32 (bytes_of p c) dst_addr))
          (vlan_id (c.heap p)))
        _ _ (drop_unknown c (icmp_dispatch e p port c) (icmp_dispatch-Handled c v)) (refuse p P c)

choose-Handled :
    (p : ℕ) (P : Type 0) (c : Core) (node : Node) (x y : ℤ × Core)
    → Handled p P c x
    → Handled p P c y
    → Handled p P c (elim node [ null ↦ x | _ ↦ y ])
choose-Handled p P c null x y h k = h
choose-Handled p P c _ x y h k = k

-- What the handlers need of a state: valid queues, ports in range, and rules that break if `P`.
pub record Ready (e : Platform) (p port : ℕ) (P : Type 0) (c : Core) : Type 0 where
  pub valid : QueuesValid c
  pub range : InRange c.app_config.rules
  pub breaks : P → IsBreaking e p port c.app_config.rules

pub Ready-after :
    {e : Platform} {p port : ℕ} {P : Type 0} {c d : Core} (k q : ℕ)
    → Disposes q k c d
    → Ready e p port P c
    → Ready e p port P d
Ready-after {e} {p} {port} k q x ready = record {
  valid = x.valid ready.valid;
  range = subst (λ (a : AppConfig). InRange a.rules) (sym x.config) ready.range;
  breaks =
      λ h. subst (λ (a : AppConfig). IsBreaking e p port a.rules) (sym x.config) (ready.breaks h);
}

module _ (e : Platform) (boolean : IsBoolean e) (p port : ℕ) (room : port < max_queues)
    (P : Type 0) where
  apply_rules-Handled : (d : Core) → Ready e p port P d → Handled p P d (apply_rules e p port d)
  unfolding apply_rules
  apply_rules-Handled d ready =
      let node = d.app_config.rules in
      let r = process_rules e node p port d in
      choose-Handled p P d node _ _ (refuse p P d) (
        took 0 (if is_neg r.0 then 1 else 0) r.1 (ground arith) (λ h. rw (ready.breaks h d))
          (process_rules-Settles e boolean p port node d ready.range ready.valid).custody)

  after_answer :
      (d : Core) (r : ℤ × Core)
      → Ready e p port P d
      → Handled p P d r
      → Handled p P d (if is_neg r.0 then apply_rules e p port r.1 else r)
  after_answer d r ready (refused n f x) =
      Handled-after p x (apply_rules-Handled f (Ready-after 0 p x ready))
  after_answer d r ready (took n k f h w x) = took n k f h w x

  -- The rules get the packet unless it was answered as an ICMP message to the program.
  pub ipv4_handle-Handled : (d : Core) → Ready e p port P d → Handled p P d (ipv4_handle e p port d)
  unfolding ipv4_handle
  ipv4_handle-Handled d ready =
      let c1 = put_bytes p (fix_nexus9000_padding_bug (d.heap p)) d in
      let fixed = written p (fix_nexus9000_padding_bug (d.heap p)) d in
      let ready1 = Ready-after 0 p fixed ready in
      Handled-after p fixed (
        Handled-if p P c1 (bytes_of p c1 next_proto_id == ipproto_icmp) _ _
          (after_answer c1 (icmp_answer e p port c1) ready1
            (icmp_answer-Handled e p port room P c1 ready1.valid))
          (apply_rules-Handled c1 ready1))
