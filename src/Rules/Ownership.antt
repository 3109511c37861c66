-- ===== src/Rules/Ownership.antt =====
-- Who has the packet after `process_rules` of src/ipv4.c.
use natasha.Base.{
  ℕ, ◌+◌, ◌<◌, ◌≡◌, is_neg, refl, ℤ, pos, negsuc, true, false, Bool, ◌==◌, if◌then◌else◌,
}
use natasha.Platform.{Platform}
use natasha.Config.{
  Action, print, nat_rewrite, out, src_in_network, dst_in_network, vlan, Node, null, noop, action,
  seq, if_node, cond_node, and_node, or_node,
}
use natasha.Core.{Core, max_queues, put_mbuf}
use natasha.TxQueue.Custody.{
  disposed, Settles, Settles-keep, Settles-drop, Settles-after, Disposes-refl, Disposes-trans,
  Disposes-same, Disposes-pktmbuf_free, QueuesValid,
}
use natasha.TxQueue.Ownership.{tx_send-Disposes}
use natasha.NatRewrite.Guard.{IsBoolean}
use natasha.NatRewrite.Ownership.{action_nat_rewrite-Settles}
use natasha.Cond.{cond_ipv4_src_in_network, cond_ipv4_dst_in_network, cond_vlan}
use natasha.Rules.{action_drop, action_out, out_mbuf, run_action, process_rules, checked, of_bool}

-- Every `out` of the rules names a port that the queues of a core have room for.
abbrev pub ActionInRange : Action → Type 0
ActionInRange (out d) = d.port < max_queues
ActionInRange _ = Unit

abbrev pub InRange : Node → Type 0
InRange null = Unit
InRange (noop l r) = Unit
InRange (action a) = ActionInRange a
InRange (seq l r) = InRange l × InRange r
InRange (if_node l r) = InRange l × InRange r
InRange (cond_node l r) = InRange l × InRange r
InRange (and_node l r) = InRange l × InRange r
InRange (or_node l r) = InRange l × InRange r

-- The queues are valid before, and the handler settles.
abbrev Handles : ℕ → Core → ℤ × Core → Type 0
Handles p c r = QueuesValid c → Settles p c r

-- The macro `X`.
checked-Handles :
    (p : ℕ) {c : Core} (r : ℤ × Core) (k : ℤ → Core → ℤ × Core)
    → Handles p c r
    → ((n : ℕ) (d : Core) → Handles p d (k (pos n) d))
    → Handles p c (checked r k)
checked-Handles p (pos n, d) k h f v =
    let s = (h v).custody in Settles-after p s (f n d (s.valid v))
checked-Handles p (negsuc n, d) k h f v = Settles-drop p 0 (h v).custody

keep : (p n : ℕ) (c : Core) → Handles p c (pos n, c)
keep p n c v = Settles-keep p n (Disposes-refl p c)

keep_bool : (p : ℕ) (b : Bool) (c : Core) → Handles p c (of_bool b, c)
keep_bool p true c = keep p 1 c
keep_bool p false c = keep p 0 c

Handles-if :
    (p : ℕ) (c : Core) (b : Bool) (x y : ℤ × Core)
    → Handles p c x
    → Handles p c y
    → Handles p c (if b then x else y)
Handles-if p c true x y f g = f
Handles-if p c false x y f g = g

module _ (e : Platform) (boolean : IsBoolean e) (p port : ℕ) where
  run_action-Handles :
      (a : Action) (c : Core) → ActionInRange a → Handles p c (run_action e a p port c)
  unfolding run_action action_drop action_out
  run_action-Handles Action.drop c h = λ v.
      Settles-drop p 0
        (Disposes-trans p 0 1 (Disposes-same p refl refl refl refl) (Disposes-pktmbuf_free p _))
  run_action-Handles print c h = keep p 0 c
  run_action-Handles (nat_rewrite field) c h = λ _. action_nat_rewrite-Settles e boolean p field c
  run_action-Handles (out d) c h = λ v. Settles-drop p 0 (
      Disposes-trans p 0 1 (Disposes-same p refl refl refl refl)
        (tx_send-Disposes e p d.port (put_mbuf p (out_mbuf e port d (c.heap p)) c) h v))
  run_action-Handles (src_in_network n) c h =
      keep_bool p (cond_ipv4_src_in_network e (c.heap p) n) c
  run_action-Handles (dst_in_network n) c h =
      keep_bool p (cond_ipv4_dst_in_network e (c.heap p) n) c
  run_action-Handles (vlan n) c h = keep_bool p (cond_vlan (c.heap p) n) c

  -- The walk of any tree whose ports are in range disposes of the packet, once, exactly if it
  -- returns -1; it touches no other packet, and leaves the configuration and the queues in order.
  pub process_rules-Settles :
      (node : Node) (c : Core)
      → InRange node
      → QueuesValid c
      → Settles p c (process_rules e node p port c)
  unfolding process_rules
  process_rules-Settles null c h = keep p 0 c
  process_rules-Settles (noop l r) c h = keep p 0 c
  process_rules-Settles (action a) c h = run_action-Handles a c h
  process_rules-Settles (seq l r) c h =
      checked-Handles p (process_rules e l p port c) _ (process_rules-Settles l c h.0) λ _ d.
        checked-Handles p (process_rules e r p port d) _ (process_rules-Settles r d h.1)
          λ _. keep p 0
  process_rules-Settles (if_node l r) c h =
      checked-Handles p (process_rules e l p port c) _ (process_rules-Settles l c h.0) λ n d.
        Handles-if p d (n == 0) _ _
          (checked-Handles p (process_rules e r p port d) (λ _ d'. (pos 0, d'))
            (process_rules-Settles r d h.1) (λ _. keep p 0))
          (keep p 0 d)
  process_rules-Settles (cond_node l r) c h =
      checked-Handles p (process_rules e l p port c) _ (process_rules-Settles l c h.0) λ n d.
        Handles-if p d (n == 0) _ _ (keep p 0 d) (
          checked-Handles p (process_rules e r p port d) (λ _ d'. (pos 1, d'))
            (process_rules-Settles r d h.1) (λ _. keep p 1))
  process_rules-Settles (and_node l r) c h =
      checked-Handles p (process_rules e l p port c) _ (process_rules-Settles l c h.0) λ n d.
        Handles-if p d (n == 0) _ _ (keep p 0 d) (
          checked-Handles p (process_rules e r p port d) (λ ret d'. (ret, d'))
            (process_rules-Settles r d h.1) (keep p))
  process_rules-Settles (or_node l r) c h =
      checked-Handles p (process_rules e l p port c) _ (process_rules-Settles l c h.0) λ n d.
        Handles-if p d (n == 0) _ _
          (checked-Handles p (process_rules e r p port d) (λ ret d'. (ret, d'))
            (process_rules-Settles r d h.1) (keep p))
          (keep p 1 d)

  -- Where `unlikely` is a Boolean, rules that send to ports below 16 only, with queues in order,
  -- free, send or queue their packet once if they return -1, and leave it with the caller otherwise;
  -- no other packet is freed, sent or queued, and the queues stay in order.
  pub process_rules_owners :
      (node : Node) (c : Core) (q : ℕ)
      → InRange node
      → QueuesValid c
      → (disposed q (process_rules e node p port c).1
          ≡ disposed q c
            + (if p == q then (if is_neg (process_rules e node p port c).0 then 1 else 0) else 0))
        × QueuesValid (process_rules e node p port c).1
  process_rules_owners node c q range v =
      let x = (process_rules-Settles node c range v).custody in (x.owners q, x.valid v)
