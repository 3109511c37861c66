-- ===== src/Dispatch/Ownership.antt =====
-- Who has a packet after `dispatch_packet` of src/core.c.
use natasha.Base.{
  ℕ, ◌+◌, ◌≤◌, ◌<◌, ◌≡◌, refl, sym, ap, ◌∙◌, subst, List, [], ◌∷◌, count, arith, ℤ, pos, negsuc,
  is_neg, true, false,
}
use natasha.Base.{Bool, ◌==◌, if◌then◌else◌, bit_and}
use natasha.Word.{bswap16}
use natasha.Platform.{Platform}
use natasha.Packet.{get16, ether_type}
use natasha.Core.{Core, max_queues, pktmbuf_free, bytes_of}
use natasha.TxQueue.Custody.{
  Disposes, Disposes-refl, Disposes-trans, Disposes-later, Disposes-same, Disposes-pktmbuf_free,
  QueuesValid, disposed,
}
use natasha.Config.{AppConfig}
use natasha.Parse.{Content, build_content}
use natasha.NatRewrite.Guard.{IsBoolean}
use natasha.Rules.Ownership.{InRange}
use natasha.Rules.Ending.{ends, build_content-IsBreaking}
use natasha.Ipv4.Ownership.{
  Handled, refused, took, Handled-if, refuse, Ready, Ready-after, ipv4_handle-Handled,
  arp_handle-Handled,
}
use natasha.Dispatch.{
  handle_type, dispatch_packet, dispatch_all, count_bad_l3, count_bad_l4, count_unhandled,
  ether_type_ipv4, ether_type_arp,
}

-- The packet was disposed of at most once, and once if `P` holds.
pub record Done (p : ℕ) (P : Type 0) (c d : Core) : Type 0 where
  pub times : ℕ
  pub at_most_once : times ≤ 1
  pub once : P → times ≡ 1
  pub custody : Disposes p times c d

module _ (e : Platform) (boolean : IsBoolean e) (p port : ℕ) (room : port < max_queues)
    (P : Type 0) where
  handle_type-Handled : (c : Core) → Ready e p port P c → Handled p P c (handle_type e p port c)
  unfolding handle_type
  handle_type-Handled c ready =
      Handled-if p P c (get16 (bytes_of p c) ether_type == bswap16 ether_type_ipv4) _ _
        (ipv4_handle-Handled e boolean p port room P c ready)
        (Handled-if p P c (get16 (bytes_of p c) ether_type == bswap16 ether_type_arp) _ _
          (arp_handle-Handled e p port room P c ready.valid) (refuse p P c))

  free_refused :
      (c : Core) (r : ℤ × Core)
      → Handled p P c r
      → Done p P c (if is_neg r.0 then pktmbuf_free p (count_unhandled r.1) else r.1)
  unfolding count_unhandled
  free_refused c r (refused n d x) = record {
    times = 1;
    at_most_once = omega arith;
    once = λ _. refl;
    custody =
        Disposes-later p 1 (Disposes-trans p 0 0 x (Disposes-same p refl refl refl refl))
          (Disposes-pktmbuf_free p _);
  }
  free_refused c r (took n k d h w x) = record {
    times = k;
    at_most_once = h;
    once = w;
    custody = x;
  }

  Done-if :
      (c : Core) (b : Bool) (x y : ℤ × Core)
      → Done p P c x.1
      → Done p P c y.1
      → Done p P c (if b then x else y).1
  Done-if c true x y h k = h
  Done-if c false x y h k = k

  Done-later : {c d f : Core} → Disposes p 0 c d → Done p P d f → Done p P c f
  Done-later x y = record {
    times = y.times;
    at_most_once = y.at_most_once;
    once = y.once;
    custody = Disposes-later p y.times x y.custody;
  }

  Done-free : {c d : Core} → Disposes p 0 c d → Done p P c (pktmbuf_free p d)
  Done-free {d = d} x = record {
    times = 1;
    at_most_once = omega arith;
    once = λ _. refl;
    custody = Disposes-later p 1 x (Disposes-pktmbuf_free p d);
  }

  counted : (b : Bool) (c : Core) → Disposes p 0 c (if b then count_bad_l4 c else c)
  unfolding count_bad_l4
  counted true c = Disposes-same p refl refl refl refl
  counted false c = Disposes-refl p c

  end_status :
      (c : Core) (r : ℤ × Core)
      → Done p P c (if is_neg r.0 then pktmbuf_free p (count_unhandled r.1) else r.1)
      → Done p P c
          (if◌then◌else◌ {A = ℤ × Core}
            (is_neg r.0)
            (pos 0, pktmbuf_free p (count_unhandled r.1))
            (pos 0, r.1)).1
  end_status c (pos n, d) h = h
  end_status c (negsuc n, d) h = h

  dispatch_packet-Done : (c : Core) → Ready e p port P c → Done p P c (dispatch_packet e p port c).1
  unfolding dispatch_packet
  dispatch_packet-Done c ready =
      let flags = (c.heap p).ol_flags in
      let bad_l4 = bit_and flags e.pkt_rx_l4_cksum_mask == e.pkt_rx_l4_cksum_bad in
      let c1 = if bad_l4 then count_bad_l4 c else c in
      let start = counted bad_l4 c in
      let ready1 = Ready-after 0 p start ready in
      Done-if c (bit_and flags e.pkt_rx_ip_cksum_mask == e.pkt_rx_ip_cksum_bad) _ _
        (unfold count_bad_l3 in Done-free (Disposes-same p refl refl refl refl))
        (Done-later start (
          end_status c1 (handle_type e p port c1)
            (free_refused c1 (handle_type e p port c1) (handle_type-Handled c1 ready1))))

module _ (e : Platform) (boolean : IsBoolean e) where
  -- Where `unlikely` is a Boolean, a packet from a port below 16 is freed, queued or handed to a
  -- device at most once while it is dispatched, and no other packet is, whatever the rules do, if
  -- they name ports below 16 only and the queues are in order, which they then stay.
  pub dispatch_packet_never_twice :
      (p port : ℕ) (c : Core)
      → port < max_queues
      → InRange c.app_config.rules
      → QueuesValid c
      → QueuesValid (dispatch_packet e p port c).1
        × ((q : ℕ)
            → (disposed q c ≤ disposed q (dispatch_packet e p port c).1)
              × (disposed q (dispatch_packet e p port c).1
                  ≤ disposed q c + (if p == q then 1 else 0)))
  dispatch_packet_never_twice p port c room range valid =
      let done =
        dispatch_packet-Done e boolean p port room ⊥ c
          (record { valid = valid; range = range; breaks = λ h. absurd h }) in
      (
        done.custody.valid valid,
        λ q. (
          ground (arith, done.custody.owners q),
          ground (arith, done.custody.owners q, done.at_most_once),
        ),
      )

  -- The rules of the configuration are those of a file that drops or sends on every path.
  pub record Serves (c : Core) : Type 0 where
    pub source : Content
    pub loaded : c.app_config.rules ≡ build_content source
    pub ending : ends source ≡ true
    pub range : InRange c.app_config.rules
    pub valid : QueuesValid c

  pub dispatch_packet-Disposes :
      (p port : ℕ) (c : Core)
      → port < max_queues
      → Serves c
      → Disposes p 1 c (dispatch_packet e p port c).1
  dispatch_packet-Disposes p port c room s =
      let done = dispatch_packet-Done e boolean p port room Unit c (record {
        valid = s.valid;
        range = s.range;
        breaks = λ _. rw s.loaded (build_content-IsBreaking e p port s.source s.ending);
      }) in
      rw (done.once tt) at done.custody

  pub Serves-after : {c d : Core} (p k : ℕ) → Disposes p k c d → Serves c → Serves d
  Serves-after p k x s = record {
    source = s.source;
    loaded = ap (λ (a : AppConfig). a.rules) x.config ∙ s.loaded;
    ending = s.ending;
    range = subst (λ (a : AppConfig). InRange a.rules) (sym x.config) s.range;
    valid = x.valid s.valid;
  }

  -- Where `unlikely` is a Boolean, for a burst from a port below 16, with queues in order and the
  -- tree of rules of a file that drops or sends on every path and names ports below 16 only: the
  -- times that a packet was freed, taken by a device or stands in a queue grow by exactly the
  -- times that it stands in the burst.
  pub dispatch_all_owners :
      (port : ℕ) (ps : List ℕ) (c : Core) (q : ℕ)
      → port < max_queues
      → Serves c
      → disposed q (dispatch_all e port ps c) ≡ disposed q c + count q ps
  unfolding dispatch_all
  dispatch_all_owners port [] c q room s = omega arith
  dispatch_all_owners port (p ∷ ps) c q room s =
      let x = dispatch_packet-Disposes p port c room s in
      ground (
        arith,
        x.owners q,
        dispatch_all_owners port ps (dispatch_packet e p port c).1 q room (Serves-after p 1 x s),
      )
