-- ===== src/NatRewrite/Session.antt =====
-- A packet that leaves and the answer to it: `action_nat_rewrite` of src/action_nat.c with the table
-- that the rules of a file give.
use natasha.Base.{ℕ, ◌^◌, ◌≤◌, ◌<◌, ◌≡◌, refl, sym, ap, ◌∙◌, arith}
use natasha.Base.{true, false, ◌==◌, is_neg, pos, List, [], ◌∷◌, ◌++◌, none, some}
use natasha.Word.{bswap32, bswap32-bswap32, bswap32-lt}
use natasha.Platform.{Platform}
use natasha.Packet.{get32, put32, src_addr, dst_addr}
use natasha.Config.{RewriteField, ipv4_src_addr, ipv4_dst_addr}
use natasha.NatTable.{Table, Allocator, nat_lookup_ip}
use natasha.NatTable.Load.{load_nat_rules, IsDistinct, Translates, load-Translates}
use natasha.Core.{Core, bytes_of, put_bytes, bytes_of-put_mbuf}
use natasha.NatRewrite.{
  lookup_and_rewrite, update_ipv4, l4_proto, ipproto_icmp, action_nat_rewrite,
  action_nat_rewrite_impl,
}
use natasha.NatRewrite.Header.{outer_field, action_nat_rewrite_address}
use natasha.NatRewrite.Frame.{l4_proto_ext, rewritten_head, lookup_and_rewrite_found}

-- A table that translates rules translates each of them.
Translates-at :
    (t : Table) (from to : ℕ) (before after : List (ℕ × ℕ))
    → Translates t (before ++ (from, to) ∷ after)
    → (nat_lookup_ip t from ≡ some (bswap32 to)) × (nat_lookup_ip t to ≡ some (bswap32 from))
Translates-at t from to [] after h = (h.0, h.1)
Translates-at t from to (rule ∷ before) after h = Translates-at t from to before after h.2

IsDistinct-at :
    (from to : ℕ) (before after : List (ℕ × ℕ))
    → IsDistinct (before ++ (from, to) ∷ after)
    → (from < 2 ^ 32) × (to < 2 ^ 32)
IsDistinct-at from to [] after h = (h.0.1, h.1.1)
IsDistinct-at from to (rule ∷ before) after h = IsDistinct-at from to before after h.5

module _ (e : Platform) where
  impl-succeeds :
      (p field v : ℕ) (inner : RewriteField) (c : Core)
      → 26 ≤ field
      → nat_lookup_ip c.app_config.nat_lookup (bswap32 (get32 (bytes_of p c) field)) ≡ some v
      → (l4_proto (bytes_of p c) == ipproto_icmp) ≡ false
      → (action_nat_rewrite_impl e p field inner c).0 ≡ pos 0
  unfolding action_nat_rewrite_impl
  impl-succeeds p field v inner c far found other_proto =
      let b = bytes_of p c in
      let old = get32 b field in
      let d = put_bytes p (put32 b field v) c in
      let looked : lookup_and_rewrite p (bswap32 old) field c ≡ (pos 0, d) =
        lookup_and_rewrite_found p (bswap32 old) field v c found in
      let after : l4_proto (update_ipv4 field old (bytes_of p d)) ≡ l4_proto b =
        l4_proto_ext b (update_ipv4 field old (bytes_of p d)) (λ i h.
          ap (λ b'. update_ipv4 field old b' i)
            (bytes_of-put_mbuf p (record (c.heap p) { bytes = put32 b field v }) c)
          ∙ rewritten_head b field old v i far h) in
      let no_icmp : (l4_proto (update_ipv4 field old (bytes_of p d)) == ipproto_icmp) ≡ false =
        ap (λ q. q == ipproto_icmp) after ∙ other_proto in
      rw (looked, no_icmp) refl

  rewrite-succeeds :
      (p v : ℕ) (f : RewriteField) (c : Core)
      → nat_lookup_ip c.app_config.nat_lookup (bswap32 (get32 (bytes_of p c) (outer_field f)))
        ≡ some v
      → (l4_proto (bytes_of p c) == ipproto_icmp) ≡ false
      → (action_nat_rewrite e p f c).0 ≡ pos 0
  unfolding action_nat_rewrite
  rewrite-succeeds p v ipv4_src_addr c found h =
      impl-succeeds p src_addr v ipv4_dst_addr c (omega arith) found h
  rewrite-succeeds p v ipv4_dst_addr c found h =
      impl-succeeds p dst_addr v ipv4_src_addr c (omega arith) found h

  -- the value of the table for an address in network order, in the place where it stands
  rewrites :
      (p ip value : ℕ) (f : RewriteField) (c : Core)
      → ip < 2 ^ 32
      → nat_lookup_ip c.app_config.nat_lookup ip ≡ some (bswap32 value)
      → get32 (bytes_of p c) (outer_field f) ≡ bswap32 ip
      → (l4_proto (bytes_of p c) == ipproto_icmp) ≡ false
      → let (ret, c') = action_nat_rewrite e p f c in
        (ret ≡ pos 0) × (get32 (bytes_of p c') (outer_field f) ≡ bswap32 value)
  rewrites p ip value f c small found at other_proto =
      let key =
        ap (λ a. nat_lookup_ip c.app_config.nat_lookup (bswap32 a)) at
        ∙ ap (nat_lookup_ip c.app_config.nat_lookup) (bswap32-bswap32 ip small)
        ∙ found in
      let done = rewrite-succeeds p (bswap32 value) f c key other_proto in
      (
        done,
        (action_nat_rewrite_address e p f c (bswap32 value) key (bswap32-lt value)
            (ap is_neg done)).0,
      )

  -- Where every allocation succeeds, with the table that rules give whose addresses are of 32 bits,
  -- not 0 and all different: `nat rewrite ipv4.src_addr` of a packet from the internal address of a
  -- rule, and `nat rewrite ipv4.dst_addr` of a packet to the address that the first then has as its
  -- source, both succeed for packets that are not ICMP or are later fragments; the first packet has
  -- the external address of the rule as its source, and the second the internal one as its target.
  pub session_roundtrip :
      (malloc : Allocator) (from to : ℕ) (before after : List (ℕ × ℕ)) (n p p' : ℕ) (c c' : Core)
      → ((i : ℕ) → malloc i ≡ true)
      → let rules = before ++ (from, to) ∷ after in
        let table = (load_nat_rules malloc none rules n).1 in
        let (ret, out) = action_nat_rewrite e p ipv4_src_addr c in
        let (ret', back) = action_nat_rewrite e p' ipv4_dst_addr c' in
        IsDistinct rules
        → c.app_config.nat_lookup ≡ table
        → c'.app_config.nat_lookup ≡ table
        → get32 (bytes_of p c) src_addr ≡ bswap32 from
        → get32 (bytes_of p' c') dst_addr ≡ get32 (bytes_of p out) src_addr
        → (l4_proto (bytes_of p c) == ipproto_icmp) ≡ false
        → (l4_proto (bytes_of p' c') == ipproto_icmp) ≡ false
        → (ret ≡ pos 0)
          × (get32 (bytes_of p out) src_addr ≡ bswap32 to)
          × (ret' ≡ pos 0)
          × (get32 (bytes_of p' back) dst_addr ≡ get32 (bytes_of p c) src_addr)
  session_roundtrip malloc from to before after n p p' c c' ok distinct same same' source target
        other_proto other_proto' =
      let rules = before ++ (from, to) ∷ after in
      let (there, back) =
        Translates-at _ from to before after (load-Translates malloc ok rules none n distinct).1 in
      let (small, small') = IsDistinct-at from to before after distinct in
      let (ok1, sent) =
        rewrites p from to ipv4_src_addr c small (ap (λ t. nat_lookup_ip t from) same ∙ there)
          source other_proto in
      let (ok2, got) =
        rewrites p' to from ipv4_dst_addr c' small' (ap (λ t. nat_lookup_ip t to) same' ∙ back)
          (target ∙ sent) other_proto' in
      (ok1, sent, ok2, got ∙ sym source)
