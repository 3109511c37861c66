-- ===== src/NatRewrite/Switch.antt =====
-- The packet of `action_nat_rewrite_impl` of src/action_nat.c before and after its switch on the
-- protocol.
use natasha.Base.{ℕ, ◌≤◌, ◌≡◌, refl, ap, ◌∙◌, arith, inr, false, is_neg, ◌==◌, ==_refl}
use natasha.Word.{bswap32}
use natasha.Bytes.{Bytes, IsBytes, store_frame, store-IsBytes}
use natasha.Platform.{Platform, Mbuf}
use natasha.Packet.{get32, put32, src_addr, dst_addr}
use natasha.Config.{RewriteField, ipv4_src_addr, ipv4_dst_addr}
use natasha.Core.{Core, bytes_of, put_mbuf, bytes_of-put_mbuf}
use natasha.NatRewrite.{
  update_ipv4, l4_proto, update_l4, ipproto_icmp, action_nat_rewrite, action_nat_rewrite_impl,
}
use natasha.NatRewrite.Checksums.{nothing, translated, lookup_and_rewrite-Looked}
use natasha.NatRewrite.Frame.{l4_proto_ext, rewritten_head}
use natasha.NatRewrite.Header.{outer_field}

-- the buffer with the value `v` for the address at `field` and the header's checksum for it
abbrev pub header_rewritten : ℕ → ℕ → Bytes → Bytes
header_rewritten field v b = update_ipv4 field (get32 b field) (put32 b field v)

pub header_rewritten-IsBytes :
    (field v : ℕ) (b : Bytes) → IsBytes b → IsBytes (header_rewritten field v b)
unfolding update_ipv4
header_rewritten-IsBytes field v b wb =
    store-IsBytes (put32 b field v) 24 2 _ (store-IsBytes b field 4 v wb)

-- The bytes behind the IPv4 header stay.
pub header_rewritten_tail :
    (field v i : ℕ) (b : Bytes) → field ≤ 30 → 34 ≤ i → header_rewritten field v b i ≡ b i
unfolding update_ipv4
header_rewritten_tail field v i b h far =
    store_frame (put32 b field v) 24 2 _ i (inr (omega arith))
    ∙ store_frame b field 4 v i (inr (omega arith))

heap-put_mbuf : (p : ℕ) (m : Mbuf) (c : Core) → (put_mbuf p m c).heap p ≡ m
heap-put_mbuf p m c = rw (==_refl p) refl

module _ (e : Platform) where
  -- the packet behind the switch, when its header was rewritten
  abbrev pub switched : ℕ → ℕ → Mbuf → Mbuf
  switched field v m =
      let b = header_rewritten field v m.bytes in
      update_l4 e (get32 m.bytes field) (get32 b field) (record m { bytes = b })

  -- A packet that is not ICMP, or is a later fragment, leaves a translation that succeeds with the
  -- address rewritten and through the switch.
  impl-switched :
      (p field : ℕ) (inner : RewriteField) (c : Core)
      → 26 ≤ field
      → (l4_proto (bytes_of p c) == ipproto_icmp) ≡ false
      → is_neg (action_nat_rewrite_impl e p field inner c).0 ≡ false
      → (v : ℕ) × ((action_nat_rewrite_impl e p field inner c).1.heap p
          ≡ switched field v (c.heap p))
  unfolding action_nat_rewrite_impl
  impl-switched p field inner c far other_proto =
      let old = get32 (bytes_of p c) field in
      elim (lookup_and_rewrite-Looked p (bswap32 old) field c) [
        | nothing h ↦ rw h (λ bad. absurd (ground arith))
        | translated v found h ↦
            let b = bytes_of p c in
            let m1 = record (c.heap p) { bytes = put32 b field v } in
            let d = put_mbuf p m1 c in
            let after : l4_proto (update_ipv4 field old (bytes_of p d)) ≡ l4_proto b =
              l4_proto_ext b (update_ipv4 field old (bytes_of p d)) (λ i h.
                ap (λ b'. update_ipv4 field old b' i) (bytes_of-put_mbuf p m1 c)
                ∙ rewritten_head b field old v i far h) in
            let no_icmp : (l4_proto (update_ipv4 field old (bytes_of p d)) == ipproto_icmp)
                ≡ false =
              ap (λ q. q == ipproto_icmp) after ∙ other_proto in
            let through = λ (m : Mbuf).
              update_l4 e old (get32 (update_ipv4 field old m.bytes) field)
                (record m { bytes = update_ipv4 field old m.bytes }) in
            let m2 = record (d.heap p) { bytes = update_ipv4 field old (bytes_of p d) } in
            let d2 = put_mbuf p m2 d in
            rw (h, no_icmp)
              (λ ok. (
                v,
                heap-put_mbuf p _ d2
                    ∙ ap (update_l4 e old (get32 (update_ipv4 field old (bytes_of p d)) field))
                        (heap-put_mbuf p m2 d)
                    ∙ ap through (heap-put_mbuf p m1 c),
              ))
      ]

  pub rewrite-switched :
      (p : ℕ) (f : RewriteField) (c : Core)
      → (l4_proto (bytes_of p c) == ipproto_icmp) ≡ false
      → is_neg (action_nat_rewrite e p f c).0 ≡ false
      → (v : ℕ) × ((action_nat_rewrite e p f c).1.heap p ≡ switched (outer_field f) v (c.heap p))
  unfolding action_nat_rewrite
  rewrite-switched p ipv4_src_addr c h ok =
      impl-switched p src_addr ipv4_dst_addr c (omega arith) h ok
  rewrite-switched p ipv4_dst_addr c h ok =
      impl-switched p dst_addr ipv4_src_addr c (omega arith) h ok
