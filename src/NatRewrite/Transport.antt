-- ===== src/NatRewrite/Transport.antt =====
-- The TCP and UDP checksums of a packet that `action_nat_rewrite` of src/action_nat.c translates.
use natasha.Base.{
  ℕ, ◌≤◌, ◌<◌, ◌≡◌, ◌⊎◌, inl, inr, refl, sym, ap, ◌∙◌, subst, arith, Bool, false, ◌==◌, ◌||◌,
  Bool-cases, is_neg,
}
use natasha.Bytes.{Bytes, IsBytes, load-lt, load_ext}
use natasha.Platform.{Platform, Mbuf}
use natasha.Packet.{get16, get32, next_proto_id, tcp_cksum, dgram_cksum, is_frag, is_first_frag}
use natasha.Config.{RewriteField, ipv4_src_addr, ipv4_dst_addr}
use natasha.Core.{Core}
use natasha.NatRewrite.{
  l4_proto, ipproto_icmp, ipproto_tcp, ipproto_udp, ipproto_udplite, action_nat_rewrite,
}
use natasha.NatRewrite.SameHeaders.{update_l4-SameHeaders}
use natasha.NatRewrite.Header.{outer_field}
use natasha.NatRewrite.Frame.{is_frag_ext, is_first_frag_ext, rewritten_head}
use natasha.NatRewrite.Switch.{
  header_rewritten, header_rewritten-IsBytes, header_rewritten_tail, switched, rewrite-switched,
}
use natasha.NatRewrite.Cases.{
  SameData, Maintains, Carries, Carries-from, update_l4_tcp, update_l4_udp,
}

outer_field_bounds : (f : RewriteField) → (26 ≤ outer_field f) × (outer_field f ≤ 30)
outer_field_bounds ipv4_src_addr = (omega arith, omega arith)
outer_field_bounds ipv4_dst_addr = (omega arith, omega arith)

no_icmp :
    (b : Bytes) (proto : ℕ)
    → b next_proto_id ≡ proto
    → (proto == ipproto_icmp) ≡ false
    → (l4_proto b == ipproto_icmp) ≡ false
unfolding l4_proto
no_icmp b proto h other = elim (Bool-cases (is_frag b)) [
  | inl frag ↦ rw frag refl
  | inr whole ↦ rw (whole, h) other
]

header_rewritten_head :
    (f : RewriteField) (v i : ℕ) (b : Bytes) → i < 24 → header_rewritten (outer_field f) v b i ≡ b i
header_rewritten_head f v i b h =
    rewritten_head b (outer_field f) (get32 b (outer_field f)) v i (outer_field_bounds f).0 h

module _ (e : Platform) where
  -- What the switch makes of the packet with its header rewritten, as a result of the action.
  Carries-through :
      (f : RewriteField) (v at flag : ℕ) (keeps first : Bool) (m m' : Mbuf)
      → 34 ≤ at
      → m' ≡ switched e (outer_field f) v m
      → (let b = header_rewritten (outer_field f) v m.bytes in
          Carries keeps first at flag
            (get32 m.bytes (outer_field f))
            (get32 b (outer_field f))
            (record m { bytes = b })
            (switched e (outer_field f) v m))
      → Carries keeps first at flag
          (get32 m.bytes (outer_field f))
          (get32 m'.bytes (outer_field f))
          m
          m'
  Carries-through f v at flag keeps first m m' far same carries =
      let field = outer_field f in
      let old = get32 m.bytes field in
      let b = header_rewritten field v m.bytes in
      let (low, high) = outer_field_bounds f in
      let new : get32 (switched e field v m).bytes field ≡ get32 b field =
        load_ext _ b field 4 (λ i lo hi.
          update_l4-SameHeaders e old (get32 b field) (record m { bytes = b }) i (omega arith)) in
      subst (λ (x : Mbuf). Carries keeps first at flag old (get32 x.bytes field) m x) (sym same)
        (subst (λ n. Carries keeps first at flag old n m (switched e field v m)) (sym new)
          (Carries-from keeps first at flag old (get32 b field) m (switched e field v m) b far
            (λ i h. header_rewritten_tail field v i m.bytes high h) carries))

  -- A translation of a TCP packet whose bytes are below 256, with a result that is not negative,
  -- changes no byte behind the IPv4 header but those of the TCP checksum. The checksum of a fragment
  -- with an offset stays as it is; that of the first of several fragments stays right, modulo 65535,
  -- for the address that the header now has if it was right for the one before; neither has its
  -- flags changed. The checksum of a packet that is no fragment is set to 0 and left to the device
  -- by its flag.
  pub action_nat_rewrite_tcp :
      (p : ℕ) (f : RewriteField) (c : Core)
      → let m = c.heap p in
        let (ret, c') = action_nat_rewrite e p f c in
        let m' = c'.heap p in
        IsBytes m.bytes
        → m.bytes next_proto_id ≡ ipproto_tcp
        → is_neg ret ≡ false
        → SameData tcp_cksum m m'
          × Maintains
              (is_frag m.bytes)
              (is_first_frag m.bytes)
              tcp_cksum
              e.pkt_tx_tcp_cksum
              (get32 m.bytes (outer_field f))
              (get32 m'.bytes (outer_field f))
              m
              m'
  action_nat_rewrite_tcp p f c wb tcp ok =
      let m = c.heap p in
      let field = outer_field f in
      let (v, same) = rewrite-switched e p f c (no_icmp m.bytes ipproto_tcp tcp refl) ok in
      let b = header_rewritten field v m.bytes in
      let wb1 = header_rewritten-IsBytes field v m.bytes wb in
      let head = λ (i : ℕ) (h : i < 24). header_rewritten_head f v i m.bytes h in
      Carries-through f v tcp_cksum e.pkt_tx_tcp_cksum (is_frag m.bytes) (is_first_frag m.bytes) m _
        (omega arith) same
        (update_l4_tcp e (get32 m.bytes field) (get32 b field) (load-lt m.bytes field 4 wb)
          (load-lt b field 4 wb1) (record m { bytes = b }) wb1 (is_frag m.bytes)
          (is_first_frag m.bytes) (is_frag_ext m.bytes b head) (is_first_frag_ext m.bytes b head)
          (head 23 (omega arith) ∙ tcp))

  -- A translation of a UDP or UDP-Lite packet whose bytes are below 256, with a result that is not
  -- negative, changes no byte behind the IPv4 header but those of the checksum. The checksum of a
  -- fragment with an offset stays as it is, and so does one that is 0; any other of the first of
  -- several fragments stays right, modulo 65535, for the address that the header now has if it was
  -- right for the one before; none of these has its flags changed. Any other checksum of a packet
  -- that is no fragment is set to 0 and left to the device by its flag.
  pub action_nat_rewrite_udp :
      (p : ℕ) (f : RewriteField) (c : Core)
      → let m = c.heap p in
        let (ret, c') = action_nat_rewrite e p f c in
        let m' = c'.heap p in
        IsBytes m.bytes
        → (m.bytes next_proto_id ≡ ipproto_udp) ⊎ (m.bytes next_proto_id ≡ ipproto_udplite)
        → is_neg ret ≡ false
        → SameData dgram_cksum m m'
          × Maintains
              (is_frag m.bytes || (get16 m.bytes dgram_cksum == 0))
              (is_first_frag m.bytes)
              dgram_cksum
              e.pkt_tx_udp_cksum
              (get32 m.bytes (outer_field f))
              (get32 m'.bytes (outer_field f))
              m
              m'
  action_nat_rewrite_udp p f c wb udp ok =
      let m = c.heap p in
      let field = outer_field f in
      let (v, same) = rewrite-switched e p f c (other udp) ok in
      let b = header_rewritten field v m.bytes in
      let wb1 = header_rewritten-IsBytes field v m.bytes wb in
      let head = λ (i : ℕ) (h : i < 24). header_rewritten_head f v i m.bytes h in
      let cksum : get16 b dgram_cksum ≡ get16 m.bytes dgram_cksum =
        load_ext b m.bytes dgram_cksum 2 (λ i lo hi.
          header_rewritten_tail field v i m.bytes (outer_field_bounds f).1 (omega arith)) in
      let missing = get16 m.bytes dgram_cksum == 0 in
      Carries-through f v dgram_cksum e.pkt_tx_udp_cksum (is_frag m.bytes || missing)
        (is_first_frag m.bytes) m _ (omega arith) same
        (update_l4_udp e (get32 m.bytes field) (get32 b field) (load-lt m.bytes field 4 wb)
          (load-lt b field 4 wb1) (record m { bytes = b }) wb1 (is_frag m.bytes) missing
          (is_first_frag m.bytes) (is_frag_ext m.bytes b head) (ap (λ n. n == 0) cksum)
          (is_first_frag_ext m.bytes b head) (kind (head 23 (omega arith)) udp))
    where
      other :
          ((c.heap p).bytes next_proto_id ≡ ipproto_udp)
            ⊎ ((c.heap p).bytes next_proto_id ≡ ipproto_udplite)
          → (l4_proto (c.heap p).bytes == ipproto_icmp) ≡ false
      other (inl h) = no_icmp (c.heap p).bytes ipproto_udp h refl
      other (inr h) = no_icmp (c.heap p).bytes ipproto_udplite h refl

      kind :
          {n q : ℕ}
          → n ≡ q
          → (q ≡ ipproto_udp) ⊎ (q ≡ ipproto_udplite)
          → (n ≡ ipproto_udp) ⊎ (n ≡ ipproto_udplite)
      kind h (inl k) = inl (h ∙ k)
      kind h (inr k) = inr (h ∙ k)
