-- ===== src/NatRewrite/SameHeaders.antt =====
-- Parts of `action_nat_rewrite` of src/action_nat.c that leave the Ethernet and the IPv4 header alone.
use natasha.Base.{ℕ, ◌≤◌, ◌<◌, ◌≡◌, refl, ◌∙◌, arith, inl, true, false}
use natasha.Base.{if◌then◌else◌, ◌==◌, ◌||◌, Bool}
use natasha.Bytes.{Bytes, store, store_frame}
use natasha.Platform.{Platform, Mbuf}
use natasha.Packet.{get16, put16, dgram_cksum, is_first_frag}
use natasha.Config.{RewriteField, ipv4_src_addr, ipv4_dst_addr}
use natasha.NatRewrite.{
  update_inner, update_l4, l4_proto, ipproto_tcp, ipproto_udp, ipproto_udplite,
}
use natasha.NatRewrite.Checksums.{rewrite_inner}

-- Buffers with the same Ethernet and IPv4 headers.
abbrev pub SameHeaders : Bytes → Bytes → Type 0
SameHeaders b b' = (i : ℕ) → i < 34 → b' i ≡ b i

pub store-SameHeaders :
    (b b' : Bytes) (at w v : ℕ) → 34 ≤ at → SameHeaders b b' → SameHeaders b (store b' at w v)
store-SameHeaders b b' at w v far same i h = store_frame b' at w v i (inl (omega arith)) ∙ same i h

pub rewrite_inner-SameHeaders :
    (inner : RewriteField) (v : ℕ) (b : Bytes) → SameHeaders b (rewrite_inner inner v b)
unfolding update_inner
rewrite_inner-SameHeaders ipv4_src_addr v b = store-SameHeaders b _ 36 2 _ (omega arith) (
    store-SameHeaders b _ 36 2 _ (omega arith) (
      store-SameHeaders b _ 52 2 _ (omega arith)
        (store-SameHeaders b b 54 4 v (omega arith) (λ i h. refl))))
rewrite_inner-SameHeaders ipv4_dst_addr v b = store-SameHeaders b _ 36 2 _ (omega arith) (
    store-SameHeaders b _ 36 2 _ (omega arith) (
      store-SameHeaders b _ 52 2 _ (omega arith)
        (store-SameHeaders b b 58 4 v (omega arith) (λ i h. refl))))

pub SameHeaders-if :
    (b : Bytes) (test : Bool) (x y : Mbuf)
    → SameHeaders b x.bytes
    → SameHeaders b y.bytes
    → SameHeaders b (if test then x else y).bytes
SameHeaders-if b true x y h k = h
SameHeaders-if b false x y h k = k

pub update_l4-SameHeaders :
    (e : Platform) (old new : ℕ) (m : Mbuf) → SameHeaders m.bytes (update_l4 e old new m).bytes
unfolding update_l4
update_l4-SameHeaders e old new m =
    let proto = l4_proto m.bytes in
    let b = m.bytes in
    let at50 : (v : ℕ) → SameHeaders b (put16 b 50 v) =
      λ v. store-SameHeaders b b 50 2 v (omega arith) (λ i h. refl) in
    let at40 : (v : ℕ) → SameHeaders b (put16 b 40 v) =
      λ v. store-SameHeaders b b 40 2 v (omega arith) (λ i h. refl) in
    SameHeaders-if b (proto == ipproto_tcp) _ _
      (SameHeaders-if b (is_first_frag b) _ _ (at50 _) (at50 0))
      (SameHeaders-if b ((proto == ipproto_udplite) || (proto == ipproto_udp)) _ _
        (SameHeaders-if b (get16 b dgram_cksum == 0) m _ (λ i h. refl)
          (SameHeaders-if b (is_first_frag b) _ _ (at40 _) (at40 0)))
        (λ i h. refl))
