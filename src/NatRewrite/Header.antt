-- ===== src/NatRewrite/Header.antt =====
-- The IPv4 header of a translated packet: `action_nat_rewrite` of src/action_nat.c.
use natasha.Base.{ℕ, ◌+◌, ◌%◌, ◌^◌, ◌<◌, ◌≡◌, refl, ◌∙◌, arith, ap, true, false, some, is_neg}
use natasha.Base.{ℤ, pos, if◌then◌else◌, ◌==◌, Bool}
use natasha.Word.{bswap32}
use natasha.Bytes.{Bytes, IsBytes, load_ext, load-store-Apart, load-store_self}
use natasha.Platform.{Platform}
use natasha.Packet.{get32, put32, src_addr, dst_addr, ipv4_header}
use natasha.Config.{RewriteField, ipv4_src_addr, ipv4_dst_addr}
use natasha.NatTable.{nat_lookup_ip}
use natasha.Core.{Core, bytes_of, put_mbuf, bytes_of-put_mbuf}
use natasha.NatRewrite.{
  update_ipv4, icmp_nat_handle, action_nat_rewrite, action_nat_rewrite_impl, update_l4, l4_proto,
  ipproto_icmp,
}
use natasha.NatRewrite.HeaderSum.{word_sum, word_sum_ext}
use natasha.NatRewrite.Sums.{update_ipv4-word_sum}
use natasha.NatRewrite.Checksums.{
  untouched, rewritten, nothing, translated, lookup_and_rewrite-Looked, icmp_nat_handle-Answered,
}
use natasha.NatRewrite.SameHeaders.{SameHeaders, rewrite_inner-SameHeaders, update_l4-SameHeaders}

-- the address that `nat rewrite` translates
abbrev pub outer_field : RewriteField → ℕ
outer_field ipv4_src_addr = src_addr
outer_field ipv4_dst_addr = dst_addr

abbrev pub other : RewriteField → RewriteField
other ipv4_src_addr = ipv4_dst_addr
other ipv4_dst_addr = ipv4_src_addr

-- What the headers are after a translation that succeeds.
record Rewritten (field : ℕ) (c : Core) (b b' : Bytes) : Type 0 where
  value : ℕ
  found : nat_lookup_ip c.app_config.nat_lookup (bswap32 (get32 b field)) ≡ some value
  same : SameHeaders (update_ipv4 field (get32 b field) (put32 b field value)) b'

-- Both addresses of the header after the store of one and the update of the checksum.
fields :
    (f : RewriteField) (b : Bytes) (v : ℕ)
    → v < 2 ^ 32
    → (get32
          (update_ipv4 (outer_field f) (get32 b (outer_field f)) (put32 b (outer_field f) v))
          (outer_field f)
        ≡ v)
      × (get32
            (update_ipv4 (outer_field f) (get32 b (outer_field f)) (put32 b (outer_field f) v))
            (outer_field (other f))
          ≡ get32 b (outer_field (other f)))
unfolding update_ipv4
fields ipv4_src_addr b v h = (
  load-store-Apart (put32 b 26 v) 24 2 _ 26 4 (omega arith) ∙ load-store_self b 26 4 v h,
  load-store-Apart (put32 b 26 v) 24 2 _ 30 4 (omega arith)
      ∙ load-store-Apart b 26 4 v 30 4 (omega arith),
)
fields ipv4_dst_addr b v h = (
  load-store-Apart (put32 b 30 v) 24 2 _ 30 4 (omega arith) ∙ load-store_self b 30 4 v h,
  load-store-Apart (put32 b 30 v) 24 2 _ 26 4 (omega arith)
      ∙ load-store-Apart b 30 4 v 26 4 (omega arith),
)

module _ (e : Platform) where
  icmp-SameHeaders :
      (p : ℕ) (inner : RewriteField) (c : Core)
      → is_neg (icmp_nat_handle e p inner c).0 ≡ false
      → SameHeaders (bytes_of p c) (bytes_of p (icmp_nat_handle e p inner c).1)
  icmp-SameHeaders p inner c ok i h = elim (icmp_nat_handle-Answered e p inner c ok) [
    | untouched same ↦ ap (λ (b : Bytes). b i) same
    | rewritten v same ↦
        ap (λ (b : Bytes). b i) same ∙ rewrite_inner-SameHeaders inner v (bytes_of p c) i h
  ]

  -- both ends of the switch on the protocol
  switch-SameHeaders :
      (p : ℕ) (inner : RewriteField) (test : Bool) (old new : ℕ) (c : Core)
      → is_neg
          (if◌then◌else◌ {A = ℤ × Core} test
            (icmp_nat_handle e p inner c)
            (pos 0, put_mbuf p (update_l4 e old new (c.heap p)) c)).0
        ≡ false
      → SameHeaders (bytes_of p c) (
          bytes_of p
            (if◌then◌else◌ {A = ℤ × Core} test
              (icmp_nat_handle e p inner c)
              (pos 0, put_mbuf p (update_l4 e old new (c.heap p)) c)).1)
  switch-SameHeaders p inner true old new c ok i h = icmp-SameHeaders p inner c ok i h
  switch-SameHeaders p inner false old new c ok i h =
      ap (λ (b : Bytes). b i) (bytes_of-put_mbuf p (update_l4 e old new (c.heap p)) c)
      ∙ update_l4-SameHeaders e old new (c.heap p) i h

  impl-Rewritten :
      (p field : ℕ) (inner : RewriteField) (c : Core)
      → is_neg (action_nat_rewrite_impl e p field inner c).0 ≡ false
      → Rewritten field c (bytes_of p c) (bytes_of p (action_nat_rewrite_impl e p field inner c).1)
  unfolding action_nat_rewrite_impl
  impl-Rewritten p field inner c =
      let save = get32 (bytes_of p c) field in
      elim (lookup_and_rewrite-Looked p (bswap32 save) field c) [
        | nothing h ↦ rw h (λ bad. absurd (ground arith))
        | translated v found h ↦ rw h (λ ok.
            let m1 = record (c.heap p) { bytes = put32 (bytes_of p c) field v } in
            let c1 = put_mbuf p m1 c in
            let b = update_ipv4 field save (bytes_of p c1) in
            let m2 = record (c1.heap p) { bytes = b } in
            let c2 = put_mbuf p m2 c1 in
            record {
              value = v;
              found = found;
              same = λ i small.
                  switch-SameHeaders p inner (l4_proto b == ipproto_icmp) save (get32 b field) c2 ok
                    i small
                  ∙ ap (λ (x : Bytes). x i)
                      (bytes_of-put_mbuf p m2 c1
                        ∙ ap (update_ipv4 field save) (bytes_of-put_mbuf p m1 c));
            })
      ]

  action_nat_rewrite-Rewritten :
      (p : ℕ) (f : RewriteField) (c : Core)
      → is_neg (action_nat_rewrite e p f c).0 ≡ false
      → Rewritten (outer_field f) c (bytes_of p c) (bytes_of p (action_nat_rewrite e p f c).1)
  unfolding action_nat_rewrite
  action_nat_rewrite-Rewritten p ipv4_src_addr c ok = impl-Rewritten p src_addr ipv4_dst_addr c ok
  action_nat_rewrite-Rewritten p ipv4_dst_addr c ok = impl-Rewritten p dst_addr ipv4_src_addr c ok

  -- A translation with a result that is not negative, of a packet whose bytes are below 256, keeps
  -- the sum of the ten words of the IPv4 header, modulo 65535: a checksum that was right before is
  -- right after.
  pub action_nat_rewrite_header_sum :
      (p : ℕ) (f : RewriteField) (c : Core)
      → IsBytes (bytes_of p c)
      → is_neg (action_nat_rewrite e p f c).0 ≡ false
      → word_sum (bytes_of p (action_nat_rewrite e p f c).1) ipv4_header 10 % 65535
        ≡ word_sum (bytes_of p c) ipv4_header 10 % 65535
  action_nat_rewrite_header_sum p f c wb ok =
      let r = action_nat_rewrite-Rewritten p f c ok in
      ap (λ n. n % 65535) (word_sum_ext _ _ ipv4_header 10 (λ i lo hi. r.same i (omega arith)))
      ∙ sum f r.value
    where
      sum :
          (f : RewriteField) (v : ℕ)
          → word_sum
                (update_ipv4
                  (outer_field f)
                  (get32 (bytes_of p c) (outer_field f))
                  (put32 (bytes_of p c) (outer_field f) v))
                ipv4_header
                10
              % 65535
            ≡ word_sum (bytes_of p c) ipv4_header 10 % 65535
      sum ipv4_src_addr v = update_ipv4-word_sum (bytes_of p c) 6 2 v (omega arith) refl wb
      sum ipv4_dst_addr v = update_ipv4-word_sum (bytes_of p c) 8 0 v (omega arith) refl wb

  -- If the table gives a value of 32 bits for the address that `nat rewrite` is to translate, then
  -- with a result that is not negative this value stands in the address's place in the header, and
  -- the other address of the header is as it was.
  pub action_nat_rewrite_address :
      (p : ℕ) (f : RewriteField) (c : Core) (v : ℕ)
      → nat_lookup_ip c.app_config.nat_lookup (bswap32 (get32 (bytes_of p c) (outer_field f)))
        ≡ some v
      → v < 2 ^ 32
      → is_neg (action_nat_rewrite e p f c).0 ≡ false
      → (get32 (bytes_of p (action_nat_rewrite e p f c).1) (outer_field f) ≡ v)
        × (get32 (bytes_of p (action_nat_rewrite e p f c).1) (outer_field (other f))
            ≡ get32 (bytes_of p c) (outer_field (other f)))
  unfolding update_ipv4
  action_nat_rewrite_address p f c v found small ok =
      let r = action_nat_rewrite-Rewritten p f c ok in
      let same : r.value ≡ v = cc in
      let (own, others) = fields f (bytes_of p c) r.value (rw same small) in
      (
        load_ext _ _ (outer_field f) 4 (λ i lo hi. r.same i (below f hi)) ∙ own ∙ same,
        load_ext _ _ (outer_field (other f)) 4 (λ i lo hi. r.same i (below (other f) hi)) ∙ others,
      )
    where
      below : (f : RewriteField) {i : ℕ} → i < outer_field f + 4 → i < 34
      below ipv4_src_addr h = omega arith
      below ipv4_dst_addr h = omega arith
