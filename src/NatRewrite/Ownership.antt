-- ===== src/NatRewrite/Ownership.antt =====
-- Who has the packet after `action_nat_rewrite` of src/action_nat.c.
use natasha.Base.{
  ℕ, ℤ, ◌≡◌, refl, true, Bool-cases, Option-cases, inl, inr, ◌==◌, ◌+◌, if◌then◌else◌, is_neg, not,
  minus_one,
}
use natasha.Platform.{Platform, Mbuf}
use natasha.Word.{bswap32}
use natasha.Packet.{get32, icmp_type, src_addr, dst_addr}
use natasha.Config.{RewriteField, ipv4_src_addr, ipv4_dst_addr}
use natasha.Core.{Core, count_no_rule, put_mbuf, bytes_of}
use natasha.TxQueue.Custody.{
  disposed, Disposes, Settles, Disposes-refl, Disposes-trans, Disposes-same, Disposes-pktmbuf_free,
  Settles-keep, Settles-drop, Settles-failed, Settles-done, Settles-after,
}
use natasha.NatTable.{nat_lookup_ip}
use natasha.NatRewrite.{
  lookup_and_rewrite, icmp_nat_handle, action_nat_rewrite_impl, action_nat_rewrite, is_icmp_error,
  ipproto_icmp, inner_field, l4_proto, update_ipv4,
}
use natasha.NatRewrite.Guard.{IsBoolean, is_too_short-false}

lookup_and_rewrite-Settles :
    (p ip field : ℕ) (c : Core) → Settles p c (lookup_and_rewrite p ip field c)
unfolding lookup_and_rewrite
lookup_and_rewrite-Settles p ip field c =
    elim (Option-cases (nat_lookup_ip c.app_config.nat_lookup ip)) [
      | inl e ↦ rw (e, lookup_and_rewrite) (Settles-drop p 0 (Disposes-pktmbuf_free p c))
      | inr (v, e) ↦
          rw (e, lookup_and_rewrite) (Settles-keep p 0 (Disposes-same p refl refl refl refl))
    ]

count_no_rule-Disposes : (p : ℕ) (c : Core) → Disposes p 0 c (count_no_rule c)
unfolding count_no_rule
count_no_rule-Disposes p c = Disposes-same p refl refl refl refl

-- A failed translation is counted.
count-Settles :
    (p : ℕ) {c : Core} {r : ℤ × Core}
    → Settles p c r
    → is_neg r.0 ≡ true
    → Settles p c (minus_one, count_no_rule r.1)
count-Settles p {r = r} s h =
    Settles-drop p 0 (Disposes-trans p 1 0 (Settles-failed p s h) (count_no_rule-Disposes p r.1))

-- Writes to packets leave them where they are.
put_mbuf-Disposes :
    (p q : ℕ) (m : Mbuf) {c d : Core} → Disposes p 0 c d → Disposes p 0 c (put_mbuf q m d)
put_mbuf-Disposes p q m x = Disposes-trans p 0 0 x (Disposes-same p refl refl refl refl)

module _ (e : Platform) (boolean : IsBoolean e) where
  icmp_nat_handle-Settles :
      (p : ℕ) (inner : RewriteField) (c : Core) → Settles p c (icmp_nat_handle e p inner c)
  unfolding icmp_nat_handle
  icmp_nat_handle-Settles p inner c =
      let field = inner_field inner in
      let r = lookup_and_rewrite p (bswap32 (get32 (bytes_of p c) field)) field c in
      let s = lookup_and_rewrite-Settles p (bswap32 (get32 (bytes_of p c) field)) field c in
      elim (Bool-cases (not (is_icmp_error (bytes_of p c icmp_type)))) [
        | inl other ↦ rw other (Settles-keep p 0 (Disposes-refl p c))
        | inr error ↦
            rw (error, is_too_short-false e (bytes_of p c) boolean)
              (elim (Bool-cases (is_neg r.0)) [
                | inl failed ↦ rw failed (count-Settles p s failed)
                | inr done ↦
                    rw done (Settles-keep p 0 (put_mbuf-Disposes p p _ (Settles-done p s done)))
              ])
      ]

  impl-Settles :
      (p field : ℕ) (inner : RewriteField) (c : Core)
      → Settles p c (action_nat_rewrite_impl e p field inner c)
  unfolding action_nat_rewrite_impl
  impl-Settles p field inner c =
      let save = get32 (bytes_of p c) field in
      let r = lookup_and_rewrite p (bswap32 save) field c in
      let s = lookup_and_rewrite-Settles p (bswap32 save) field c in
      let b = update_ipv4 field save (bytes_of p r.1) in
      elim (Bool-cases (is_neg r.0)) [
        | inl failed ↦ rw failed (count-Settles p s failed)
        | inr done ↦
            let written =
              put_mbuf-Disposes p p (record (r.1.heap p) { bytes = b }) (Settles-done p s done) in
            rw done (elim (Bool-cases (l4_proto b == ipproto_icmp)) [
              | inl icmp ↦ rw icmp (Settles-after p written (icmp_nat_handle-Settles p inner _))
              | inr l4 ↦ rw l4 (Settles-keep p 0 (put_mbuf-Disposes p p _ written))
            ])
      ]

  pub action_nat_rewrite-Settles :
      (p : ℕ) (field : RewriteField) (c : Core) → Settles p c (action_nat_rewrite e p field c)
  unfolding action_nat_rewrite
  action_nat_rewrite-Settles p ipv4_src_addr c = impl-Settles p src_addr ipv4_dst_addr c
  action_nat_rewrite-Settles p ipv4_dst_addr c = impl-Settles p dst_addr ipv4_src_addr c

  -- Where `unlikely` is a Boolean, `nat rewrite` frees its packet, once, exactly if it returns -1,
  -- and frees, sends or queues no other packet.
  pub action_nat_rewrite_owners :
      (p : ℕ) (field : RewriteField) (c : Core) (q : ℕ)
      → disposed q (action_nat_rewrite e p field c).1
        ≡ disposed q c
          + (if p == q then (if is_neg (action_nat_rewrite e p field c).0 then 1 else 0) else 0)
  action_nat_rewrite_owners p field c q = (action_nat_rewrite-Settles p field c).custody.owners q
