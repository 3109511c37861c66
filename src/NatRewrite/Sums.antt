-- ===== src/NatRewrite/Sums.antt =====
-- The sums of words under `update_ipv4` and `update_inner`, the updates of
-- `action_nat_rewrite_impl` and `icmp_nat_handle` of src/action_nat.c.
use natasha.Base.{ℕ, ◌+◌, ◌-◌, ◌*◌, ◌%◌, ◌^◌, ◌≤◌, ◌<◌, ◌≡◌, refl, subst, ◌∙◌, arith, inr, ◌⊎◌, ap}
use natasha.Bytes.{
  Bytes, IsBytes, store_frame, load-store-Apart, load-store_self, load-lt, store-IsBytes,
}
use natasha.Checksum.{cksum_update}
use natasha.Checksum.Congruence.{cksum_update_congruence}
use natasha.Packet.{
  get16, get32, put16, put32, hdr_checksum, ipv4_header, icmp_header, icmp_cksum,
  inner_hdr_checksum,
}
use natasha.NatRewrite.{update_ipv4, update_inner}
use natasha.NatRewrite.HeaderSum.{word_sum, word_sum_ext, word_sum_change, word_sum-cksum_update}

abbrev pub inner_header : ℕ
inner_header = 42

cksum_update-lt :
    (b : Bytes) (at from field : ℕ)
    → IsBytes b
    → from < 2 ^ 32
    → cksum_update (get16 b at) from (get32 b field) < 2 ^ 16
cksum_update-lt b at from field wb h =
    (cksum_update_congruence (get16 b at) from (get32 b field) (load-lt b at 2 wb) h
      (load-lt b field 4 wb)).0

-- What a checksum field holds after an update for a change from `from` to `to`.
pub put16-cksum_update :
    (b : Bytes) (at from to : ℕ)
    → IsBytes b
    → from < 2 ^ 32
    → to < 2 ^ 32
    → (get16 (put16 b at (cksum_update (get16 b at) from to)) at + to) % 65535
      ≡ (get16 b at + from) % 65535
put16-cksum_update b at from to wb hf ht =
    let (small, same) = cksum_update_congruence (get16 b at) from to (load-lt b at 2 wb) hf ht in
    rw (load-store_self b at 2 (cksum_update (get16 b at) from to) small) same

-- The update of the header's checksum makes up for the change of an address.
pub update_ipv4-word_sum :
    (b : Bytes) (k m v : ℕ)
    → 6 ≤ k
    → k + (2 + m) ≡ 10
    → IsBytes b
    → word_sum
          (update_ipv4 (14 + 2 * k) (get32 b (14 + 2 * k)) (put32 b (14 + 2 * k) v))
          ipv4_header
          10
        % 65535
      ≡ word_sum b ipv4_header 10 % 65535
unfolding update_ipv4
update_ipv4-word_sum b k m v after size wb =
    let b1 = put32 b (14 + 2 * k) v in
    let kept : get16 b1 hdr_checksum ≡ get16 b hdr_checksum =
      load-store-Apart b (14 + 2 * k) 4 v hdr_checksum 2 (omega arith) in
    let ck = cksum_update (get16 b1 hdr_checksum) (get32 b (14 + 2 * k)) (get32 b1 (14 + 2 * k)) in
    let wb1 = store-IsBytes b (14 + 2 * k) 4 v wb in
    word_sum-cksum_update b b1 (put16 b1 hdr_checksum ck) ipv4_header k m (14 + 2 * k) 5 4
      hdr_checksum 10 refl refl size refl wb wb1 (λ i h. store_frame b (14 + 2 * k) 4 v i h)
      (λ i h. store_frame b1 hdr_checksum 2 ck i h) kept
      (load-store_self b1 hdr_checksum 2 ck (
          cksum_update-lt b1 hdr_checksum (get32 b (14 + 2 * k)) (14 + 2 * k) wb1
            (load-lt b (14 + 2 * k) 4 wb))
        ∙ ap (λ x. cksum_update x (get32 b (14 + 2 * k)) (get32 b1 (14 + 2 * k))) kept)

-- After the inner address at `42 + 2 * k` changed, the updates keep the sum of the inner header and
-- that of the ICMP message.
module _ (b : Bytes) (k m v : ℕ) (after : 6 ≤ k) (size : k + (2 + m) ≡ 10) (wb : IsBytes b) where
  abbrev field : ℕ
  field = 42 + 2 * k

  abbrev changed : Bytes
  changed = put32 b field v

  -- the buffer after the first update
  abbrev inner_updated : Bytes
  inner_updated =
      put16 changed inner_hdr_checksum
        (cksum_update (get16 changed inner_hdr_checksum) (get32 b field) (get32 changed field))

  changed-IsBytes : IsBytes changed
  changed-IsBytes = store-IsBytes b field 4 v wb

  inner_updated-IsBytes : IsBytes inner_updated
  inner_updated-IsBytes = store-IsBytes changed inner_hdr_checksum 2 _ changed-IsBytes

  kept_cksum : get16 changed inner_hdr_checksum ≡ get16 b inner_hdr_checksum
  kept_cksum = load-store-Apart b field 4 v inner_hdr_checksum 2 (omega arith)

  new_cksum :
      get16 inner_updated inner_hdr_checksum
      ≡ cksum_update (get16 b inner_hdr_checksum) (get32 b field) (get32 changed field)
  new_cksum =
      load-store_self changed inner_hdr_checksum 2 _ (
        cksum_update-lt changed inner_hdr_checksum (get32 b field) field changed-IsBytes
          (load-lt b field 4 wb))
      ∙ ap (λ x. cksum_update x (get32 b field) (get32 changed field)) kept_cksum

  inner_sum : word_sum inner_updated inner_header 10 % 65535 ≡ word_sum b inner_header 10 % 65535
  inner_sum =
      word_sum-cksum_update b changed inner_updated inner_header k m field 5 4 inner_hdr_checksum 10
        refl refl size refl wb changed-IsBytes (λ i h. store_frame b field 4 v i h)
        (λ i h. store_frame changed inner_hdr_checksum 2 _ i h) kept_cksum new_cksum

  message_sum :
      (n : ℕ)
      → 14 ≤ n
      → word_sum inner_updated icmp_header n % 65535 ≡ word_sum b icmp_header n % 65535
  message_sum n h =
      word_sum-cksum_update b changed inner_updated icmp_header (k + 4) (n - k - 6) field 9 (n - 10)
        inner_hdr_checksum n (omega arith) refl (omega arith) (omega arith) wb changed-IsBytes
        (λ i h. store_frame b field 4 v i h) (λ i h. store_frame changed inner_hdr_checksum 2 _ i h)
        kept_cksum new_cksum

  -- the buffer after the update of the ICMP checksum for the inner checksum
  abbrev cksum_updated : Bytes
  cksum_updated = put16 inner_updated icmp_cksum (
      cksum_update (get16 inner_updated icmp_cksum) (get16 b inner_hdr_checksum)
        (get16 inner_updated inner_hdr_checksum))

  cksum_updated-IsBytes : IsBytes cksum_updated
  cksum_updated-IsBytes = store-IsBytes inner_updated icmp_cksum 2 _ inner_updated-IsBytes

  abbrev updated : Bytes
  updated = update_inner field (get32 b field) (get16 b inner_hdr_checksum) changed

  -- the ICMP checksum is updated twice, to what it was
  updated_cksum : get16 updated icmp_cksum % 65535 ≡ get16 b icmp_cksum % 65535
  unfolding update_inner
  updated_cksum = omega (
    arith,
    new_cksum,
    load-store-Apart changed inner_hdr_checksum 2
        (cksum_update (get16 changed inner_hdr_checksum) (get32 b field) (get32 changed field))
        icmp_cksum 2 (omega arith),
    load-store-Apart b field 4 v icmp_cksum 2 (omega arith),
    load-store-Apart changed inner_hdr_checksum 2
        (cksum_update (get16 changed inner_hdr_checksum) (get32 b field) (get32 changed field))
        field 4 (omega arith),
    load-store-Apart inner_updated icmp_cksum 2
        (cksum_update (get16 inner_updated icmp_cksum) (get16 b inner_hdr_checksum)
          (get16 inner_updated inner_hdr_checksum))
        field 4 (omega arith),
    cksum_update_congruence (get16 b inner_hdr_checksum) (get32 b field) (get32 changed field)
        (load-lt b inner_hdr_checksum 2 wb) (load-lt b field 4 wb)
        (load-lt changed field 4 changed-IsBytes),
    put16-cksum_update inner_updated icmp_cksum (get16 b inner_hdr_checksum)
        (get16 inner_updated inner_hdr_checksum) inner_updated-IsBytes
        (omega (arith, load-lt b inner_hdr_checksum 2 wb))
        (omega (arith, load-lt inner_updated inner_hdr_checksum 2 inner_updated-IsBytes)),
    put16-cksum_update cksum_updated icmp_cksum (get32 b field) (get32 cksum_updated field)
        cksum_updated-IsBytes (load-lt b field 4 wb)
        (load-lt cksum_updated field 4 cksum_updated-IsBytes),
  )

  updated_frame : (i : ℕ) → (i < 36) ⊎ (38 ≤ i) → updated i ≡ inner_updated i
  unfolding update_inner
  updated_frame i h =
      store_frame cksum_updated icmp_cksum 2 _ i h ∙ store_frame inner_updated icmp_cksum 2 _ i h

  pub inner_kept : word_sum updated inner_header 10 % 65535 ≡ word_sum b inner_header 10 % 65535
  inner_kept =
      ap (λ x. x % 65535)
        (word_sum_ext inner_updated updated inner_header 10
          (λ i lo hi. updated_frame i (inr (omega arith))))
      ∙ inner_sum

  pub message_kept :
      (n : ℕ) → 14 ≤ n → word_sum updated icmp_header n % 65535 ≡ word_sum b icmp_header n % 65535
  unfolding word_sum
  message_kept n h =
      let size : 1 + (1 + (n - 2)) ≡ n = omega arith in
      let one : word_sum updated icmp_header n + word_sum inner_updated icmp_cksum 1
          ≡ word_sum inner_updated icmp_header n + word_sum updated icmp_cksum 1 =
        subst
          (λ x.
            word_sum updated icmp_header x + word_sum inner_updated icmp_cksum 1
            ≡ word_sum inner_updated icmp_header x + word_sum updated icmp_cksum 1)
          size
          (word_sum_change inner_updated updated icmp_header 1 1 (n - 2) icmp_cksum refl
            (λ i o. updated_frame i o)) in
      omega (
        arith,
        one,
        message_sum n h,
        updated_cksum,
        load-store-Apart changed inner_hdr_checksum 2
            (cksum_update (get16 changed inner_hdr_checksum) (get32 b field) (get32 changed field))
            icmp_cksum 2 (omega arith),
        load-store-Apart b field 4 v icmp_cksum 2 (omega arith),
      )
