-- ===== src/NatRewrite/Checksums.antt =====
-- What `lookup_and_rewrite` and `icmp_nat_handle` of src/action_nat.c make of a packet.
use natasha.Base.{
  ℕ, ◌%◌, ◌≤◌, ◌≡◌, refl, ◌∙◌, arith, inl, inr, ap, false, not, Bool-cases, Option-cases, some,
  is_neg,
}
use natasha.Base.{ℤ, pos, minus_one}
use natasha.Word.{bswap32}
use natasha.Bytes.{Bytes, IsBytes}
use natasha.Platform.{Platform}
use natasha.Packet.{get16, get32, put32, icmp_header, icmp_type, inner_hdr_checksum}
use natasha.Config.{RewriteField, ipv4_src_addr, ipv4_dst_addr}
use natasha.NatTable.{nat_lookup_ip}
use natasha.Core.{Core, bytes_of, put_bytes, pktmbuf_free, bytes_of-put_mbuf}
use natasha.NatRewrite.{
  update_inner, inner_field, lookup_and_rewrite, icmp_nat_handle, is_icmp_error, is_too_short,
}
use natasha.NatRewrite.HeaderSum.{word_sum}
use natasha.NatRewrite.Sums.{inner_kept, message_kept, inner_header}

abbrev pub rewrite_inner : RewriteField → ℕ → Bytes → Bytes
rewrite_inner inner v b =
    let field = inner_field inner in
    update_inner field (get32 b field) (get16 b inner_hdr_checksum) (put32 b field v)

-- What an ICMP message is after a handling that succeeds.
pub data Answered (b b' : Bytes) (inner : RewriteField) : Type 0 where
  untouched : b' ≡ b → Answered b b' inner
  rewritten : (v : ℕ) → b' ≡ rewrite_inner inner v b → Answered b b' inner

-- A lookup finds nothing and frees the packet, or writes what it found.
pub data Looked (p ip field : ℕ) (c : Core) (r : ℤ × Core) : Type 0 where
  nothing : r ≡ (minus_one, pktmbuf_free p c) → Looked p ip field c r
  translated :
      (v : ℕ)
      → nat_lookup_ip c.app_config.nat_lookup ip ≡ some v
      → r ≡ (pos 0, put_bytes p (put32 (bytes_of p c) field v) c)
      → Looked p ip field c r

pub lookup_and_rewrite-Looked :
    (p ip field : ℕ) (c : Core) → Looked p ip field c (lookup_and_rewrite p ip field c)
unfolding lookup_and_rewrite
lookup_and_rewrite-Looked p ip field c =
    elim (Option-cases (nat_lookup_ip c.app_config.nat_lookup ip)) [
      | inl missing ↦ rw (missing, lookup_and_rewrite) (nothing refl)
      | inr (v, found) ↦ translated v found (rw (found, lookup_and_rewrite) refl)
    ]

module _ (e : Platform) where
  pub icmp_nat_handle-Answered :
      (p : ℕ) (inner : RewriteField) (c : Core)
      → is_neg (icmp_nat_handle e p inner c).0 ≡ false
      → Answered (bytes_of p c) (bytes_of p (icmp_nat_handle e p inner c).1) inner
  unfolding icmp_nat_handle
  icmp_nat_handle-Answered p inner c =
      elim (Bool-cases (not (is_icmp_error (bytes_of p c icmp_type)))) [
        | inl other ↦ rw other (λ ok. untouched refl)
        | inr err ↦ rw err (elim (Bool-cases (is_too_short e (bytes_of p c))) [
          | inl short ↦ rw short (λ bad. absurd (ground arith))
          | inr long ↦
              rw long
                (elim (lookup_and_rewrite-Looked p
                  (bswap32 (get32 (bytes_of p c) (inner_field inner))) (inner_field inner) c) [
                    | nothing h ↦ rw h (λ bad. absurd (ground arith))
                    | translated v found h ↦ rw h (λ ok. rewritten v (
                        let field = inner_field inner in
                        let b = bytes_of p c in
                        let written =
                          update_inner field (get32 b field) (get16 b inner_hdr_checksum) in
                        let d = put_bytes p (put32 b field v) c in
                        bytes_of-put_mbuf p (record (d.heap p) { bytes = written (bytes_of p d) }) d
                        ∙ ap written (
                            bytes_of-put_mbuf p (record (c.heap p) { bytes = put32 b field v }) c)))
                  ])
        ])
      ]

  -- A handling of an ICMP message with a result that is not negative, for a packet whose bytes are
  -- below 256, keeps the sum of the ten words where an ICMP error has its inner header and, for
  -- every length of at least the 28 bytes up to the end of that header, that of the words of the
  -- message, modulo 65535.
  pub icmp_nat_handle_sums :
      (p : ℕ) (inner : RewriteField) (c : Core) (n : ℕ)
      → IsBytes (bytes_of p c)
      → 14 ≤ n
      → is_neg (icmp_nat_handle e p inner c).0 ≡ false
      → (word_sum (bytes_of p (icmp_nat_handle e p inner c).1) inner_header 10 % 65535
          ≡ word_sum (bytes_of p c) inner_header 10 % 65535)
        × (word_sum (bytes_of p (icmp_nat_handle e p inner c).1) icmp_header n % 65535
            ≡ word_sum (bytes_of p c) icmp_header n % 65535)
  icmp_nat_handle_sums p inner c n wb long ok = elim (icmp_nat_handle-Answered p inner c ok) [
    | untouched same ↦ rw same (refl, refl)
    | rewritten v same ↦ rw same (sums inner v)
  ]
    where
      sums :
          (inner : RewriteField) (v : ℕ)
          → (word_sum (rewrite_inner inner v (bytes_of p c)) inner_header 10 % 65535
              ≡ word_sum (bytes_of p c) inner_header 10 % 65535)
            × (word_sum (rewrite_inner inner v (bytes_of p c)) icmp_header n % 65535
                ≡ word_sum (bytes_of p c) icmp_header n % 65535)
      sums ipv4_src_addr v = (
        inner_kept (bytes_of p c) 6 2 v (omega arith) refl wb,
        message_kept (bytes_of p c) 6 2 v (omega arith) refl wb n long,
      )
      sums ipv4_dst_addr v = (
        inner_kept (bytes_of p c) 8 0 v (omega arith) refl wb,
        message_kept (bytes_of p c) 8 0 v (omega arith) refl wb n long,
      )
