-- ===== src/NatRewrite/Guard.antt =====
-- When `icmp_nat_handle` fails, and its length test `unlikely(total_length - 20 - 8 - 20) < 0`.
use natasha.Base.{
  ℕ, ◌≤◌, ◌^◌, ◌+◌, ◌-◌, ◌≡◌, arith, false, true, ◌↔◌, refl, inl, inr, none, Bool-cases,
  Option-cases, is_neg,
}
use natasha.Word.{u64, bswap16, bswap32}
use natasha.Bytes.{Bytes}
use natasha.Platform.{Platform}
use natasha.Packet.{get16, get32, icmp_type, total_length, ipv4_len, icmp_len}
use natasha.Config.{RewriteField}
use natasha.Core.{Core, bytes_of}
use natasha.NatTable.{nat_lookup_ip}
use natasha.NatRewrite.{is_too_short, is_icmp_error, inner_field, icmp_nat_handle}
use natasha.NatRewrite.Frame.{lookup_and_rewrite_found, lookup_and_rewrite_missing}

-- `unlikely(x)` is a Boolean, as with `__builtin_expect(!!(x), 0)`.
abbrev pub IsBoolean : Platform → Type 0
IsBoolean e = (n : ℕ) → e.unlikely n ≤ 1

-- Where `unlikely` is a Boolean, the test never holds, however short the packet.
pub is_too_short-false : (e : Platform) (b : Bytes) → IsBoolean e → is_too_short e b ≡ false
unfolding is_too_short
is_too_short-false e b h =
    ground
      (arith, h (u64 (bswap16 (get16 b total_length) + 2 ^ 64 - ipv4_len - icmp_len - ipv4_len)))

-- Where `unlikely` is a Boolean, the handling of an ICMP message fails exactly if the message is an
-- error and the table has no entry for the address in its inner header, whatever the total length
-- of the packet: the message of a packet too short for an inner header is looked up all the same.
pub icmp_nat_handle_fails_iff :
    (e : Platform) (p : ℕ) (inner : RewriteField) (c : Core)
    → IsBoolean e
    → (is_neg (icmp_nat_handle e p inner c).0 ≡ true) ↔ (
        (is_icmp_error (bytes_of p c icmp_type) ≡ true)
        × (nat_lookup_ip c.app_config.nat_lookup
              (bswap32 (get32 (bytes_of p c) (inner_field inner)))
            ≡ none))
unfolding icmp_nat_handle
icmp_nat_handle_fails_iff e p inner c boolean =
    let ip = bswap32 (get32 (bytes_of p c) (inner_field inner)) in
    elim (Bool-cases (is_icmp_error (bytes_of p c icmp_type))) [
      | inr other ↦ rw other ((λ h. absurd (cc h)), (λ h. absurd (cc (h.0))))
      | inl error ↦
          rw (error, is_too_short-false e (bytes_of p c) boolean)
            (elim (Option-cases (nat_lookup_ip c.app_config.nat_lookup ip)) [
              | inl missing ↦
                  rw (lookup_and_rewrite_missing p ip (inner_field inner) c missing, missing)
                    ((λ h. (refl, refl)), (λ h. refl))
              | inr (v, found) ↦
                  rw (lookup_and_rewrite_found p ip (inner_field inner) v c found, found)
                    ((λ h. absurd (cc h)), (λ h. absurd (cc (h.1))))
            ])
    ]
