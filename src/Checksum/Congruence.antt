-- ===== src/Checksum/Congruence.antt =====
-- `cksum_update` of src/network_headers.h against RFC 1624, in the one's complement sum of 16-bit
-- words, which is arithmetic modulo 65535.
use natasha.Base.{ℕ, ◌+◌, ◌/◌, ◌%◌, ◌^◌, ◌<◌, ◌≡◌, arith, bit_and_low}
use natasha.Word.{u32, not32}
use natasha.Checksum.{add_carry, fold, cksum_update}

fold_lem : (s : ℕ) → s < 2 ^ 32 → fold s ≡ s % 65536 + s / 65536
fold_lem s h = omega (arith, bit_and_low 16 s)

-- The sum of two words with the carry added back, and its residue.
add_carry_lem :
    (a b : ℕ)
    → a < 2 ^ 32
    → b < 2 ^ 32
    → (add_carry (u32 (a + b)) b % 65535 ≡ (a + b) % 65535) × (add_carry (u32 (a + b)) b < 2 ^ 32)
add_carry_lem a b ha hb = ground arith

folded_lem : (s : ℕ) → s < 2 ^ 32 → (fold (fold s) % 65535 ≡ s % 65535) × (fold (fold s) < 2 ^ 16)
folded_lem s h = ground (arith, fold_lem s, fold_lem (s % 65536 + s / 65536))

-- For a checksum of 16 bits and words of 32 bits the updated checksum fits 16 bits, and with the
-- new word it is congruent to the old checksum with the old word, modulo 65535: the complement of
-- a checksum counts as the sum of the words that it covers.
pub cksum_update_congruence :
    (csum from to : ℕ)
    → csum < 2 ^ 16
    → from < 2 ^ 32
    → to < 2 ^ 32
    → (cksum_update csum from to < 2 ^ 16)
      × ((cksum_update csum from to + to) % 65535 ≡ (csum + from) % 65535)
unfolding cksum_update
cksum_update_congruence csum from to hc hf ht = ground (
  arith,
  add_carry_lem (not32 csum) (not32 from),
  add_carry_lem (add_carry (u32 (not32 csum + not32 from)) (not32 from)) to,
  folded_lem (add_carry (u32 (add_carry (u32 (not32 csum + not32 from)) (not32 from) + to)) to),
)
