-- ===== src/Cond/Network.antt =====
-- What `ipv4_in_network` of src/cond_network.c decides.
use native.Mathlib.Nat.{one-le-pow, eq_of_mul-eq-mul_right, div-lt_iff_lt-mul, mod-eq_of_lt}
use natasha.Base.{
  ℕ, zero, suc, ◌+◌, ◌-◌, ◌*◌, ◌/◌, ◌^◌, ◌≤◌, ◌<◌, ◌≡◌, ◌↔◌, refl, ap, Bool, true, ◌&&◌,
}
use natasha.Base.{arith, bit_and, bit_and_high, ◌==◌, ==_iff}
use natasha.Platform.{Platform}
use natasha.Config.{Ipv4Network}
use natasha.Cond.{network_mask, ipv4_in_network}

-- Over a small range, check every value by evaluation.
all_below : ℕ → (ℕ → Bool) → Bool
all_below zero f = true
all_below (suc n) f = f n && all_below n f

all_below_sound : (n : ℕ) (f : ℕ → Bool) (x : ℕ) → all_below n f ≡ true → x < n → f x ≡ true
unfolding all_below
all_below_sound zero f x h lt = absurd (omega arith)
all_below_sound (suc n) f x h lt = ground (arith, all_below_sound n f x)

module _ (e : Platform) where
  mask_table : all_below 32 (λ k. network_mask e (k + 1) == (2 ^ (k + 1) - 1) * 2 ^ (31 - k)) ≡ true
  unfolding all_below network_mask
  mask_table = refl

  pow_table : all_below 33 (λ k. 2 ^ k * 2 ^ (32 - k) == 2 ^ 32) ≡ true
  unfolding all_below
  pow_table = refl

  -- A prefix of 1 to 32 ones.
  network_mask_lem :
      (mask : ℕ) → 1 ≤ mask → mask ≤ 32 → network_mask e mask ≡ (2 ^ mask - 1) * 2 ^ (32 - mask)
  network_mask_lem zero lo up = absurd (omega arith)
  network_mask_lem (suc k) lo up =
      let one : k + 1 ≡ suc k = omega arith in
      let rest : 32 - suc k ≡ 31 - k = omega arith in
      rw rest (rw one at ((==_iff _ _).0 (all_below_sound 32 _ k mask_table (omega arith))))

  -- The bits of an address under such a mask.
  prefix_lem :
      (ip mask : ℕ)
      → ip < 2 ^ 32
      → 1 ≤ mask
      → mask ≤ 32
      → bit_and ip (network_mask e mask) ≡ ip / 2 ^ (32 - mask) * 2 ^ (32 - mask)
  prefix_lem ip mask hi lo up =
      let size : 2 ^ mask * 2 ^ (32 - mask) ≡ 2 ^ 32 =
        (==_iff _ _).0 (all_below_sound 33 _ mask pow_table (omega arith)) in
      let fits : ip / 2 ^ (32 - mask) < 2 ^ mask =
        (div-lt_iff_lt-mul (one-le-pow (32 - mask) 2 (omega arith))).1 (rw size hi) in
      rw (network_mask_lem mask lo up, bit_and_high, mod-eq_of_lt fits)

  in_network_bits :
      (ip : ℕ) (network : Ipv4Network)
      → ip < 2 ^ 32
      → network.ip < 2 ^ 32
      → 1 ≤ network.mask
      → network.mask ≤ 32
      → let unit = 2 ^ (32 - network.mask) in
        ipv4_in_network e ip network ≡ (ip / unit * unit == network.ip / unit * unit)
  unfolding ipv4_in_network
  in_network_bits ip network hi hn lo up =
      rw (prefix_lem ip network.mask hi lo up, prefix_lem network.ip network.mask hn lo up)

  -- For addresses of 32 bits and a prefix length of 1 to 32, an address is in the network exactly
  -- when its first `mask` bits are those of the network's address.
  pub ipv4_in_network_iff :
      (ip : ℕ) (network : Ipv4Network)
      → ip < 2 ^ 32
      → network.ip < 2 ^ 32
      → 1 ≤ network.mask
      → network.mask ≤ 32
      → (ipv4_in_network e ip network ≡ true)
        ↔ (ip / 2 ^ (32 - network.mask) ≡ network.ip / 2 ^ (32 - network.mask))
  ipv4_in_network_iff ip network hi hn lo up = (same_prefix, same_bits)
    where
      open network use {mask}

      unit : ℕ
      unit = 2 ^ (32 - mask)

      bits : ipv4_in_network e ip network ≡ (ip / unit * unit == network.ip / unit * unit)
      bits = in_network_bits ip network hi hn lo up

      same_prefix : ipv4_in_network e ip network ≡ true → ip / unit ≡ network.ip / unit
      same_prefix h =
          eq_of_mul-eq-mul_right unit (one-le-pow (32 - mask) 2 (omega arith)) _ _
            ((==_iff _ _).0 (rw bits at h))

      same_bits : ip / unit ≡ network.ip / unit → ipv4_in_network e ip network ≡ true
      same_bits h = rw bits ((==_iff _ _).1 (ap (λ (x : ℕ). x * unit) h))
