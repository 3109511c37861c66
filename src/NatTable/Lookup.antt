-- ===== src/NatTable/Lookup.antt =====
-- Lookups in the table of src/action_nat.c against what was added to it.
use natasha.Base.{ℕ, ◌+◌, ◌/◌, ◌%◌, ◌^◌, ◌<◌, ◌≡◌, ◌≢◌, refl, arith, true, Option, none, some}
use natasha.Base.{bit_and_low, bit_and_high, bit_or_fields, ◌==◌, ◌&&◌, if◌then◌else◌, pos}
use natasha.Word.{bswap32}
use natasha.NatTable.{
  Table, Allocator, fstb, sndb, l2b, entry, nat_lookup_ip, add_rule_to_table, add_rules_to_table,
}

-- The three indices are the digits of the address.
pub indices_lem :
    (ip : ℕ)
    → (fstb ip ≡ ip / 2 ^ 24 % 256) × (sndb ip ≡ ip / 2 ^ 16 % 256) × (l2b ip ≡ ip % 2 ^ 16)
unfolding fstb sndb l2b
indices_lem ip = ground (
  arith,
  bit_and_low 8 (ip / 2 ^ 24),
  bit_and_low 8 (ip / 2 ^ 16),
  bit_and_low 8 ip,
  bit_and_high 8 8 ip,
  bit_or_fields 8 (ip / 256 % 256) (ip % 256),
)

-- An address below 2 ^ 32 is known by its indices.
pub indices_injective :
    (a b : ℕ)
    → a < 2 ^ 32
    → b < 2 ^ 32
    → ((fstb a == fstb b) && ((sndb a == sndb b) && (l2b a == l2b b))) ≡ (a == b)
indices_injective a b ha hb = ground (arith, indices_lem a, indices_lem b)

-- what `nat_lookup_ip` makes of a cell
abbrev pub found : ℕ → Option ℕ
found v = if v == 0 then none else some v

pub nat_lookup_ip-eq-found :
    (t : Table) (ip : ℕ) → nat_lookup_ip t ip ≡ found (entry t (fstb ip) (sndb ip) (l2b ip))
unfolding nat_lookup_ip
nat_lookup_ip-eq-found t ip = refl

module _ (malloc : Allocator) where
  -- One cell of the table changes, and only that one.
  entry-add_rule :
      (t : Table) (key value n : ℕ) (i j k : ℕ)
      → (add_rule_to_table malloc t key value n).0 ≢ none
      → entry (add_rule_to_table malloc t key value n).0 i j k
        ≡ (if (fstb key == i) && ((sndb key == j) && (l2b key == k)) then value else entry t i j k)
  unfolding add_rule_to_table entry
  entry-add_rule none key value n i j k h = ground arith
  entry-add_rule (some t) key value n i j k h = ground arith

  -- For addresses of 32 bits, if the allocations of `add_rule_to_table` did not fail, a lookup
  -- finds under the key what was added, or nothing if that is 0, and under any other address what
  -- it found before.
  pub lookup-add_rule :
      (t : Table) (key value n ip : ℕ)
      → key < 2 ^ 32
      → ip < 2 ^ 32
      → (add_rule_to_table malloc t key value n).0 ≢ none
      → nat_lookup_ip (add_rule_to_table malloc t key value n).0 ip
        ≡ (if key == ip then found value else nat_lookup_ip t ip)
  lookup-add_rule t key value n ip hk hi h = ground (
    arith,
    nat_lookup_ip-eq-found t ip,
    nat_lookup_ip-eq-found (add_rule_to_table malloc t key value n).0 ip,
    entry-add_rule t key value n (fstb ip) (sndb ip) (l2b ip) h,
    indices_injective key ip hk hi,
  )

  -- An allocator that never fails.
  module _ (ok : (i : ℕ) → malloc i ≡ true) where
    pub add_rule_total :
        (t : Table) (key value n : ℕ) → (add_rule_to_table malloc t key value n).0 ≢ none
    unfolding add_rule_to_table
    add_rule_total none key value n = ground (arith, ok n, ok (n + 1), ok (n + 1 + 1))
    add_rule_total (some t) key value n = ground (arith, ok n, ok (n + 1))

    -- Where every allocation succeeds, for addresses of 32 bits, `add_rules_to_table` returns 0,
    -- and a lookup then finds the internal address in network order under the external one, else
    -- the external address in network order under the internal one, and under any other address
    -- what it found before; an entry that is 0 is not found.
    pub lookup-add_rules :
        (t : Table) (int_ip ext_ip n ip : ℕ)
        → int_ip < 2 ^ 32
        → ext_ip < 2 ^ 32
        → ip < 2 ^ 32
        → let (ret, t', n') = add_rules_to_table malloc t int_ip ext_ip n in
          (ret ≡ pos 0)
          × (nat_lookup_ip t' ip ≡ (
              if ext_ip == ip
              then found (bswap32 int_ip)
              else if int_ip == ip
              then found (bswap32 ext_ip)
              else nat_lookup_ip t ip))
    unfolding add_rules_to_table
    lookup-add_rules t int_ip ext_ip n ip hi he hp =
        let (t1, n1) = add_rule_to_table malloc t int_ip (bswap32 ext_ip) n in
        ground (
          arith,
          lookup-add_rule t int_ip (bswap32 ext_ip) n ip hi hp
              (add_rule_total t int_ip (bswap32 ext_ip) n),
          lookup-add_rule t1 ext_ip (bswap32 int_ip) n1 ip he hp
              (add_rule_total t1 ext_ip (bswap32 int_ip) n1),
        )
