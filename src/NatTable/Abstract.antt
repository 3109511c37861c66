-- ===== src/NatTable/Abstract.antt =====
-- The table of src/action_nat.c as a map: a list of bindings, the last one first.
use natasha.Base.{ℕ, ◌<◌, ◌^◌, ◌≡◌, refl, sym, subst, arith, true}
use natasha.Base.{Option, none, List, [], ◌∷◌, ◌==◌, if◌then◌else◌}
use natasha.Word.{bswap32}
use natasha.NatTable.{Table, Allocator, nat_lookup_ip, add_rules_to_table}
use natasha.NatTable.Lookup.{lookup-add_rules, found}
use natasha.NatTable.Load.{load_nat_rules, load-cons}

-- the value of the first binding of an address, where 0 stands for no value
abbrev pub lookup : List (ℕ × ℕ) → ℕ → Option ℕ
lookup [] ip = none
lookup ((key, value) ∷ bindings) ip = if key == ip then found value else lookup bindings ip

-- what a file of rules binds, on top of other bindings
abbrev pub bind_rules : List (ℕ × ℕ) → List (ℕ × ℕ) → List (ℕ × ℕ)
bind_rules [] bindings = bindings
bind_rules ((from, to) ∷ rules) bindings =
    bind_rules rules ((to, bswap32 from) ∷ (from, bswap32 to) ∷ bindings)

-- The addresses of the rules are of 32 bits.
abbrev pub AreAddresses : List (ℕ × ℕ) → Type 0
AreAddresses [] = Unit
AreAddresses ((from, to) ∷ rules) = (from < 2 ^ 32) × (to < 2 ^ 32) × AreAddresses rules

-- A table stands for a list of bindings.
abbrev pub Represents : Table → List (ℕ × ℕ) → Type 0
Represents t bindings = (ip : ℕ) → ip < 2 ^ 32 → nat_lookup_ip t ip ≡ lookup bindings ip

module _ (malloc : Allocator) (ok : (i : ℕ) → malloc i ≡ true) where
  add_rules-Represents :
      (t : Table) (bindings : List (ℕ × ℕ)) (from to n : ℕ)
      → from < 2 ^ 32
      → to < 2 ^ 32
      → Represents t bindings
      → Represents
          (add_rules_to_table malloc t from to n).1
          ((to, bswap32 from) ∷ (from, bswap32 to) ∷ bindings)
  add_rules-Represents t bindings from to n hf ht r ip h =
      ground (arith, lookup-add_rules malloc ok t from to n ip hf ht h, r ip h)

  -- Where every allocation succeeds: loading any rules with addresses of 32 bits, repeated ones too,
  -- into a table that stands for a list of bindings ends without an error, in a table that stands
  -- for the bindings of the rules on top of the list: the last rule that names an address wins.
  pub load-Represents :
      (rules : List (ℕ × ℕ)) (t : Table) (bindings : List (ℕ × ℕ)) (n : ℕ)
      → AreAddresses rules
      → Represents t bindings
      → let (ret, t', n') = load_nat_rules malloc t rules n in
        (ret ≡ 0) × Represents t' (bind_rules rules bindings)
  load-Represents [] t bindings n a r = unfold load_nat_rules in (refl, r)
  load-Represents ((from, to) ∷ rules) t bindings n a r =
      let (ret, t', n') = add_rules_to_table malloc t from to n in
      subst
        (λ (x : ℕ × Table × ℕ).
          (x.0 ≡ 0) × Represents x.1 (bind_rules ((from, to) ∷ rules) bindings))
        (sym (load-cons malloc from to rules t n))
        (load-Represents rules t' ((to, bswap32 from) ∷ (from, bswap32 to) ∷ bindings) n' a.2
          (add_rules-Represents t bindings from to n a.0 a.1 r))
