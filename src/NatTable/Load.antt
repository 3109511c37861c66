-- ===== src/NatTable/Load.antt =====
-- The NAT rules of a configuration file, as `config_nat_rule` of src/parseconfig.y adds them.
use natasha.Base.{ℕ, ◌<◌, ◌^◌, ◌≡◌, ◌≢◌, refl, sym, subst, arith, true, some, List, [], ◌∷◌}
use natasha.Base.{is_neg, if◌then◌else◌, ==_ne}
use natasha.Word.{bswap32, bswap32_ne_zero}
use natasha.NatTable.{Table, Allocator, nat_lookup_ip, add_rules_to_table}
use natasha.NatTable.Lookup.{lookup-add_rules, found}

-- The lines `nat rule FROM TO;` in order. The first component is the result of the parser, not 0
-- after `YYERROR`.
unfoldable pub load_nat_rules : Allocator → Table → List (ℕ × ℕ) → ℕ → ℕ × Table × ℕ
load_nat_rules malloc t [] n = (0, t, n)
load_nat_rules malloc t ((from, to) ∷ rules) n =
    let (ret, t', n') = add_rules_to_table malloc t from to n in
    let rest = load_nat_rules malloc t' rules n' in if is_neg ret then (1, t', n') else rest

-- `ip` is no address of the rules
abbrev pub Fresh : ℕ → List (ℕ × ℕ) → Type 0
Fresh ip [] = Unit
Fresh ip ((from, to) ∷ rules) = (from ≢ ip) × (to ≢ ip) × Fresh ip rules

abbrev pub IsAddress : ℕ → Type 0
IsAddress ip = (ip ≢ 0) × (ip < 2 ^ 32)

-- Every address stands in the rules once.
abbrev pub IsDistinct : List (ℕ × ℕ) → Type 0
IsDistinct [] = Unit
IsDistinct ((from, to) ∷ rules) =
    IsAddress from
    × IsAddress to
    × (from ≢ to)
    × Fresh from rules
    × Fresh to rules
    × IsDistinct rules

-- Both directions of every rule are in the table, in network order.
abbrev pub Translates : Table → List (ℕ × ℕ) → Type 0
Translates t [] = Unit
Translates t ((from, to) ∷ rules) =
    (nat_lookup_ip t from ≡ some (bswap32 to))
    × (nat_lookup_ip t to ≡ some (bswap32 from))
    × Translates t rules

found-bswap32 : (ip : ℕ) → IsAddress ip → found (bswap32 ip) ≡ some (bswap32 ip)
found-bswap32 ip (ne, h) = rw (==_ne (bswap32 ip) 0 (bswap32_ne_zero ip h ne))

pub load-cons :
    (malloc : Allocator) (from to : ℕ) (rules : List (ℕ × ℕ)) (t : Table) (n : ℕ)
    → let (ret, t', n') = add_rules_to_table malloc t from to n in
      load_nat_rules malloc t ((from, to) ∷ rules) n ≡ load_nat_rules malloc t' rules n'
unfolding load_nat_rules add_rules_to_table
load-cons malloc from to rules t n = refl

module _ (malloc : Allocator) (ok : (i : ℕ) → malloc i ≡ true) where
  load-Fresh :
      (rules : List (ℕ × ℕ)) (t : Table) (n ip : ℕ)
      → ip < 2 ^ 32
      → IsDistinct rules
      → Fresh ip rules
      → nat_lookup_ip (load_nat_rules malloc t rules n).1 ip ≡ nat_lookup_ip t ip
  unfolding load_nat_rules
  load-Fresh [] t n ip h d f = refl
  load-Fresh ((from, to) ∷ rules) t n ip h d f =
      let (ret, t', n') = add_rules_to_table malloc t from to n in
      ground (
        arith,
        lookup-add_rules malloc ok t from to n ip d.0.1 d.1.1 h,
        load-Fresh rules t' n' ip h d.5 f.2,
      )

  -- Where every allocation succeeds, loading rules whose addresses are of 32 bits, not 0 and all
  -- different, ends without an error, whatever the table was before, and from then on the table
  -- translates each internal address to its external address and each external address back, in
  -- network order.
  pub load-Translates :
      (rules : List (ℕ × ℕ)) (t : Table) (n : ℕ)
      → IsDistinct rules
      → let (ret, t', n') = load_nat_rules malloc t rules n in (ret ≡ 0) × Translates t' rules
  load-Translates [] t n d = unfold load_nat_rules in (refl, tt)
  load-Translates ((from, to) ∷ rules) t n d =
      let (ret, t', n') = add_rules_to_table malloc t from to n in
      let rest = load-Translates rules t' n' d.5 in
      subst (λ (r : ℕ × Table × ℕ). (r.0 ≡ 0) × Translates r.1 ((from, to) ∷ rules))
        (sym (load-cons malloc from to rules t n))
        (
          rest.0,
          (
            ground (
              arith,
              load-Fresh rules t' n' from d.0.1 d.5 d.3,
              lookup-add_rules malloc ok t from to n from d.0.1 d.1.1 d.0.1,
              found-bswap32 to d.1,
            ),
            ground (
              arith,
              load-Fresh rules t' n' to d.1.1 d.5 d.4,
              lookup-add_rules malloc ok t from to n to d.0.1 d.1.1 d.1.1,
              found-bswap32 from d.0,
            ),
            rest.1,
          ),
        )
