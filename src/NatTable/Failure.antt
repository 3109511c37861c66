-- ===== src/NatTable/Failure.antt =====
-- Rules that do not fit in memory: `add_rules_to_table` of src/action_nat.c when
-- `rte_zmalloc_socket` fails.
use natasha.Base.{ℕ, ◌≡◌, refl, false, Option, none, some, pos, ap, ◌∙◌}
use natasha.Word.{bswap32}
use natasha.NatTable.{
  Rows, Allocator, fstb, sndb, l2b, entry, nat_lookup_ip, add_to_rows, add_rule_to_table,
  add_rules_to_table,
}

module _ (malloc : Allocator) (full : (i : ℕ) → malloc i ≡ false) where
  add_to_rows_fails : (j k value n : ℕ) → (add_to_rows malloc none j k value n).0 ≡ none
  unfolding add_to_rows
  add_to_rows_fails j k value n = rw (full n) refl

  add_rule_fails : (key value n : ℕ) → (add_rule_to_table malloc none key value n).0 ≡ none
  unfolding add_rule_to_table
  add_rule_fails key value n = rw (full n) refl

  add_rule_loses :
      (t : ℕ → Option Rows) (key value n : ℕ)
      → t (fstb key) ≡ none
      → (add_rule_to_table malloc (some t) key value n).0 ≡ none
  unfolding add_rule_to_table
  add_rule_loses t key value n gap =
      let rows : (add_to_rows malloc (t (fstb key)) (sndb key) (l2b key) value n).0 ≡ none =
        ap (λ (o : Option Rows). (add_to_rows malloc o (sndb key) (l2b key) value n).0) gap
        ∙ add_to_rows_fails (sndb key) (l2b key) value n in
      rw (rows, add_rule_to_table) refl

  -- Where every allocation fails, a rule whose internal address starts with a byte that no rule of
  -- the table starts with is reported as added, and no address is found in the table that is left.
  pub add_rules_to_table_loses :
      (t : ℕ → Option Rows) (int_ip ext_ip n ip : ℕ)
      → t (fstb int_ip) ≡ none
      → ((add_rules_to_table malloc (some t) int_ip ext_ip n).0 ≡ pos 0)
        × (nat_lookup_ip (add_rules_to_table malloc (some t) int_ip ext_ip n).1 ip ≡ none)
  unfolding add_rules_to_table nat_lookup_ip entry
  add_rules_to_table_loses t int_ip ext_ip n ip gap =
      let first = add_rule_loses t int_ip (bswap32 ext_ip) n gap in
      let n' = (add_rule_to_table malloc (some t) int_ip (bswap32 ext_ip) n).1 in
      (refl, rw (first, add_rule_fails ext_ip (bswap32 int_ip) n') refl)
