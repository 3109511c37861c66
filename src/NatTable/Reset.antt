-- ===== src/NatTable/Reset.antt =====
-- `nat_reset_lookup_table` of src/action_nat.c: the arrays of a table that it frees.
use natasha.Base.{ℕ, ◌+◌, ◌<◌, ◌≡◌, refl, sym, subst, ap, arith, true}
use natasha.Base.{Option, none, some, List, [], ◌∷◌}
use natasha.Word.{bswap32}
use natasha.Bytes.{update}
use natasha.NatTable.{
  Table, Row, Rows, Allocator, fstb, sndb, l2b, add_to_row, add_to_rows, add_rule_to_table,
  add_rules_to_table,
}
use natasha.NatTable.Lookup.{indices_lem}
use natasha.NatTable.Load.{load_nat_rules, load-cons}
use natasha.NatTable.Totals.{total, total-zero, total-update}

-- `rte_free(t[i][j])`, which does nothing for NULL
abbrev pub free_row : Option Row → ℕ
free_row none = 0
free_row (some row) = 1

-- the loop over `t[i]`, then `rte_free(t[i])`
unfoldable pub free_rows : Option Rows → ℕ
free_rows none = 0
free_rows (some rows) = total (λ j. free_row (rows j)) 0 256 + 1

-- the number of arrays that are freed
unfoldable pub nat_reset_lookup_table : Table → ℕ
unfolding free_rows
nat_reset_lookup_table none = 0
nat_reset_lookup_table (some t) = total (λ i. free_rows (t i)) 0 256 + 1

rows_with :
    (rows : Rows) (j : ℕ) (row : Row) (n n' : ℕ)
    → j < 256
    → free_row (rows j) + n' ≡ 1 + n
    → free_rows (some (update rows j (some row))) + n ≡ free_rows (some rows) + n'
unfolding free_rows
rows_with rows j row n n' h e = omega (arith, e, total-update free_row rows j (some row) h)

table_with :
    (t : ℕ → Option Rows) (i : ℕ) (rows : Rows) (n n' : ℕ)
    → i < 256
    → free_rows (some rows) + n ≡ free_rows (t i) + n'
    → nat_reset_lookup_table (some (update t i (some rows))) + n
      ≡ nat_reset_lookup_table (some t) + n'
unfolding nat_reset_lookup_table
table_with t i rows n n' h e = omega (arith, e, total-update free_rows t i (some rows) h)

no_rows : (free_rows none ≡ 0) × (free_rows (some (λ _. none)) ≡ 1)
unfolding free_rows
no_rows = (refl, omega (arith, total-zero 0 256))

no_table : (nat_reset_lookup_table none ≡ 0) × (nat_reset_lookup_table (some (λ _. none)) ≡ 1)
unfolding nat_reset_lookup_table
no_table = (refl, omega (arith, total-zero 0 256))

-- an array with what an insertion returned in it, unless that is NULL
abbrev stored_row : Rows → ℕ → Option Row × ℕ → Option Rows × ℕ
stored_row rows j x = elim x.0 [
  | none ↦ (none, x.1)
  | some r ↦ (some (update rows j (some r)), x.1)
]

abbrev stored_rows : (ℕ → Option Rows) → ℕ → Option Rows × ℕ → Table × ℕ
stored_rows t i x = elim x.0 [ none ↦ (none, x.1) | some r ↦ (some (update t i (some r)), x.1) ]

-- What an insertion stores, where the arrays are kept: as many more are freed later as are
-- allocated.
abbrev Accounts {ℓ} : {A : Type ℓ} → (Option A → ℕ) → Option A → ℕ → Option A × ℕ → Type ℓ
Accounts {A = A} free old n r =
    (a : A) × (n' : ℕ) × (r ≡ (some a, n')) × (free (some a) + n ≡ free old + n')

module _ (malloc : Allocator) (ok : (i : ℕ) → malloc i ≡ true) where
  add_to_row-Accounts :
      (o : Option Row) (k value n : ℕ) → Accounts free_row o n (add_to_row malloc o k value n)
  unfolding add_to_row
  add_to_row-Accounts none k value n = (update (λ _. 0) k value, n + 1, rw (ok n) refl, omega arith)
  add_to_row-Accounts (some row) k value n = (update row k value, n, refl, omega arith)

  add_to_rows-Accounts :
      (o : Option Rows) (j k value n : ℕ)
      → j < 256
      → Accounts free_rows o n (add_to_rows malloc o j k value n)
  unfolding add_to_rows
  add_to_rows-Accounts none j k value n h =
      let (row, n', e, kept) = add_to_row-Accounts none k value (n + 1) in
      (
        update (λ _. none) j (some row),
        n',
        rw (ok n) (ap (stored_row (λ _. none) j) e),
        omega
            (arith, rows_with (λ _. none) j row (n + 1) n' h (omega (arith, kept)), no_rows, kept),
      )
  add_to_rows-Accounts (some rows) j k value n h =
      let (row, n', e, kept) = add_to_row-Accounts (rows j) k value n in
      (
        update rows j (some row),
        n',
        ap (stored_row rows j) e,
        rows_with rows j row n n' h (omega (arith, kept)),
      )

  add_rule-Accounts :
      (t : Table) (key value n : ℕ)
      → Accounts nat_reset_lookup_table t n (add_rule_to_table malloc t key value n)
  unfolding add_rule_to_table
  add_rule-Accounts none key value n =
      let inside =
        add_to_rows-Accounts none (sndb key) (l2b key) value (n + 1)
          (omega (arith, indices_lem key)) in
      let (rows, n', e, kept) = inside in
      (
        update (λ _. none) (fstb key) (some rows),
        n',
        rw (ok n) (ap (stored_rows (λ _. none) (fstb key)) e),
        omega (
          arith,
          table_with (λ _. none) (fstb key) rows (n + 1) n' (omega (arith, indices_lem key)) kept,
          no_table,
        ),
      )
  add_rule-Accounts (some t) key value n =
      let (rows, n', e, kept) =
        add_to_rows-Accounts (t (fstb key)) (sndb key) (l2b key) value n
          (omega (arith, indices_lem key)) in
      (
        update t (fstb key) (some rows),
        n',
        ap (stored_rows t (fstb key)) e,
        table_with t (fstb key) rows n n' (omega (arith, indices_lem key)) kept,
      )

  pub add_rules-kept :
      (t : Table) (from to n : ℕ)
      → let (ret, t', n') = add_rules_to_table malloc t from to n in
        nat_reset_lookup_table t' + n ≡ nat_reset_lookup_table t + n'
  unfolding add_rules_to_table
  add_rules-kept t from to n =
      let (a, n1, e, kept) = add_rule-Accounts t from (bswap32 to) n in
      let (a', n2, e', kept') =
        add_rule-Accounts (add_rule_to_table malloc t from (bswap32 to) n).0 to (bswap32 from)
          (add_rule_to_table malloc t from (bswap32 to) n).1 in
      omega (
        arith,
        kept,
        kept',
        ap (λ (r : Table × ℕ). nat_reset_lookup_table r.0) e,
        ap (λ (r : Table × ℕ). r.1) e,
        ap (λ (r : Table × ℕ). nat_reset_lookup_table r.0) e',
        ap (λ (r : Table × ℕ). r.1) e',
      )

  -- Where every allocation succeeds: after any rules were loaded, `nat_reset_lookup_table` frees as
  -- many arrays more than before as the loading allocated, so that it frees the arrays of a table
  -- that was loaded from nothing exactly.
  pub load-kept :
      (rules : List (ℕ × ℕ)) (t : Table) (n : ℕ)
      → let (ret, t', n') = load_nat_rules malloc t rules n in
        nat_reset_lookup_table t' + n ≡ nat_reset_lookup_table t + n'
  load-kept [] t n = unfold load_nat_rules in refl
  load-kept ((from, to) ∷ rules) t n =
      let (ret, t', n') = add_rules_to_table malloc t from to n in
      subst (λ (r : ℕ × Table × ℕ). nat_reset_lookup_table r.1 + n ≡ nat_reset_lookup_table t + r.2)
        (sym (load-cons malloc from to rules t n))
        (omega (arith, add_rules-kept t from to n, load-kept rules t' n'))
