-- ===== src/NatTable/Iter.antt =====
-- `nat_iter`, `nat_dump_rules` and `nat_number_of_rules` of src/action_nat.c. What the callback
-- is called with is returned as a list, in the order of the calls.
use natasha.Base.{ℕ, zero, suc, ◌+◌, ◌*◌, ◌/◌, ◌%◌, ◌^◌, ◌≤◌, ◌<◌, ◌≡◌, refl, arith, ap₂, sym}
use natasha.Base.{Option, none, some, List, [], ◌∷◌, ◌++◌, length, bit_and}
use natasha.Base.{ℤ, if◌then◌else◌, ◌==◌, bit_and_low, ◌∙◌}
use natasha.Word.{◌>>>◌, to_int32}
use natasha.NatTable.{Table, Rows, Row, entry, nat_lookup_ip}
use natasha.NatTable.Lookup.{indices_lem, nat_lookup_ip-eq-found, found}

-- `IPv4(a, b, c, d)` of rte_ip.h: the address in the host's order
abbrev pub ipv4 : ℕ → ℕ → ℕ → ℕ → ℕ
ipv4 a b c d = a * 2 ^ 24 + b * 2 ^ 16 + c * 2 ^ 8 + d

-- The three loops, on the rounds that are left.
unfoldable pub iter_cells : ℕ → ℕ → Row → ℕ → ℕ → List (ℕ × ℕ)
iter_cells i j row k zero = []
iter_cells i j row k (suc rounds) =
    let rest = iter_cells i j row (k + 1) rounds in
    if row k == 0 then rest else (ipv4 i j (bit_and (k >>> 8) 0xff) (bit_and k 0xff), row k) ∷ rest

-- `continue` where the array is NULL.
iter_row : ℕ → ℕ → Option Row → List (ℕ × ℕ)
iter_row i j none = []
iter_row i j (some row) = iter_cells i j row 0 65536

unfoldable pub iter_rows : ℕ → Rows → ℕ → ℕ → List (ℕ × ℕ)
unfolding iter_row
iter_rows i rows j zero = []
iter_rows i rows j (suc rounds) = iter_row i j (rows j) ++ iter_rows i rows (j + 1) rounds

iter_middle : ℕ → Option Rows → List (ℕ × ℕ)
iter_middle i none = []
iter_middle i (some rows) = iter_rows i rows 0 256

unfoldable pub iter_table : (ℕ → Option Rows) → ℕ → ℕ → List (ℕ × ℕ)
unfolding iter_middle
iter_table t i zero = []
iter_table t i (suc rounds) = iter_middle i (t i) ++ iter_table t (i + 1) rounds

unfoldable pub visited : Table → List (ℕ × ℕ)
visited none = []
visited (some t) = iter_table t 0 256

unfoldable pub nat_number_of_rules : Table → ℤ
nat_number_of_rules t = to_int32 (length (visited t) / 2)

-- The rules that a table holds, found by looking up one address after the other.
abbrev push : ℕ → Option ℕ → List (ℕ × ℕ) → List (ℕ × ℕ)
push ip none rest = rest
push ip (some v) rest = (ip, v) ∷ rest

unfoldable pub entries : Table → ℕ → ℕ → List (ℕ × ℕ)
entries t ip zero = []
entries t ip (suc rounds) =
    let rest = entries t (ip + 1) rounds in push ip (nat_lookup_ip t ip) rest

push-append :
    (ip : ℕ) (o : Option ℕ) (xs ys : List (ℕ × ℕ)) → push ip o (xs ++ ys) ≡ push ip o xs ++ ys
push-append ip none xs ys = refl
push-append ip (some v) xs ys = refl

entries-add :
    (t : Table) (a b ip : ℕ) → entries t ip (a + b) ≡ entries t ip a ++ entries t (ip + a) b
unfolding entries
entries-add t zero b ip = ap₂ (λ x n. entries t x n) (omega arith) (omega arith)
entries-add t (suc a) b ip =
    let sum : suc a + b ≡ suc (a + b) = omega arith in
    let next : ip + suc a ≡ ip + 1 + a = omega arith in
    rw (sum, next) (rw (entries-add t a b (ip + 1)) (push-append ip (nat_lookup_ip t ip) _ _))

-- One block more.
entries_blocks :
    (t : Table) (size rounds ip next : ℕ)
    → next ≡ ip + size
    → entries t ip size ++ entries t next (rounds * size) ≡ entries t ip (suc rounds * size)
entries_blocks t size rounds ip next e =
    let total : suc rounds * size ≡ size + rounds * size = omega arith in
    rw (total, e) (sym (entries-add t size (rounds * size) ip))

iter_rows-suc :
    (i : ℕ) (rows : Rows) (j rounds : ℕ)
    → iter_rows i rows j (suc rounds) ≡ iter_row i j (rows j) ++ iter_rows i rows (j + 1) rounds
unfolding iter_rows
iter_rows-suc i rows j rounds = refl

iter_table-suc :
    (t : ℕ → Option Rows) (i rounds : ℕ)
    → iter_table t i (suc rounds) ≡ iter_middle i (t i) ++ iter_table t (i + 1) rounds
unfolding iter_table
iter_table-suc t i rounds = refl

-- Where the lookups find nothing there are no entries.
entries-none :
    (t : Table) (ip rounds : ℕ)
    → ((k : ℕ) → k < rounds → nat_lookup_ip t (ip + k) ≡ none)
    → entries t ip rounds ≡ []
unfolding entries
entries-none t ip zero h = refl
entries-none t ip (suc rounds) h =
    let here : ip + 0 ≡ ip = omega arith in
    let first : nat_lookup_ip t ip ≡ none = rw here at (h 0 (omega arith)) in
    rw first (entries-none t (ip + 1) rounds later)
  where
    later : (k : ℕ) → k < rounds → nat_lookup_ip t (ip + 1 + k) ≡ none
    later k lt =
        let shift : ip + suc k ≡ ip + 1 + k = omega arith in rw shift at (h (suc k) (omega arith))

-- The address at the digits `i`, `j`, `k`.
abbrev at : ℕ → ℕ → ℕ → ℕ
at i j k = i * 2 ^ 24 + j * 2 ^ 16 + k

lookup-at :
    (t : Table) (i j k : ℕ)
    → i < 256
    → j < 256
    → k < 65536
    → nat_lookup_ip t (at i j k) ≡ found (entry t i j k)
lookup-at t i j k hi hj hk =
    ground (arith, nat_lookup_ip-eq-found t (at i j k), indices_lem (at i j k))

iter_cells_lem :
    (t : Table) (i j : ℕ) (row : Row) (k rounds : ℕ)
    → i < 256
    → j < 256
    → k + rounds ≤ 65536
    → ((n : ℕ) → entry t i j n ≡ row n)
    → iter_cells i j row k rounds ≡ entries t (at i j k) rounds
unfolding iter_cells entries
iter_cells_lem t i j row k zero hi hj hk h = refl
iter_cells_lem t i j row k (suc rounds) hi hj hk h =
    let next : at i j k + 1 ≡ at i j (k + 1) = omega arith in
    let ih = iter_cells_lem t i j row (k + 1) rounds hi hj (omega arith) h in
    rw (next, lookup-at t i j k hi hj (omega arith), h k)
      (ground (arith, ih, bit_and_low 8 (k / 256), bit_and_low 8 k))

row_lem :
    (t : Table) (i j : ℕ) (o : Option Row)
    → i < 256
    → j < 256
    → ((n : ℕ) → entry t i j n ≡ elim o [ none ↦ 0 | some row ↦ row n ])
    → iter_row i j o ≡ entries t (at i j 0) 65536
unfolding iter_row
row_lem t i j none hi hj h = sym (
    entries-none t (at i j 0) 65536 λ k lt.
      let e : at i j 0 + k ≡ at i j k = omega arith in rw (e, lookup-at t i j k hi hj lt, h k))
row_lem t i j (some row) hi hj h = iter_cells_lem t i j row 0 65536 hi hj (omega arith) h

iter_rows_lem :
    (t : Table) (i : ℕ) (rows : Rows) (j rounds : ℕ)
    → i < 256
    → j + rounds ≤ 256
    → ((j n : ℕ) → entry t i j n ≡ elim (rows j) [ none ↦ 0 | some row ↦ row n ])
    → iter_rows i rows j rounds ≡ entries t (at i j 0) (rounds * 65536)
iter_rows_lem t i rows j zero hi hj h = unfold iter_rows entries in refl
iter_rows_lem t i rows j (suc rounds) hi hj h =
    iter_rows-suc i rows j rounds
    ∙ ap₂ ◌++◌ (row_lem t i j (rows j) hi (omega arith) (h j))
        (iter_rows_lem t i rows (j + 1) rounds hi (omega arith) h)
    ∙ entries_blocks t 65536 rounds (at i j 0) (at i (j + 1) 0) (omega arith)

middle_lem :
    (t : Table) (i : ℕ) (o : Option Rows)
    → i < 256
    → ((j n : ℕ)
        → entry t i j n
          ≡ elim o [ none ↦ 0 | some rows ↦ elim (rows j) [ none ↦ 0 | some row ↦ row n ] ])
    → iter_middle i o ≡ entries t (at i 0 0) (2 ^ 24)
unfolding iter_middle
middle_lem t i none hi h = sym (
    entries-none t (at i 0 0) (2 ^ 24) λ k lt.
      let e : at i 0 0 + k ≡ at i (k / 65536) (k % 65536) = omega arith in
      rw (e, lookup-at t i (k / 65536) (k % 65536) hi (omega arith) (omega arith), h))
middle_lem t i (some rows) hi h = iter_rows_lem t i rows 0 256 hi (omega arith) h

iter_table_lem :
    (t : ℕ → Option Rows) (i rounds : ℕ)
    → i + rounds ≤ 256
    → iter_table t i rounds ≡ entries (some t) (at i 0 0) (rounds * 2 ^ 24)
iter_table_lem t i zero h = unfold iter_table entries in refl
iter_table_lem t i (suc rounds) h =
    iter_table-suc t i rounds
    ∙ ap₂ ◌++◌ (middle_lem (some t) i (t i) (omega arith) (λ j n. unfold entry in refl))
        (iter_table_lem t (i + 1) rounds (omega arith))
    ∙ entries_blocks (some t) (2 ^ 24) rounds (at i 0 0) (at (i + 1) 0 0) (omega arith)

-- The iteration calls its function for exactly the addresses that `nat_lookup_ip` finds, each once
-- and in ascending order, with the value found.
pub visited-eq-entries : (t : Table) → visited t ≡ entries t 0 (2 ^ 32)
unfolding visited
visited-eq-entries none = sym (entries-none none 0 (2 ^ 32) (λ k lt. unfold nat_lookup_ip in refl))
visited-eq-entries (some t) = iter_table_lem t 0 256 (omega arith)
