-- ===== src/NatTable.antt =====
-- The NAT lookup table of src/action_nat.c: three levels of arrays, indexed by the first byte, the
-- second byte and the last two bytes of an address, in which 0 stands for "no rule".
pub mod Lookup
pub mod Load
pub mod Iter
pub mod Failure
pub mod Abstract
pub mod Totals
pub mod Reset
use natasha.Base.{ℕ, ◌+◌, ◌-◌, ◌*◌, ◌/◌, ◌%◌, ◌^◌, Bool, true, false, Option, none, some, ◌==◌}
use natasha.Base.{if◌then◌else◌, bit_and, bit_or, ℤ, pos, negsuc, minus_one}
use natasha.Word.{◌>>>◌, bswap32}
use natasha.Bytes.{update}

-- `uint32_t *`, `uint32_t **` and `uint32_t ***`; `none` is NULL
abbrev pub Row : Type 0
Row = ℕ → ℕ

abbrev pub Rows : Type 0
Rows = ℕ → Option Row

abbrev pub Table : Type 0
Table = Option (ℕ → Option Rows)

-- `(ip >> 24) & 0xff`, `(ip >> 16) & 0xff`, `(ip & 0xff00) | (ip & 0xff)`
unfoldable pub fstb : ℕ → ℕ
fstb ip = bit_and (ip >>> 24) 0xff

unfoldable pub sndb : ℕ → ℕ
sndb ip = bit_and (ip >>> 16) 0xff

unfoldable pub l2b : ℕ → ℕ
l2b ip = bit_or (bit_and ip 0xff00) (bit_and ip 0xff)

-- The cell of `ip`, 0 where an array on the way to it is missing.
unfoldable pub entry : Table → ℕ → ℕ → ℕ → ℕ
entry none i j k = 0
entry (some t) i j k = elim (t i) [
  | none ↦ 0
  | some rows ↦ elim (rows j) [ none ↦ 0 | some row ↦ row k ]
]

-- `none` is the result -1, `some value` the result 0 with what is stored through `value`.
unfoldable pub nat_lookup_ip : Table → ℕ → Option ℕ
unfolding entry
nat_lookup_ip t ip =
    let v : ℕ = entry t (fstb ip) (sndb ip) (l2b ip) in if v == 0 then none else some v

-- The outcomes of `rte_zmalloc_socket`, and how many calls were made.
abbrev pub Allocator : Type 0
Allocator = ℕ → Bool

-- an array as `rte_zmalloc_socket` returns it
abbrev zeroed {ℓ} : {A : Type ℓ} → A → ℕ → A
zeroed a i = a

module _ (malloc : Allocator) where
  add_to_row : Option Row → ℕ → ℕ → ℕ → Option Row × ℕ
  add_to_row (some row) k value n = (some (update row k value), n)
  add_to_row none k value n =
      if malloc n then (some (update (zeroed 0) k value), n + 1) else (none, n + 1)

  add_to_rows : Option Rows → ℕ → ℕ → ℕ → ℕ → Option Rows × ℕ
  unfolding add_to_row
  add_to_rows (some rows) j k value n =
      let (row, n') = add_to_row (rows j) k value n in
      elim row [ none ↦ (none, n') | some r ↦ (some (update rows j (some r)), n') ]
  add_to_rows none j k value n =
      if malloc n
      then (let (row, n') = add_to_row none k value (n + 1) in
          elim row [ none ↦ (none, n') | some r ↦ (some (update (zeroed none) j (some r)), n') ])
      else (none, n + 1)

  -- When an allocation fails, the arrays on the path are freed and NULL is returned: the table and
  -- all that it held is lost.
  unfoldable pub add_rule_to_table : Table → ℕ → ℕ → ℕ → Table × ℕ
  unfolding add_to_rows
  add_rule_to_table (some t) key value n =
      let (rows, n') = add_to_rows (t (fstb key)) (sndb key) (l2b key) value n in
      elim rows [ none ↦ (none, n') | some r ↦ (some (update t (fstb key) (some r)), n') ]
  add_rule_to_table none key value n =
      if malloc n
      then (let (rows, n') = add_to_rows none (sndb key) (l2b key) value (n + 1) in
          elim rows [
            | none ↦ (none, n')
            | some r ↦ (some (update (zeroed none) (fstb key) (some r)), n')
          ])
      else (none, n + 1)

  -- The code tests `nat_lookup == NULL`, the address of the table's variable, which is never NULL,
  -- so both error branches are dead.
  unfoldable pub add_rules_to_table : Table → ℕ → ℕ → ℕ → ℤ × Table × ℕ
  add_rules_to_table t int_ip ext_ip n =
      let (t1, n1) = add_rule_to_table t int_ip (bswap32 ext_ip) n in
      let (t2, n2) = add_rule_to_table t1 ext_ip (bswap32 int_ip) n1 in (pos 0, t2, n2)
