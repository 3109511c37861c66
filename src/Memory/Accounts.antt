-- ===== src/Memory/Accounts.antt =====
-- The memory that `app_config_load` of src/config.c takes, against what is freed.
use natasha.Base.{ℕ, ◌+◌, ◌≤◌, ◌≡◌, refl, arith, inl, inr}
use natasha.Base.{true, Bool-cases, ◌&&◌, List, Option, none, some, Option-cases}
use natasha.Config.{max_ethports}
use natasha.NatTable.{Allocator}
use natasha.NatTable.Reset.{nat_reset_lookup_table}
use natasha.Memory.{reset_rules, free_ports, app_config_free}
use natasha.Memory.Load.{zeroed_config, find_file, default_file, Files, Load, app_config_load}
use natasha.Memory.Lost.{IsInside, lost_by}
use natasha.Memory.Endings.{held}
use natasha.Memory.Items.{Has, parse_items-Accounted}

-- A loading that writes nowhere out of bounds, and whose result holds what it neither frees nor
-- loses.
abbrev pub Balanced : ℕ → ℕ → Option Load → Type 0
Balanced n gone r = (l : Load) × (r ≡ some l) × (held l.config + l.frees + gone + n ≡ l.calls)

zeroed-Has : Has (λ port. 0) 0 zeroed_config
zeroed-Has = record { addresses = λ port. refl; nodes = unfold reset_rules in refl }

zeroed-free : app_config_free zeroed_config ≡ 1
unfolding app_config_free free_ports nat_reset_lookup_table reset_rules
zeroed-free = refl

module _ (malloc : Allocator) (ok : (i : ℕ) → malloc i ≡ true) (rte_max_ethports : ℕ)
    (enough : max_ethports ≤ rte_max_ethports) where
  -- Where every allocation succeeds and RTE_MAX_ETHPORTS is at least 2, for files that name no port
  -- from 2 to RTE_MAX_ETHPORTS - 1: loading a configuration never writes out of bounds, and of the
  -- blocks that it allocates all are freed, by itself when it fails, or else by `app_config_free` on
  -- its result, but for those that `lost_by` counts: the addresses and rules that later lines and
  -- sections overwrite, the addresses behind the first of a line whose port is refused, and the
  -- parts of an item that a syntax error leaves unfinished.
  pub app_config_load-Balanced :
      (files : Files) (args : List (List ℕ)) (n : ℕ)
      → ((file : List ℕ) → IsInside rte_max_ethports (files.items file))
      → Balanced n
          (lost_by rte_max_ethports files args)
          (app_config_load malloc rte_max_ethports files args n)
  unfolding app_config_load lost_by
  app_config_load-Balanced files args n inside =
      let failed : Load = record { config = none; calls = n + 1; frees = 1 } in
      elim (Option-cases (find_file args default_file)) [
        | inl bad ↦ rw (ok n, bad, lost_by) (failed, refl, omega arith)
        | inr (file, good) ↦ elim (Bool-cases (files.fopen file && files.yylex_init)) [
          | inr closed ↦ rw (ok n, good, closed, lost_by) (failed, refl, omega arith)
          | inl opened ↦
              let (l, done, sum) =
                parse_items-Accounted malloc ok rte_max_ethports enough (files.ending file)
                  (files.items file) (λ port. 0) 0 zeroed_config (n + 1) (inside file) zeroed-Has in
              rw (ok n, good, opened, lost_by) (l, done, omega (arith, sum, zeroed-free))
        ]
      ]
