-- ===== src/Tests/Files.antt =====
-- The loading of a small file, and a reload with it.
use natasha.Base.{ℕ, zero, suc, ◌≡◌, refl, arith, true}
use natasha.Base.{List, [], ◌∷◌, Option, none, some}
use natasha.Config.{IpVlan}
use natasha.NatTable.{nat_lookup_ip}
use natasha.NatTable.Load.{load_nat_rules}
use natasha.NatTable.Abstract.{Represents, bind_rules, load-Represents}
use natasha.Memory.Load.{
  Item, port_line, nat_rule, rules_section, Files, out_of_bounds, zeroed_config, parse_item,
  app_config_load, option_f, config_port_extra_ips, syntax_error,
}
use natasha.Memory.Lost.{lost_by}
use natasha.Base.{inl}
use natasha.Memory.Accounts.{Balanced, app_config_load-Balanced}
use natasha.Memory.Bounds.{parse_item-out_of_bounds_iff}
use natasha.Reload.Sequence.{Reloading, Keeps, app_config_reload_all, app_config_reload_all-Keeps}
use natasha.Tests.{inside, outside, test_rules}

abbrev ip : IpVlan
ip = record { ip = 0x0a0000fe; vlan = 0 }

-- two lines for port 0, and an unfinished line at the end
abbrev items : List Item
items =
    port_line 0 1500 ip (ip ∷ [])
    ∷ port_line 1 1500 ip []
    ∷ port_line 0 9000 ip []
    ∷ nat_rule inside outside
    ∷ rules_section test_rules
    ∷ []

abbrev files : Files
files = record {
  fopen = λ name. true;
  yylex_init = true;
  items = λ name. items;
  ending = λ name. syntax_error (config_port_extra_ips (ip ∷ []) ∷ []);
}

app_config_load-Balanced_example :
    Balanced 0
      (lost_by 32 files (option_f ∷ (97 ∷ []) ∷ []))
      (app_config_load (λ i. true) 32 files (option_f ∷ (97 ∷ []) ∷ []) 0)
app_config_load-Balanced_example =
    app_config_load-Balanced (λ i. true) (λ i. refl) 32 (omega arith) files
      (option_f ∷ (97 ∷ []) ∷ []) 0
      (λ file. (inl (omega arith), (inl (omega arith), (inl (omega arith), tt))))

parse_item-out_of_bounds_iff_example :
    parse_item (λ i. true) 32 (port_line 2 1500 ip []) zeroed_config 0 ≡ out_of_bounds
parse_item-out_of_bounds_iff_example =
    (parse_item-out_of_bounds_iff (λ i. true) (λ i. refl) 32 2 1500 ip [] zeroed_config 0).1
      (omega arith, omega arith)

empty : Represents none []
unfolding nat_lookup_ip natasha.NatTable.entry
empty addr h = refl

-- a file that binds the inner address twice
load-Represents_example :
    let (ret, t, n) = load_nat_rules (λ i. true) none ((inside, outside) ∷ (inside, 5) ∷ []) 0 in
    (ret ≡ 0) × Represents t (bind_rules ((inside, outside) ∷ (inside, 5) ∷ []) [])
load-Represents_example =
    load-Represents (λ i. true) (λ i. refl) ((inside, outside) ∷ (inside, 5) ∷ []) none [] 0
      (omega arith, omega arith, (omega arith, omega arith, tt)) empty

-- the third loading, that of the second core, fails
abbrev loader : ℕ → Option ℕ
loader zero = some 10
loader (suc zero) = some 11
loader (suc (suc n)) = none

abbrev before : Reloading
before = record { app_config = λ core. some core; loads = []; freed = []; calls = 0 }

app_config_reload_all-Keeps_example :
    Keeps (1 ∷ 2 ∷ []) before (app_config_reload_all loader (1 ∷ 2 ∷ []) before).1
app_config_reload_all-Keeps_example =
    app_config_reload_all-Keeps loader (1 ∷ 2 ∷ []) before (refl, (refl, tt))
