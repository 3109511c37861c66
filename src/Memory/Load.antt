-- ===== src/Memory/Load.antt =====
-- `config_port`, `config_nat_rule` and `rules_section` of src/parseconfig.y, and `app_config_load` of
-- src/config.c, with the memory that they take and free.
use natasha.Base.{ℕ, ◌+◌, Bool, true, false, List, [], ◌∷◌, if◌then◌else◌, Option, none, some}
use natasha.Base.{leb, ltb, is_neg, ◌==◌, ◌&&◌}
use natasha.Bytes.{update}
use natasha.Config.{AppConfig, max_ethports, IpVlan, null}
use natasha.NatTable.{Allocator, add_rules_to_table}
use natasha.Parse.{Content, Stmt, Cond}
use natasha.Memory.{
  new_blocks, parse_extra_ips, parse_content, parse_stmt, parse_cond, app_config_free,
}

-- What a file says, in order: `port n mtu m [vlan v] ip i ...;`, with the first address apart,
-- `nat rule from to;` and a section `rules`.
pub data Item : Type 0 where
  port_line : ℕ → ℕ → IpVlan → List IpVlan → Item
  nat_rule : ℕ → ℕ → Item
  rules_section : Content → Item

-- What an item leaves: the configuration with the calls so far, an error, or a write behind the
-- array of ports, after which C promises nothing.
pub data Parsed : Type 0 where
  loaded : AppConfig → ℕ → Parsed
  rejected : AppConfig → ℕ → Parsed
  out_of_bounds : Parsed

abbrev pub with_value {ℓ} : {A : Type ℓ} → AppConfig → Option A × ℕ → (A → ℕ → Parsed) → Parsed
with_value config (none, n) f = rejected config n
with_value config (some a, n) f = f a n

abbrev pub then_items : (AppConfig → ℕ → Parsed) → Parsed → Parsed
then_items f (loaded config n) = f config n
then_items f (rejected config n) = rejected config n
then_items f out_of_bounds = out_of_bounds

module _ (malloc : Allocator) where
  -- `rte_max_ethports` is DPDK's RTE_MAX_ETHPORTS, which the code compares the port with
  unfoldable pub parse_item : ℕ → Item → AppConfig → ℕ → Parsed
  unfolding parse_extra_ips new_blocks parse_content
  parse_item rte_max_ethports (port_line port mtu ip extra_ips) config n =
      with_value config (parse_extra_ips malloc extra_ips n) (λ next n1.
        if leb rte_max_ethports port
        then rejected config n1
        else with_value config (new_blocks malloc 1 (ip ∷ next) n1) (λ ips n2.
          if ltb port max_ethports
          then loaded
              (record config {
                ports = update config.ports port (record { ip_addresses = ips; mtu = mtu });
              })
              n2
          else out_of_bounds))
  parse_item rte_max_ethports (nat_rule from to) config n =
      let (ret, nat_lookup, n') = add_rules_to_table malloc config.nat_lookup from to n in
      if is_neg ret
      then rejected (record config { nat_lookup = nat_lookup }) n'
      else loaded (record config { nat_lookup = nat_lookup }) n'
  parse_item rte_max_ethports (rules_section content) config n =
      with_value config (parse_content malloc content n)
        (λ root n'. loaded (record config { rules = root }) n')

  unfoldable pub parse_items : ℕ → List Item → AppConfig → ℕ → Parsed
  unfolding parse_item
  parse_items rte_max_ethports [] config n = loaded config n
  parse_items rte_max_ethports (item ∷ items) config n =
      then_items (λ config' n'. parse_items rte_max_ethports items config' n')
        (parse_item rte_max_ethports item config n)

-- a configuration of zeroes
abbrev pub zeroed_config : AppConfig
zeroed_config = record {
  ports = λ port. record { ip_addresses = []; mtu = 0 };
  nat_lookup = none;
  rules = null;
  flags = 0;
}

abbrev pub same_string : List ℕ → List ℕ → Bool
same_string [] [] = true
same_string [] (y ∷ ys) = false
same_string (x ∷ xs) [] = false
same_string (x ∷ xs) (y ∷ ys) = (x == y) && same_string xs ys

-- "-f" and "/etc/natasha.conf"
abbrev pub option_f : List ℕ
option_f = 45 ∷ 102 ∷ []

abbrev pub default_file : List ℕ
default_file =
    47 ∷ 101 ∷ 116 ∷ 99 ∷ 47 ∷ 110 ∷ 97 ∷ 116 ∷ 97 ∷ 115 ∷ 104 ∷ 97 ∷ 46 ∷ 99 ∷ 111 ∷ 110 ∷ 102 ∷ []

-- the loop over the arguments behind the name of the program; `none` where an option is unknown or
-- its file is missing
unfoldable pub find_file : List (List ℕ) → List ℕ → Option (List ℕ)
find_file [] file = some file
find_file (arg ∷ []) file = none
find_file (arg ∷ name ∷ args) file =
    let rest = find_file args name in if same_string arg option_f then rest else none

-- What the parser has recognised of an item that a syntax error leaves unfinished, with a value that
-- was allocated: the addresses behind the first of a port line, or parts of a section `rules`.
pub data Phrase : Type 0 where
  config_port_extra_ips : List IpVlan → Phrase
  rules_content : Content → Phrase
  rules_stmt : Stmt → Phrase
  cond : Cond → Phrase

-- How a file ends behind its last whole item: as it should, or with a syntax error, when the parser's
-- stack holds the phrases, the first one lowest.
pub data Ending : Type 0 where
  complete : Ending
  syntax_error : List Phrase → Ending

-- What the system and the scanner make of a file: whether it opens, whether the scanner starts, its
-- whole items up to the end or a syntax error, and what is behind them.
pub record Files : Type 0 where
  pub fopen : List ℕ → Bool
  pub yylex_init : Bool
  pub items : List ℕ → List Item
  pub ending : List ℕ → Ending

-- the result, the calls of the allocator so far, and the blocks that were freed
pub record Load : Type 0 where
  pub config : Option AppConfig
  pub calls : ℕ
  pub frees : ℕ

-- whether there is a value, and the calls so far
abbrev pub has_value {ℓ} : {A : Type ℓ} → Option A × ℕ → Bool × ℕ
has_value (none, n) = (false, n)
has_value (some a, n) = (true, n)

module _ (malloc : Allocator) where
  unfoldable pub parse_phrase : Phrase → ℕ → Bool × ℕ
  unfolding parse_extra_ips parse_content parse_stmt parse_cond
  parse_phrase (config_port_extra_ips ips) n = has_value (parse_extra_ips malloc ips n)
  parse_phrase (rules_content content) n = has_value (parse_content malloc content n)
  parse_phrase (rules_stmt stmt) n = has_value (parse_stmt malloc stmt n)
  parse_phrase (cond what) n = has_value (parse_cond malloc what n)

  -- the calls after the semantic actions of unfinished phrases, up to one that fails; the parser
  -- drops their values
  unfoldable pub parse_phrases : List Phrase → ℕ → ℕ
  unfolding parse_phrase
  parse_phrases [] n = n
  parse_phrases (phrase ∷ phrases) n =
      let (done, n') = parse_phrase phrase n in
      let rest = parse_phrases phrases n' in if done then rest else n'

  -- `app_config_load` after `yyparse`
  unfoldable pub finish_load : Ending → Parsed → Option Load
  unfolding app_config_free parse_phrases
  finish_load complete (loaded config n) =
      some (record { config = some config; calls = n; frees = 0 })
  finish_load (syntax_error phrases) (loaded config n) =
      some
        (record { config = none; calls = parse_phrases phrases n; frees = app_config_free config })
  finish_load ending (rejected config n) =
      some (record { config = none; calls = n; frees = app_config_free config })
  finish_load ending out_of_bounds = none

-- `none` is the write out of bounds
unfoldable pub app_config_load : Allocator → ℕ → Files → List (List ℕ) → ℕ → Option Load
unfolding finish_load parse_items find_file
app_config_load malloc rte_max_ethports files args n =
    let failed : Option Load = some (record { config = none; calls = n + 1; frees = 1 }) in
    if malloc n
    then elim (find_file args default_file) [
      | none ↦ failed
      | some file ↦
          if files.fopen file && files.yylex_init
          then finish_load malloc (files.ending file)
              (parse_items malloc rte_max_ethports (files.items file) zeroed_config (n + 1))
          else failed
    ]
    else some (record { config = none; calls = n + 1; frees = 0 })
