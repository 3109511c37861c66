-- ===== src/Memory/Lost.antt =====
-- The blocks that a file of src/parseconfig.y makes `app_config_load` of src/config.c lose: neither
-- its result nor the configuration that it frees leads to them.
use natasha.Base.{
  ℕ, suc, ◌+◌, ◌<◌, ◌≤◌, ◌⊎◌, List, [], ◌∷◌, length, if◌then◌else◌, leb, none, some, ◌&&◌,
}
use natasha.Bytes.{update}
use natasha.Config.{max_ethports}
use natasha.Parse.{build_content, build_stmt, build_cond}
use natasha.Memory.{reset_rules}
use natasha.Memory.Load.{
  Item, port_line, nat_rule, rules_section, Phrase, config_port_extra_ips, rules_content,
  rules_stmt, cond, Ending, complete, syntax_error, Files, find_file, default_file,
}

-- No line names a port that the code takes but the array `ports` does not have.
abbrev pub IsInside : ℕ → List Item → Type 0
IsInside rte_max_ethports [] = Unit
IsInside rte_max_ethports (port_line port mtu ip extra_ips ∷ items) =
    ((port < max_ethports) ⊎ (rte_max_ethports ≤ port)) × IsInside rte_max_ethports items
IsInside rte_max_ethports (nat_rule from to ∷ items) = IsInside rte_max_ethports items
IsInside rte_max_ethports (rules_section content ∷ items) = IsInside rte_max_ethports items

abbrev pub blocks : Phrase → ℕ
blocks (config_port_extra_ips ips) = length ips
blocks (rules_content content) = reset_rules (build_content content)
blocks (rules_stmt stmt) = reset_rules (build_stmt stmt)
blocks (cond what) = reset_rules (build_cond what)

abbrev pub unfinished : List Phrase → ℕ
unfinished [] = 0
unfinished (phrase ∷ phrases) = blocks phrase + unfinished phrases

-- Lost are the addresses behind the first of a line whose port is refused, which ends the parsing;
-- the addresses of a port that a later line overwrites; the nodes of a section `rules` that a later
-- one overwrites; and all of an unfinished item. `ips` has the number of addresses of each port so
-- far, and `rules` that of the blocks of the rules.
unfoldable pub lost : ℕ → (ℕ → ℕ) → ℕ → List Item → Ending → ℕ
lost rte_max_ethports ips rules [] complete = 0
lost rte_max_ethports ips rules [] (syntax_error phrases) = unfinished phrases
lost rte_max_ethports ips rules (port_line port mtu ip extra_ips ∷ items) ending =
    let rest =
      lost rte_max_ethports (update ips port (suc (length extra_ips))) rules items ending in
    if leb rte_max_ethports port then length extra_ips else ips port + rest
lost rte_max_ethports ips rules (nat_rule from to ∷ items) ending =
    lost rte_max_ethports ips rules items ending
lost rte_max_ethports ips rules (rules_section content ∷ items) ending =
    rules + lost rte_max_ethports ips (reset_rules (build_content content)) items ending

-- by a loading; nothing if no file is parsed
unfoldable pub lost_by : ℕ → Files → List (List ℕ) → ℕ
unfolding lost
lost_by rte_max_ethports files args = elim (find_file args default_file) [
  | none ↦ 0
  | some file ↦
      if files.fopen file && files.yylex_init
      then lost rte_max_ethports (λ port. 0) 0 (files.items file) (files.ending file)
      else 0
]
