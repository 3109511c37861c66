-- ===== src/Memory/Items.antt =====
-- The items of a file of src/parseconfig.y, with every block that they take accounted for.
use natasha.Base.{ℕ, zero, suc, ◌+◌, ◌<◌, ◌≤◌, ◌≡◌, refl, sym, ap, subst, ◌∙◌, arith, inl, inr}
use natasha.Base.{none, true, false, Bool-cases, List, [], ◌∷◌, length, leb, ltb, ◌==◌}
use natasha.Bytes.{update}
use natasha.Config.{AppConfig, max_ethports, IpVlan, PortConfig}
use natasha.NatTable.{Allocator, add_rules_to_table}
use natasha.NatTable.Reset.{add_rules-kept}
use natasha.Parse.{Content, build_content}
use natasha.Memory.{reset_rules, free_ports, app_config_free}
use natasha.Memory.Rules.{new_blocks-Takes, parse_content-Owns, parse_extra_ips-Takes}
use natasha.Memory.Lost.{IsInside, lost}
use natasha.Memory.Load.{
  Item, port_line, nat_rule, rules_section, loaded, rejected, with_value, Ending, finish_load,
  parse_item, then_items, parse_items,
}
use natasha.Memory.Endings.{Accounted, finish_load-Accounted}

-- what a configuration has so far
pub record Has (ips : ℕ → ℕ) (rules : ℕ) (config : AppConfig) : Type 0 where
  pub addresses : (port : ℕ) → length (config.ports port).ip_addresses ≡ ips port
  pub nodes : reset_rules config.rules ≡ rules

Has-port_line :
    (ips : ℕ → ℕ) (rules : ℕ) (config : AppConfig) (port : ℕ) (c : PortConfig)
    → Has ips rules config
    → Has
        (update ips port (length c.ip_addresses))
        rules
        (record config { ports = update config.ports port c })
Has-port_line ips rules config port c has = record {
  addresses = λ p. elim (Bool-cases (port == p)) [
    | inl same ↦ rw same refl
    | inr other ↦ rw other (has.addresses p)
  ];
  nodes = has.nodes;
}

free_ports_lem :
    (ports : ℕ → PortConfig) (port : ℕ) (c : PortConfig)
    → port < max_ethports
    → free_ports (update ports port c) 0 max_ethports + length (ports port).ip_addresses
      ≡ free_ports ports 0 max_ethports + length c.ip_addresses
unfolding free_ports
free_ports_lem ports zero c h = omega arith
free_ports_lem ports (suc zero) c h = omega arith
free_ports_lem ports (suc (suc port)) c h = absurd (omega arith)

module _ (malloc : Allocator) (ok : (i : ℕ) → malloc i ≡ true) (rte_max_ethports : ℕ)
    (enough : max_ethports ≤ rte_max_ethports) where
  -- one item, then the others
  Accounted-then :
      (ending : Ending) (items : List Item) (item : Item) (config config' : AppConfig)
      (n n' old gone : ℕ)
      → parse_item malloc rte_max_ethports item config n ≡ loaded config' n'
      → app_config_free config' + old + n ≡ app_config_free config + n'
      → Accounted config' n' gone
          (finish_load malloc ending (parse_items malloc rte_max_ethports items config' n'))
      → Accounted config n
          (old + gone)
          (finish_load malloc ending (parse_items malloc rte_max_ethports (item ∷ items) config n))
  unfolding parse_items
  Accounted-then ending items item config config' n n' old gone e kept (l, done, sum) = (
    l,
    ap
          (λ r.
            finish_load malloc ending
              (then_items (λ c k. parse_items malloc rte_max_ethports items c k) r))
          e
        ∙ done,
    omega (arith, kept, sum),
  )

  port_line-loads :
      (port mtu : ℕ) (ip : IpVlan) (extra_ips : List IpVlan) (config : AppConfig) (n : ℕ)
      → port < max_ethports
      → let config' : AppConfig = record config {
        ports = update config.ports port (record { ip_addresses = ip ∷ extra_ips; mtu = mtu });
      } in
        let n' = n + length extra_ips + 1 in
        (parse_item malloc rte_max_ethports (port_line port mtu ip extra_ips) config n
          ≡ loaded config' n')
        × (app_config_free config' + length (config.ports port).ip_addresses + n
            ≡ app_config_free config + n')
  unfolding parse_item app_config_free
  port_line-loads port mtu ip extra_ips config n h =
      let inside : leb rte_max_ethports port ≡ false = ground arith in
      let below : ltb port max_ethports ≡ true = ground arith in
      (
        rw
            (
              parse_extra_ips-Takes malloc ok extra_ips n,
              inside,
              new_blocks-Takes malloc ok 1 (ip ∷ extra_ips) (n + length extra_ips),
              below,
            )
            refl,
        omega (
          arith,
          free_ports_lem config.ports port (record { ip_addresses = ip ∷ extra_ips; mtu = mtu }) h,
        ),
      )

  port_line-rejected :
      (port mtu : ℕ) (ip : IpVlan) (extra_ips : List IpVlan) (config : AppConfig) (n : ℕ)
      → leb rte_max_ethports port ≡ true
      → parse_item malloc rte_max_ethports (port_line port mtu ip extra_ips) config n
        ≡ rejected config (n + length extra_ips)
  unfolding parse_item
  port_line-rejected port mtu ip extra_ips config n above =
      rw (parse_extra_ips-Takes malloc ok extra_ips n, above) refl

  nat_rule-loads :
      (from to : ℕ) (config : AppConfig) (n : ℕ)
      → let (ret, t, n') = add_rules_to_table malloc config.nat_lookup from to n in
        parse_item malloc rte_max_ethports (nat_rule from to) config n
        ≡ loaded (record config { nat_lookup = t }) n'
  unfolding parse_item add_rules_to_table
  nat_rule-loads from to config n = refl

  nat_rule-kept :
      (from to : ℕ) (config : AppConfig) (n : ℕ)
      → let (ret, t, n') = add_rules_to_table malloc config.nat_lookup from to n in
        app_config_free (record config { nat_lookup = t }) + n ≡ app_config_free config + n'
  unfolding app_config_free
  nat_rule-kept from to config n =
      omega (arith, add_rules-kept malloc ok config.nat_lookup from to n)

  rules_section-loads :
      (content : Content) (config : AppConfig) (n : ℕ)
      → parse_item malloc rte_max_ethports (rules_section content) config n
        ≡ loaded
            (record config { rules = build_content content })
            (n + reset_rules (build_content content))
  unfolding parse_item
  rules_section-loads content config n =
      ap (λ r. with_value config r (λ root n'. loaded (record config { rules = root }) n'))
        (parse_content-Owns malloc ok content n)

  rules_section-kept :
      (content : Content) (config : AppConfig) (n : ℕ)
      → app_config_free (record config { rules = build_content content })
          + reset_rules config.rules
          + n
        ≡ app_config_free config + (n + reset_rules (build_content content))
  unfolding app_config_free
  rules_section-kept content config n = omega arith

  pub parse_items-Accounted :
      (ending : Ending) (items : List Item) (ips : ℕ → ℕ) (rules : ℕ) (config : AppConfig) (n : ℕ)
      → IsInside rte_max_ethports items
      → Has ips rules config
      → Accounted config n
          (lost rte_max_ethports ips rules items ending)
          (finish_load malloc ending (parse_items malloc rte_max_ethports items config n))
  unfolding lost
  parse_items-Accounted ending [] ips rules config n inside has =
      unfold parse_items in
      finish_load-Accounted malloc ok rte_max_ethports ips rules ending config n
  parse_items-Accounted ending (port_line port mtu ip extra_ips ∷ items) ips rules config n
        (valid, inside) has =
      let item = port_line port mtu ip extra_ips in
      elim (Bool-cases (leb rte_max_ethports port)) [
        | inl above ↦ rw above (
          record { config = none; calls = n + length extra_ips; frees = app_config_free config },
          unfold parse_items in
              unfold finish_load in
              ap
                (λ r.
                  finish_load malloc ending
                    (then_items (λ c k. parse_items malloc rte_max_ethports items c k) r))
                (port_line-rejected port mtu ip extra_ips config n above),
          omega arith,
        )
        | inr below ↦
            let h : port < max_ethports = ground arith in
            let c : PortConfig = record { ip_addresses = ip ∷ extra_ips; mtu = mtu } in
            let config' : AppConfig = record config { ports = update config.ports port c } in
            let n' = n + length extra_ips + 1 in
            let (e, kept) = port_line-loads port mtu ip extra_ips config n h in
            rw (below, sym (has.addresses port))
              (Accounted-then ending items item config config' n n' _ _ e kept (
                parse_items-Accounted ending items (update ips port (suc (length extra_ips))) rules
                  config' n' inside (Has-port_line ips rules config port c has)))
      ]
  parse_items-Accounted ending (nat_rule from to ∷ items) ips rules config n inside has =
      let (ret, t, n') = add_rules_to_table malloc config.nat_lookup from to n in
      let config' : AppConfig = record config { nat_lookup = t } in
      let whole =
        finish_load malloc ending
          (parse_items malloc rte_max_ethports (nat_rule from to ∷ items) config n) in
      let gone = lost rte_max_ethports ips rules items ending in
      let none_lost : 0 + gone ≡ gone = omega arith in
      subst (λ k. Accounted config n k whole) none_lost
        (Accounted-then ending items (nat_rule from to) config config' n n' 0 gone
          (nat_rule-loads from to config n) (omega (arith, nat_rule-kept from to config n))
          (parse_items-Accounted ending items ips rules config' n' inside
            (record { addresses = has.addresses; nodes = has.nodes })))
  parse_items-Accounted ending (rules_section content ∷ items) ips rules config n inside has =
      let config' : AppConfig = record config { rules = build_content content } in
      let n' = n + reset_rules (build_content content) in
      rw (sym has.nodes) (
        Accounted-then ending items (rules_section content) config config' n n' _ _
          (rules_section-loads content config n) (rules_section-kept content config n)
          (parse_items-Accounted ending items ips (reset_rules (build_content content)) config' n'
            inside (record { addresses = has.addresses; nodes = refl })))
