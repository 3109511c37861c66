-- ===== src/Memory/Bounds.antt =====
-- The bounds of `ports[]` in `config_port` of src/parseconfig.y.
use natasha.Base.{ℕ, ◌+◌, ◌<◌, ◌≤◌, ◌≡◌, ◌↔◌, refl, arith, inl, inr, true, Bool-cases}
use natasha.Base.{List, ◌∷◌, length, leb, ltb}
use natasha.Config.{AppConfig, max_ethports, IpVlan}
use natasha.NatTable.{Allocator}
use natasha.Memory.Rules.{new_blocks-Takes, parse_extra_ips-Takes}
use natasha.Memory.Load.{out_of_bounds, port_line, parse_item}

module _ (malloc : Allocator) (ok : (i : ℕ) → malloc i ≡ true) (rte_max_ethports : ℕ) where
  -- Where every allocation succeeds: a line for a port writes behind the array of ports exactly if
  -- its port is neither below 2, the length of the array, nor RTE_MAX_ETHPORTS or above.
  pub parse_item-out_of_bounds_iff :
      (port mtu : ℕ) (ip : IpVlan) (extra_ips : List IpVlan) (config : AppConfig) (n : ℕ)
      → (parse_item malloc rte_max_ethports (port_line port mtu ip extra_ips) config n
          ≡ out_of_bounds)
        ↔ ((max_ethports ≤ port) × (port < rte_max_ethports))
  unfolding parse_item
  parse_item-out_of_bounds_iff port mtu ip extra_ips config n =
      let extra = parse_extra_ips-Takes malloc ok extra_ips n in
      let first = new_blocks-Takes malloc ok 1 (ip ∷ extra_ips) (n + length extra_ips) in
      elim (Bool-cases (leb rte_max_ethports port)) [
        | inl above ↦ rw (extra, above) ((λ e. absurd (cc e)), (λ h. absurd (ground arith)))
        | inr below ↦ elim (Bool-cases (ltb port max_ethports)) [
          | inl inside ↦
              rw (extra, below, first, inside) ((λ e. absurd (cc e)), (λ h. absurd (ground arith)))
          | inr outside ↦
              rw (extra, below, first, outside) ((λ e. (ground arith, ground arith)), (λ h. refl))
        ]
      ]
