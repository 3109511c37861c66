-- ===== src/Memory.antt =====
-- The memory of a configuration: the calls of `rte_zmalloc_socket` in the semantic actions of
-- src/parseconfig.y, and what `app_config_free` of src/config.c frees. Calls are counted; the
-- outcome of each is an argument, as for the NAT table.
pub mod Rules
pub mod Load
pub mod Lost
pub mod Endings
pub mod Items
pub mod Accounts
pub mod Bounds
use natasha.Base.{
  ℕ, zero, suc, ◌+◌, Bool, true, false, List, [], ◌∷◌, length, if◌then◌else◌, Option, none, some,
}
use natasha.Base.{leb, ltb, is_neg, ◌==◌, ◌&&◌}
use natasha.Bytes.{update}
use natasha.Config.{
  AppConfig, max_ethports, IpVlan, PortConfig, Action, drop, print, nat_rewrite, out,
  src_in_network, dst_in_network, vlan, Node, null, noop, action, seq, if_node, cond_node, and_node,
  or_node, ipv4_src_addr, ipv4_dst_addr,
}
use natasha.NatTable.{Allocator, add_rules_to_table}
use natasha.NatTable.Reset.{nat_reset_lookup_table}
use natasha.Parse.{
  Cond, and, or, in_network, on_vlan, Command, Content, nothing, followed_by, Stmt, semicolon,
  if_else, command, build_action,
}

-- the `data` of a node, one allocation or NULL
abbrev pub data_blocks : Action → ℕ
data_blocks drop = 0
data_blocks print = 0
data_blocks (nat_rewrite field) = 1
data_blocks (out packet) = 1
data_blocks (src_in_network n) = 1
data_blocks (dst_in_network n) = 1
data_blocks (vlan v) = 1

-- how many blocks `reset_rules` frees: those on the left, on the right, the data and the node
unfoldable pub reset_rules : Node → ℕ
reset_rules null = 0
reset_rules (noop l r) = reset_rules l + reset_rules r + 1
reset_rules (action a) = data_blocks a + 1
reset_rules (seq l r) = reset_rules l + reset_rules r + 1
reset_rules (if_node l r) = reset_rules l + reset_rules r + 1
reset_rules (cond_node l r) = reset_rules l + reset_rules r + 1
reset_rules (and_node l r) = reset_rules l + reset_rules r + 1
reset_rules (or_node l r) = reset_rules l + reset_rules r + 1

-- the loop over the addresses of the ports
unfoldable pub free_ports : (ℕ → PortConfig) → ℕ → ℕ → ℕ
free_ports ports i zero = 0
free_ports ports i (suc rounds) = length (ports i).ip_addresses + free_ports ports (i + 1) rounds

-- how many blocks `app_config_free` frees, the configuration itself the last
unfoldable pub app_config_free : AppConfig → ℕ
unfolding free_ports
app_config_free config =
    free_ports config.ports 0 max_ethports
    + nat_reset_lookup_table config.nat_lookup
    + reset_rules config.rules
    + 1

-- a semantic action that needs the value of another; `none` after `YYERROR`
abbrev pub and_then {ℓ ℓ'} :
    {A : Type ℓ} {B : Type ℓ'} → Option A × ℕ → (A → ℕ → Option B × ℕ) → Option B × ℕ
and_then (none, n) f = (none, n)
and_then (some a, n) f = f a n

module _ (malloc : Allocator) where
  -- `rte_zmalloc_socket` and `CHECK_PTR`, for a value that needs so many blocks
  unfoldable pub new_blocks {ℓ} : {A : Type ℓ} → ℕ → A → ℕ → Option A × ℕ
  new_blocks zero a n = (some a, n)
  new_blocks (suc blocks) a n =
      let rest = new_blocks blocks a (n + 1) in if malloc n then rest else (none, n + 1)

  unfoldable pub new_action : Action → ℕ → Option Node × ℕ
  unfolding new_blocks
  new_action a n = new_blocks (data_blocks a + 1) (action a) n

  unfoldable pub parse_cond : Cond → ℕ → Option Node × ℕ
  unfolding new_blocks new_action
  parse_cond (and lhs rhs) n =
      and_then (parse_cond lhs n)
        (λ l n1. and_then (parse_cond rhs n1) (λ r n2. new_blocks 1 (and_node l r) n2))
  parse_cond (or lhs rhs) n =
      and_then (parse_cond lhs n)
        (λ l n1. and_then (parse_cond rhs n1) (λ r n2. new_blocks 1 (or_node l r) n2))
  parse_cond (in_network ipv4_src_addr network) n = new_action (src_in_network network) n
  parse_cond (in_network ipv4_dst_addr network) n = new_action (dst_in_network network) n
  parse_cond (on_vlan v) n = new_action (vlan v) n

  -- `rules_content` after its two parts
  unfoldable pub parse_sequence : Node → Node → ℕ → Option Node × ℕ
  unfolding new_blocks
  parse_sequence null new n = (some new, n)
  parse_sequence prev null n = (some prev, n)
  parse_sequence prev new n = new_blocks 1 (seq prev new) n

  unfoldable mutual
    unfolding new_blocks parse_cond new_action parse_sequence

    pub parse_content : Content → ℕ → Option Node × ℕ
    parse_content nothing n = (some null, n)
    parse_content (followed_by prev new) n =
        and_then (parse_content prev n)
          (λ l n1. and_then (parse_stmt new n1) (λ r n2. parse_sequence l r n2))

    pub parse_stmt : Stmt → ℕ → Option Node × ℕ
    parse_stmt semicolon n = (some null, n)
    parse_stmt (if_else what body otherwise) n = and_then (parse_cond what n) (λ c n1.
        and_then (parse_content body n1) (λ b n2.
          and_then (parse_content otherwise n2)
            (λ e n3. new_blocks 2 (if_node (cond_node c b) e) n3)))
    parse_stmt (command c) n = new_action (build_action c) n

  -- the addresses behind the first, the last one first
  unfoldable pub parse_extra_ips : List IpVlan → ℕ → Option (List IpVlan) × ℕ
  unfolding new_blocks
  parse_extra_ips [] n = (some [], n)
  parse_extra_ips (ip ∷ ips) n =
      and_then (parse_extra_ips ips n) (λ next n1. new_blocks 1 (ip ∷ next) n1)
