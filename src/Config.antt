-- ===== src/Config.antt =====
-- The data of src/natasha.h, src/actions.h and src/conds.h: the configuration of a worker, and the
-- tree of rules that src/parseconfig.y builds. A function pointer of a rule with its `void *data`
-- is one constructor of `Action`.
use natasha.Base.{ℕ, List}
use natasha.NatTable.{Table}

-- `struct ip_vlan`; the list of `struct port_ip_addr` is a `List`
pub record IpVlan : Type 0 where
  pub ip : ℕ
  pub vlan : ℕ

pub record PortConfig : Type 0 where
  pub ip_addresses : List IpVlan
  pub mtu : ℕ

-- `IPV4_SRC_ADDR` and `IPV4_DST_ADDR`
pub data RewriteField : Type 0 where
  ipv4_src_addr ipv4_dst_addr : RewriteField

pub record Ipv4Network : Type 0 where
  pub ip : ℕ
  pub mask : ℕ

-- `next_hop` as a 48-bit number, first byte lowest
pub record OutPacket : Type 0 where
  pub port : ℕ
  pub vlan : ℕ
  pub next_hop : ℕ

pub data Action : Type 0 where
  drop : Action
  print : Action
  nat_rewrite : RewriteField → Action
  out : OutPacket → Action
  src_in_network : Ipv4Network → Action
  dst_in_network : Ipv4Network → Action
  vlan : ℕ → Action

-- `struct app_config_node *`; `null` is the null pointer
pub data Node : Type 0 where
  null : Node
  noop : Node → Node → Node
  action : Action → Node
  seq : Node → Node → Node
  if_node : Node → Node → Node
  cond_node : Node → Node → Node
  and_node : Node → Node → Node
  or_node : Node → Node → Node

-- NATASHA_MAX_ETHPORTS
abbrev pub max_ethports : ℕ
max_ethports = 2

-- `struct app_config`; `ports` is an array of NATASHA_MAX_ETHPORTS entries
pub record AppConfig : Type 0 where
  pub ports : ℕ → PortConfig
  pub nat_lookup : Table
  pub rules : Node
  pub flags : ℕ
