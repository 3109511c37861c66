-- ===== src/Ports.antt =====
-- `is_natasha_port_ip` and `is_natasha_ip` of src/pkt.c: the addresses of the program's own ports.
pub mod Members
use natasha.Base.{ℕ, zero, suc, ◌+◌, Bool, true, false, List, [], ◌∷◌}
use natasha.Base.{◌==◌, ◌&&◌, ltb, if◌then◌else◌, Option, none, some}
use natasha.Word.{u8}
use natasha.Platform.{Platform}
use natasha.Config.{AppConfig, IpVlan, max_ethports}

unfoldable pub has_ip : List IpVlan → ℕ → ℕ → Bool
has_ip [] ip vlan = false
has_ip (a ∷ rest) ip vlan = if (a.ip == ip) && (a.vlan == vlan) then true else has_ip rest ip vlan

unfoldable pub is_natasha_port_ip : AppConfig → ℕ → ℕ → ℕ → Bool
unfolding has_ip
is_natasha_port_ip config ip vlan port = has_ip (config.ports port).ip_addresses ip vlan

-- the loop over the ports, whose counter is a byte, on the rounds that are left; `none` where it
-- reads behind the array `ports`
unfoldable pub any_port : Platform → AppConfig → ℕ → ℕ → ℕ → ℕ → Option Bool
unfolding is_natasha_port_ip
any_port e config ip vlan port zero = none
any_port e config ip vlan port (suc rounds) =
    let rest = any_port e config ip vlan (u8 (port + 1)) rounds in
    if ltb port e.eth_dev_count
    then (if ltb port max_ethports
        then (if is_natasha_port_ip config ip vlan port then some true else rest)
        else none)
    else some false

-- Two rounds are for the entries of `ports`; the third ends, or reads behind them.
unfoldable pub is_natasha_ip : Platform → AppConfig → ℕ → ℕ → Bool
unfolding any_port
is_natasha_ip e config ip vlan = elim (any_port e config ip vlan 0 (max_ethports + 1)) [
  | none ↦ e.ports_out_of_range
  | some found ↦ found
]
