-- ===== src/Ports/Members.antt =====
-- Which addresses are the program's own: the lookups of src/pkt.c against membership in the lists
-- that the configuration gives its ports.
use mathlib.Core.List.{Memᴰ}
use mathlib.Core.List.Memᴰ.{head, tail}
use native.Mathlib.Decide.{ℕ_discrete}
use natasha.Base.{
  ℕ, zero, suc, ◌+◌, ◌≤◌, ◌<◌, ◌≡◌, arith, ap, ap₂, ◌↔◌, true, List, [], ◌∷◌, Bool-cases, inl, inr,
}
use natasha.Base.{◌==◌, ◌&&◌, Bool, false, ltb, Option, some, refl, ◌⊎◌}
use natasha.Word.{u8}
use natasha.Platform.{Platform}
use natasha.Config.{AppConfig, IpVlan, max_ethports}
use natasha.Ports.{has_ip, is_natasha_port_ip, any_port, is_natasha_ip}

-- the pair of an address and a VLAN
abbrev pub address : ℕ → ℕ → IpVlan
address i v = record { ip = i; vlan = v }

-- One of the ports from `port` on, for `rounds` ports, has the address in its list.
abbrev pub Owns : AppConfig → ℕ → ℕ → ℕ → ℕ → Type 0
Owns config ip vlan port rounds =
    (i : ℕ) × (port ≤ i)
    × (i < port + rounds)
    × Memᴰ (address ip vlan) (config.ports i).ip_addresses

has_ip-Memᴰ : (l : List IpVlan) (ip vlan : ℕ) → has_ip l ip vlan ≡ true → Memᴰ (address ip vlan) l
unfolding has_ip
has_ip-Memᴰ [] ip vlan h = absurd (ground arith)
has_ip-Memᴰ (a ∷ l) ip vlan h = elim (Bool-cases ((a.ip == ip) && (a.vlan == vlan))) [
  | inl same ↦ head (ap₂ address (ground arith) (ground arith))
  | inr ne ↦ tail (has_ip-Memᴰ l ip vlan (ground arith))
]

has_ip_of : (l : List IpVlan) (ip vlan : ℕ) → Memᴰ (address ip vlan) l → has_ip l ip vlan ≡ true
unfolding has_ip
has_ip_of [] ip vlan m = elim m [ ]
has_ip_of (a ∷ l) ip vlan (head h) =
    ground (arith, ap (λ (x : IpVlan). x.ip) h, ap (λ (x : IpVlan). x.vlan) h)
has_ip_of (a ∷ l) ip vlan (tail m) = ground (arith, has_ip_of l ip vlan m)

-- The loop from `port` on, with `k` devices to go, finds whether one of them has the address.
abbrev Decides : AppConfig → ℕ → ℕ → ℕ → ℕ → Option Bool → Type 0
Decides config ip vlan port k r =
    ((r ≡ some true) × Owns config ip vlan port k)
    ⊎ ((r ≡ some false) × ¬ Owns config ip vlan port k)

not_first :
    (config : AppConfig) (ip vlan port k : ℕ)
    → has_ip (config.ports port).ip_addresses ip vlan ≡ false
    → ¬ Owns config ip vlan (port + 1) k
    → ¬ Owns config ip vlan port (suc k)
not_first config ip vlan port k here later (i, lo, hi, m) = elim (ℕ_discrete port i) [
  | yes same ↦ cc (
    here,
    ap (λ n. has_ip (config.ports n).ip_addresses ip vlan) same,
    has_ip_of (config.ports i).ip_addresses ip vlan m,
  )
  | no ne ↦ later (i, omega arith, omega arith, m)
]

any_port-Decides :
    (e : Platform) (config : AppConfig) (ip vlan port k rounds : ℕ)
    → port + k ≡ e.eth_dev_count
    → e.eth_dev_count ≤ max_ethports
    → k < rounds
    → Decides config ip vlan port k (any_port e config ip vlan port rounds)
unfolding any_port is_natasha_port_ip
any_port-Decides e config ip vlan port k zero whole few enough = absurd (omega arith)
any_port-Decides e config ip vlan port zero (suc rounds) whole few enough =
    let done : ltb port e.eth_dev_count ≡ false = ground arith in
    rw done (inr (refl, λ (i, lo, hi, m). absurd (omega arith)))
any_port-Decides e config ip vlan port (suc k) (suc rounds) whole few enough =
    let more : ltb port e.eth_dev_count ≡ true = ground arith in
    let inside : ltb port max_ethports ≡ true = ground arith in
    let next : u8 (port + 1) ≡ port + 1 = omega arith in
    elim (Bool-cases (has_ip (config.ports port).ip_addresses ip vlan)) [
      | inl here ↦
          rw (more, inside, here)
            (inl (refl, (port, omega arith, omega arith, has_ip-Memᴰ _ ip vlan here)))
      | inr not_here ↦
          rw (more, inside, not_here, next)
            (elim (any_port-Decides e config ip vlan (port + 1) k rounds (omega arith) few
              (omega arith)) [
                | inl (found, (i, lo, hi, m)) ↦ inl (found, (i, omega arith, omega arith, m))
                | inr (missing, later) ↦
                    inr (missing, not_first config ip vlan port k not_here later)
              ])
    ]

-- With at most 2 devices, the length of the array `ports`, `is_natasha_ip` finds an address and a
-- VLAN exactly if they stand together in the list of one of the ports that the devices count.
pub is_natasha_ip_iff :
    (e : Platform) (config : AppConfig) (ip vlan : ℕ)
    → e.eth_dev_count ≤ max_ethports
    → (is_natasha_ip e config ip vlan ≡ true) ↔ Owns config ip vlan 0 e.eth_dev_count
unfolding is_natasha_ip
is_natasha_ip_iff e config ip vlan few =
    elim (any_port-Decides e config ip vlan 0 e.eth_dev_count (max_ethports + 1) (omega arith) few
      (omega arith)) [
        | inl (found, owns) ↦ rw (found, is_natasha_ip) ((λ h. owns), (λ h. refl))
        | inr (missing, none_owns) ↦
            rw (missing, is_natasha_ip) ((λ h. absurd (cc h)), (λ h. absurd (none_owns h)))
      ]
