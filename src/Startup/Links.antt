-- ===== src/Startup/Links.antt =====
-- How long `check_ports_link_status` of src/core.c waits.
use natasha.Base.{ℕ, zero, suc, ◌+◌, ◌*◌, ◌≤◌, ◌<◌, ◌≡◌, ◌⊎◌, refl, subst, arith, inl, inr}
use natasha.Base.{Bool, true, false, Bool-cases, ==_iff, if◌then◌else◌, ◌==◌}
use natasha.Startup.{Dpdk, Setup}
use natasha.Startup.App.{
  max_check_time, check_interval, ports_up, check_links, check_ports_link_status,
}

if_both : (b r : Bool) → (if b then r else false) ≡ true → (b ≡ true) × (r ≡ true)
if_both true r h = (refl, h)
if_both false r h = absurd (cc h)

module _ (d : Dpdk) where
  -- every link is up, after so many milliseconds
  abbrev pub IsUp : ℕ → ℕ → Type 0
  IsUp port_max waited = (port : ℕ) → port < port_max → d.link_up waited port ≡ true

  ports_up→up :
      (waited port rounds : ℕ)
      → ports_up d waited port rounds ≡ true
      → (p : ℕ) → port ≤ p
      → p < port + rounds
      → d.link_up waited p ≡ true
  unfolding ports_up
  ports_up→up waited port zero h p lo hi = absurd (omega arith)
  ports_up→up waited port (suc rounds) h p lo hi =
      let (up, rest) = if_both (d.link_up waited port) (ports_up d waited (port + 1) rounds) h in
      elim (Bool-cases (port == p)) [
        | inl same ↦ subst (λ q. d.link_up waited q ≡ true) ((==_iff port p).0 same) up
        | inr other ↦ ports_up→up waited (port + 1) rounds rest p (ground arith) (omega arith)
      ]

  up→ports_up :
      (waited port rounds : ℕ)
      → ((p : ℕ) → port ≤ p → p < port + rounds → d.link_up waited p ≡ true)
      → ports_up d waited port rounds ≡ true
  unfolding ports_up
  up→ports_up waited port zero h = refl
  up→ports_up waited port (suc rounds) h =
      rw (h port (omega arith) (omega arith))
        (up→ports_up waited (port + 1) rounds (λ p lo hi. h p (omega arith) (omega arith)))

  -- `n` waits from `waited` on, before each of which not all links were up; then all are up, or as
  -- many rounds as allowed are over
  abbrev pub Waits : ℕ → ℕ → ℕ → ℕ → Type 0
  Waits port_max count waited waited' =
      (n : ℕ) × (count + n ≤ max_check_time)
      × (waited' ≡ waited + check_interval * n)
      × ((k : ℕ) → k < n → ¬ IsUp port_max (waited + check_interval * k))
      × (IsUp port_max waited' ⊎ (count + n ≡ max_check_time))

  not-IsUp : (port_max waited : ℕ) → ports_up d waited 0 port_max ≡ false → ¬ IsUp port_max waited
  not-IsUp port_max waited down up =
      cc (down, up→ports_up waited 0 port_max (λ p lo hi. up p (omega arith)))

  not_yet :
      (port_max waited n : ℕ)
      → ports_up d waited 0 port_max ≡ false
      → ((k : ℕ) → k < n → ¬ IsUp port_max (waited + check_interval + check_interval * k))
      → (k : ℕ) → k < suc n
      → ¬ IsUp port_max (waited + check_interval * k)
  not_yet port_max waited n down before zero h =
      subst (λ t. ¬ IsUp port_max t) (omega arith) (not-IsUp port_max waited down)
  not_yet port_max waited n down before (suc k) h =
      subst (λ t. ¬ IsUp port_max t) (omega arith) (before k (omega arith))

  -- a wait, then the waits from there on
  Waits-later :
      (port_max count waited waited' : ℕ)
      → ports_up d waited 0 port_max ≡ false
      → Waits port_max (count + 1) (waited + check_interval) waited'
      → Waits port_max count waited waited'
  Waits-later port_max count waited waited' down (n, few, at, before, last) = (
    suc n,
    omega arith,
    omega arith,
    λ k h. not_yet port_max waited n down before k h,
    (elim last [ inl up ↦ inl up | inr over ↦ inr (omega arith) ]),
  )

  check_links-Waits :
      (port_max count rounds waited : ℕ)
      → count < max_check_time
      → count + rounds ≡ max_check_time + 1
      → Waits port_max count waited (check_links d port_max count rounds waited)
  unfolding check_links
  check_links-Waits port_max count zero waited few all = absurd (omega arith)
  check_links-Waits port_max count (suc rounds) waited few all =
      elim (Bool-cases (ports_up d waited 0 port_max)) [
        | inl up ↦ rw up (
          0,
          omega arith,
          omega arith,
          λ k h. absurd (omega arith),
          inl (λ p h. ports_up→up waited 0 port_max up p (omega arith) (omega arith)),
        )
        | inr down ↦ elim (Bool-cases (suc count == max_check_time)) [
          | inl last ↦
              rw (down, last)
                (Waits-later port_max count waited (waited + check_interval) down
                  (0, omega arith, omega arith, λ k h. absurd (omega arith), inr (ground arith)))
          | inr more ↦
              rw (down, more)
                (Waits-later port_max count waited _ down (
                  check_links-Waits port_max (count + 1) rounds (waited + check_interval)
                    (ground arith) (omega arith)))
        ]
      ]

  -- The check of the links of the ports below `port_max` waits 100 milliseconds at most 90 times;
  -- before each of the waits not all links were up, and after the last all are up or 90 were made.
  pub check_ports_link_status-Waits :
      (port_max : ℕ) (s : Setup)
      → Waits port_max 0 s.waited (check_ports_link_status d port_max s).waited
  unfolding check_ports_link_status
  check_ports_link_status-Waits port_max s =
      check_links-Waits port_max 0 (max_check_time + 1) s.waited (omega arith) (omega arith)
