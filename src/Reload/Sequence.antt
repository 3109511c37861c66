-- ===== src/Reload/Sequence.antt =====
-- `app_config_reload_all` of src/config.c from the master's side: the configurations that it loads,
-- gives to the cores and frees. A configuration is its address, and each wait for a worker ends.
use natasha.Base.{ℕ, ◌+◌, ◌≡◌, refl, ap, ◌∙◌, arith, inl, inr, Bool, true, false}
use natasha.Base.{
  ℤ, pos, minus_one, List, [], ◌∷◌, count, if◌then◌else◌, ◌==◌, ==_refl, Option, none, some,
  Option-cases,
}
use natasha.Bytes.{update}

-- `cores[core].app_config`, the loadings that succeeded and the configurations that were freed, the
-- last one first, and the number of calls of `app_config_load`
pub record Reloading : Type 0 where
  pub app_config : ℕ → Option ℕ
  pub loads : List ℕ
  pub freed : List ℕ
  pub calls : ℕ

-- `if (old_config) ... app_config_free(old_config)`
abbrev pub free_config : Option ℕ → List ℕ → List ℕ
free_config none freed = freed
free_config (some config) freed = config ∷ freed

-- a loading that succeeded
abbrev pub loaded : ℕ → Reloading → Reloading
loaded config s = record s { calls = s.calls + 1; loads = config ∷ s.loads }

-- `app_config_load`, with what is done with its result, or a failure for NULL
abbrev pub with_config :
    Option ℕ → Reloading → (ℕ → Reloading → Bool × Reloading) → Bool × Reloading
with_config none s f = (false, record s { calls = s.calls + 1 })
with_config (some config) s f = f config (loaded config s)

-- the switch of a core to a new configuration, and the end of its old one
unfoldable pub switch_core : ℕ → ℕ → Reloading → Reloading
switch_core core new_config s = record s {
  app_config = update s.app_config core (some new_config);
  freed = free_config (s.app_config core) s.freed;
}

module _ (load : ℕ → Option ℕ) where
  -- the loop over the worker cores, with whether it came to its end
  unfoldable pub reload_cores : List ℕ → Reloading → Bool × Reloading
  unfolding switch_core
  reload_cores [] s = (true, s)
  reload_cores (core ∷ cores) s =
      with_config (load s.calls) s
        (λ new_config s'. reload_cores cores (switch_core core new_config s'))

  -- the result, 0 or -1, with the state
  unfoldable pub app_config_reload_all : List ℕ → Reloading → ℤ × Reloading
  unfolding reload_cores
  app_config_reload_all cores s =
      let (ok, s') = with_config (load s.calls) s (λ master_config s1.
        let (ok, s2) = reload_cores cores s1 in
        (ok, record s2 { freed = master_config ∷ s2.freed })) in
      (if ok then pos 0 else minus_one, s')

abbrev is_config : ℕ → Option ℕ → ℕ
is_config q none = 0
is_config q (some config) = if config == q then 1 else 0

-- how many of the cores have a configuration
abbrev pub users : ℕ → List ℕ → (ℕ → Option ℕ) → ℕ
users q [] app_config = 0
users q (core ∷ cores) app_config = is_config q (app_config core) + users q cores app_config

-- Each core stands in the list once.
abbrev pub IsDistinct : List ℕ → Type 0
IsDistinct [] = Unit
IsDistinct (core ∷ cores) = (count core cores ≡ 0) × IsDistinct cores

-- what is loaded is used by a core, or freed
abbrev pub Keeps : List ℕ → Reloading → Reloading → Type 0
Keeps cores s s' =
    (q : ℕ)
    → count q s'.loads + users q cores s.app_config + count q s.freed
      ≡ count q s.loads + users q cores s'.app_config + count q s'.freed

users-other :
    (q core : ℕ) (cores : List ℕ) (v : Option ℕ) (app_config : ℕ → Option ℕ)
    → count core cores ≡ 0
    → users q cores (update app_config core v) ≡ users q cores app_config
users-other q core [] v app_config h = refl
users-other q core (c ∷ cores) v app_config h =
    let other : (core == c) ≡ false = ground arith in
    rw other (
      ap (λ n. is_config q (app_config c) + n)
        (users-other q core cores v app_config (ground arith)))

count-free_config :
    (q : ℕ) (o : Option ℕ) (freed : List ℕ)
    → count q (free_config o freed) ≡ is_config q o + count q freed
count-free_config q none freed = omega arith
count-free_config q (some config) freed = refl

switch_core-at :
    (core config : ℕ) (s : Reloading) → (switch_core core config s).app_config core ≡ some config
unfolding switch_core
switch_core-at core config s = rw (==_refl core) refl

module _ (load : ℕ → Option ℕ) where
  -- the state after the call that gave a core its configuration, and the switch to it
  abbrev switched : ℕ → ℕ → Reloading → Reloading
  switched core config s = switch_core core config (loaded config s)

  reload_cores-frame :
      (cores : List ℕ) (core : ℕ) (s : Reloading)
      → count core cores ≡ 0
      → (reload_cores load cores s).1.app_config core ≡ s.app_config core
  unfolding reload_cores switch_core
  reload_cores-frame [] core s h = refl
  reload_cores-frame (c ∷ cores) core s h = elim (Option-cases (load s.calls)) [
    | inl failed ↦ rw failed refl
    | inr (config, e) ↦
        let other : (c == core) ≡ false = ground arith in
        rw e (reload_cores-frame cores core (switched c config s) (ground arith) ∙ rw other refl)
  ]

  -- the switch of one core, then the others
  switched-Keeps :
      (core : ℕ) (cores : List ℕ) (config : ℕ) (s r : Reloading)
      → count core cores ≡ 0
      → r.app_config core ≡ some config
      → Keeps cores (switched core config s) r
      → Keeps (core ∷ cores) s r
  unfolding switch_core
  switched-Keeps core cores config s r once e kept q = omega (
    arith,
    kept q,
    users-other q core cores (some config) s.app_config once,
    count-free_config q (s.app_config core) s.freed,
    ap (is_config q) e,
  )

  reload_cores-Keeps :
      (cores : List ℕ) (s : Reloading)
      → IsDistinct cores
      → Keeps cores s (reload_cores load cores s).1
  unfolding reload_cores
  reload_cores-Keeps [] s d = λ q. refl
  reload_cores-Keeps (core ∷ cores) s d = elim (Option-cases (load s.calls)) [
    | inl failed ↦ rw failed (λ q. refl)
    | inr (config, e) ↦ rw e (
        switched-Keeps core cores config s (reload_cores load cores (switched core config s)).1 d.0
          (reload_cores-frame cores core (switched core config s) d.0
            ∙ switch_core-at core config (loaded config s))
          (reload_cores-Keeps cores (switched core config s) d.1))
  ]

  -- Whatever loadings fail, for distinct worker cores: a reload loses no configuration and frees none
  -- twice. Each configuration that was loaded or that a core used before is used by a core after
  -- it or was freed, counted with repetitions.
  pub app_config_reload_all-Keeps :
      (cores : List ℕ) (s : Reloading)
      → IsDistinct cores
      → Keeps cores s (app_config_reload_all load cores s).1
  unfolding app_config_reload_all
  app_config_reload_all-Keeps cores s d = elim (Option-cases (load s.calls)) [
    | inl failed ↦ rw failed (λ q. refl)
    | inr (config, e) ↦ rw e (λ q. omega (arith, reload_cores-Keeps cores (loaded config s) d q))
  ]
