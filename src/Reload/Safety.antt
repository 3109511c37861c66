-- ===== src/Reload/Safety.antt =====
-- What the worker of src/core.c may look into during a reload of src/config.c.
use mathlib.Core.List.{Memᴰ}
use mathlib.Core.List.Memᴰ.{head, tail}
use natasha.Base.{
  ℕ, ◌≡◌, ◌≢◌, ◌⊎◌, inl, inr, refl, sym, subst, ap, ◌∙◌, arith, true, false, [], ◌∷◌, ==_ne,
  ==_refl, Bool,
}
use natasha.Bytes.{update}
use natasha.Reload.{
  Master, idle, waiting_for, Shared, Step, read_to_mark, mark, read, end_round, switch, free_old,
  Steps, done, next, held, started,
}

-- What the worker may hold: the current configuration, and during the wait the old one, as long as
-- the new one is not used.
abbrev pub May : Master → ℕ → (ℕ → Bool) → ℕ → Type 0
May idle current used c = c ≡ current
May (waiting_for old new) current used c = (c ≡ current) ⊎ ((c ≡ old) × (used new ≡ false))

-- what the wait is for
abbrev pub Waits : Master → ℕ → (ℕ → Bool) → Type 0
Waits idle current allocated = Unit
Waits (waiting_for old new) current allocated =
    (current ≡ new) × (old ≢ new) × (allocated old ≡ true)

pub record Inv (s : Shared) : Type 0 where
  current : s.allocated s.app_config ≡ true
  pub waits : Waits s.master s.app_config s.allocated
  holds : (c : ℕ) → Memᴰ c (held s.worker) → May s.master s.app_config s.used c

pub Inv-started : (c : ℕ) → Inv (started c)
Inv-started c = record { current = ground arith; waits = tt; holds = λ i m. elim m [ ] }

held_one : {c d : ℕ} → Memᴰ c (d ∷ []) → c ≡ d
held_one (head h) = h
held_one (tail m) = elim m [ ]

May-current :
    (m : Master) (current : ℕ) (used : ℕ → Bool) (c : ℕ) → c ≡ current → May m current used c
May-current idle current used c h = h
May-current (waiting_for old new) current used c h = inl h

-- A mark on the old configuration leaves the new one unused.
May-mark :
    (m : Master) (current : ℕ) (used allocated : ℕ → Bool) (c : ℕ)
    → Waits m current allocated
    → May m current used c
    → May m current (update used c true) c
May-mark idle current used allocated c w h = h
May-mark (waiting_for old new) current used allocated c w (inl h) = inl h
May-mark (waiting_for old new) current used allocated c w (inr (h, unused)) =
    inr (h, rw (==_ne c new (λ same. w.1 (sym h ∙ same))) unused)

-- Both configurations of a wait are allocated.
May-allocated :
    (m : Master) (current : ℕ) (used allocated : ℕ → Bool) (c : ℕ)
    → allocated current ≡ true
    → Waits m current allocated
    → May m current used c
    → allocated c ≡ true
May-allocated idle current used allocated c a w h = ap allocated h ∙ a
May-allocated (waiting_for old new) current used allocated c a w (inl h) = ap allocated h ∙ a
May-allocated (waiting_for old new) current used allocated c a w (inr (h, unused)) =
    ap allocated h ∙ w.2

Inv-Step : {s t : Shared} → Step s t → Inv s → Inv t
Inv-Step (read_to_mark s at_top) v = record {
  current = v.current;
  waits = v.waits;
  holds = λ c m. May-current s.master s.app_config s.used c (held_one m);
}
Inv-Step (mark s c at) v =
    let own : May s.master s.app_config s.used c = v.holds c (rw at (head refl)) in
    record {
      current = v.current;
      waits = v.waits;
      holds = λ d m.
          subst (May s.master s.app_config (update s.used c true)) (sym (held_one m))
            (May-mark s.master s.app_config s.used s.allocated c v.waits own);
    }
Inv-Step (read s l at) v = record { current = v.current; waits = v.waits; holds = kept }
  where
    kept : (c : ℕ) → Memᴰ c (s.app_config ∷ l) → May s.master s.app_config s.used c
    kept c (head h) = May-current s.master s.app_config s.used c h
    kept c (tail m) = v.holds c (subst (λ w. Memᴰ c (held w)) (sym at) m)
Inv-Step (end_round s l at) v = record {
  current = v.current;
  waits = v.waits;
  holds = λ i m. elim m [ ];
}
Inv-Step (switch s new calm fresh) v =
    let ne : s.app_config ≢ new = λ same. absurd (ground (arith, ap s.allocated same, v.current)) in
    record {
      current = rw (==_refl new) refl;
      waits = (refl, ne, rw (==_ne new s.app_config (λ same. ne (sym same))) v.current);
      holds = λ c m. inr (rw calm at (v.holds c m), rw (==_refl new) refl);
    }
Inv-Step (free_old s old new wait used) v =
    let w : Waits (waiting_for old new) s.app_config s.allocated = rw wait at v.waits in
    record {
      current = rw (==_ne old s.app_config (λ same. w.1 (same ∙ w.0))) v.current;
      waits = tt;
      holds = λ c m. only_current c (rw wait at (v.holds c m));
    }
  where
    only_current : (c : ℕ) → May (waiting_for old new) s.app_config s.used c → c ≡ s.app_config
    only_current c (inl h) = h
    only_current c (inr (h, unused)) = absurd (ground arith)

pub Inv-Steps : {s t : Shared} → Steps s t → Inv s → Inv t
Inv-Steps (done s) v = v
Inv-Steps (next s t u x xs) v = Inv-Steps xs (Inv-Step x v)

-- However the steps of the master and of the worker interleave from the start with one
-- configuration, every configuration that the worker may still look into is allocated, and so is
-- the one it would read next.
pub reload_keeps_held :
    (c : ℕ) (s : Shared) (d : ℕ)
    → Steps (started c) s
    → Memᴰ d (held s.worker)
    → (s.allocated d ≡ true) × (s.allocated s.app_config ≡ true)
reload_keeps_held c s d steps m =
    let v = Inv-Steps steps (Inv-started c) in
    (
      May-allocated s.master s.app_config s.used s.allocated d v.current v.waits (v.holds d m),
      v.current,
    )
