-- ===== src/Reload/Progress.antt =====
-- The end of the wait of `app_config_reload_all` of src/config.c.
use natasha.Base.{ℕ, ◌≡◌, refl, sym, ap, ◌∙◌, true, List, [], ◌∷◌, ==_refl}
use natasha.Bytes.{update}
use natasha.Reload.{
  Worker, top, marking, running, Master, idle, waiting_for, Shared, Step, read_to_mark, mark,
  end_round, free_old, Steps, done, next, started,
}
use natasha.Reload.Safety.{Inv-started, Inv-Steps, Waits}

-- Steps lead to a state where the master has finished.
abbrev pub Finishes : Shared → Type 0
Finishes s = (t : Shared) × Steps s t × (t.master ≡ idle)

Finishes-next : {s t : Shared} → Step s t → Finishes t → Finishes s
Finishes-next {s} {t} x (u, xs, h) = (u, next s t u x xs, h)

module _ (old new : ℕ) where
  from_top :
      (s : Shared)
      → s.worker ≡ top
      → s.master ≡ waiting_for old new
      → s.app_config ≡ new
      → Finishes s
  from_top s at_top wait current =
      let s1 : Shared = record s { worker = marking s.app_config } in
      let used = update s.used s.app_config true in
      let s2 : Shared = record s1 { used = used; worker = running (s.app_config ∷ []) } in
      let marked : used new ≡ true = ap used (sym current) ∙ rw (==_refl s.app_config) refl in
      Finishes-next (read_to_mark s at_top) (
        Finishes-next (mark s1 s.app_config refl)
          (Finishes-next (free_old s2 old new wait marked) (_, done _, refl)))

  from_running :
      (s : Shared) (l : List ℕ)
      → s.worker ≡ running l
      → s.master ≡ waiting_for old new
      → s.app_config ≡ new
      → Finishes s
  from_running s l at wait current =
      Finishes-next (end_round s l at) (from_top (record s { worker = top }) refl wait current)

  from_anywhere :
      (s : Shared) (w : Worker)
      → s.worker ≡ w
      → s.master ≡ waiting_for old new
      → s.app_config ≡ new
      → Finishes s
  from_anywhere s top at = from_top s at
  from_anywhere s (marking c) at = λ wait current. Finishes-next (mark s c at) (
      from_running (record s { used = update s.used c true; worker = running (c ∷ []) }) (c ∷ [])
        refl wait current)
  from_anywhere s (running l) at = from_running s l at

-- From every state that the steps of the master and of the worker lead to from the start with one
-- configuration, some further steps lead to a state where the master does not wait.
pub reload-Finishes : (c : ℕ) (s : Shared) → Steps (started c) s → Finishes s
reload-Finishes c s steps = by_master s.master refl (Inv-Steps steps (Inv-started c)).waits
  where
    by_master : (m : Master) → s.master ≡ m → Waits m s.app_config s.allocated → Finishes s
    by_master idle at w = (s, done s, at)
    by_master (waiting_for old new) at w = from_anywhere old new s s.worker refl at w.0
