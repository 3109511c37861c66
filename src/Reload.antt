-- ===== src/Reload.antt =====
-- The reload of a worker's configuration: `app_config_reload_all` of src/config.c against
-- `main_loop` of src/core.c, as steps of the master and of one worker in any order. A configuration
-- is its address. The reload handles the workers one after the other, each with configurations of
-- its own, so one worker shows them all. The hardware is taken to keep the order of writes.
pub mod Safety
pub mod Progress
pub mod Sequence
use natasha.Base.{ℕ, ◌≡◌, Bool, true, false, List, [], ◌∷◌, if◌then◌else◌, ◌==◌}
use natasha.Bytes.{update}

-- Where the worker is: at the head of its loop, between the read of `core->app_config` and the
-- write of its flags, or in a round, with the configurations that it read since.
pub data Worker : Type 0 where
  top : Worker
  marking : ℕ → Worker
  running : List ℕ → Worker

-- The master waits until `new` is used, to free `old`.
pub data Master : Type 0 where
  idle : Master
  waiting_for : ℕ → ℕ → Master

pub record Shared : Type 0 where
  -- `core->app_config`
  pub app_config : ℕ
  -- `flags & NAT_FLAG_USED` of each configuration
  pub used : ℕ → Bool
  -- the configurations that are allocated
  pub allocated : ℕ → Bool
  pub worker : Worker
  pub master : Master

pub data Step : Shared → Shared → Type 0 where
  -- `core->app_config->flags |= NAT_FLAG_USED`, its read and its write
  read_to_mark : (s : Shared) → s.worker ≡ top → Step s (record s { worker = marking s.app_config })
  mark :
      (s : Shared) (c : ℕ)
      → s.worker ≡ marking c
      → Step s (record s { used = update s.used c true; worker = running (c ∷ []) })
  -- any later read of `core->app_config` in the round
  read :
      (s : Shared) (l : List ℕ)
      → s.worker ≡ running l
      → Step s (record s { worker = running (s.app_config ∷ l) })
  end_round : (s : Shared) (l : List ℕ) → s.worker ≡ running l → Step s (record s { worker = top })
  -- `app_config_load` with zeroed flags, and the switch to what it returns
  switch :
      (s : Shared) (new : ℕ)
      → s.master ≡ idle
      → s.allocated new ≡ false
      → Step s (record s {
        app_config = new;
        used = update s.used new false;
        allocated = update s.allocated new true;
        master = waiting_for s.app_config new;
      })
  -- the end of the wait, and `app_config_free(old_config)`
  free_old :
      (s : Shared) (old new : ℕ)
      → s.master ≡ waiting_for old new
      → s.used new ≡ true
      → Step s (record s { allocated = update s.allocated old false; master = idle })

pub data Steps : Shared → Shared → Type 0 where
  done : (s : Shared) → Steps s s
  next : (s t u : Shared) → Step s t → Steps t u → Steps s u

-- the configurations that the worker may still look into
abbrev pub held : Worker → List ℕ
held top = []
held (marking c) = c ∷ []
held (running l) = l

-- The worker is at the head of its loop, with a configuration.
abbrev pub started : ℕ → Shared
started c = record {
  app_config = c;
  used = λ i. false;
  allocated = λ i. i == c;
  worker = top;
  master = idle;
}
