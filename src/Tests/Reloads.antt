-- ===== src/Tests/Reloads.antt =====
-- A reload while the worker is in a round.
use mathlib.Core.List.Memᴰ.{head}
use natasha.Base.{◌≡◌, refl, true, false, [], ◌∷◌}
use natasha.Bytes.{update}
use natasha.Reload.{
  marking, running, waiting_for, Shared, read_to_mark, mark, switch, Steps, done, next, started,
}
use natasha.Reload.Safety.{reload_keeps_held}
use natasha.Reload.Progress.{Finishes, reload-Finishes}

-- configuration 1 in use, then configuration 2 switched to
abbrev begun : Shared
begun = record (started 1) { worker = marking 1 }

abbrev in_round : Shared
in_round = record begun { used = update begun.used 1 true; worker = running (1 ∷ []) }

abbrev switched : Shared
switched = record in_round {
  app_config = 2;
  used = update in_round.used 2 false;
  allocated = update in_round.allocated 2 true;
  master = waiting_for 1 2;
}

switched-Steps : Steps (started 1) switched
switched-Steps = next (started 1) begun switched (read_to_mark (started 1) refl) (
    next begun in_round switched (mark begun 1 refl)
      (next in_round switched switched (switch in_round 2 refl refl) (done switched)))

reload_keeps_held_example : (switched.allocated 1 ≡ true) × (switched.allocated 2 ≡ true)
reload_keeps_held_example = reload_keeps_held 1 switched 1 switched-Steps (head refl)

reload-Finishes_example : Finishes switched
reload-Finishes_example = reload-Finishes 1 switched switched-Steps
