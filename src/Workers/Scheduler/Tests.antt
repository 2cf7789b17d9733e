-- ===== src/Workers/Scheduler/Tests.antt =====
-- A detection that a reload overtakes, and one that is applied.
use mathlib.Core.List.{Memᴰ}
use caps_dash.Prelude.{◌≤◌, ◌≡◌, refl, [], ◌∷◌, length}
use caps_dash.Workers.Scheduler.{
  Run, Loop, initial, start, launch, busy, reload, invalidate, finish, fail, accept, Step,
  Reachable,
}
use caps_dash.Workers.Scheduler.Reload.{UpToDate, Reachable-UpToDate}

abbrev first_run : Run
first_run = record { id = 0; generation = 0; map_version = 0 }

abbrev second_run : Run
second_run = record { id = 1; generation = 1; map_version = 1 }

abbrev overtaken : Loop
unfolding finish
overtaken = finish (reload (start initial)) first_run 5

abbrev applied_one : Loop
unfolding finish
applied_one = finish (start overtaken) second_run 9

applied_one_run : applied_one.applied ≡ (1, 1) ∷ []
unfolding overtaken applied_one finish reload invalidate start launch busy fail accept
applied_one_run = refl

applied_one-Reachable : Reachable applied_one
unfolding overtaken applied_one finish reload invalidate start launch busy fail accept
applied_one-Reachable =
    Reachable.later
      (Reachable.later
        (Reachable.later
          (Reachable.later (Reachable.later Reachable.at_start (Step.tick refl))
            (Step.reloaded refl))
          (Step.finished first_run 5 (Memᴰ.head refl)))
        (Step.tick refl))
      (Step.finished second_run 9 (Memᴰ.head refl))

Reachable-UpToDate_example : (length applied_one.running ≤ 1) × UpToDate applied_one.applied
Reachable-UpToDate_example = Reachable-UpToDate applied_one applied_one-Reachable
