-- ===== src/Workers/Supervisor/Tests.antt =====
-- Runs of the supervisor's reconciliation, stagger and backoff, at concrete inputs.
use caps_dash.Prelude.{refl, ◌≡◌, [], ◌∷◌, some}
use caps_dash.Workers.Supervisor.{
  build_failed, loop_crashed, waits, run, idle, reconciled, context_built,
}
use caps_dash.Prelude.{ℕ_key}
use caps_dash.Workers.Supervisor.Reconciling.{run-Matched, Matched}

run-Matched_example :
    Matched
      (some ((2, 500) ∷ (3, 500) ∷ []))
      (run idle (reconciled (some ((1, 500) ∷ (2, 500) ∷ [])) ∷ context_built 1 7 ∷ []))
      1
run-Matched_example =
    run-Matched (reconciled (some ((1, 500) ∷ (2, 500) ∷ [])) ∷ context_built 1 7 ∷ [])
      (some ((2, 500) ∷ (3, 500) ∷ [])) 1

-- the wait doubles while no context can be built; after a loop that ran it starts over
waits_run :
    waits 1 (build_failed ∷ build_failed ∷ loop_crashed ∷ build_failed ∷ []) ≡ 1 ∷ 2 ∷ 1 ∷ 2 ∷ []
unfolding waits
waits_run = refl
