-- ===== src/Workers/StateTracker/Tests.antt =====
-- Runs of the state tracker, and its theorems at concrete inputs.
use mathlib.Core.List.{Memᴰ}
use caps_dash.Workers.StateTracker.Reports.{row_of, Due, diff-Due}
use caps_dash.Prelude.{◌⊎◌, some, All, ◌≡◌, refl, String, String_key, [], ◌∷◌}
use caps_dash.Prelude.Dict
use caps_dash.Prelude.Dict.{Dict}
use caps_dash.Vision.States.{SlotState, unknown, free, occupied}
use caps_dash.Workers.StateTracker.{StateTracker, diff}
use caps_dash.Workers.StateTracker.Changes.{updated, Distinct}

abbrev remembered : StateTracker
remembered = ("A1", free) ∷ []

abbrev reported : Dict String SlotState
reported = ("A1", occupied) ∷ ("A2", unknown) ∷ ("A3", free) ∷ []

reported-Distinct : Distinct reported
unfolding Dict.get
reported-Distinct = (refl, (refl, (refl, tt)))

arrival :
    (diff reported remembered).1
    ≡ record { slot_code = "A1"; previous = free; new = occupied }
      ∷ record { slot_code = "A3"; previous = unknown; new = free }
      ∷ []
unfolding diff Dict.get Dict.put
arrival = refl

diff-Due_example :
    All (Due reported remembered) (diff reported remembered).1
    × All
        (λ e.
          (e.1 ≡ unknown)
          ⊎ (Dict.get e.0 remembered ≡ some e.1)
          ⊎ Memᴰ (row_of remembered e) (diff reported remembered).1)
        reported
    × ((code : String)
        → Dict.get code (diff reported remembered).0
          ≡ updated (Dict.get code remembered) (Dict.get code reported))
diff-Due_example = diff-Due reported remembered reported-Distinct
