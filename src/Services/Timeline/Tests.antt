-- ===== src/Services/Timeline/Tests.antt =====
-- Runs of the hourly sweep, and its theorems at concrete inputs.
use caps_dash.Prelude.{ℕ, ◌+◌, ◌≡◌, refl, String, List, [], ◌∷◌, false, arith}
use caps_dash.Prelude.Dict
use caps_dash.Prelude.Dict.{Dict, AllValues, sum_values}
use caps_dash.Vision.States.{SlotState, free, occupied}
use caps_dash.Services.Timeline.{Event, HourTimeline, compute_hour_timeline}
use caps_dash.Services.Timeline.Conserved
use caps_dash.Services.Timeline.Conserved.{total_seconds}
use caps_dash.Services.Timeline.Peak
use caps_dash.Services.Timeline.Peak.{most_occupied, states_at_start}

abbrev floors : Dict ℕ String
floors = (1, "B1") ∷ (2, "B1") ∷ []

abbrev seeds : Dict ℕ SlotState
seeds = (1, occupied) ∷ []

abbrev event : ℕ → SlotState → ℕ → Event
event slot_id state at = record {
  slot_id = slot_id;
  new_state = state;
  changed_at = at;
  clock_suspect = false;
}

abbrev events : List Event
events = event 2 occupied 8000 ∷ event 7 occupied 8500 ∷ event 1 free 9000 ∷ event 2 free 10000 ∷ []

abbrev hour : HourTimeline
hour = compute_hour_timeline 7200 10800 floors seeds events

peak_of_hour : hour.peak_occupied_site ≡ 2
unfolding compute_hour_timeline Dict.get Dict.put
peak_of_hour = refl

hour_conserved_example : AllValues (λ acc. 7200 + total_seconds acc ≡ 10800) hour.slots
hour_conserved_example = Conserved.hour_conserved 7200 10800 floors seeds events (omega arith)

peak_site-most_occupied_example :
    hour.peak_occupied_site ≡ most_occupied (states_at_start seeds floors) events
peak_site-most_occupied_example = Peak.peak_site-most_occupied 7200 10800 floors seeds events
