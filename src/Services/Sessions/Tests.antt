-- ===== src/Services/Sessions/Tests.antt =====
-- Runs of the session derivation, and its theorems at concrete inputs.
use caps_dash.Prelude.{ℕ, ◌≡◌, refl, false, some, none, List, [], ◌∷◌, map, arith}
use caps_dash.Vision.States.{SlotState, unknown, free, occupied}
use caps_dash.Services.Sessions.{Row, derive_for_one_slot, derive_sessions, page_of}
use caps_dash.Services.Sessions.Intervals
use caps_dash.Services.Sessions.Intervals.{Chained}
use caps_dash.Services.Sessions.Gaps
use caps_dash.Services.Sessions.Gaps.{span, known_rows}

abbrev row : ℕ → SlotState → ℕ → Row
row slot_id state at = record {
  slot_id = slot_id;
  camera_code = "cam";
  slot_code = "A1";
  floor = "B1";
  new_state = state;
  changed_at = at;
  clock_suspect = false;
}

abbrev day : List Row
day =
    row 1 free 3
    ∷ row 1 occupied 10
    ∷ row 1 unknown 20
    ∷ row 1 occupied 25
    ∷ row 1 free 60
    ∷ row 1 occupied 70
    ∷ []

sessions_of_day : map span (derive_for_one_slot day) ≡ (10, some 60) ∷ (70, none) ∷ []
unfolding derive_for_one_slot
sessions_of_day = refl

two_slots : map span (derive_sessions (row 1 occupied 5 ∷ row 2 free 6 ∷ [])) ≡ (5, none) ∷ []
unfolding derive_sessions derive_for_one_slot
two_slots = refl

newest : map span (page_of day 0 1).0 ≡ (70, none) ∷ []
unfolding page_of derive_for_one_slot
newest = refl

derive_for_one_slot-Chained_example : Chained 0 (derive_for_one_slot day)
derive_for_one_slot-Chained_example = Intervals.derive_for_one_slot-Chained day (omega arith)

spans-known_rows_example :
    map span (derive_for_one_slot day) ≡ map span (derive_for_one_slot (known_rows day))
spans-known_rows_example = Gaps.spans-known_rows day
