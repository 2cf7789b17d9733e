-- ===== src/Services/StateHistory/Tests.antt =====
-- Runs of the history of slot states, at concrete inputs.
use caps_dash.Prelude.{true, ◌≡◌, String_key, some, List, [], ◌∷◌, refl}
use caps_dash.Vision.States.{SlotState, unknown, free, occupied}
use caps_dash.Services.StateHistory.{
  rolled_back, committed, ParkingSlot, Db, Event, frame, rebuilt, build_tracker, run, find,
}
use caps_dash.Services.StateHistory.Replays.{replay, state_of}
use caps_dash.Services.StateHistory.Worlds.{run-replay}

abbrev slot_a1 : ParkingSlot
slot_a1 = record {
  id = 7;
  code = "A1";
  floor = "B1";
  current_state = free;
  state_since = 10;
  is_active = true;
}

abbrev slot_a2 : ParkingSlot
slot_a2 = record {
  id = 8;
  code = "A2";
  floor = "B1";
  current_state = unknown;
  state_since = 10;
  is_active = true;
}

abbrev two_slots : Db
two_slots = record { camera = some "CAM1"; slots = slot_a1 ∷ slot_a2 ∷ []; history = [] }

-- a car arrives on A1, the worker restarts, the car leaves, and the first write of that fails
abbrev a_day : List Event
a_day =
    frame (("A1", occupied) ∷ ("A2", unknown) ∷ [])
    ∷ committed 20
    ∷ rebuilt
    ∷ frame (("A1", free) ∷ [])
    ∷ rolled_back
    ∷ rebuilt
    ∷ frame (("A1", free) ∷ ("A2", free) ∷ [])
    ∷ committed 40
    ∷ []

run-replay_example :
    (last : SlotState) × (state_of "A1"
        (run
          (record { known = build_tracker two_slots; pending = []; db = two_slots })
          a_day).db.slots
      ≡ some last)
    × (replay "A1" free
          (run
            (record { known = build_tracker two_slots; pending = []; db = two_slots })
            a_day).db.history
        ≡ some last)
unfolding find
run-replay_example =
    run-replay "A1" "CAM1" free two_slots a_day refl (refl, (refl, tt)) refl refl refl tt
