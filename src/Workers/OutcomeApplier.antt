-- ===== src/Workers/OutcomeApplier.antt =====
-- workers/inference_outcome_applier.py: what one finished detection does to a camera: fit the map,
-- assign the vehicles, vote, remember, and find what changed. Writing the changes to the database,
-- the plate reader and the log lines are left out.
pub mod Settled
pub mod EndToEnd
mod Tests
use caps_dash.Prelude.{
  ℕ, String, String_key, Bool, true, false, not, ◌||◌, List, [], ◌∷◌, filter, if◌then◌else◌,
}
use caps_dash.Prelude.Dict
use caps_dash.Prelude.Dict.{Dict}
use caps_dash.Vision.States.{SlotState, unknown, free, occupied}
use caps_dash.Vision.Geometry.{Scalars, Detection}
use caps_dash.Vision.SlotDetections.{SlotMap, fit_to_frame, resolve_slot_detections}
use caps_dash.Vision.VoteFilter
use caps_dash.Vision.VoteFilter.{SlotMapFilter, update_all, contains}
use caps_dash.Workers.StateTracker.{SlotChange, StateTracker, diff}

pub record CameraContext (R : Type 0) : Type 0 where
  pub slot_map : SlotMap R
  pub vote_filter : SlotMapFilter
  pub state_tracker : StateTracker
  pub last_states : Dict String SlotState
  pub votes_settled : Bool

-- the condition of `_disagreeing_slots`
abbrev pub disagrees : Bool → SlotState → Bool
disagrees seen unknown = true
disagrees seen occupied = not seen
disagrees seen free = seen

unfoldable pub disagreeing_slots : List String → Dict String SlotState → List String
disagreeing_slots occupied_now [] = []
disagreeing_slots occupied_now ((code, state) ∷ states) =
    let rest = disagreeing_slots occupied_now states in
    if disagrees (contains occupied_now code) state then code ∷ rest else rest

abbrev pub is_nil : List String → Bool
is_nil [] = true
is_nil (code ∷ codes) = false

module _ {R : Type 0} ⦃S : Scalars R⦄ where
  -- `occupied_now`
  unfoldable pub occupied_now : CameraContext R → List (Detection R) → ℕ → ℕ → List String
  occupied_now c ds frame_w frame_h =
      Dict.keys (resolve_slot_detections ds (fit_to_frame c.slot_map frame_w frame_h))

  -- `apply_outcome`: the camera afterwards, and the changes that are to be written
  unfoldable pub apply_outcome :
      CameraContext R → List (Detection R) → ℕ → ℕ → CameraContext R × List SlotChange
  apply_outcome c ds frame_w frame_h =
      let seen = occupied_now c ds frame_w frame_h in
      let filters = update_all seen c.vote_filter in
      let states = VoteFilter.states filters in
      let changes = diff states c.state_tracker in
      (
        record c {
          vote_filter = filters;
          last_states = states;
          votes_settled = is_nil (disagreeing_slots seen states);
          state_tracker = changes.0;
        },
        changes.1,
      )
