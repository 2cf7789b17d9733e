-- ===== src/Workers/OutcomeApplier/Tests.antt =====
-- A camera with one slot, over scalars that are plain numbers.
use caps_dash.Prelude.{
  List, map, ℕ, ◌+◌, ◌-◌, ◌*◌, ◌/◌, ◌≡◌, refl, String_key, true, none, some, [], ◌∷◌, ltb,
  if◌then◌else◌,
}
use caps_dash.Prelude.Dict
use caps_dash.Vision.States.{unknown}
use caps_dash.Vision.Geometry.{Scalars, Detection}
use caps_dash.Vision.SlotDetections.{SlotMap}
use caps_dash.Vision.VoteFilter
use caps_dash.Vision.VoteFilter.{
  update_all, update, decide, append_bounded, SlotVoteFilter, SlotMapFilter, init, build_filter,
  add_filters, contains,
}
use caps_dash.Vision.VoteFilter.Spec.{verdict}
use caps_dash.Vision.VoteFilter.Refines.{onto}
use caps_dash.Workers.OutcomeApplier.{CameraContext, apply_outcome}
use caps_dash.Workers.OutcomeApplier.EndToEnd.{sighted, run_outcomes, run_outcomes-verdict}

instance abbrev plain : Scalars ℕ
plain = record {
  plus = λ a b. a + b;
  minus = λ a b. a - b;
  times = λ a b. a * b;
  over = λ a b. a / b;
  less = ltb;
  ratio = λ n d. n / d;
}

abbrev one_slot : SlotMap ℕ
one_slot = record {
  slots =
      record {
        id = "A1";
        polygon = record { first = (10, 10); others = (50, 10) ∷ (50, 60) ∷ (10, 60) ∷ [] };
        state = unknown;
      }
      ∷ [];
  width = 640;
  height = 480;
  camera_id = "01";
}

abbrev car : Detection ℕ
car = record { x1 = 15; y1 = 12; x2 = 45; y2 = 40; confidence = 80; label = "car" }

abbrev new_filter : SlotVoteFilter
new_filter = record { window = 2; threshold = 2; votes = []; state = unknown }

abbrev camera : CameraContext ℕ
camera = record {
  slot_map = one_slot;
  vote_filter = ("A1", new_filter) ∷ [];
  state_tracker = [];
  last_states = [];
  votes_settled = true;
}

-- the size of the frames changes on the way
abbrev two_sizes : List (List (Detection ℕ) × (ℕ × ℕ))
two_sizes = (car ∷ [], (640, 480)) ∷ (car ∷ [], (1280, 960)) ∷ ([], (640, 480)) ∷ []

run_outcomes-verdict_example :
    Dict.get "A1" (VoteFilter.states (run_outcomes camera two_sizes).vote_filter) ≡ (
      if contains ("A1" ∷ []) "A1"
      then some (verdict 2 2 (onto [] (map (sighted camera "A1") two_sizes)))
      else none)
unfolding init build_filter add_filters Dict.put
run_outcomes-verdict_example =
    run_outcomes-verdict camera ("A1" ∷ []) 2 2 "A1" two_sizes new_filter refl refl

abbrev watched : CameraContext ℕ
unfolding apply_outcome
watched = (apply_outcome camera [] 640 480).0
