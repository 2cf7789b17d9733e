-- ===== src/Workers/TickPolicy.antt =====
-- vision/frame_change_gate.py, workers/camera_tick_policy.py and `_maybe_infer` of
-- workers/camera_loop.py: whether a tick starts a detection. Downscaling and comparing frames is the
-- image library's work: `difference` stands for the mean difference of a frame and the reference over
-- the region that is watched. Differences and clock readings are numbers of small units. The
-- difference in a decision, which is only logged, is left out.
pub mod Decides
mod Tests
use caps_dash.Prelude.{
  ℕ, ◌+◌, ◌-◌, Bool, true, false, not, ◌&&◌, ◌||◌, Option, none, some, List, [], ◌∷◌, any, leb, ltb,
  if◌then◌else◌, String,
}
use caps_dash.Prelude.Dict
use caps_dash.Prelude.Dict.{Dict}
use caps_dash.Vision.States.{SlotState, unknown, occupied, free}

pub data Reason : Type 0 where
  first_frame changed heartbeat unchanged settling : Reason

pub record GateDecision : Type 0 where
  pub infer : Bool
  pub reason : Reason

pub record FrameChangeGate (Image : Type 0) : Type 0 where
  pub threshold : ℕ
  pub force_interval : ℕ
  pub reference : Option Image
  pub last_infer_at : ℕ

-- what `_maybe_infer` reads of the camera's context
pub record CameraContext : Type 0 where
  pub slot_count : ℕ
  pub last_states : Dict String SlotState
  pub votes_settled : Bool
  pub min_inference_interval : ℕ

module _ {Image : Type 0} (difference : Image → Image → ℕ) where
  -- `evaluate`, with the reading of the clock
  unfoldable pub evaluate : FrameChangeGate Image → Image → ℕ → GateDecision
  evaluate gate image now = elim gate.reference [
    | none ↦ record { infer = true; reason = Reason.first_frame }
    | some reference ↦
        if leb gate.threshold (difference image reference)
        then record { infer = true; reason = Reason.changed }
        else if leb (gate.last_infer_at + gate.force_interval) now
        then record { infer = true; reason = Reason.heartbeat }
        else record { infer = false; reason = Reason.unchanged }
  ]

-- `mark_inferred` and `reset`
unfoldable pub mark_inferred :
    {Image : Type 0} → FrameChangeGate Image → Image → ℕ → FrameChangeGate Image
mark_inferred gate image now = record gate { reference = some image; last_infer_at = now }

unfoldable pub reset : {Image : Type 0} → FrameChangeGate Image → FrameChangeGate Image
reset gate = record gate { reference = none; last_infer_at = 0 }

abbrev pub is_unknown : SlotState → Bool
is_unknown unknown = true
is_unknown _ = false

abbrev pub no_states : Dict String SlotState → Bool
no_states [] = true
no_states (e ∷ es) = false

unfoldable pub needs_more_observations : CameraContext → Bool
needs_more_observations context =
    if leb context.slot_count 0
    then false
    else no_states context.last_states
      || not context.votes_settled
      || any is_unknown (Dict.values context.last_states)

abbrev pub is_changed : Reason → Bool
is_changed Reason.changed = true
is_changed _ = false

unfoldable pub too_soon_to_infer : GateDecision → Option ℕ → CameraContext → ℕ → Bool
too_soon_to_infer decision none context now = false
too_soon_to_infer decision (some last_inference_at) context now =
    if leb context.min_inference_interval 0 || not (is_changed decision.reason)
    then false
    else ltb now (last_inference_at + context.min_inference_interval)

-- `replace(decision, infer=True, reason="settling")`
unfoldable pub settle : GateDecision → CameraContext → GateDecision
settle decision context =
    if not decision.infer && needs_more_observations context
    then record { infer = true; reason = Reason.settling }
    else decision

-- `_maybe_infer`: whether it calls `scheduler.start`
unfoldable pub maybe_infer :
    {Image : Type 0} (difference : Image → Image → ℕ)
    → Bool
    → FrameChangeGate Image
    → CameraContext
    → Option ℕ
    → Image
    → ℕ
    → Bool
maybe_infer difference busy gate context last_finished_at image now =
    if busy
    then false
    else let decision = settle (evaluate difference gate image now) context in
      decision.infer && not (too_soon_to_infer decision last_finished_at context now)
