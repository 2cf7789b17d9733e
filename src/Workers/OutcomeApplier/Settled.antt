-- ===== src/Workers/OutcomeApplier/Settled.antt =====
-- When the votes count as settled.
use caps_dash.Prelude.{
  ℕ, ◌≡◌, refl, String, String_key, Bool, true, false, List, [], ◌∷◌, All, arith, if◌then◌else◌,
}
use caps_dash.Prelude.Dict.{Dict}
use caps_dash.Vision.States.{SlotState, unknown, free, occupied}
use caps_dash.Vision.Geometry.{Scalars, Detection}
use caps_dash.Vision.VoteFilter.{contains}
use caps_dash.Workers.OutcomeApplier.{
  CameraContext, disagrees, disagreeing_slots, is_nil, occupied_now, apply_outcome,
}

-- each slot is reported as it was just seen
abbrev pub AsSeen : List String → Dict String SlotState → Type 0
AsSeen seen = All (λ e. e.1 ≡ (if contains seen e.0 then occupied else free))

agrees :
    (seen : Bool) (state : SlotState)
    → disagrees seen state ≡ false
    → state ≡ (if seen then occupied else free)
agrees seen unknown h = absurd (ground arith)
agrees true occupied h = refl
agrees false occupied h = absurd (ground arith)
agrees true free h = absurd (ground arith)
agrees false free h = refl

AsSeen-disagreeing_slots :
    (seen : List String) (states : Dict String SlotState)
    → is_nil (disagreeing_slots seen states) ≡ true
    → AsSeen seen states
unfolding disagreeing_slots
AsSeen-disagreeing_slots seen [] h = tt
AsSeen-disagreeing_slots seen ((code, state) ∷ states) h = (
  agrees (contains seen code) state (ground arith),
  AsSeen-disagreeing_slots seen states (ground arith),
)

module _ {R : Type 0} ⦃S : Scalars R⦄ where
  -- When the votes count as settled after a detection, every slot of the camera is reported as that
  -- detection saw it, OCCUPIED or FREE, and none as UNKNOWN.
  pub apply_outcome-AsSeen :
      (c : CameraContext R) (ds : List (Detection R)) (frame_w frame_h : ℕ)
      → (apply_outcome c ds frame_w frame_h).0.votes_settled ≡ true
      → AsSeen
          (occupied_now c ds frame_w frame_h)
          (apply_outcome c ds frame_w frame_h).0.last_states
  unfolding apply_outcome
  apply_outcome-AsSeen c ds frame_w frame_h h =
      AsSeen-disagreeing_slots (occupied_now c ds frame_w frame_h) _ h
