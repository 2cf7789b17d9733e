-- ===== src/Workers/TickPolicy/Tests.antt =====
-- Ticks of a camera whose frames are numbers.
use caps_dash.Prelude.{ℕ, ◌+◌, ◌-◌, ◌≡◌, refl, true, false, some, [], ◌∷◌}
use caps_dash.Vision.States.{free}
use caps_dash.Workers.TickPolicy.{
  FrameChangeGate, CameraContext, needs_more_observations, maybe_infer, evaluate, settle,
  too_soon_to_infer,
}

abbrev apart : ℕ → ℕ → ℕ
apart a b = a - b + (b - a)

abbrev gate : FrameChangeGate ℕ
gate = record { threshold = 3; force_interval = 30; reference = some 100; last_infer_at = 10 }

abbrev one_slot : CameraContext
one_slot = record {
  slot_count = 1;
  last_states = ("A1", free) ∷ [];
  votes_settled = true;
  min_inference_interval = 5;
}

-- a frame that is far from the reference is looked at, one that is near is not
changed_frame :
    (maybe_infer apart false gate one_slot (some 11) 104 20 ≡ true)
    × (maybe_infer apart false gate one_slot (some 11) 101 20 ≡ false)
unfolding maybe_infer settle evaluate needs_more_observations too_soon_to_infer
changed_frame = (refl, refl)

-- soon after the last detection, and after a long time without one
paced :
    (maybe_infer apart false gate one_slot (some 18) 104 20 ≡ false)
    × (maybe_infer apart false gate one_slot (some 11) 101 40 ≡ true)
unfolding maybe_infer settle evaluate needs_more_observations too_soon_to_infer
paced = (refl, refl)
