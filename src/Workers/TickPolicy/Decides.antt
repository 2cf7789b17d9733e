-- ===== src/Workers/TickPolicy/Decides.antt =====
-- When a tick starts a detection.
use caps_dash.Prelude.{
  ℕ, ◌+◌, ◌≤◌, ◌≡◌, Bool, true, false, ◌||◌, Option, none, some, arith, leb, if◌then◌else◌,
  Option-cases, inl, inr,
}
use caps_dash.Workers.TickPolicy.{
  FrameChangeGate, CameraContext, evaluate, needs_more_observations, too_soon_to_infer, settle,
  maybe_infer,
}

-- the rate floor of `changed`
abbrev pub floor_passed : CameraContext → Option ℕ → ℕ → Bool
floor_passed context none now = true
floor_passed context (some finished) now =
    leb context.min_inference_interval 0 || leb (finished + context.min_inference_interval) now

-- what is asked of a frame when there is a reference to compare it with
abbrev pub wanted : Bool → Bool → Bool → Bool → Bool
wanted moved floor due unsettled = if moved then floor else due || unsettled

module _ {Image : Type 0} (difference : Image → Image → ℕ) where
  -- With a reference frame and a free detector, a tick starts a detection if and only if the scene
  -- has moved and the rate floor has passed, or it has not moved and the heartbeat is due or the
  -- votes still want observations.
  pub maybe_infer_iff :
      (gate : FrameChangeGate Image) (context : CameraContext) (finished : Option ℕ)
      (image reference : Image) (now : ℕ)
      → gate.reference ≡ some reference
      → maybe_infer difference false gate context finished image now
        ≡ wanted
            (leb gate.threshold (difference image reference))
            (floor_passed context finished now)
            (leb (gate.last_infer_at + gate.force_interval) now)
            (needs_more_observations context)
  unfolding maybe_infer evaluate settle too_soon_to_infer
  maybe_infer_iff gate context none image reference now seen = ground arith
  maybe_infer_iff gate context (some t) image reference now seen = ground arith

  maybe_infer-first :
      (gate : FrameChangeGate Image) (context : CameraContext) (finished : Option ℕ) (image : Image)
      (now : ℕ)
      → gate.reference ≡ none
      → maybe_infer difference false gate context finished image now ≡ true
  unfolding maybe_infer evaluate settle too_soon_to_infer
  maybe_infer-first gate context none image now unseen = ground arith
  maybe_infer-first gate context (some t) image now unseen = ground arith

  -- The detector is free, the heartbeat is due and the rate floor has passed. Then the tick starts a
  -- detection, whatever the picture, the votes and the reference frame are.
  pub maybe_infer_due :
      (gate : FrameChangeGate Image) (context : CameraContext) (finished : Option ℕ) (image : Image)
      (now : ℕ)
      → gate.last_infer_at + gate.force_interval ≤ now
      → floor_passed context finished now ≡ true
      → maybe_infer difference false gate context finished image now ≡ true
  maybe_infer_due gate context finished image now due floor = elim (Option-cases gate.reference) [
    | inl unseen ↦ maybe_infer-first gate context finished image now unseen
    | inr (reference, seen) ↦
        ground (arith, maybe_infer_iff gate context finished image reference now seen)
  ]
