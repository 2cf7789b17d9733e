-- ===== src/Workers/OutcomeApplier/EndToEnd.antt =====
-- From the detections of the frames to the reported state of a slot.
use caps_dash.Prelude.{
  ℕ, ◌≡◌, refl, ap, ◌∙◌, String, String_key, Bool, true, false, Option, none, some, List, [], ◌∷◌,
  map, filter, any, arith, ok, if◌then◌else◌,
}
use caps_dash.Prelude.Dict
use caps_dash.Prelude.Dict.{Dict}
use caps_dash.Vision.Geometry.{Scalars, Detection}
use caps_dash.Vision.SlotDetections.{fit_to_frame, resolve_slot_detections}
use caps_dash.Vision.SlotDetections.Resolved.{assigned_to, picked, resolve_slot_detections-picked}
use caps_dash.Vision.VoteFilter
use caps_dash.Vision.VoteFilter.{
  SlotVoteFilter, SlotMapFilter, init, build_filter, update_all, contains,
}
use caps_dash.Vision.VoteFilter.Spec.{verdict}
use caps_dash.Vision.VoteFilter.Refines.{onto}
use caps_dash.Vision.VoteFilter.PerSlot.{run_all, observations, per_slot_verdict}
use caps_dash.Workers.OutcomeApplier.{CameraContext, occupied_now, apply_outcome}

abbrev is_some {ℓ} : {A : Type ℓ} → Option A → Bool
is_some none = false
is_some (some a) = true

contains-keys :
    {R : Type 0} (d : Dict String (Detection R)) (id : String)
    → contains (Dict.keys d) id ≡ is_some (Dict.get id d)
unfolding Dict.get
contains-keys [] id = refl
contains-keys ((code, v) ∷ d) id = ground (arith, contains-keys d id)

-- a finished detection: the vehicles, and the size of the frame they were found on
abbrev pub Outcome : Type 0 → Type 0
Outcome R = List (Detection R) × (ℕ × ℕ)

module _ {R : Type 0} ⦃S : Scalars R⦄ where
  some-picked :
      (p : Detection R → Bool) (ds : List (Detection R)) → is_some (picked (filter p ds)) ≡ any p ds
  some-picked p [] = refl
  some-picked p (d ∷ ds) = ground (arith, some-picked p ds)

  -- the camera after some frames, oldest first
  unfoldable pub run_outcomes : CameraContext R → List (Outcome R) → CameraContext R
  run_outcomes c [] = c
  run_outcomes c ((ds, (w, h)) ∷ frames) = run_outcomes (apply_outcome c ds w h).0 frames

  -- what `apply_outcome` finds occupied on a frame
  abbrev occupied_in : CameraContext R → Outcome R → List String
  occupied_in c (ds, (w, h)) = occupied_now c ds w h

  vote_filter-run_outcomes :
      (c : CameraContext R) (frames : List (Outcome R))
      → (run_outcomes c frames).vote_filter ≡ run_all c.vote_filter (map (occupied_in c) frames)
  unfolding run_outcomes run_all apply_outcome occupied_now
  vote_filter-run_outcomes c [] = refl
  vote_filter-run_outcomes c ((ds, (w, h)) ∷ frames) =
      vote_filter-run_outcomes (apply_outcome c ds w h).0 frames

  -- whether some vehicle of the frame is assigned to the slot of the map, fitted to the frame
  abbrev pub sighted : CameraContext R → String → Outcome R → Bool
  sighted c id (ds, (w, h)) = any (assigned_to (fit_to_frame c.slot_map w h) id) ds

  sighting-occupied_now :
      (c : CameraContext R) (id : String) (frame : Outcome R)
      → contains (occupied_in c frame) id ≡ sighted c id frame
  unfolding occupied_now
  sighting-occupied_now c id (ds, (w, h)) =
      let fitted = fit_to_frame c.slot_map w h in
      contains-keys (resolve_slot_detections ds fitted) id
      ∙ ap is_some (resolve_slot_detections-picked ds fitted id)
      ∙ some-picked (assigned_to fitted id) ds

  observations-sightings :
      (c : CameraContext R) (id : String) (frames : List (Outcome R))
      → observations id (map (occupied_in c) frames) ≡ map (sighted c id) frames
  observations-sightings c id [] = refl
  observations-sightings c id (frame ∷ frames) =
      λ i. sighting-occupied_now c id frame i ∷ observations-sightings c id frames i

  -- From the pictures to the report. The vote settings are valid and the camera's filter is a new one
  -- for the slots of its map. Then after any frames, each with its own size, the filter reports for
  -- each slot the verdict over whether, frame by frame, some detected vehicle was assigned to that
  -- slot of the map fitted to that frame.
  pub run_outcomes-verdict :
      (c : CameraContext R) (slot_ids : List String) (window threshold : ℕ) (id : String)
      (frames : List (Outcome R)) (f : SlotVoteFilter)
      → init window threshold ≡ ok f
      → build_filter slot_ids window threshold ≡ ok c.vote_filter
      → Dict.get id (VoteFilter.states (run_outcomes c frames).vote_filter) ≡ (
          if contains slot_ids id
          then some (verdict window threshold (onto [] (map (sighted c id) frames)))
          else none)
  run_outcomes-verdict c slot_ids window threshold id frames f valid built =
      ap (λ filters. Dict.get id (VoteFilter.states filters)) (vote_filter-run_outcomes c frames)
      ∙ per_slot_verdict slot_ids window threshold id (map (occupied_in c) frames) valid built
      ∙ ap
          (λ seen.
            if contains slot_ids id then some (verdict window threshold (onto [] seen)) else none)
          (observations-sightings c id frames)
