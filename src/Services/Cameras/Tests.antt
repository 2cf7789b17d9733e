-- ===== src/Services/Cameras/Tests.antt =====
-- Runs of the camera service, at concrete inputs.
use caps_dash.Prelude.{
  ◌⊎◌, ◌≡◌, refl, true, false, some, none, String, List, [], ◌∷◌, All, ok, arith,
}
use caps_dash.Vision.VoteFilter.{SlotVoteFilter, init}
use caps_dash.Services.Cameras.{
  source_fits, Camera, SplitUrl, World, UpdateCameraRequest, rtsp, create, update, delete, tune,
  Operation, run, step,
}
use caps_dash.Services.Cameras.Checked.{run-valid}
use caps_dash.Services.Cameras.Signalled.{Noticed, step-Noticed}

abbrev gate : Camera
gate = record {
  id = 1;
  code = "GATE";
  name = "Gate";
  floor = "B1";
  source_type = rtsp;
  source_url = "rtsp://10.0.0.9/live";
  poll_interval = 3000;
  vote_window = 5;
  vote_threshold = 4;
  confidence = 250;
  is_enabled = true;
}

abbrev nothing : World
nothing = record {
  cameras = [];
  audits = 0;
  signals = record { events = []; reconcile = false };
  stills = [];
}

abbrev narrower : UpdateCameraRequest
narrower = record {
  name = none;
  floor = none;
  source_type = none;
  source_url = none;
  poll_interval = none;
  vote_window = some 3;
  vote_threshold = some 2;
  confidence = none;
  is_enabled = some false;
}

abbrev splits : String → SplitUrl
splits url = record { scheme = "rtsp"; has_hostname = true }

abbrev requests : List Operation
requests = create gate ∷ update 1 narrower ∷ tune 1 999 ∷ delete 2 ∷ []

run-valid_example :
    All
      (λ c.
        ((c.source_url ≡ "") ⊎ (source_fits c.source_type (splits c.source_url) ≡ true))
        × ((f : SlotVoteFilter) × (init c.vote_window c.vote_threshold ≡ ok f)))
      (run splits nothing requests).cameras
run-valid_example =
    run-valid splits nothing requests refl
      ((omega arith, omega arith), ((omega arith, omega arith), (tt, (tt, tt))))

step-Noticed_example :
    Noticed
      (run splits nothing requests)
      (step splits (run splits nothing requests) (update 1 narrower))
step-Noticed_example = step-Noticed splits (run splits nothing requests) (update 1 narrower)
