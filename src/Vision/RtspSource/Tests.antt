-- ===== src/Vision/RtspSource/Tests.antt =====
-- Runs of the stream source, at concrete inputs.
use caps_dash.Prelude.{ℕ, ◌+◌, ◌≡◌, ◌≤◌, refl, some, none, List, [], ◌∷◌}
use caps_dash.Vision.RtspSource.{
  Event, opened, decoded, read_at, new_source, run, step, read, read_latest, drain_one, note_frame,
  note_first, note_later, reset, StreamLagTracker, Frame,
}
use caps_dash.Vision.RtspSource.Fresh.{newest, read-run}

-- images and their encodings are numbers
abbrev session : List (Event ℕ)
session = opened ∷ decoded 71 0 100 ∷ read_at 150 ∷ decoded 72 33 140 ∷ []

abbrev frame : Frame ℕ ℕ
frame = record { image = 72; jpeg_bytes = some 73 }

read-run_example :
    (at : ℕ) × (newest session none ≡ some (72, at)) × (200 ≤ at + 5000) × (some 73 ≡ some (72 + 1))
unfolding run step read read_latest drain_one note_frame note_first note_later reset
read-run_example =
    read-run {I = ℕ} {J = ℕ} (λ image. some (image + 1)) 5000 3000 200 session
      (read (λ image. some (image + 1))
        (run (λ image. some (image + 1)) (new_source 5000 3000) session) 200).0
      frame refl

abbrev tracker : StreamLagTracker
tracker = record {
  every = 1000;
  first = some (9, 9);
  last_lag = none;
  since_report = 4;
  since_report_wall = 7;
}
