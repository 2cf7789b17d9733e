-- ===== src/Vision/RtspSource.antt =====
-- vision/sources/rtsp_stream_source.py with rtsp_stream_diagnostics.py: a camera stream that a thread
-- drains and a worker reads. A step of the thread or of the worker is one event; what they share is
-- under the lock. Instants, ages and presentation times are in milliseconds. The image library is a
-- parameter: `encode` is `encode_jpeg`; errors are given as they are once credentials are redacted.
pub mod Fresh
pub mod Lag
pub mod Retries
mod Tests
use caps_dash.Prelude.{
  ℕ, ◌+◌, ◌-◌, ◌*◌, min, ℕ_key, ◌==◌, Bool, true, false, not, ◌&&◌, ◌||◌, Option, none, some,
  String, String_key, List, [], ◌∷◌, ltb, leb, if◌then◌else◌, Result, ok, err,
}

-- `lag_s` and its growth as differences: what is behind, and what it is behind of
pub record LagReport : Type 0 where
  pub frames : ℕ
  pub window : ℕ
  pub lag : ℕ × ℕ
  pub previous : Option (ℕ × ℕ)

pub record StreamLagTracker : Type 0 where
  pub every : ℕ
  pub first : Option (ℕ × ℕ)
  pub last_lag : Option (ℕ × ℕ)
  pub since_report : ℕ
  pub since_report_wall : ℕ

unfoldable pub reset : StreamLagTracker → StreamLagTracker
reset t = record t { first = none; last_lag = none; since_report = 0 }

-- a frame after the first, whose presentation time and instant are given
pub note_later : StreamLagTracker → ℕ × ℕ → ℕ → ℕ → StreamLagTracker × Option LagReport
note_later t (first_pts, first_wall) pts now =
    let counted = t.since_report + 1 in
    if ltb now (t.since_report_wall + t.every)
    then (record t { since_report = counted }, none)
    else let lag : ℕ × ℕ = (now + first_pts, first_wall + pts) in
      (
        record t { last_lag = some lag; since_report = 0; since_report_wall = now },
        some (record {
          frames = counted;
          window = now - t.since_report_wall;
          lag = lag;
          previous = t.last_lag;
        }),
      )

pub note_first : StreamLagTracker → Option (ℕ × ℕ) → ℕ → ℕ → StreamLagTracker × Option LagReport
note_first t none pts now =
    (record t { first = some (pts, now); since_report_wall = now; since_report = 0 }, none)
note_first t (some first) pts now = note_later t first pts now

pub note_frame : StreamLagTracker → ℕ → ℕ → StreamLagTracker × Option LagReport
note_frame t pts now = note_first t t.first pts now

-- `report.lag_s > resync_lag_s`
abbrev pub too_late : ℕ → Option LagReport → Bool
too_late resync none = false
too_late resync (some report) = ltb (report.lag.1 + resync) report.lag.0

pub record Frame (I J : Type 0) : Type 0 where
  pub image : I
  pub jpeg_bytes : Option J

-- `_latest` with `_latest_at`, the counters, and the cache of the encoded frame; `_encoded_seq` is
-- `none` for -1
pub record RtspStreamSource (I J : Type 0) : Type 0 where
  pub max_age : ℕ
  pub resync_lag : ℕ
  pub latest : Option (I × ℕ)
  pub latest_seq : ℕ
  pub last_error : String
  pub frames_seen : ℕ
  pub fail_streak : ℕ
  pub resyncs : ℕ
  pub encoded_seq : Option ℕ
  pub encoded : Option J
  pub lag : StreamLagTracker

pub data ReadError : Type 0 where
  not_connected : String → ReadError
  stalled : ℕ → ReadError

-- What the thread and the worker do: a session opens, a frame is decoded with its presentation time,
-- an error is recorded, the worker reads.
pub data Event (I : Type 0) : Type 0 where
  opened : Event I
  decoded : I → ℕ → ℕ → Event I
  failed : String → Event I
  read_at : ℕ → Event I

-- `seq != encoded_seq or encoded is None`
abbrev pub cached : {J : Type 0} → Option ℕ → Option J → ℕ → Bool
cached none encoded seq = false
cached (some n) none seq = false
cached (some n) (some bytes) seq = n == seq

module _ {I J : Type 0} (encode : I → Option J) where
  -- `read` with the newest frame, if there is one
  pub read_latest :
      RtspStreamSource I J
      → Option (I × ℕ)
      → ℕ
      → RtspStreamSource I J × Result ReadError (Frame I J)
  read_latest s none now =
      (record s { fail_streak = s.fail_streak + 1 }, err (not_connected s.last_error))
  read_latest s (some (image, at)) now =
      if ltb (at + s.max_age) now
      then (record s { fail_streak = s.fail_streak + 1 }, err (stalled (now - at)))
      else if cached s.encoded_seq s.encoded s.latest_seq
      then (record s { fail_streak = 0 }, ok (record { image = image; jpeg_bytes = s.encoded }))
      else (
        record s { fail_streak = 0; encoded = encode image; encoded_seq = some s.latest_seq },
        ok (record { image = image; jpeg_bytes = encode image }),
      )

  pub read : RtspStreamSource I J → ℕ → RtspStreamSource I J × Result ReadError (Frame I J)
  read s now = read_latest s s.latest now

  -- one round of the loop of `_drain`, and whether the session is given up
  pub drain_one : RtspStreamSource I J → I → ℕ → ℕ → RtspStreamSource I J × Bool
  drain_one s image pts now =
      let noted = note_frame s.lag pts now in
      let behind = too_late s.resync_lag noted.1 in
      (
        record s {
          latest = some (image, now);
          latest_seq = s.latest_seq + 1;
          last_error = "";
          frames_seen = s.frames_seen + 1;
          lag = noted.0;
          resyncs = if behind then s.resyncs + 1 else s.resyncs;
        },
        behind,
      )

  unfoldable pub step : RtspStreamSource I J → Event I → RtspStreamSource I J
  step s opened = record s { lag = reset s.lag }
  step s (decoded image pts now) = (drain_one s image pts now).0
  step s (failed error) = record s { last_error = error }
  step s (read_at now) = (read s now).0

  unfoldable pub run : RtspStreamSource I J → List (Event I) → RtspStreamSource I J
  run s [] = s
  run s (e ∷ es) = run (step s e) es

-- the source as it is constructed
abbrev pub new_source : {I J : Type 0} → ℕ → ℕ → RtspStreamSource I J
new_source max_age resync_lag = record {
  max_age = max_age;
  resync_lag = resync_lag;
  latest = none;
  latest_seq = 0;
  last_error = "stream has not connected yet";
  frames_seen = 0;
  fail_streak = 0;
  resyncs = 0;
  encoded_seq = none;
  encoded = none;
  lag = record {
    every = 1000;
    first = none;
    last_lag = none;
    since_report = 0;
    since_report_wall = 0;
  };
}

abbrev pub initial_backoff : ℕ
initial_backoff = 1

abbrev pub max_backoff : ℕ
max_backoff = 30

abbrev pub idle_retry : ℕ
idle_retry = 2

-- How a round of the loop of `_run` goes: the endpoint is not reachable, or reachable and not serving
-- so that a retry is worth it soon, or a session was held, which produced a frame or did not.
pub data Attempt : Type 0 where
  unreachable worth_retrying_soon : Attempt
  drained : Bool → Attempt

-- the waits of `_run`, in seconds
unfoldable pub waits : ℕ → List Attempt → List ℕ
waits backoff [] = []
waits backoff (unreachable ∷ attempts) = backoff ∷ waits (min (backoff * 2) max_backoff) attempts
waits backoff (worth_retrying_soon ∷ attempts) = idle_retry ∷ waits backoff attempts
waits backoff (drained true ∷ attempts) = waits initial_backoff attempts
waits backoff (drained false ∷ attempts) = backoff ∷ waits (min (backoff * 2) max_backoff) attempts
