-- ===== src/Services/Cameras.antt =====
-- services/camera_service.py and services/camera_validation.py: creating, changing and deleting
-- cameras, with the requests to the workers that follow. `urlsplit` is Python's; the bounds that the
-- request schemas put on numbers are hypotheses of the lemmas. Intervals and confidences are numbers
-- of a small unit; audit rows are counted; what is written is committed before a request is made.
pub mod Effects
pub mod Checked
pub mod Signalled
mod Tests
use caps_dash.Prelude.{
  ℕ, ◌+◌, min, max, String, String_key, ℕ_key, ◌==◌, Bool, true, false, not, ◌&&◌, ◌||◌, Option,
  none, some, List, [], ◌∷◌, ◌++◌, ltb, if◌then◌else◌, Result, ok, err, ◌>>=◌,
}
use caps_dash.Prelude.Dict
use caps_dash.Prelude.Dict.{Dict}
use caps_dash.Workers.Supervisor.{ReloadSignals, request, request_reconcile}

pub data CameraSourceType : Type 0 where
  esp32cam_http esp32cam_stream rtsp image_folder video_file fake : CameraSourceType

pub record Camera : Type 0 where
  pub id : ℕ
  pub code : String
  pub name : String
  pub floor : String
  pub source_type : CameraSourceType
  pub source_url : String
  pub poll_interval : ℕ
  pub vote_window : ℕ
  pub vote_threshold : ℕ
  pub confidence : ℕ
  pub is_enabled : Bool

pub record UpdateCameraRequest : Type 0 where
  pub name : Option String
  pub floor : Option String
  pub source_type : Option CameraSourceType
  pub source_url : Option String
  pub poll_interval : Option ℕ
  pub vote_window : Option ℕ
  pub vote_threshold : Option ℕ
  pub confidence : Option ℕ
  pub is_enabled : Option Bool

-- What `urlsplit` finds in an address.
pub record SplitUrl : Type 0 where
  pub scheme : String
  pub has_hostname : Bool

pub data CameraError : Type 0 where
  not_found camera_source_invalid vote_threshold_above_window camera_code_taken : CameraError

-- The tables and what hangs on them: the requests to the workers, and the hub's cached stills.
pub record World : Type 0 where
  pub cameras : List Camera
  pub audits : ℕ
  pub signals : ReloadSignals
  pub stills : Dict ℕ ℕ

abbrev pub given {ℓ} : {A : Type ℓ} → Option A → A → A
given none old = old
given (some new) old = new

abbrev pub is_given {ℓ} : {A : Type ℓ} → Option A → Bool
is_given none = false
is_given (some new) = true

abbrev pub is_http : String → Bool
is_http scheme = scheme == "http" || (scheme == "https")

-- the checks of `validate_source_url` on an address that is not empty
unfoldable pub source_fits : CameraSourceType → SplitUrl → Bool
source_fits esp32cam_http url = is_http url.scheme && url.has_hostname
source_fits esp32cam_stream url = is_http url.scheme && url.has_hostname
source_fits rtsp url = (url.scheme == "rtsp" || (url.scheme == "rtsps")) && url.has_hostname
source_fits image_folder url = not (is_http url.scheme)
source_fits video_file url = not (is_http url.scheme)
source_fits fake url = true

-- `runtime_confidence_min` and `_max`, in thousandths
abbrev pub runtime_confidence_min : ℕ
runtime_confidence_min = 10

abbrev pub runtime_confidence_max : ℕ
runtime_confidence_max = 950

pub get_or_raise : List Camera → ℕ → Option Camera
get_or_raise [] id = none
get_or_raise (c ∷ cs) id = if c.id == id then some c else get_or_raise cs id

unfoldable pub get_by_code : List Camera → String → Option Camera
get_by_code [] code = none
get_by_code (c ∷ cs) code = if c.code == code then some c else get_by_code cs code

-- the write to a row, and its deletion
pub set_camera : Camera → List Camera → List Camera
set_camera c [] = []
set_camera c (d ∷ ds) = if d.id == c.id then c ∷ ds else d ∷ set_camera c ds

pub remove_camera : ℕ → List Camera → List Camera
remove_camera id [] = []
remove_camera id (c ∷ cs) = if c.id == id then cs else c ∷ remove_camera id cs

pub validate_vote_thresholds : ℕ → ℕ → Result CameraError (Unit {0})
validate_vote_thresholds window threshold =
    if ltb window threshold then err vote_threshold_above_window else ok tt

-- the fields that an update writes
pub updated : Camera → UpdateCameraRequest → Camera
updated c p = record c {
  name = given p.name c.name;
  floor = given p.floor c.floor;
  source_type = given p.source_type c.source_type;
  source_url = given p.source_url c.source_url;
  poll_interval = given p.poll_interval c.poll_interval;
  vote_window = given p.vote_window c.vote_window;
  vote_threshold = given p.vote_threshold c.vote_threshold;
  confidence = given p.confidence c.confidence;
  is_enabled = given p.is_enabled c.is_enabled;
}

abbrev pub same_bool : Bool → Bool → Bool
same_bool true b = b
same_bool false b = not b

-- `payload.is_enabled is not None and payload.is_enabled != was_enabled`
abbrev pub toggles : Option Bool → Bool → Bool
toggles none was_enabled = false
toggles (some enabled) was_enabled = not (same_bool enabled was_enabled)

module _ (urlsplit : String → SplitUrl) where
  unfoldable pub validate_source_url : CameraSourceType → String → Result CameraError (Unit {0})
  validate_source_url source_type source_url =
      if source_url == ""
      then ok tt
      else if source_fits source_type (urlsplit source_url)
      then ok tt
      else err camera_source_invalid

  -- `create_camera`; the row is given as the payload makes it, with the id that the database assigns
  pub create_camera : World → Camera → World × Result CameraError Camera
  create_camera w c = elim (validate_source_url c.source_type c.source_url) [
    | err e ↦ (w, err e)
    | ok _ ↦ elim (validate_vote_thresholds c.vote_window c.vote_threshold) [
      | err e ↦ (w, err e)
      | ok _ ↦ elim (get_by_code w.cameras c.code) [
        | some taken ↦ (w, err camera_code_taken)
        | none ↦ (
          record w {
            cameras = w.cameras ++ c ∷ [];
            audits = w.audits + 1;
            signals = request_reconcile w.signals;
          },
          ok c,
        )
      ]
    ]
  ]

  pub validate_partial_update : Camera → UpdateCameraRequest → Result CameraError (Unit {0})
  validate_partial_update c p = do
    source ←
        (if is_given p.source_type || is_given p.source_url
          then validate_source_url (given p.source_type c.source_type)
              (given p.source_url c.source_url)
          else ok tt)
    validate_vote_thresholds (given p.vote_window c.vote_window)
        (given p.vote_threshold c.vote_threshold)

  pub update_found : World → Camera → UpdateCameraRequest → World × Result CameraError Camera
  update_found w c p = elim (validate_partial_update c p) [
    | err e ↦ (w, err e)
    | ok _ ↦ (
      record w {
        cameras = set_camera (updated c p) w.cameras;
        audits = w.audits + 1;
        signals =
            (if toggles p.is_enabled c.is_enabled
              then request_reconcile (request c.id w.signals)
              else request c.id w.signals);
      },
      ok (updated c p),
    )
  ]

  pub update_camera : World → ℕ → UpdateCameraRequest → World × Result CameraError Camera
  update_camera w camera_id p = elim (get_or_raise w.cameras camera_id) [
    | none ↦ (w, err not_found)
    | some c ↦ update_found w c p
  ]

pub delete_camera : World → ℕ → World × Result CameraError (Unit {0})
delete_camera w camera_id = elim (get_or_raise w.cameras camera_id) [
  | none ↦ (w, err not_found)
  | some c ↦ (
    record w {
      cameras = remove_camera camera_id w.cameras;
      audits = w.audits + 1;
      signals = request_reconcile w.signals;
      stills = Dict.remove camera_id w.stills;
    },
    ok tt,
  )
]

unfoldable pub clamped : ℕ → ℕ
clamped confidence = min (max confidence runtime_confidence_min) runtime_confidence_max

pub update_runtime : World → ℕ → ℕ → World × Result CameraError Camera
update_runtime w camera_id confidence = elim (get_or_raise w.cameras camera_id) [
  | none ↦ (w, err not_found)
  | some c ↦
      let c' = record c { confidence = clamped confidence } in
      (
        record w {
          cameras = set_camera c' w.cameras;
          audits = w.audits + 1;
          signals = request c.id w.signals;
        },
        ok c',
      )
]

-- The requests that the service gets.
pub data Operation : Type 0 where
  create : Camera → Operation
  update : ℕ → UpdateCameraRequest → Operation
  delete : ℕ → Operation
  tune : ℕ → ℕ → Operation

unfoldable pub step : (String → SplitUrl) → World → Operation → World
step urlsplit w (create c) = (create_camera urlsplit w c).0
step urlsplit w (update id p) = (update_camera urlsplit w id p).0
step urlsplit w (delete id) = (delete_camera w id).0
step urlsplit w (tune id confidence) = (update_runtime w id confidence).0

unfoldable pub run : (String → SplitUrl) → World → List Operation → World
run urlsplit w [] = w
run urlsplit w (o ∷ os) = run urlsplit (step urlsplit w o) os
