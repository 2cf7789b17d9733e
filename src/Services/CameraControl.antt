-- ===== src/Services/CameraControl.antt =====
-- services/camera_control_service.py: the sensor settings of an ESP32-CAM, checked, sent to the
-- device, remembered and sent again after a restart. `urlsplit` and `urlunsplit` are Python's, and the
-- device's answers are given one by one, in the order of the requests, and a device that gives no
-- more of them does not answer; audit rows are counted. The
-- commit at the end of `update` is its last write and is not a step of its own.
pub mod Remembered
mod Tests
use caps_dash.Prelude.{
  ℕ, ◌+◌, String, String_key, ℕ_key, Bool, true, false, not, ◌&&◌, ◌||◌, ◌==◌, Option, none, some,
  List, [], ◌∷◌, ◌++◌, leb, if◌then◌else◌, Result, ok, err, ◌>>=◌,
}
use caps_dash.Prelude.Dict
use caps_dash.Prelude.Dict.{Dict}
use caps_dash.Services.Cameras.{CameraSourceType}

-- Python's `int`
pub data ℤ : Type 0 where
  pos negsuc : ℕ → ℤ

abbrev pub int_leb : ℤ → ℤ → Bool
int_leb (pos a) (pos b) = leb a b
int_leb (pos a) (negsuc b) = false
int_leb (negsuc a) (pos b) = true
int_leb (negsuc a) (negsuc b) = leb b a

-- the exceptions, and what an answer of the device may be
pub data ControlError : Type 0 where
  no_settings unknown_setting out_of_range camera_source_invalid camera_unreachable : ControlError

pub data Answer : Type 0 where
  http_error : Answer
  status : ℕ → Answer

-- a request to `/control` of a device
pub record Request : Type 0 where
  pub base : String
  pub var : String
  pub val : ℤ

abbrev pub is_controllable : CameraSourceType → Bool
is_controllable CameraSourceType.esp32cam_http = true
is_controllable CameraSourceType.esp32cam_stream = true
is_controllable _ = false

pub setting_ranges : Dict String (ℤ × ℤ)
setting_ranges =
    ("framesize", (pos 0, pos 13))
    ∷ ("quality", (pos 4, pos 63))
    ∷ ("brightness", (negsuc 1, pos 2))
    ∷ ("contrast", (negsuc 1, pos 2))
    ∷ ("saturation", (negsuc 1, pos 2))
    ∷ ("gainceiling", (pos 0, pos 6))
    ∷ ("awb", (pos 0, pos 1))
    ∷ ("agc", (pos 0, pos 1))
    ∷ ("aec", (pos 0, pos 1))
    ∷ ("aec_value", (pos 0, pos 1200))
    ∷ ("agc_gain", (pos 0, pos 30))
    ∷ ("hmirror", (pos 0, pos 1))
    ∷ ("vflip", (pos 0, pos 1))
    ∷ ("lenc", (pos 0, pos 1))
    ∷ ("wb_mode", (pos 0, pos 4))
    ∷ ("led", (pos 0, pos 1))
    ∷ []

-- one turn of the loop of `validate`
pub in_range : Option (ℤ × ℤ) → ℤ → Result ControlError (Unit {0})
in_range none value = err unknown_setting
in_range (some (low, high)) value =
    if int_leb low value && int_leb value high then ok tt else err out_of_range

pub check_all : Dict String ℤ → Result ControlError (Unit {0})
check_all [] = ok tt
check_all ((name, value) ∷ changes) = do
  checked ← in_range (Dict.get name setting_ranges) value
  check_all changes

pub validate : Dict String ℤ → Result ControlError (Dict String ℤ)
validate [] = err no_settings
validate (change ∷ changes) = do checked ← check_all (change ∷ changes); ok (change ∷ changes)

-- `{**remembered, **changes}`
unfoldable pub merge : Dict String ℤ → Dict String ℤ → Dict String ℤ
merge remembered [] = remembered
merge remembered ((name, value) ∷ changes) = merge (Dict.put name value remembered) changes

abbrev pub is_ok : ℕ → Bool
is_ok code = code == 200

-- `apply_to`: the requests that are sent, and what it answers
pub apply_to :
    String
    → Dict String ℤ
    → List Answer
    → Dict String Bool
    → List Request × Result ControlError (Dict String Bool)
apply_to base [] answers applied = ([], ok applied)
apply_to base ((name, value) ∷ changes) [] applied =
    (record { base = base; var = name; val = value } ∷ [], err camera_unreachable)
apply_to base ((name, value) ∷ changes) (http_error ∷ answers) applied =
    (record { base = base; var = name; val = value } ∷ [], err camera_unreachable)
apply_to base ((name, value) ∷ changes) (status code ∷ answers) applied =
    let rest = apply_to base changes answers (Dict.put name (is_ok code) applied) in
    (record { base = base; var = name; val = value } ∷ rest.0, rest.1)

-- the columns of the camera's row that are read and written here, and the number of audit rows
pub record Sensor : Type 0 where
  pub source_type : CameraSourceType
  pub source_url : String
  pub sensor_settings : Dict String ℤ
  pub audits : ℕ

-- `urlsplit` gives the scheme and the host; `urlunsplit` joins them
module _ (urlsplit : String → String × String) (urlunsplit : String → String → String) where
  unfoldable pub device_base : CameraSourceType → String → Result ControlError String
  device_base source_type source_url =
      if not (is_controllable source_type)
      then err camera_source_invalid
      else let parts = urlsplit source_url in
        if (parts.0 == "") || (parts.1 == "")
        then err camera_source_invalid
        else ok (urlunsplit parts.0 parts.1)

  -- the requests of a call that goes on from a base, and its answer
  pub send :
      Result ControlError String
      → Result ControlError (Dict String ℤ)
      → List Answer
      → List Request × Result ControlError (Dict String Bool)
  send (err failure) changes answers = ([], err failure)
  send (ok base) (err failure) answers = ([], err failure)
  send (ok base) (ok changes) answers = apply_to base changes answers []

  pub reapply_remembered :
      CameraSourceType
      → String
      → Dict String ℤ
      → List Answer
      → List Request × Result ControlError (Dict String Bool)
  reapply_remembered source_type source_url [] answers = ([], ok [])
  reapply_remembered source_type source_url (s ∷ remembered) answers =
      if not (is_controllable source_type)
      then ([], ok [])
      else send (device_base source_type source_url) (validate (s ∷ remembered)) answers

  -- what `update` writes once the settings are applied; nothing where that raises
  pub written : Dict String ℤ → Sensor → Result ControlError (Dict String Bool) → Sensor
  written changes camera (err failure) = camera
  written changes camera (ok applied) = record camera {
    sensor_settings = merge camera.sensor_settings changes;
    audits = camera.audits + 1;
  }

  -- `update`, once `validate` has answered
  pub update_checked :
      Sensor
      → List Answer
      → Result ControlError (Dict String ℤ)
      → Sensor × (List Request × Result ControlError (Dict String Bool))
  update_checked camera answers (err failure) = (camera, ([], err failure))
  update_checked camera answers (ok changes) =
      let sent = send (device_base camera.source_type camera.source_url) (ok changes) answers in
      (written changes camera sent.1, sent)

  pub update :
      Sensor
      → Dict String ℤ
      → List Answer
      → Sensor × (List Request × Result ControlError (Dict String Bool))
  update camera changes answers = update_checked camera answers (validate changes)

  -- updates one after another, each with its changes and the device's answers
  pub run : Sensor → List (Dict String ℤ × List Answer) → Sensor
  run camera [] = camera
  run camera ((changes, answers) ∷ updates) = run (update camera changes answers).0 updates
