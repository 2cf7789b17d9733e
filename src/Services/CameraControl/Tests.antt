-- ===== src/Services/CameraControl/Tests.antt =====
-- Updates of the sensor settings of one camera, at concrete inputs.
use caps_dash.Services.CameraControl.{
  written, merge, send, setting_ranges, http_error, apply_to, in_range, pos, check_all, validate,
  Answer, status, ℤ, update_checked, Dict, update, CameraSourceType, reapply_remembered, run,
  Sensor, device_base,
}
use Prim.Native.String.{[], String}
use caps_dash.Prelude.{refl, All, ◌≡◌, ◌∷◌, [], List, String}
use caps_dash.Prelude.Dict.{Dict}
use caps_dash.Services.Cameras.{CameraSourceType}
use caps_dash.Prelude.Dict
use caps_dash.Services.CameraControl.Remembered.{reapply_remembered-run, IsAccepted}

-- an address is its host, with the scheme http
abbrev split : String → String × String
split url = ("http", url)

abbrev join : String → String → String
join scheme host = host

abbrev camera : Sensor
camera = record {
  source_type = CameraSourceType.esp32cam_http;
  source_url = "cam1";
  sensor_settings = [];
  audits = 0;
}

-- the exposure is locked, a brightness is refused, a quality is set though the device is away
abbrev updates : List (Dict String ℤ × List Answer)
updates =
    (("aec", pos 0) ∷ ("agc", pos 0) ∷ [], status 200 ∷ status 404 ∷ [])
    ∷ (("brightness", pos 3) ∷ [], status 200 ∷ [])
    ∷ (("quality", pos 12) ∷ [], http_error ∷ [])
    ∷ []

settings_kept :
    (run split join camera updates).sensor_settings ≡ ("aec", pos 0) ∷ ("agc", pos 0) ∷ []
unfolding run update update_checked validate check_all in_range setting_ranges send device_base
    apply_to merge written Dict.put Dict.get
settings_kept = refl

reapply_remembered-run_example :
    let remembered = (run split join camera updates).sensor_settings in
    let sent =
      reapply_remembered split join CameraSourceType.esp32cam_http "cam1" remembered
        (status 200 ∷ status 200 ∷ []) in
    (sent ≡ apply_to "cam1" remembered (status 200 ∷ status 200 ∷ []) [])
    × All (λ r. IsAccepted (r.var, r.val)) sent.0
unfolding device_base
reapply_remembered-run_example =
    reapply_remembered-run split join camera updates CameraSourceType.esp32cam_http "cam1" "cam1"
      (status 200 ∷ status 200 ∷ []) refl refl
