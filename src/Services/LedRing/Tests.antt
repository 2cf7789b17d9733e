-- ===== src/Services/LedRing/Tests.antt =====
-- Pushes to the ring of one camera, at concrete inputs.
use caps_dash.Prelude.{
  ok, inl, ◌+◌, ◌<◌, some, [], err, refl, none, ℕ, ◌≡◌, ◌∷◌, String, String_key,
}
use caps_dash.Prelude.Dict
use caps_dash.Services.LedRing.Quiet.{push-acknowledged, acknowledged}
use caps_dash.Prelude.Dict.{Dict}
use caps_dash.Vision.States.{free, unknown, occupied, SlotState}
use caps_dash.Services.Cameras.{CameraSourceType}
use caps_dash.Services.CameraControl.{http_error, status, Answer, device_base}
use caps_dash.Services.LedRing.{
  no_ring, pattern_answer, pattern_sent, refresh_seconds, new_ring, validation_failed, free,
  unknown, insert_code, device_base, Answer, occupied, status, CameraSourceType, SlotState,
  sorted_codes, heard, all_lamps, encode_states, ask, push, run, joined, Push, push_test_pattern,
}

-- an address is its host, with the scheme http
abbrev split : String → String × String
split url = ("http", url)

abbrev join : String → String → String
join scheme host = host

abbrev pushed : Dict String SlotState → Answer → ℕ → Push
pushed states answer now = record {
  source_type = CameraSourceType.esp32cam_http;
  source_url = "cam1";
  states = states;
  answer = answer;
  now = now;
}

abbrev bays : Dict String SlotState
bays = ("B", occupied) ∷ ("A", unknown) ∷ ("C", free) ∷ []

-- the codes are sorted, whatever the order of the dictionary
encoded : encode_states bays ≡ "u10"
unfolding encode_states sorted_codes insert_code joined Dict.get
encoded = refl

-- the first push is answered, and the next, five seconds later, is not sent
quiet_push :
    (push split join
      (run split join new_ring (pushed bays (status 200) 100 ∷ []))
      (pushed bays http_error 105)).1
    ≡ none
unfolding push run ask heard device_base encode_states sorted_codes insert_code joined Dict.get
quiet_push = refl

-- a device without a ring is not asked again
no_ring_push :
    (push split join
      (run split join new_ring (pushed bays (status 404) 100 ∷ []))
      (pushed bays http_error 200)).1
    ≡ none
unfolding push run ask heard device_base encode_states sorted_codes insert_code joined Dict.get
no_ring_push = refl

-- a pattern with a character that is no lamp is refused before a request
bad_pattern :
    push_test_pattern split join CameraSourceType.esp32cam_http "cam1" "01x" (status 200)
    ≡ (none, err validation_failed)
unfolding push_test_pattern all_lamps
bad_pattern = refl

-- what a device answers to a pattern
patterns :
    (push_test_pattern split join CameraSourceType.esp32cam_http "cam1" "01u" (status 200)
      ≡ (some (record { base = "cam1"; slots = "01u" }), ok tt))
    × ((push_test_pattern split join CameraSourceType.esp32cam_http "cam1" "01u" (status 404)).1
        ≡ err no_ring)
unfolding push_test_pattern all_lamps pattern_sent pattern_answer device_base
patterns = (refl, refl)

push-acknowledged_example :
    (at : ℕ) × (acknowledged split join new_ring
        (pushed bays (status 200) 100 ∷ pushed bays http_error 105 ∷ [])
        none
      ≡ some (encode_states bays, at))
    × (105 < at + refresh_seconds)
unfolding push run ask heard device_base encode_states sorted_codes insert_code joined Dict.get
push-acknowledged_example =
    push-acknowledged split join (pushed bays (status 200) 100 ∷ []) (pushed bays http_error 105)
      refl refl refl (inl refl)
