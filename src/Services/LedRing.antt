-- ===== src/Services/LedRing.antt =====
-- services/slot_led_service.py: the status ring of a camera node. The payload has one character for
-- each slot, in the order of the codes. The address is `device_base` of the camera control, with
-- Python's `urlsplit` and `urlunsplit` as parameters; the answer of the device to a request and the
-- monotonic clock, in seconds, are inputs.
pub mod Encoded
pub mod Quiet
mod Tests
use caps_dash.Prelude.{
  ℕ, ◌+◌, String, String_key, ℕ_key, Bool, true, false, not, ◌&&◌, ◌||◌, ◌==◌, Option, none, some,
  List, [], ◌∷◌, leb, ltb, if◌then◌else◌, Result, ok, err,
}
use caps_dash.Prelude.Dict
use caps_dash.Prelude.Dict.{Dict, keys}
use Prim.Native.String.{compare, count, ◌++◌ as append}
use Prim.Native.Nat.{Ordering}
use Prim.Native.Char.{code as char_code}
use caps_dash.Vision.States.{SlotState, unknown, free, occupied}
use caps_dash.Services.Cameras.{CameraSourceType}
use caps_dash.Services.CameraControl.{
  http_error, status, ControlError, Answer, is_controllable, device_base,
}

abbrev pub refresh_seconds : ℕ
refresh_seconds = 15

abbrev pub max_slots : ℕ
max_slots = 8

-- `STATE_CHARS`, with the default for a code that has no state
abbrev pub state_char : Option SlotState → String
state_char (some occupied) = "1"
state_char (some free) = "0"
state_char (some unknown) = "u"
state_char none = "u"

-- texts compare by the numbers of their characters
abbrev pub text_leb : String → String → Bool
text_leb a b = elim (compare a b) [ Ordering.gt ↦ false | _ ↦ true ]

pub insert_code : String → List String → List String
insert_code a [] = a ∷ []
insert_code a (b ∷ bs) =
    let rest = insert_code a bs in if text_leb a b then a ∷ b ∷ bs else b ∷ rest

pub sorted_codes : List String → List String
sorted_codes [] = []
sorted_codes (a ∷ bs) = insert_code a (sorted_codes bs)

pub joined : Dict String SlotState → List String → String
joined states [] = ""
joined states (code ∷ codes) = append (state_char (Dict.get code states)) (joined states codes)

pub encode_states : Dict String SlotState → String
encode_states states = joined states (sorted_codes (keys states))

pub record SlotLedRing : Type 0 where
  pub supported : Bool
  pub last_payload : String
  pub last_sent_at : ℕ

abbrev pub new_ring : SlotLedRing
new_ring = record { supported = true; last_payload = ""; last_sent_at = 0 }

-- the call of `push` for a camera, with the answer that a request would get and the time
pub record Push : Type 0 where
  pub source_type : CameraSourceType
  pub source_url : String
  pub states : Dict String SlotState
  pub answer : Answer
  pub now : ℕ

abbrev pub no_states : Dict String SlotState → Bool
no_states [] = true
no_states (e ∷ states) = false

-- a request to `/ring`: the address and the slots
pub record Request : Type 0 where
  pub base : String
  pub slots : String

-- the ring after the device's answer
pub heard : SlotLedRing → String → ℕ → Answer → SlotLedRing
heard ring payload now http_error = ring
heard ring payload now (status code) =
    if code == 404
    then record ring { supported = false }
    else if not (code == 200)
    then ring
    else record ring { last_payload = payload; last_sent_at = now }

-- from the request on, once the address is known
pub ask :
    SlotLedRing → String → ℕ → Answer → Result ControlError String → SlotLedRing × Option Request
ask ring payload now answer (err failure) = (record ring { supported = false }, none)
ask ring payload now answer (ok base) =
    (heard ring payload now answer, some (record { base = base; slots = payload }))

-- what `push_test_pattern` raises
pub data PatternError : Type 0 where
  validation_failed camera_source_invalid no_ring camera_unreachable : PatternError

-- `char not in "01u"`, for every character; 48, 49 and 117 are the numbers of these
pub all_lamps : String → Bool
all_lamps String.[] = true
all_lamps (String.◌∷◌ c s) =
    ((char_code c == 48) || (char_code c == 49) || (char_code c == 117)) && all_lamps s

pub pattern_answer : Answer → Result PatternError (Unit {0})
pattern_answer http_error = err camera_unreachable
pattern_answer (status code) =
    if code == 404 then err no_ring else if not (code == 200) then err camera_unreachable else ok tt

pub pattern_sent :
    String → Answer → Result ControlError String → Option Request × Result PatternError (Unit {0})
pattern_sent slots answer (err failure) = (none, err PatternError.camera_source_invalid)
pattern_sent slots answer (ok base) =
    (some (record { base = base; slots = slots }), pattern_answer answer)

module _ (urlsplit : String → String × String) (urlunsplit : String → String → String) where
  -- `push`: the ring, and the request if one is sent
  pub push : SlotLedRing → Push → SlotLedRing × Option Request
  push ring p =
      if not ring.supported || no_states p.states
      then (ring, none)
      else let payload = encode_states p.states in
        if (payload == ring.last_payload) && ltb p.now (ring.last_sent_at + refresh_seconds)
        then (ring, none)
        else if not (is_controllable p.source_type)
        then (record ring { supported = false }, none)
        else if ltb max_slots (count payload)
        then (record ring { supported = false }, none)
        else ask ring payload p.now p.answer
            (device_base urlsplit urlunsplit p.source_type p.source_url)

  -- `push_test_pattern`: the request if one is sent, and what it raises
  pub push_test_pattern :
      CameraSourceType → String → String → Answer → Option Request × Result PatternError (Unit {0})
  push_test_pattern source_type source_url slots answer =
      if (slots == "") || ltb max_slots (count slots) || not (all_lamps slots)
      then (none, err validation_failed)
      else pattern_sent slots answer (device_base urlsplit urlunsplit source_type source_url)

  pub run : SlotLedRing → List Push → SlotLedRing
  run ring [] = ring
  run ring (p ∷ pushes) = run (push ring p).0 pushes
