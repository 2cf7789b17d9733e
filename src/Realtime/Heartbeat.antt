-- ===== src/Realtime/Heartbeat.antt =====
-- realtime/ws_heartbeat.py and realtime/ws_control.py: the pings of a stream and what a client may
-- send on it. Instants are numbers; the timer's rounds and the client's messages are events.
pub mod Ends
mod Tests
use caps_dash.Prelude.{
  ℕ, ◌+◌, String, String_key, ◌==◌, Bool, true, false, Option, none, some, List, [], ◌∷◌, ltb, leb,
  if◌then◌else◌,
}
use caps_dash.Realtime.Handshake.{Value, text, object, other, get_text}

abbrev pub max_missed_pings : ℕ
max_missed_pings = 2

-- `Heartbeat`
pub record Heartbeat : Type 0 where
  pub missed : ℕ
  pub expires_at : Option ℕ

pub data CloseReason : Type 0 where
  reason_token_expired reason_heartbeat_lost : CloseReason

pub record_pong : Heartbeat → Heartbeat
record_pong h = record h { missed = 0 }

abbrev pub token_expired : Option ℕ → ℕ → Bool
token_expired none now = false
token_expired (some expires_at) now = leb expires_at now

-- one round of `run`, after the sleep: the reason to close, or another ping
pub beat : Heartbeat → ℕ → Heartbeat × Option CloseReason
beat h now =
    if token_expired h.expires_at now
    then (h, some reason_token_expired)
    else if leb max_missed_pings h.missed
    then (h, some reason_heartbeat_lost)
    else (record h { missed = h.missed + 1 }, none)

-- What a message of the client leads to.
pub data Reaction : Type 0 where
  send_pong pong_recorded ignored : Reaction

abbrev pub reaction_to : Option String → Reaction
reaction_to none = ignored
reaction_to (some kind) =
    if kind == "ping" then send_pong else if kind == "pong" then pong_recorded else ignored

-- `_parse` and the branches of `read_control_messages`; `loads` is `json.loads`, `length_of` is `len`
abbrev pub max_control_message_bytes : ℕ
max_control_message_bytes = 4096

module _ (loads : String → Option Value) (length_of : String → ℕ) where
  unfoldable pub parsed : Option Value → Reaction
  parsed none = ignored
  parsed (some (text s)) = ignored
  parsed (some other) = ignored
  parsed (some (object fields)) = reaction_to (get_text "type" fields)

  unfoldable pub react : String → Reaction
  react raw = if ltb max_control_message_bytes (length_of raw) then ignored else parsed (loads raw)

-- What happens on a connection: the timer goes off, or a message of the client has been read.
pub data Event : Type 0 where
  tick : ℕ → Event
  message : Reaction → Event

pub heard : Heartbeat → Reaction → Heartbeat
heard h pong_recorded = record_pong h
heard h send_pong = h
heard h ignored = h

-- The connection until it is closed: the heartbeat, or the reason.
unfoldable pub run : Heartbeat → List Event → Heartbeat × Option CloseReason
run h [] = (h, none)
run h (message r ∷ es) = run (heard h r) es
run h (tick now ∷ es) =
    let rest = run (beat h now).0 es in
    let ended = (beat h now).1 in
    elim ended [ none ↦ rest | some reason ↦ ((beat h now).0, some reason) ]
