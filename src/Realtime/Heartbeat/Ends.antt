-- ===== src/Realtime/Heartbeat/Ends.antt =====
-- When realtime/ws_heartbeat.py ends a stream.
use caps_dash.Prelude.{
  ℕ, suc, ◌+◌, ◌<◌, ◌≤◌, ◌≡◌, refl, ap, ◌∙◌, Bool, true, false, Option, none, some, List, [], ◌∷◌,
  arith, Bool-cases, inl, inr,
}
use caps_dash.Realtime.Heartbeat.{
  Heartbeat, beat, heard, record_pong, run, Event, tick, message, Reaction, send_pong,
  pong_recorded, ignored, token_expired,
}

-- no pong is among the messages
abbrev pub Silent : List Event → Type 0
Silent [] = Unit
Silent (tick now ∷ es) = Silent es
Silent (message pong_recorded ∷ es) = ⊥
Silent (message send_pong ∷ es) = Silent es
Silent (message ignored ∷ es) = Silent es

-- how often the timer went off
abbrev pub ticks : List Event → ℕ
ticks [] = 0
ticks (tick now ∷ es) = suc (ticks es)
ticks (message r ∷ es) = ticks es

abbrev pub closed : {A : Type 0} → Option A → Bool
closed none = false
closed (some a) = true

-- A client that stops answering, whatever else it sends, is disconnected at the third round of the
-- timer after its last pong at the latest.
pub run-Silent :
    (h : Heartbeat) (es : List Event)
    → Silent es
    → 3 ≤ h.missed + ticks es
    → 1 ≤ ticks es
    → closed (run h es).1 ≡ true
unfolding run heard beat
run-Silent h [] silent enough some_tick = absurd (omega arith)
run-Silent h (message send_pong ∷ es) silent enough some_tick =
    run-Silent h es silent enough some_tick
run-Silent h (message pong_recorded ∷ es) silent enough some_tick = absurd silent
run-Silent h (message ignored ∷ es) silent enough some_tick =
    run-Silent h es silent enough some_tick
run-Silent h (tick now ∷ es) silent enough some_tick =
    ground (arith, run-Silent (record h { missed = h.missed + 1 }) es silent)

beat-none :
    (h : Heartbeat) (now : ℕ) → (beat h now).1 ≡ none → token_expired h.expires_at now ≡ false
unfolding beat
beat-none h now go = elim (Bool-cases (token_expired h.expires_at now)) [
  | inl expired ↦ absurd (ground arith)
  | inr early ↦ early
]

expires-beat : (h : Heartbeat) (now : ℕ) → (beat h now).0.expires_at ≡ h.expires_at
unfolding beat
expires-beat h now = ground arith

-- every round of the timer came before the instant
abbrev pub TicksBefore : ℕ → List Event → Type 0
TicksBefore expires_at [] = Unit
TicksBefore expires_at (tick now ∷ es) = (now < expires_at) × TicksBefore expires_at es
TicksBefore expires_at (message r ∷ es) = TicksBefore expires_at es

expires-heard : (h : Heartbeat) (r : Reaction) → (heard h r).expires_at ≡ h.expires_at
unfolding heard record_pong
expires-heard h send_pong = refl
expires-heard h pong_recorded = refl
expires-heard h ignored = refl

-- A stream that is still open has seen no round of the timer at or after the expiry of its token,
-- whatever its client sent.
pub run-open :
    (h : Heartbeat) (es : List Event) (expires_at : ℕ)
    → h.expires_at ≡ some expires_at
    → (run h es).1 ≡ none
    → TicksBefore expires_at es
unfolding run
run-open h [] expires_at e open_still = tt
run-open h (message r ∷ es) expires_at e open_still =
    run-open (heard h r) es expires_at (expires-heard h r ∙ e) open_still
run-open h (tick now ∷ es) expires_at e open_still =
    let goes_on : (beat h now).1 ≡ none = ground arith in
    let early : token_expired h.expires_at now ≡ false = beat-none h now goes_on in
    (
      ground (arith, ap (λ o. token_expired o now) e),
      run-open (beat h now).0 es expires_at (expires-beat h now ∙ e) (ground arith),
    )
