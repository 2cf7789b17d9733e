-- ===== src/Realtime/Heartbeat/Tests.antt =====
-- Runs of the heartbeat, at concrete inputs.
use caps_dash.Prelude.{refl, some, [], ◌∷◌}
use caps_dash.Realtime.Heartbeat.{
  Heartbeat, tick, message, pong_recorded, run, beat, heard, record_pong,
}
use caps_dash.Realtime.Heartbeat.Ends.{run-open, TicksBefore}

abbrev beginning : Heartbeat
beginning = record { missed = 0; expires_at = some 900 }

run-open_example : TicksBefore 900 (tick 10 ∷ message pong_recorded ∷ tick 20 ∷ tick 30 ∷ [])
unfolding run beat heard record_pong
run-open_example =
    run-open beginning (tick 10 ∷ message pong_recorded ∷ tick 20 ∷ tick 30 ∷ []) 900 refl refl
