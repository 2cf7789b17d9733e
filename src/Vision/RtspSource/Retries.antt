-- ===== src/Vision/RtspSource/Retries.antt =====
-- The waits between sessions in vision/sources/rtsp_stream_source.py.
use caps_dash.Prelude.{ℕ, ◌*◌, ◌≤◌, min, List, [], ◌∷◌, true, false, arith, All}
use caps_dash.Vision.RtspSource.{
  Attempt, unreachable, worth_retrying_soon, drained, waits, initial_backoff, max_backoff,
}

-- Whatever the attempts bring, every wait between them is of one second at least and of thirty at
-- most.
pub waits_bounds :
    (backoff : ℕ) (attempts : List Attempt)
    → 1 ≤ backoff
    → backoff ≤ max_backoff
    → All (λ w. (1 ≤ w) × (w ≤ max_backoff)) (waits backoff attempts)
unfolding waits
waits_bounds backoff [] low high = tt
waits_bounds backoff (unreachable ∷ attempts) low high =
    ((low, high), waits_bounds (min (backoff * 2) max_backoff) attempts (omega arith) (omega arith))
waits_bounds backoff (worth_retrying_soon ∷ attempts) low high =
    (omega arith, waits_bounds backoff attempts low high)
waits_bounds backoff (drained true ∷ attempts) low high =
    waits_bounds initial_backoff attempts (omega arith) (omega arith)
waits_bounds backoff (drained false ∷ attempts) low high =
    ((low, high), waits_bounds (min (backoff * 2) max_backoff) attempts (omega arith) (omega arith))
