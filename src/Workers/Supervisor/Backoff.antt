-- ===== src/Workers/Supervisor/Backoff.antt =====
-- The waits between restarts in workers/camera_supervisor.py.
use caps_dash.Prelude.{
  ℕ, zero, suc, ◌*◌, ◌^◌, min, ◌≡◌, List, [], ◌∷◌, ◌++◌, arith, replicate, refl, ap,
}
use native.Mathlib.Nat.{pow-suc}
use caps_dash.Workers.Supervisor.{
  Attempt, build_failed, loop_crashed, waits, initial_backoff, max_backoff,
}

-- a minute at most, doubled each time
abbrev pub capped : ℕ → ℕ
capped k = min (2 ^ k) max_backoff

abbrev pub doubling : ℕ → ℕ → List ℕ
doubling k zero = []
doubling k (suc n) = capped k ∷ doubling (suc k) n

capped-suc : (k : ℕ) → min (capped k * 2) max_backoff ≡ capped (suc k)
capped-suc k = ground (arith, pow-suc 2 k)

-- Whatever has happened to a camera before, as often as its context cannot be built in a row the
-- waits double from where they are, up to a minute, and a loop that crashes after a successful build
-- starts them again at one second.
pub waits-doubling :
    (k n : ℕ) (rest : List Attempt)
    → waits (capped k) (replicate n build_failed ++ loop_crashed ∷ rest)
      ≡ doubling k n ++ initial_backoff ∷ waits (capped 1) rest
unfolding waits
waits-doubling k zero rest = refl
waits-doubling k (suc n) rest =
    rw (capped-suc k) (ap (◌∷◌ (capped k)) (waits-doubling (suc k) n rest))

-- A loop that keeps crashing after it was built is restarted every second, however often.
pub waits-loop_crashed :
    (backoff n : ℕ) → waits backoff (replicate n loop_crashed) ≡ replicate n initial_backoff
unfolding waits
waits-loop_crashed backoff zero = refl
waits-loop_crashed backoff (suc n) =
    ap (◌∷◌ initial_backoff) (waits-loop_crashed (min (initial_backoff * 2) max_backoff) n)
