-- ===== src/Workers/Supervisor/Signals.antt =====
-- Requests across threads: workers/reload_signals.py.
use caps_dash.Prelude.{ℕ, ℕ_key, ◌==◌, ◌≡◌, refl, Bool, true, false, arith, if◌then◌else◌}
use caps_dash.Prelude.Dict
use caps_dash.Prelude.Dict.{get-put}
use caps_dash.Workers.Supervisor.{
  take_reconcile, request_reconcile, ReloadSignals, request, take, is_set,
}

-- whether a request of the camera is pending
abbrev pub pending : ℕ → ReloadSignals → Bool
pending id r = is_set (Dict.get id r.events)

-- A request of a camera is pending until it is taken: a take tells exactly whether one is, after it
-- none is, and neither changes what is pending for another camera. A request to reconcile is found by
-- the next look for one, and only once.
pub take-request :
    (id other : ℕ) (r : ReloadSignals)
    → (pending other (request id r) ≡ (if id == other then true else pending other r))
      × ((take id r).1 ≡ pending id r)
      × (pending other (take id r).0 ≡ (if id == other then false else pending other r))
      × ((take_reconcile (request_reconcile r)).1 ≡ true)
      × ((take_reconcile (take_reconcile r).0).1 ≡ false)
unfolding request take request_reconcile take_reconcile
take-request id other r = (
  ground (arith, get-put id other true r.events),
  refl,
  ground (arith, get-put id other false r.events),
  refl,
  refl,
)
