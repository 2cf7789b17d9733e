-- ===== src/Workers/Supervisor/Interleaving.antt =====
-- While `_cancel` of workers/camera_supervisor.py waits for one task, the other tasks go on.
use caps_dash.Prelude.Dict
use caps_dash.Prelude.Dict.{get-put, get-remove}
use caps_dash.Prelude.{arith, false, ◌==◌, some, none, ◌≡◌, ℕ, Option, ℕ_key}
use caps_dash.Workers.Supervisor.{
  context_rebuilt, loop_died, context_built, reconciled, Event, CameraSupervisor, step, cancel,
  built, crashed, rebuild,
}

-- the camera whose task acts
abbrev camera_of : Event → Option ℕ
camera_of (reconciled query) = none
camera_of (context_built id context) = some id
camera_of (loop_died id) = some id
camera_of (context_rebuilt id context) = some id

-- the same tasks, and the same contexts
abbrev Agree : CameraSupervisor → CameraSupervisor → ℕ → Type 0
Agree s t k =
    (Dict.get k s.tasks ≡ Dict.get k t.tasks) × (Dict.get k s.contexts ≡ Dict.get k t.contexts)

-- What the task of another camera does may as well come before the cancellation as after it.
pub step-cancel :
    (s : CameraSupervisor) (e : Event) (i j k : ℕ)
    → camera_of e ≡ some j
    → (i == j) ≡ false
    → Agree (step (cancel i s) e) (cancel i (step s e)) k
unfolding step cancel built crashed rebuild
step-cancel s (reconciled query) i j k h other = absurd (ground arith)
step-cancel s (context_built id c) i j k h other = (
  ground (arith, other, h, get-remove i id s.tasks, get-remove i k s.tasks),
  ground (
    arith,
    other,
    h,
    get-remove i id s.tasks,
    get-remove i k s.tasks,
    get-remove i k s.contexts,
    get-put id k c s.contexts,
    get-put id k c (Dict.remove i s.contexts),
    get-remove i k (Dict.put id c s.contexts),
  ),
)
step-cancel s (loop_died id) i j k h other = (
  ground (arith, other, h, get-remove i id s.tasks, get-remove i k s.tasks),
  ground (
    arith,
    other,
    h,
    get-remove i id s.tasks,
    get-remove i k s.tasks,
    get-remove i k s.contexts,
    get-remove id k s.contexts,
    get-remove id k (Dict.remove i s.contexts),
    get-remove i k (Dict.remove id s.contexts),
  ),
)
step-cancel s (context_rebuilt id c) i j k h other = (
  ground (arith, other, h, get-remove i id s.tasks, get-remove i k s.tasks),
  ground (
    arith,
    other,
    h,
    get-remove i id s.tasks,
    get-remove i k s.tasks,
    get-remove i k s.contexts,
    get-put id k c s.contexts,
    get-put id k c (Dict.remove i s.contexts),
    get-remove i k (Dict.put id c s.contexts),
  ),
)
