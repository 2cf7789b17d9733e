-- ===== src/Workers/Supervisor.antt =====
-- workers/camera_supervisor.py, with workers/camera_start_stagger.py and workers/reload_signals.py:
-- which camera loops run. Durations are in microseconds, and a quotient of them is rounded down;
-- a context is known by a number, and `closed` lists those that have been closed.
pub mod Signals
pub mod Reconciling
pub mod Stagger
pub mod Backoff
pub mod Interleaving
mod Tests
use caps_dash.Prelude.{
  ℕ, ◌+◌, ◌*◌, ◌/◌, min, ℕ_key, ◌==◌, Bool, true, false, not, ◌||◌, Option, none, some, List, [],
  ◌∷◌, ◌++◌, leb, if◌then◌else◌, filter, any,
}
use caps_dash.Prelude.Dict
use caps_dash.Prelude.Dict.{Dict, keys}

-- `ReloadSignals`: which events exist, and whether each is set
pub record ReloadSignals : Type 0 where
  pub events : Dict ℕ Bool
  pub reconcile : Bool

abbrev pub is_set : Option Bool → Bool
is_set none = false
is_set (some set) = set

unfoldable pub request : ℕ → ReloadSignals → ReloadSignals
request camera_id r = record r { events = Dict.put camera_id true r.events }

-- `take` creates the event where there is none, and clears it where it is set
pub take : ℕ → ReloadSignals → ReloadSignals × Bool
take camera_id r =
    (record r { events = Dict.put camera_id false r.events }, is_set (Dict.get camera_id r.events))

unfoldable pub request_reconcile : ReloadSignals → ReloadSignals
request_reconcile r = record r { reconcile = true }

pub take_reconcile : ReloadSignals → ReloadSignals × Bool
take_reconcile r = (record r { reconcile = false }, r.reconcile)

pub forget : ℕ → ReloadSignals → ReloadSignals
forget camera_id r = record r { events = Dict.remove camera_id r.events }

-- `sorted`, on distinct numbers
pub insert : ℕ → List ℕ → List ℕ
insert a [] = a ∷ []
insert a (b ∷ bs) = if leb a b then a ∷ b ∷ bs else b ∷ insert a bs

pub sorted : List ℕ → List ℕ
unfolding insert
sorted [] = []
sorted (a ∷ l) = insert a (sorted l)

abbrev pub interval_of : Option ℕ → ℕ
interval_of none = 0
interval_of (some interval) = interval

-- `index * poll_interval_s.get(camera_id, 0.0) / fleet_size` from an index on
pub offsets_from : ℕ → List ℕ → ℕ → Dict ℕ ℕ → Dict ℕ ℕ
offsets_from index [] fleet_size intervals = []
offsets_from index (camera_id ∷ rest) fleet_size intervals =
    (camera_id, (index * interval_of (Dict.get camera_id intervals)) / fleet_size)
    ∷ offsets_from (index + 1) rest fleet_size intervals

-- `dict.fromkeys(ordered, 0.0)`
pub from_keys : List ℕ → Dict ℕ ℕ
from_keys [] = []
from_keys (camera_id ∷ rest) = (camera_id, 0) ∷ from_keys rest

pub stagger_offsets : List ℕ → ℕ → Dict ℕ ℕ → Dict ℕ ℕ
unfolding sorted offsets_from from_keys
stagger_offsets spawning fleet_size intervals =
    if leb fleet_size 1
    then from_keys (sorted spawning)
    else offsets_from 0 (sorted spawning) fleet_size intervals

-- The supervisor: the tasks by camera, with the offset each was spawned with, the contexts by camera,
-- and the contexts that were closed.
pub record CameraSupervisor : Type 0 where
  pub tasks : Dict ℕ ℕ
  pub contexts : Dict ℕ ℕ
  pub closed : List ℕ
  pub signals : ReloadSignals

pub spawn : ℕ → ℕ → CameraSupervisor → CameraSupervisor
spawn camera_id offset s = record s { tasks = Dict.put camera_id offset s.tasks }

pub spawn_all : Dict ℕ ℕ → CameraSupervisor → CameraSupervisor
unfolding spawn
spawn_all [] s = s
spawn_all ((camera_id, offset) ∷ offsets) s = spawn_all offsets (spawn camera_id offset s)

abbrev pub closing : Option ℕ → List ℕ → List ℕ
closing none closed = closed
closing (some context) closed = closed ++ context ∷ []

-- `_cancel`
pub cancel : ℕ → CameraSupervisor → CameraSupervisor
unfolding forget
cancel camera_id s = record {
  tasks = Dict.remove camera_id s.tasks;
  contexts = Dict.remove camera_id s.contexts;
  closed = closing (Dict.get camera_id s.contexts) s.closed;
  signals = forget camera_id s.signals;
}

pub cancel_all : List ℕ → CameraSupervisor → CameraSupervisor
cancel_all [] s = s
cancel_all (camera_id ∷ ids) s = cancel_all ids (cancel camera_id s)

abbrev pub member : ℕ → List ℕ → Bool
member id = any (λ i. i == id)

-- `wanted - running`
abbrev pub minus : List ℕ → List ℕ → List ℕ
minus ids others = filter (λ id. not (member id others)) ids

-- what `_enabled_cameras` answers, `none` where the query raises OperationalError
abbrev pub enabled_cameras : Option (Dict ℕ ℕ) → Dict ℕ ℕ
enabled_cameras none = []
enabled_cameras (some enabled) = enabled

-- the fleet size, `len(wanted)`; a dictionary's keys are distinct
abbrev pub size : Dict ℕ ℕ → ℕ
size [] = 0
size (e ∷ d) = size d + 1

-- `_cancel` waits for the end of its task. What another task does meanwhile is here an event before or
-- after the reconciliation, which gives the same tasks and contexts (Supervisor/Interleaving.antt).
pub reconcile : Option (Dict ℕ ℕ) → CameraSupervisor → CameraSupervisor
reconcile query s =
    let enabled = enabled_cameras query in
    let offsets = stagger_offsets (minus (keys enabled) (keys s.tasks)) (size enabled) enabled in
    cancel_all (minus (keys s.tasks) (keys enabled)) (spawn_all offsets s)

-- `_supervise` once a context is built, and once its loop has crashed; `_rebuild`
pub built : ℕ → ℕ → CameraSupervisor → CameraSupervisor
built camera_id context s = record s { contexts = Dict.put camera_id context s.contexts }

pub crashed : ℕ → CameraSupervisor → CameraSupervisor
crashed camera_id s = record s {
  contexts = Dict.remove camera_id s.contexts;
  closed = closing (Dict.get camera_id s.contexts) s.closed;
}

pub rebuild : ℕ → ℕ → CameraSupervisor → CameraSupervisor
rebuild camera_id context s = record s {
  closed = closing (Dict.get camera_id s.contexts) s.closed;
  contexts = Dict.put camera_id context s.contexts;
}

-- What happens to the supervisor: a reconciliation, and what the tasks do on their own. A task that
-- was cancelled does nothing any more.
pub data Event : Type 0 where
  reconciled : Option (Dict ℕ ℕ) → Event
  context_built : ℕ → ℕ → Event
  loop_died : ℕ → Event
  context_rebuilt : ℕ → ℕ → Event

abbrev pub is_some {ℓ} : {A : Type ℓ} → Option A → Bool
is_some none = false
is_some (some a) = true

pub step : CameraSupervisor → Event → CameraSupervisor
unfolding built crashed rebuild
step s (reconciled query) = reconcile query s
step s (context_built id context) = if is_some (Dict.get id s.tasks) then built id context s else s
step s (loop_died id) = if is_some (Dict.get id s.tasks) then crashed id s else s
step s (context_rebuilt id context) =
    if is_some (Dict.get id s.tasks) then rebuild id context s else s

pub run : CameraSupervisor → List Event → CameraSupervisor
run s [] = s
run s (e ∷ es) = run (step s e) es

-- the supervisor before `start`
abbrev pub idle : CameraSupervisor
idle = record {
  tasks = [];
  contexts = [];
  closed = [];
  signals = record { events = []; reconcile = false };
}

abbrev pub initial_backoff : ℕ
initial_backoff = 1

abbrev pub max_backoff : ℕ
max_backoff = 60

-- How one round of the loop of `_supervise` ends: the context cannot be built, the camera loop
-- crashes, or it returns because it was asked to stop.
pub data Attempt : Type 0 where
  build_failed loop_crashed asked_to_stop : Attempt

-- The waits of `_supervise`, in seconds, over its attempts; it ends when it is asked to stop.
pub waits : ℕ → List Attempt → List ℕ
waits backoff [] = []
waits backoff (build_failed ∷ attempts) = backoff ∷ waits (min (backoff * 2) max_backoff) attempts
waits backoff (loop_crashed ∷ attempts) =
    initial_backoff ∷ waits (min (initial_backoff * 2) max_backoff) attempts
waits backoff (asked_to_stop ∷ attempts) = []
