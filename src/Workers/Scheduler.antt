-- ===== src/Workers/Scheduler.antt =====
-- workers/inference_scheduler.py and the parts of workers/camera_loop.py that call it: starting a
-- detection, a reload, the end of a run, and the drain at shutdown. The event loop runs the code
-- between two awaits without interruption, so each of these is one step. A camera's slot map is
-- represented by its version, and a finished run that is applied by the version it was started under.
pub mod Reload
mod Tests
use mathlib.Core.List.{Memᴰ}
use caps_dash.Prelude.{
  ◌≡◌, ℕ, ◌+◌, Bool, true, false, not, Option, none, some, List, [], ◌∷◌, ◌++◌, filter, nat_eq,
  if◌then◌else◌,
}

-- one `_run` task: the generation that it was given and the map version of its context
pub record Run : Type 0 where
  pub id : ℕ
  pub generation : ℕ
  pub map_version : ℕ

-- the scheduler's slots
pub record InferenceScheduler : Type 0 where
  pub task : Option Run
  pub generation : ℕ
  pub last_finished_at : Option ℕ

-- the camera loop around it: the tasks that are not done, and what was applied, newest first: the
-- map version of the run with the version that is current
pub record Loop : Type 0 where
  pub scheduler : InferenceScheduler
  pub running : List Run
  pub map_version : ℕ
  pub applied : List (ℕ × ℕ)
  pub started : ℕ
  pub draining : Bool

abbrev pub initial : Loop
initial = record {
  scheduler = record { task = none; generation = 0; last_finished_at = none };
  running = [];
  map_version = 0;
  applied = [];
  started = 0;
  draining = false;
}

abbrev same_run : Run → Run → Bool
same_run a b = nat_eq a.id b.id

abbrev pub is_running : List Run → Run → Bool
is_running [] r = false
is_running (s ∷ ss) r = let rest = is_running ss r in if same_run s r then true else rest

-- `busy`
unfoldable pub busy : Loop → Bool
busy l = elim l.scheduler.task [ none ↦ false | some r ↦ is_running l.running r ]

-- the new task of `start`
unfoldable pub launch : Loop → Loop
launch l =
    let run : Run = record {
      id = l.started;
      generation = l.scheduler.generation;
      map_version = l.map_version;
    } in
    record l {
      scheduler = record (l.scheduler) { task = some run };
      running = run ∷ l.running;
      started = l.started + 1;
    }

-- `start`
unfoldable pub start : Loop → Loop
start l = if busy l then l else launch l

-- `invalidate`
unfoldable pub invalidate : InferenceScheduler → InferenceScheduler
invalidate s = record s { generation = s.generation + 1 }

-- the reload at the top of a tick: a new context with a new map, and `invalidate`
unfoldable pub reload : Loop → Loop
reload l = record l { scheduler = invalidate l.scheduler; map_version = l.map_version + 1 }

abbrev remove_run : Run → List Run → List Run
remove_run r = filter (λ s. not (same_run s r))

-- the end of `_run` when the model raised
unfoldable pub fail : Loop → Run → Loop
fail l run = record l { running = remove_run run l.running }

-- what `_run` does with a result that is current
unfoldable pub accept : Loop → Run → ℕ → Loop
accept l run now = record l {
  scheduler = record (l.scheduler) { last_finished_at = some now };
  applied = (run.map_version, l.map_version) ∷ l.applied;
}

-- the end of `_run` when the model returned
unfoldable pub finish : Loop → Run → ℕ → Loop
finish l run now =
    if nat_eq run.generation l.scheduler.generation then accept (fail l run) run now else fail l run

-- the start of `drain`, in the `finally` of the loop: no tick follows
unfoldable pub drain : Loop → Loop
drain l = record l { scheduler = record (l.scheduler) { task = none }; draining = true }

-- What can happen between two awaits.
pub data Step : Loop → Loop → Type 0 where
  tick : {l : Loop} → l.draining ≡ false → Step l (start l)
  reloaded : {l : Loop} → l.draining ≡ false → Step l (reload l)
  finished : {l : Loop} (run : Run) (now : ℕ) → Memᴰ run l.running → Step l (finish l run now)
  failed : {l : Loop} (run : Run) → Memᴰ run l.running → Step l (fail l run)
  stopped : {l : Loop} → l.draining ≡ false → Step l (drain l)

-- The states that the loop can come to.
pub data Reachable : Loop → Type 0 where
  at_start : Reachable initial
  later : {l m : Loop} → Reachable l → Step l m → Reachable m
