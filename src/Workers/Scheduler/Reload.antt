-- ===== src/Workers/Scheduler/Reload.antt =====
-- The reachable states of the scheduler in workers/inference_scheduler.py.
use mathlib.Core.Path.{subst}
use mathlib.Core.List.Memᴰ
use mathlib.Core.List.{Memᴰ}
use caps_dash.Prelude.{
  ℕ, ◌+◌, ◌≤◌, ◌≡◌, refl, sym, ap, Bool, true, false, ◌||◌, not, Option, none, some, List, [], ◌∷◌,
  length, All, filter, arith, nat_eq, if◌then◌else◌, Bool-cases, inl, inr,
}
use caps_dash.Workers.Scheduler.{
  Run, Loop, busy, is_running, start, invalidate, reload, finish, fail, accept, launch, drain, Step,
  Reachable,
}

-- Nothing runs but what the scheduler's handle stands for, and after `drain` what it stood for.
abbrev single : Bool → Option Run → List Run → Bool
single draining task [] = true
single draining task (r ∷ []) = draining || elim task [ none ↦ false | some t ↦ nat_eq t.id r.id ]
single draining task (r ∷ s ∷ runs) = false

abbrev Current : List Run → Type 0
Current = All (λ r. r.generation ≡ r.map_version)

-- every applied result was applied to the map that it was computed for
abbrev pub UpToDate : List (ℕ × ℕ) → Type 0
UpToDate = All (λ e. e.0 ≡ e.1)

abbrev Valid : Loop → Type 0
Valid l =
    (l.scheduler.generation ≡ l.map_version)
    × Current l.running
    × UpToDate l.applied
    × (single l.draining l.scheduler.task l.running ≡ true)

-- a scheduler that is not busy and not draining has nothing running
idle :
    (task : Option Run) (runs : List Run)
    → single false task runs ≡ true
    → (elim task [ none ↦ false | some r ↦ is_running runs r ]) ≡ false
    → runs ≡ []
idle task [] h k = refl
idle none (r ∷ []) h k = absurd (ground arith)
idle (some t) (r ∷ []) h k = absurd (ground arith)
idle task (r ∷ s ∷ runs) h k = absurd (ground arith)

-- and the end of the one that runs leaves none
ended :
    (draining : Bool) (task : Option Run) (runs : List Run) (run : Run)
    → single draining task runs ≡ true
    → Memᴰ run runs
    → (Current runs → run.generation ≡ run.map_version)
      × (filter (λ s. not (nat_eq s.id run.id)) runs ≡ [])
ended draining task [] run h m = absurd (Memᴰ.not-nil m)
ended draining task (r ∷ []) run h m = elim m [
  | Memᴰ.head same ↦ (λ c. ground (arith, c.0, same), ground (arith, same))
  | Memᴰ.tail none_left ↦ absurd (Memᴰ.not-nil none_left)
]
ended draining task (r ∷ s ∷ runs) run h m = absurd (ground arith)

-- the task that `launch` creates
abbrev launch_run : Loop → Run
launch_run l = record {
  id = l.started;
  generation = l.scheduler.generation;
  map_version = l.map_version;
}

single-draining :
    (draining : Bool) (task : Option Run) (runs : List Run)
    → single draining task runs ≡ true
    → single true none runs ≡ true
single-draining draining task [] h = refl
single-draining draining task (r ∷ []) h = refl
single-draining draining task (r ∷ s ∷ runs) h = absurd (ground arith)

Valid-launch : (l : Loop) → l.draining ≡ false → Valid l → busy l ≡ false → Valid (launch l)
unfolding launch busy
Valid-launch l active (same, current, applied, one) free =
    let nothing : l.running ≡ [] =
      idle l.scheduler.task l.running
        (subst (λ d. single d l.scheduler.task l.running ≡ true) active one) free in
    (
      same,
      (same, current),
      applied,
      subst (λ runs. single l.draining (some (launch_run l)) (launch_run l ∷ runs) ≡ true)
          (sym nothing) (ground arith),
    )

Valid-start : (l : Loop) → l.draining ≡ false → Valid l → Valid (start l)
unfolding start
Valid-start l active v = elim (Bool-cases (busy l)) [
  | inl running ↦ subst Valid (sym (ap (λ b. if b then l else launch l) running)) v
  | inr free ↦
      subst Valid (sym (ap (λ b. if b then l else launch l) free)) (Valid-launch l active v free)
]

Valid-reload : (l : Loop) → Valid l → Valid (reload l)
unfolding reload invalidate
Valid-reload l (same, current, applied, one) = (ap (λ n. n + 1) same, current, applied, one)

Valid-fail : (l : Loop) (run : Run) → Memᴰ run l.running → Valid l → Valid (fail l run)
unfolding fail
Valid-fail l run m (same, current, applied, one) =
    let nothing = (ended l.draining l.scheduler.task l.running run one m).1 in
    (
      same,
      subst Current (sym nothing) tt,
      applied,
      subst (λ runs. single l.draining l.scheduler.task runs ≡ true) (sym nothing) refl,
    )

Valid-accept :
    (l : Loop) (run : Run) (now : ℕ)
    → run.map_version ≡ l.map_version
    → Valid l
    → Valid (accept l run now)
unfolding accept
Valid-accept l run now up_to_date (same, current, applied, one) =
    (same, current, (up_to_date, applied), one)

map_version-fail : (l : Loop) (run : Run) → (fail l run).map_version ≡ l.map_version
unfolding fail
map_version-fail l run = refl

Valid-finish :
    (l : Loop) (run : Run) (now : ℕ) → Memᴰ run l.running → Valid l → Valid (finish l run now)
unfolding finish
Valid-finish l run now m v =
    let choose : Bool → Loop = λ b. if b then accept (fail l run) run now else fail l run in
    let (same, current, applied, one) = v in
    elim (Bool-cases (nat_eq run.generation l.scheduler.generation)) [
      | inl current_run ↦ subst Valid (sym (ap choose current_run)) (
          Valid-accept (fail l run) run now
            (ground (
              arith,
              (ended l.draining l.scheduler.task l.running run one m).0 current,
              map_version-fail l run,
              same,
            ))
            (Valid-fail l run m v))
      | inr stale ↦ subst Valid (sym (ap choose stale)) (Valid-fail l run m v)
    ]

Valid-drain : (l : Loop) → Valid l → Valid (drain l)
unfolding drain
Valid-drain l (same, current, applied, one) =
    (same, current, applied, single-draining l.draining l.scheduler.task l.running one)

Valid-Step : {l m : Loop} → Step l m → Valid l → Valid m
Valid-Step (Step.tick {l} active) v = Valid-start l active v
Valid-Step (Step.reloaded {l} active) v = Valid-reload l v
Valid-Step (Step.finished {l} run now m) v = Valid-finish l run now m v
Valid-Step (Step.failed {l} run m) v = Valid-fail l run m v
Valid-Step (Step.stopped {l} active) v = Valid-drain l v

Reachable-Valid : {l : Loop} → Reachable l → Valid l
Reachable-Valid Reachable.at_start = (refl, tt, tt, refl)
Reachable-Valid (Reachable.later r s) = Valid-Step s (Reachable-Valid r)

single-length :
    (draining : Bool) (task : Option Run) (runs : List Run)
    → single draining task runs ≡ true
    → length runs ≤ 1
single-length draining task [] h = omega arith
single-length draining task (r ∷ []) h = omega arith
single-length draining task (r ∷ s ∷ runs) h = absurd (ground arith)

-- In every state that the loop can come to, through any sequence of ticks, reloads, finished and
-- failed runs and the shutdown, at most one detection of the camera is running, and every result
-- that was applied was applied to the slot map that its run was started under.
pub Reachable-UpToDate : (l : Loop) → Reachable l → (length l.running ≤ 1) × UpToDate l.applied
Reachable-UpToDate l r =
    let (same, current, applied, one) = Reachable-Valid r in
    (single-length l.draining l.scheduler.task l.running one, applied)
