-- ===== src/Services/Aggregation.antt =====
-- services/hourly_aggregation_service.py: which hours a run of the job aggregates. Hours are counted from the
-- epoch. `aggregated` says which hours have a SITE row, which is the completion marker, and
-- `suspect` which hours have events that were all written under an implausible clock. What is
-- computed for an hour is Services/Timeline.antt.
pub mod Backlog
pub mod Filled
mod Tests
use caps_dash.Prelude.{
  ℕ, zero, suc, ◌+◌, ◌-◌, Bool, true, false, ◌||◌, Option, none, some, List, [], ◌∷◌, leb, nat_eq,
  max, length, if◌then◌else◌,
}

abbrev pub max_hours_per_run : ℕ
max_hours_per_run = 24

-- the loop of `hours_pending`, which the cap bounds
unfoldable pub hours_from : ℕ → ℕ → ℕ → List ℕ
hours_from cursor latest_closed zero = []
hours_from cursor latest_closed (suc room) =
    let rest = hours_from (cursor + 1) latest_closed room in
    if leb cursor latest_closed then cursor ∷ rest else []

-- `stat_repository.latest_aggregated_hour`, over the hours of the rows
unfoldable pub latest_aggregated_hour : List ℕ → Option ℕ
latest_aggregated_hour [] = none
latest_aggregated_hour (h ∷ hours) = elim (latest_aggregated_hour hours) [
  | none ↦ some h
  | some g ↦ some (max h g)
]

-- `hours_pending`; `now_hour` is the hour of `now`, at least 1, and `earliest` that of the first change
unfoldable pub first_pending : List ℕ → Option ℕ → Option ℕ
first_pending rows earliest = elim (latest_aggregated_hour rows) [
  | none ↦ earliest
  | some last_done ↦ some (last_done + 1)
]

unfoldable pub hours_pending : List ℕ → Option ℕ → ℕ → ℕ → List ℕ
hours_pending rows earliest now_hour max_hours = elim (first_pending rows earliest) [
  | none ↦ []
  | some start ↦ hours_from start (now_hour - 1) max_hours
]

abbrev has_row : List ℕ → ℕ → Bool
has_row [] h = false
has_row (g ∷ hours) h = let rest = has_row hours h in if nat_eq g h then true else rest

-- `_aggregate_one_hour`: the upsert of the SITE row, unless all the events are suspect
unfoldable pub aggregate_one_hour : (ℕ → Bool) → List ℕ → ℕ → List ℕ
aggregate_one_hour suspect rows hour =
    if suspect hour || has_row rows hour then rows else hour ∷ rows

unfoldable pub aggregate_hours : (ℕ → Bool) → List ℕ → List ℕ → List ℕ
aggregate_hours suspect rows [] = rows
aggregate_hours suspect rows (h ∷ hours) =
    aggregate_hours suspect (aggregate_one_hour suspect rows h) hours

-- `aggregate_pending_hours`: the rows afterwards, and the count that is returned
unfoldable pub aggregate_pending_hours : (ℕ → Bool) → List ℕ → Option ℕ → ℕ → List ℕ × ℕ
aggregate_pending_hours suspect rows earliest now_hour =
    let hours = hours_pending rows earliest now_hour max_hours_per_run in
    (aggregate_hours suspect rows hours, length hours)
