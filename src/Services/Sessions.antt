-- ===== src/Services/Sessions.antt =====
-- services/session_derivation_service.py: parking sessions out of the rows of the slot history.
-- A datetime is a number of seconds.
pub mod Intervals
pub mod Gaps
mod Tests
use caps_dash.Prelude.{
  ℕ, ◌-◌, ◌+◌, String, Bool, true, false, ◌||◌, Option, none, some, List, [], ◌∷◌, ◌++◌, ltb, ◌==◌,
  ℕ_key, if◌then◌else◌, length, take, drop,
}
use caps_dash.Vision.States.{SlotState, unknown, free, occupied}

-- the columns of `SlotStateHistory` that the derivation reads
pub record Row : Type 0 where
  pub slot_id : ℕ
  pub camera_code : String
  pub slot_code : String
  pub floor : String
  pub new_state : SlotState
  pub changed_at : ℕ
  pub clock_suspect : Bool

pub record DerivedSession : Type 0 where
  pub slot_id : ℕ
  pub camera_code : String
  pub slot_code : String
  pub floor : String
  pub started_at : ℕ
  pub ended_at : Option ℕ
  pub ongoing : Bool
  pub clock_suspect : Bool
  pub had_gap : Bool

-- `max((end - started_at).total_seconds(), 0.0)`
pub duration_seconds : DerivedSession → ℕ → ℕ
duration_seconds s now = elim s.ended_at [ none ↦ now - s.started_at | some e ↦ e - s.started_at ]

pub open_session : Row → DerivedSession
open_session row = record {
  slot_id = row.slot_id;
  camera_code = row.camera_code;
  slot_code = row.slot_code;
  floor = row.floor;
  started_at = row.changed_at;
  ended_at = none;
  ongoing = true;
  clock_suspect = row.clock_suspect;
  had_gap = false;
}

-- One round of the loop: what is appended to `sessions`, and the new `current`.
pub step : SlotState → Option DerivedSession → Row → List DerivedSession × Option DerivedSession
unfolding open_session
step occupied none row = ([], some (open_session row))
step free (some current) row = (
  record current {
    ended_at = some row.changed_at;
    ongoing = false;
    clock_suspect = current.clock_suspect || row.clock_suspect;
  }
      ∷ [],
  none,
)
step unknown (some current) row = (
  [],
  some (record current {
    had_gap = true;
    clock_suspect = current.clock_suspect || row.clock_suspect;
  }),
)
step occupied (some current) row =
    ([], some (record current { clock_suspect = current.clock_suspect || row.clock_suspect }))
step _ none row = ([], none)

-- the loop, from the session that is open
pub derive_from : Option DerivedSession → List Row → List DerivedSession
unfolding step
derive_from none [] = []
derive_from (some current) [] = current ∷ []
derive_from current (row ∷ rows) =
    let r = step row.new_state current row in r.0 ++ derive_from r.1 rows

-- `_derive_for_one_slot`
pub derive_for_one_slot : List Row → List DerivedSession
unfolding derive_from
derive_for_one_slot rows = derive_from none rows

-- `itertools.groupby(rows, key=slot_id)`: the runs of neighbours with one id
pub add_to_runs : Row → List (List Row) → List (List Row)
add_to_runs row [] = (row ∷ []) ∷ []
add_to_runs row ([] ∷ runs) = (row ∷ []) ∷ runs
add_to_runs row ((next ∷ run) ∷ runs) =
    if row.slot_id == next.slot_id
    then (row ∷ next ∷ run) ∷ runs
    else (row ∷ []) ∷ (next ∷ run) ∷ runs

pub runs_by_slot : List Row → List (List Row)
unfolding add_to_runs
runs_by_slot [] = []
runs_by_slot (row ∷ rows) = add_to_runs row (runs_by_slot rows)

pub derive_runs : List (List Row) → List DerivedSession
derive_runs [] = []
derive_runs (run ∷ runs) = derive_for_one_slot run ++ derive_runs runs

pub derive_sessions : List Row → List DerivedSession
unfolding runs_by_slot derive_runs
derive_sessions rows = derive_runs (runs_by_slot rows)

-- `sort(key=started_at, reverse=True)`, which is stable
pub insert_newest : DerivedSession → List DerivedSession → List DerivedSession
insert_newest s [] = s ∷ []
insert_newest s (t ∷ ts) =
    if ltb s.started_at t.started_at then t ∷ insert_newest s ts else s ∷ t ∷ ts

pub newest_first : List DerivedSession → List DerivedSession
unfolding insert_newest
newest_first [] = []
newest_first (s ∷ ss) = insert_newest s (newest_first ss)

-- the end of `list_sessions`: the page and the total
pub page_of : List Row → ℕ → ℕ → List DerivedSession × ℕ
unfolding derive_sessions newest_first
page_of rows offset limit =
    let sessions = newest_first (derive_sessions rows) in
    (take limit (drop offset sessions), length sessions)
