-- ===== src/Services/StateHistory.antt =====
-- services/slot_state_service.py: the history rows that the changes of a detection become, and the
-- seeding of the tracker from the database in workers/camera_context.py. `rows` are the slots of one
-- camera, whose codes the database keeps distinct; instants are numbers.
pub mod Replays
pub mod Rows
pub mod Worlds
mod Tests
use caps_dash.Prelude.{
  ℕ, String, String_key, ◌==◌, Bool, true, false, ◌&&◌, Option, none, some, List, [], ◌∷◌, ◌++◌,
  if◌then◌else◌,
}
use caps_dash.Prelude.Dict
use caps_dash.Prelude.Dict.{Dict}
use caps_dash.Vision.States.{SlotState}
use caps_dash.Workers.StateTracker
use caps_dash.Workers.StateTracker.{SlotChange, StateTracker}

pub record ParkingSlot : Type 0 where
  pub id : ℕ
  pub code : String
  pub floor : String
  pub current_state : SlotState
  pub state_since : ℕ
  pub is_active : Bool

pub record SlotStateHistory : Type 0 where
  pub slot_id : ℕ
  pub camera_code : String
  pub slot_code : String
  pub floor : String
  pub previous_state : SlotState
  pub new_state : SlotState
  pub changed_at : ℕ

-- The camera's row (its code, `none` once it is deleted), its slots, and the history, oldest first.
pub record Db : Type 0 where
  pub camera : Option String
  pub slots : List ParkingSlot
  pub history : List SlotStateHistory

-- `slots.get(change.slot_code)`
unfoldable pub find : String → List ParkingSlot → Option ParkingSlot
find code [] = none
find code (r ∷ rows) = if r.code == code then some r else find code rows

-- the new state on the row of the code
pub write_state : String → SlotState → ℕ → List ParkingSlot → List ParkingSlot
write_state code new now [] = []
write_state code new now (r ∷ rows) =
    if r.code == code
    then record r { current_state = new; state_since = now } ∷ rows
    else r ∷ write_state code new now rows

-- the row that is added for a change of the slot
pub history_row : String → ParkingSlot → SlotChange → ℕ → SlotStateHistory
history_row camera_code slot change now = record {
  slot_id = slot.id;
  camera_code = camera_code;
  slot_code = slot.code;
  floor = slot.floor;
  previous_state = change.previous;
  new_state = change.new;
  changed_at = now;
}

-- one round of the loop, on the slots and the history
pub persist_one :
    String
    → ℕ
    → SlotChange
    → List ParkingSlot × List SlotStateHistory
    → List ParkingSlot × List SlotStateHistory
persist_one camera_code now change (slots, history) = elim (find change.slot_code slots) [
  | none ↦ (slots, history)
  | some slot ↦ (
    write_state change.slot_code change.new now slots,
    history ++ history_row camera_code slot change now ∷ [],
  )
]

pub persist_all :
    String
    → ℕ
    → List SlotChange
    → List ParkingSlot × List SlotStateHistory
    → List ParkingSlot × List SlotStateHistory
persist_all camera_code now [] written = written
persist_all camera_code now (change ∷ changes) written =
    persist_all camera_code now changes (persist_one camera_code now change written)

-- `persist_state_changes`
pub persist_state_changes : Db → List SlotChange → ℕ → Db
persist_state_changes db changes now = elim db.camera [
  | none ↦ db
  | some code ↦
      let written = persist_all code now changes (db.slots, db.history) in
      record db { slots = written.0; history = written.1 }
]

-- `load_persisted_states`, of the active slots; every stored value is a state
pub persisted_states : List ParkingSlot → Dict String SlotState → Dict String SlotState
persisted_states [] states = states
persisted_states (r ∷ rows) states =
    persisted_states rows (if r.is_active then Dict.put r.code r.current_state states else states)

-- the tracker of `build_context`
pub build_tracker : Db → StateTracker
build_tracker db = StateTracker.seed (persisted_states db.slots []) []

-- A camera's tracker, the changes that its executor is asked to write, and the database; and what
-- happens to them. The states of a frame are diffed, which the tracker remembers at once; the write
-- that is awaited then succeeds at some instant (without changes it does nothing), or raises and is
-- rolled back; the context is built
-- anew by a start or a reload.
pub record World : Type 0 where
  pub known : StateTracker
  pub pending : List SlotChange
  pub db : Db

pub data Event : Type 0 where
  frame : Dict String SlotState → Event
  committed : ℕ → Event
  rolled_back rebuilt : Event

unfoldable pub step : World → Event → World
step w (frame states) =
    let r = StateTracker.diff states w.known in record w { known = r.0; pending = r.1 }
step w (committed now) = record w { pending = []; db = persist_state_changes w.db w.pending now }
step w rolled_back = record w { pending = [] }
step w rebuilt = record w { known = build_tracker w.db }

unfoldable pub run : World → List Event → World
run w [] = w
run w (e ∷ es) = run (step w e) es
