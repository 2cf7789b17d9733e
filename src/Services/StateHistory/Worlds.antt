-- ===== src/Services/StateHistory/Worlds.antt =====
-- A camera's tracker and database (services/slot_state_service.py, workers/camera_context.py)
-- through any number of frames, failed writes and restarts.

use caps_dash.Prelude.{sym, arith, [], ◌≡◌, some, ◌∷◌, ℕ, List, String, String_key}
use caps_dash.Services.StateHistory.Rows.{
  DistinctCodes, Active, DistinctCodes-persist_all, Active-persist_all, get-build_tracker,
}
use caps_dash.Services.StateHistory.{
  rolled_back, committed, StateTracker, World, Db, build_tracker, Event, frame, rebuilt,
  persist_all, step, run, persist_state_changes,
}
use caps_dash.Vision.States.{SlotState}
use caps_dash.Workers.StateTracker.{StateTracker, SlotChange, diff}
use caps_dash.Services.StateHistory.Replays.{Linked, state_of, Linked-diff, replay}
use caps_dash.Prelude.Dict.{Dict}
use mathlib.Core.Path.{subst}

-- The invariant of a camera's world, for one slot.
pub record Consistent (code : String) (first : SlotState) (w : World) : Type 0 where
  pub linked : Linked code first w.known (w.db.slots, w.db.history)
  pub distinct : DistinctCodes w.db.slots
  pub active : Active code w.db.slots
  pub camera : String
  pub present : w.db.camera ≡ some camera

persist_state_changes-some :
    (db : Db) (changes : List SlotChange) (now : ℕ) (camera : String)
    → db.camera ≡ some camera
    → persist_state_changes db changes now ≡ record db {
      slots = (persist_all camera now changes (db.slots, db.history)).0;
      history = (persist_all camera now changes (db.slots, db.history)).1;
    }
unfolding persist_state_changes
persist_state_changes-some db changes now camera h = ground arith

-- Each frame's write is over before the next thing happens, and where it fails the context is built
-- anew before the next frame.
abbrev pub Repaired : List Event → Type 0
Repaired [] = Unit
Repaired (rebuilt ∷ es) = Repaired es
Repaired (frame states ∷ committed now ∷ es) = Repaired es
Repaired (frame states ∷ rolled_back ∷ rebuilt ∷ es) = Repaired es
Repaired _ = ⊥

Consistent-written :
    (code : String) (first : SlotState) (w : World) (states : Dict String SlotState) (now : ℕ)
    → Consistent code first w
    → Consistent code first (step (step w (frame states)) (committed now))
unfolding step
Consistent-written code first w states now c =
    subst
      (λ db.
        Consistent code first (record { known = (diff states w.known).0; pending = []; db = db }))
      (sym (persist_state_changes-some w.db (diff states w.known).1 now c.camera c.present))
      (record {
        linked =
            Linked-diff code c.camera now first states w.known (w.db.slots, w.db.history) c.linked;
        distinct =
            DistinctCodes-persist_all c.camera now (diff states w.known).1
              (w.db.slots, w.db.history) c.distinct;
        active =
            Active-persist_all c.camera code now (diff states w.known).1 (w.db.slots, w.db.history)
              c.active;
        camera = c.camera;
        present = c.present;
      })

-- what a context that is built anew makes good: the tracker, whatever it had remembered
Consistent-rebuilt :
    (code : String) (first : SlotState) (w : World) (known : StateTracker)
    (pending : List SlotChange)
    → Consistent code first w
    → Consistent code first (record { known = build_tracker w.db; pending = pending; db = w.db })
Consistent-rebuilt code first w known pending c = record {
  linked = (
    c.linked.0,
    c.linked.1,
    get-build_tracker code w.db c.linked.0 c.distinct c.active c.linked.1,
    c.linked.3,
  );
  distinct = c.distinct;
  active = c.active;
  camera = c.camera;
  present = c.present;
}

Consistent-run :
    (code : String) (first : SlotState) (w : World) (es : List Event)
    → Repaired es
    → Consistent code first w
    → Consistent code first (run w es)
unfolding run step
Consistent-run code first w [] orderly c = c
Consistent-run code first w (rebuilt ∷ es) orderly c =
    Consistent-run code first (step w rebuilt) es orderly
      (Consistent-rebuilt code first w w.known w.pending c)
Consistent-run code first w (frame states ∷ committed now ∷ es) orderly c =
    Consistent-run code first (step (step w (frame states)) (committed now)) es orderly
      (Consistent-written code first w states now c)
Consistent-run code first w (frame states ∷ rolled_back ∷ rebuilt ∷ es) orderly c =
    Consistent-run code first (step (step (step w (frame states)) rolled_back) rebuilt) es orderly
      (Consistent-rebuilt code first w w.known [] c)
Consistent-run code first w (committed now ∷ es) orderly c = absurd orderly
Consistent-run code first w (rolled_back ∷ es) orderly c = absurd orderly
Consistent-run code first w (frame states ∷ []) orderly c = absurd orderly
Consistent-run code first w (frame states ∷ rebuilt ∷ es) orderly c = absurd orderly
Consistent-run code first w (frame states ∷ frame later ∷ es) orderly c = absurd orderly
Consistent-run code first w (frame states ∷ rolled_back ∷ []) orderly c = absurd orderly
Consistent-run code first w (frame states ∷ rolled_back ∷ rolled_back ∷ es) orderly c =
    absurd orderly
Consistent-run code first w (frame states ∷ rolled_back ∷ committed now ∷ es) orderly c =
    absurd orderly
Consistent-run code first w (frame states ∷ rolled_back ∷ frame later ∷ es) orderly c =
    absurd orderly

-- The worker starts on a camera whose slots have distinct codes, with no history yet. Frames are
-- handled and contexts built anew in any order, such that the write of each frame is over before the
-- next event, and where a write fails the context is built anew before the next frame. Then the
-- history of an active slot is a chain: replayed from the state the slot began with, each row starts
-- at the state where the one before it ended, and the last ends at the state in the slot's row.
pub run-replay :
    (code camera : String) (first : SlotState) (db : Db) (es : List Event)
    → db.camera ≡ some camera
    → DistinctCodes db.slots
    → Active code db.slots
    → db.history ≡ []
    → state_of code db.slots ≡ some first
    → Repaired es
    → let after = run (record { known = build_tracker db; pending = []; db = db }) es in
      (last : SlotState) × (state_of code after.db.slots ≡ some last)
      × (replay code first after.db.history ≡ some last)
unfolding replay
run-replay code camera first db es present distinct active empty here orderly =
    let c =
      Consistent-run code first (record { known = build_tracker db; pending = []; db = db }) es
        orderly
        (record {
          linked = (first, here, get-build_tracker code db first distinct active here, rw empty);
          distinct = distinct;
          active = active;
          camera = camera;
          present = present;
        }) in
    (c.linked.0, c.linked.1, c.linked.3)
