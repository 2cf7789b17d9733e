-- ===== src/Services/StateHistory/Rows.antt =====
-- The rows of a camera's slots under the writes of services/slot_state_service.py, and the tracker that
-- workers/camera_context.py seeds from them.
use caps_dash.Prelude.Dict
use mathlib.Core.Option
use caps_dash.Prelude.{
  true, if◌then◌else◌, ap, ◌∙◌, sym, inr, arith, inl, Option-cases, ◌==◌, [], none, ◌≡◌, Bool-cases,
  some, ◌∷◌, ℕ, List, String, String_key, Option, refl, eq_iff,
}
use caps_dash.Services.StateHistory.{
  persist_one, SlotStateHistory, Db, ParkingSlot, build_tracker, find, persist_all,
  persisted_states, write_state,
}
use caps_dash.Vision.States.{SlotState, unknown, free, occupied}
use caps_dash.Workers.StateTracker.{seed, or_unknown, SlotChange}
use caps_dash.Services.StateHistory.Replays.{persist_one-some, persist_one-none, state_of}
use caps_dash.Prelude.Dict.{Dict, get-put}
use caps_dash.Workers.StateTracker.Changes.{get-seed, updated, Distinct-put, Distinct}
use mathlib.Core.Path.{subst}

-- the database's constraint: a camera has one slot of each code
abbrev pub DistinctCodes : List ParkingSlot → Type 0
DistinctCodes [] = Unit
DistinctCodes (r ∷ rows) = (find r.code rows ≡ none) × DistinctCodes rows

find-write_state-none :
    (written code : String) (new : SlotState) (now : ℕ) (slots : List ParkingSlot)
    → find code slots ≡ none
    → find code (write_state written new now slots) ≡ none
unfolding find write_state
find-write_state-none written code new now [] h = refl
find-write_state-none written code new now (r ∷ slots) h =
    ground (arith, find-write_state-none written code new now slots)

DistinctCodes-write_state :
    (written : String) (new : SlotState) (now : ℕ) (slots : List ParkingSlot)
    → DistinctCodes slots
    → DistinctCodes (write_state written new now slots)
unfolding write_state
DistinctCodes-write_state written new now [] d = tt
DistinctCodes-write_state written new now (r ∷ slots) (absent, d) =
    elim (Bool-cases (r.code == written)) [
      | inl same ↦ rw same (absent, d)
      | inr other ↦ rw other (
        find-write_state-none written r.code new now slots absent,
        DistinctCodes-write_state written new now slots d,
      )
    ]

pub DistinctCodes-persist_all :
    (camera_code : String) (now : ℕ) (changes : List SlotChange)
    (written : List ParkingSlot × List SlotStateHistory)
    → DistinctCodes written.0
    → DistinctCodes (persist_all camera_code now changes written).0
unfolding persist_all
DistinctCodes-persist_all camera_code now [] written d = d
DistinctCodes-persist_all camera_code now (change ∷ changes) written d =
    DistinctCodes-persist_all camera_code now changes (persist_one camera_code now change written)
      (elim (Option-cases (find change.slot_code written.0)) [
        | inl missing ↦
            subst (λ (w : List ParkingSlot × List SlotStateHistory). DistinctCodes w.0)
              (sym (persist_one-none camera_code now change written.0 written.1 missing)) d
        | inr (slot, found) ↦
            subst (λ (w : List ParkingSlot × List SlotStateHistory). DistinctCodes w.0)
              (sym (persist_one-some camera_code now change written.0 written.1 slot found))
              (DistinctCodes-write_state change.slot_code change.new now written.0 d)
      ])

abbrev or_else : Option SlotState → Option SlotState → Option SlotState
or_else none other = other
or_else (some s) other = some s

Distinct-persisted_states :
    (rows : List ParkingSlot) (states : Dict String SlotState)
    → Distinct states
    → Distinct (persisted_states rows states)
unfolding persisted_states
Distinct-persisted_states [] states d = d
Distinct-persisted_states (r ∷ rows) states d = elim (Bool-cases r.is_active) [
  | inl active ↦ rw active (
      Distinct-persisted_states rows (Dict.put r.code r.current_state states)
        (Distinct-put r.code r.current_state states d))
  | inr inactive ↦ rw inactive (Distinct-persisted_states rows states d)
]

-- what the row of a slot is seeded with
abbrev seeded_with : Option ParkingSlot → Option SlotState
seeded_with none = none
seeded_with (some r) = if r.is_active then some r.current_state else none

get-persisted_states :
    (code : String) (rows : List ParkingSlot) (states : Dict String SlotState)
    → DistinctCodes rows
    → Dict.get code (persisted_states rows states)
      ≡ or_else (seeded_with (find code rows)) (Dict.get code states)
unfolding persisted_states find
get-persisted_states code [] states d = refl
get-persisted_states code (r ∷ rows) states (absent, d) = ground (
  arith,
  get-persisted_states code rows (Dict.put r.code r.current_state states) d,
  get-persisted_states code rows states d,
  get-put r.code code r.current_state states,
  eq_iff r.code code,
)

-- whether the slot of the code is there and active
abbrev pub Active : String → List ParkingSlot → Type 0
Active code slots = Option.map (λ r. r.is_active) (find code slots) ≡ some true

active-write_state :
    (written code : String) (new : SlotState) (now : ℕ) (slots : List ParkingSlot)
    → Option.map (λ r. r.is_active) (find code (write_state written new now slots))
      ≡ Option.map (λ r. r.is_active) (find code slots)
unfolding find write_state
active-write_state written code new now [] = refl
active-write_state written code new now (r ∷ slots) =
    ground (arith, active-write_state written code new now slots)

pub Active-persist_all :
    (camera_code code : String) (now : ℕ) (changes : List SlotChange)
    (written : List ParkingSlot × List SlotStateHistory)
    → Active code written.0
    → Active code (persist_all camera_code now changes written).0
unfolding persist_all
Active-persist_all camera_code code now [] written h = h
Active-persist_all camera_code code now (change ∷ changes) written h =
    Active-persist_all camera_code code now changes (persist_one camera_code now change written)
      (elim (Option-cases (find change.slot_code written.0)) [
        | inl missing ↦
            subst (λ (w : List ParkingSlot × List SlotStateHistory). Active code w.0)
              (sym (persist_one-none camera_code now change written.0 written.1 missing)) h
        | inr (slot, found) ↦
            subst (λ (w : List ParkingSlot × List SlotStateHistory). Active code w.0)
              (sym (persist_one-some camera_code now change written.0 written.1 slot found))
              (active-write_state change.slot_code code change.new now written.0 ∙ h)
      ])

seeded_with-active :
    (o : Option ParkingSlot) (state : SlotState)
    → Option.map (λ r. r.is_active) o ≡ some true
    → Option.map (λ r. r.current_state) o ≡ some state
    → seeded_with o ≡ some state
seeded_with-active none state h k = absurd (ground arith)
seeded_with-active (some r) state h k = ground arith

or_unknown-updated :
    (code : String) (state : SlotState)
    → or_unknown (updated (Dict.get code []) (some state)) ≡ state
unfolding Dict.get
or_unknown-updated code unknown = refl
or_unknown-updated code free = refl
or_unknown-updated code occupied = refl

-- the tracker that a start builds agrees with the slot's row, UNKNOWN included
pub get-build_tracker :
    (code : String) (db : Db) (state : SlotState)
    → DistinctCodes db.slots
    → Active code db.slots
    → state_of code db.slots ≡ some state
    → or_unknown (Dict.get code (build_tracker db)) ≡ state
unfolding build_tracker
get-build_tracker code db state d active here =
    let seeded : Dict.get code (seed (persisted_states db.slots []) [])
        ≡ updated (Dict.get code []) (Dict.get code (persisted_states db.slots [])) =
      get-seed (persisted_states db.slots []) [] code (Distinct-persisted_states db.slots [] tt) in
    let persisted : Dict.get code (persisted_states db.slots []) ≡ some state =
      get-persisted_states code db.slots [] d
      ∙ ap (λ o. or_else o (Dict.get code []))
          (seeded_with-active (find code db.slots) state active here) in
    ap or_unknown (seeded ∙ ap (updated (Dict.get code [])) persisted)
    ∙ or_unknown-updated code state
