-- ===== src/Services/StateHistory/Replays.antt =====
-- The history of a slot in services/slot_state_service.py, replayed.
use caps_dash.Prelude.Dict
use mathlib.Core.Option
use caps_dash.Prelude.{
  ◌∙◌, ◌⊎◌, inr, refl, sym, inl, Option-cases, true, ℕ, ◌≡◌, String, String_key, ◌==◌, Option, none,
  some, List, [], ◌∷◌, ◌++◌, arith, if◌then◌else◌, eq_iff,
}
use caps_dash.Vision.States.{occupied, free, unknown, SlotState, state_eq}
use caps_dash.Workers.StateTracker.{observe, or_unknown, diff}
use mathlib.Core.Path.{subst}
use caps_dash.Prelude.Dict.{Dict, get-put}
use caps_dash.Services.StateHistory.{
  persist_all, SlotChange, persist_one, StateTracker, history_row, ParkingSlot, SlotStateHistory,
  find, write_state,
}

-- Follow a slot's rows from a state: each row must start where the one before it ended.
unfoldable pub replay : String → SlotState → List SlotStateHistory → Option SlotState
replay code state [] = some state
replay code state (h ∷ history) =
    if h.slot_code == code
    then (if state_eq h.previous_state state then replay code h.new_state history else none)
    else replay code state history

replay-append :
    (code : String) (first last : SlotState) (history : List SlotStateHistory)
    (h : SlotStateHistory)
    → replay code first history ≡ some last
    → replay code first (history ++ h ∷ []) ≡ replay code last (h ∷ [])
unfolding replay
replay-append code first last [] h e = ground arith
replay-append code first last (g ∷ history) h e =
    ground (
      arith,
      replay-append code first last history h,
      replay-append code g.new_state last history h,
    )

-- the state in the slot's row
abbrev pub state_of : String → List ParkingSlot → Option SlotState
state_of code slots = Option.map (λ r. r.current_state) (find code slots)

code-find :
    (code : String) (slots : List ParkingSlot) (r : ParkingSlot)
    → find code slots ≡ some r
    → r.code ≡ code
unfolding find
code-find code [] r h = absurd (ground arith)
code-find code (s ∷ slots) r h = ground (arith, code-find code slots r, eq_iff s.code code)

state_of-write_state :
    (written code : String) (new : SlotState) (now : ℕ) (slots : List ParkingSlot)
    → state_of code (write_state written new now slots)
      ≡ (if written == code then Option.map (λ _. new) (find code slots) else state_of code slots)
unfolding find write_state
state_of-write_state written code new now [] = ground arith
state_of-write_state written code new now (r ∷ slots) = ground (
  arith,
  state_of-write_state written code new now slots,
  eq_iff r.code written,
  eq_iff r.code code,
  eq_iff written code,
)

-- What ties the tracker, the slot's row and its history together.
abbrev pub Linked :
    String → SlotState → StateTracker → List ParkingSlot × List SlotStateHistory → Type 0
Linked code first known written =
    (state : SlotState) × (state_of code written.0 ≡ some state)
    × (or_unknown (Dict.get code known) ≡ state)
    × (replay code first written.1 ≡ some state)

pub persist_one-some :
    (camera_code : String) (now : ℕ) (change : SlotChange) (slots : List ParkingSlot)
    (history : List SlotStateHistory) (slot : ParkingSlot)
    → find change.slot_code slots ≡ some slot
    → persist_one camera_code now change (slots, history) ≡ (
      write_state change.slot_code change.new now slots,
      history ++ history_row camera_code slot change now ∷ [],
    )
unfolding persist_one
persist_one-some camera_code now change slots history slot h = ground arith

pub persist_one-none :
    (camera_code : String) (now : ℕ) (change : SlotChange) (slots : List ParkingSlot)
    (history : List SlotStateHistory)
    → find change.slot_code slots ≡ none
    → persist_one camera_code now change (slots, history) ≡ (slots, history)
unfolding persist_one
persist_one-none camera_code now change slots history h = ground arith

-- the row of a change, replayed from the state before it
replay-history_row :
    (camera_code code : String) (slot : ParkingSlot) (change : SlotChange) (now : ℕ)
    (state : SlotState)
    → replay code state (history_row camera_code slot change now ∷ []) ≡ (
        if slot.code == code
        then (if state_eq change.previous state then some change.new else none)
        else some state)
unfolding replay history_row
replay-history_row camera_code code slot change now state = ground arith

state_eq_refl : (s : SlotState) → state_eq s s ≡ true
state_eq_refl unknown = refl
state_eq_refl free = refl
state_eq_refl occupied = refl

change_at : String → SlotState → StateTracker → SlotChange
change_at code new known = record {
  slot_code = code;
  previous = or_unknown (Dict.get code known);
  new = new;
}

Linked-persist_one :
    (code changed camera_code : String) (now : ℕ) (new first : SlotState) (known : StateTracker)
    (slots : List ParkingSlot) (history : List SlotStateHistory)
    → Linked code first known (slots, history)
    → Linked code first
        (Dict.put changed new known)
        (persist_one camera_code now (change_at changed new known) (slots, history))
unfolding change_at
Linked-persist_one code changed camera_code now new first known slots history
      (state, here, tracked, replayed) =
    elim (Option-cases (find changed slots)) [
      | inl missing ↦
          subst (Linked code first (Dict.put changed new known))
            (sym (
              persist_one-none camera_code now (change_at changed new known) slots history missing))
            (
              state,
              here,
              ground (arith, get-put changed code new known, eq_iff changed code),
              replayed,
            )
      | inr (slot, found) ↦
          subst (Linked code first (Dict.put changed new known))
            (sym (
              persist_one-some camera_code now (change_at changed new known) slots history slot
                found))
            (
              (if changed == code then new else state),
              ground (arith, state_of-write_state changed code new now slots, eq_iff changed code),
              ground (arith, get-put changed code new known),
              replay-append code first state history
                    (history_row camera_code slot (change_at changed new known) now) replayed
                  ∙ replay-history_row camera_code code slot (change_at changed new known) now state
                  ∙ ground (
                    arith,
                    code-find changed slots slot found,
                    tracked,
                    state_eq_refl state,
                    eq_iff changed code,
                    eq_iff slot.code code,
                  ),
            )
    ]

-- what is observed of a slot is no change, or the change to the new state
observe-cases :
    (seen : String) (new : SlotState) (known : StateTracker)
    → (observe seen new known ≡ (known, []))
      ⊎ (observe seen new known ≡ (Dict.put seen new known, change_at seen new known ∷ []))
unfolding observe change_at
observe-cases seen unknown known = inl refl
observe-cases seen free known = ground arith
observe-cases seen occupied known = ground arith

-- one slot of a frame: what is observed, then persisted
Linked-observe :
    (code seen camera_code : String) (now : ℕ) (new first : SlotState) (known : StateTracker)
    (slots : List ParkingSlot) (history : List SlotStateHistory)
    → Linked code first known (slots, history)
    → Linked code first
        (observe seen new known).0
        (persist_all camera_code now (observe seen new known).1 (slots, history))
Linked-observe code seen camera_code now new first known slots history linked =
    elim (observe-cases seen new known) [
      | inl kept ↦
          subst
            (λ (r : StateTracker × List SlotChange).
              Linked code first r.0 (persist_all camera_code now r.1 (slots, history)))
            (sym kept) (unfold persist_all in linked)
      | inr changed ↦
          subst
            (λ (r : StateTracker × List SlotChange).
              Linked code first r.0 (persist_all camera_code now r.1 (slots, history)))
            (sym changed)
            (unfold persist_all in
              Linked-persist_one code seen camera_code now new first known slots history linked)
    ]

persist_all-append :
    (camera_code : String) (now : ℕ) (xs ys : List SlotChange)
    (written : List ParkingSlot × List SlotStateHistory)
    → persist_all camera_code now (xs ++ ys) written
      ≡ persist_all camera_code now ys (persist_all camera_code now xs written)
unfolding persist_all
persist_all-append camera_code now [] ys written = refl
persist_all-append camera_code now (x ∷ xs) ys written =
    persist_all-append camera_code now xs ys (persist_one camera_code now x written)

pub Linked-diff :
    (code camera_code : String) (now : ℕ) (first : SlotState) (states : Dict String SlotState)
    (known : StateTracker) (written : List ParkingSlot × List SlotStateHistory)
    → Linked code first known written
    → Linked code first
        (diff states known).0
        (persist_all camera_code now (diff states known).1 written)
unfolding diff
Linked-diff code camera_code now first [] known written linked = unfold persist_all in linked
Linked-diff code camera_code now first ((seen, new) ∷ states) known written linked =
    let r = observe seen new known in
    subst (Linked code first (diff states r.0).0)
      (sym (persist_all-append camera_code now r.1 (diff states r.0).1 written))
      (Linked-diff code camera_code now first states r.0 (persist_all camera_code now r.1 written)
        (Linked-observe code seen camera_code now new first known written.0 written.1 linked))
