-- ===== src/Workers/StateTracker.antt =====
-- workers/state_tracker.py: a stream of slot states, turned into the changes worth recording.
pub mod Changes
pub mod Reports
mod Tests
use caps_dash.Prelude.{
  String, String_key, Bool, true, false, Option, none, some, List, [], ◌∷◌, ◌++◌, filter, not,
  if◌then◌else◌,
}
use caps_dash.Prelude.Dict
use caps_dash.Prelude.Dict.{Dict}
use caps_dash.Vision.States.{SlotState, unknown, is_unknown, state_eq}

pub record SlotChange : Type 0 where
  pub slot_code : String
  pub previous : SlotState
  pub new : SlotState

-- `StateTracker`: its one field, `known`
abbrev pub StateTracker : Type 0
StateTracker = Dict String SlotState

-- `dict.update`
pub put_all : Dict String SlotState → StateTracker → StateTracker
put_all [] known = known
put_all ((code, state) ∷ rest) known = put_all rest (Dict.put code state known)

pub seed : Dict String SlotState → StateTracker → StateTracker
unfolding put_all
seed states known = put_all (filter (λ e. not (is_unknown e.1)) states) known

-- `previous == new_state`
abbrev pub same_as : Option SlotState → SlotState → Bool
same_as none new = false
same_as (some previous) new = state_eq previous new

-- `previous or SlotState.UNKNOWN`
abbrev pub or_unknown : Option SlotState → SlotState
or_unknown none = unknown
or_unknown (some previous) = previous

-- one round of the loop of `diff`
unfoldable pub observe : String → SlotState → StateTracker → StateTracker × List SlotChange
observe code new known =
    if is_unknown new
    then (known, [])
    else let previous = Dict.get code known in
      if same_as previous new then (known, []) else (
        Dict.put code new known,
        record { slot_code = code; previous = or_unknown previous; new = new } ∷ [],
      )

unfoldable pub diff : Dict String SlotState → StateTracker → StateTracker × List SlotChange
unfolding observe
diff [] known = (known, [])
diff ((code, new) ∷ rest) known =
    let r = observe code new known in let later = diff rest r.0 in (later.0, r.1 ++ later.1)

pub reset : StateTracker → StateTracker
reset known = []
