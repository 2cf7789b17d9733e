-- ===== src/Vision/States.antt =====
-- vision/domain/states.py: the three states that a slot may hold.
use caps_dash.Prelude.{Bool, true, false}

pub data SlotState : Type 0 where
  unknown free occupied : SlotState

pub SlotState-discrete : Discrete SlotState
SlotState-discrete = hlevel

-- `==` and `is` on the members of the enumeration
abbrev pub is_unknown : SlotState → Bool
is_unknown unknown = true
is_unknown _ = false

abbrev pub is_free : SlotState → Bool
is_free free = true
is_free _ = false

abbrev pub is_occupied : SlotState → Bool
is_occupied occupied = true
is_occupied _ = false

abbrev pub state_eq : SlotState → SlotState → Bool
state_eq unknown s = is_unknown s
state_eq free s = is_free s
state_eq occupied s = is_occupied s
