-- ===== src/Vision/VoteFilter/Spec.antt =====
-- What a vote filter promises, over the whole history of observations since it was built,
-- newest first. It knows nothing of the deque.
use caps_dash.Prelude.{ℕ, ◌-◌, Bool, List, [], ◌∷◌, ltb, leb, if◌then◌else◌, length, take, count}
use caps_dash.Vision.States.{SlotState, unknown, free, occupied}

unfoldable pub verdict : ℕ → ℕ → List Bool → SlotState
verdict window threshold [] = unknown
verdict window threshold (v ∷ older) =
    let seen = take window (v ∷ older) in
    let before = verdict window threshold older in
    if ltb (length (v ∷ older)) window
    then before
    else if leb threshold (count (λ x. x) seen)
    then occupied
    else if leb threshold (window - count (λ x. x) seen)
    then free
    else before
