-- ===== src/Workers/StateTracker/Changes.antt =====
-- The changes that workers/state_tracker.py reports.
use caps_dash.Prelude.{
  inr, inl, Bool-cases, All-mono, ◌⊎◌, String, String_key, ◌==◌, ◌≡◌, refl, ap, ◌∙◌, Option, none,
  some, List, [], ◌∷◌, ◌++◌, arith, All, eq_iff, if◌then◌else◌, filter, not,
}
use caps_dash.Prelude.Dict
use caps_dash.Prelude.Dict.{Dict, get-put}
use caps_dash.Vision.States.{SlotState, unknown, free, occupied, is_unknown}
use caps_dash.Workers.StateTracker.{
  SlotChange, StateTracker, put_all, seed, same_as, or_unknown, observe, diff,
}

-- The keys of a dictionary are distinct.
abbrev pub Distinct : Dict String SlotState → Type 0
Distinct [] = Unit
Distinct ((code, state) ∷ rest) = (Dict.get code rest ≡ none) × Distinct rest

-- What is remembered of a slot after a report: the report, unless it is UNKNOWN.
abbrev pub updated : Option SlotState → Option SlotState → Option SlotState
updated old none = old
updated old (some unknown) = old
updated old (some new) = some new

get-observe :
    (code : String) (new : SlotState) (known : StateTracker) (j : String)
    → Dict.get j (observe code new known).0
      ≡ (if code == j then updated (Dict.get j known) (some new) else Dict.get j known)
unfolding observe
get-observe code unknown known j = ground (arith, eq_iff code j)
get-observe code free known j = ground (arith, eq_iff code j, get-put code j free known)
get-observe code occupied known j = ground (arith, eq_iff code j, get-put code j occupied known)

-- After `diff` the tracker remembers of each slot what was reported, unless that was UNKNOWN.
pub get-diff :
    (states : Dict String SlotState) (known : StateTracker) (j : String)
    → Distinct states
    → Dict.get j (diff states known).0 ≡ updated (Dict.get j known) (Dict.get j states)
unfolding diff Dict.get
get-diff [] known j d = refl
get-diff ((code, new) ∷ rest) known j (absent, d) = ground (
  arith,
  get-diff rest (observe code new known).0 j d,
  get-observe code new known j,
  eq_iff code j,
)

-- the last report of each slot is in the dictionary of reports
pub get-own :
    (states : Dict String SlotState)
    → Distinct states
    → All (λ e. Dict.get e.0 states ≡ some e.1) states
unfolding Dict.get
get-own [] d = tt
get-own ((code, new) ∷ rest) (absent, d) = (
  ground (arith, eq_iff code code),
  All-mono (λ e. Dict.get e.0 rest ≡ some e.1) (λ e. Dict.get e.0 ((code, new) ∷ rest) ≡ some e.1)
      rest (λ e own. ground (arith, eq_iff code e.0)) (get-own rest d),
)

-- a report that the tracker already remembers, or that says nothing
abbrev Settled : StateTracker → Dict String SlotState → Type 0
Settled known = All (λ e. (e.1 ≡ unknown) ⊎ (Dict.get e.0 known ≡ some e.1))

diff-Settled :
    (states : Dict String SlotState) (known : StateTracker)
    → Settled known states
    → diff states known ≡ (known, [])
unfolding diff observe
diff-Settled [] known h = refl
diff-Settled ((code, unknown) ∷ rest) known h = ground (arith, diff-Settled rest known h.1)
diff-Settled ((code, free) ∷ rest) known h = ground (arith, diff-Settled rest known h.1)
diff-Settled ((code, occupied) ∷ rest) known h = ground (arith, diff-Settled rest known h.1)

Settled-of_get :
    (states : Dict String SlotState) (old : String → Option SlotState) (known : StateTracker)
    → Distinct states
    → ((j : String) → Dict.get j known ≡ updated (old j) (Dict.get j states))
    → Settled known states
Settled-of_get states old known d h =
    All-mono (λ e. Dict.get e.0 states ≡ some e.1)
      (λ e. (e.1 ≡ unknown) ⊎ (Dict.get e.0 known ≡ some e.1)) states
      (λ e own. ground (arith, h e.0)) (get-own states d)

-- Reporting the same states again records nothing: one change in the car park is one row.
pub diff-diff :
    (states : Dict String SlotState) (known : StateTracker)
    → Distinct states
    → diff states (diff states known).0 ≡ ((diff states known).0, [])
diff-diff states known d = diff-Settled states (diff states known).0 (
    Settled-of_get states (λ j. Dict.get j known) (diff states known).0 d
      (λ j. get-diff states known j d))

get-put_all :
    (states : Dict String SlotState) (known : StateTracker) (j : String)
    → Distinct states
    → Dict.get j (put_all (filter (λ e. not (is_unknown e.1)) states) known)
      ≡ updated (Dict.get j known) (Dict.get j states)
unfolding put_all Dict.get
get-put_all [] known j d = refl
get-put_all ((code, unknown) ∷ rest) known j (absent, d) =
    ground (arith, get-put_all rest known j d, eq_iff code j)
get-put_all ((code, free) ∷ rest) known j (absent, d) = ground (
  arith,
  get-put_all rest (Dict.put code free known) j d,
  get-put code j free known,
  eq_iff code j,
)
get-put_all ((code, occupied) ∷ rest) known j (absent, d) = ground (
  arith,
  get-put_all rest (Dict.put code occupied known) j d,
  get-put code j occupied known,
  eq_iff code j,
)

pub get-seed :
    (states : Dict String SlotState) (known : StateTracker) (j : String)
    → Distinct states
    → Dict.get j (seed states known) ≡ updated (Dict.get j known) (Dict.get j states)
unfolding seed
get-seed states known j d = get-put_all states known j d

pub Distinct-put :
    (code : String) (new : SlotState) (states : Dict String SlotState)
    → Distinct states
    → Distinct (Dict.put code new states)
unfolding Dict.put Dict.get
Distinct-put code new [] d = (refl, tt)
Distinct-put code new ((j, state) ∷ states) (absent, d) = elim (Bool-cases (j == code)) [
  | inl same ↦ rw same (absent, d)
  | inr other ↦ rw other (
    ground (arith, get-put code j new states, eq_iff j code, eq_iff code j),
    Distinct-put code new states d,
  )
]

-- A restart is not a parking event: seeded with the persisted states, the tracker records nothing
-- for a warm-up that lands on the same states.
pub diff-seed :
    (states : Dict String SlotState) (known : StateTracker)
    → Distinct states
    → diff states (seed states known) ≡ (seed states known, [])
unfolding seed
diff-seed states known d =
    diff-Settled states (put_all (filter (λ e. not (is_unknown e.1)) states) known)
      (Settled-of_get states (λ j. Dict.get j known) _ d (λ j. get-put_all states known j d))

-- The change that one report stands for, given what was remembered of the slot before.
abbrev pub change_of : Option SlotState → String → SlotState → List SlotChange
change_of old code unknown = []
change_of old code new =
    if same_as old new
    then []
    else record { slot_code = code; previous = or_unknown old; new = new } ∷ []

-- The changes of a frame, each judged against what was remembered before the frame.
abbrev pub changes_of : StateTracker → Dict String SlotState → List SlotChange
changes_of known [] = []
changes_of known ((code, new) ∷ rest) =
    change_of (Dict.get code known) code new ++ changes_of known rest

changes_of-observe :
    (rest : Dict String SlotState) (code : String) (new : SlotState) (known : StateTracker)
    → Dict.get code rest ≡ none
    → changes_of (observe code new known).0 rest ≡ changes_of known rest
unfolding Dict.get
changes_of-observe [] code new known h = refl
changes_of-observe ((j, state) ∷ rest) code new known h =
    let other : Dict.get j (observe code new known).0 ≡ Dict.get j known =
      ground (arith, get-observe code new known j, eq_iff code j, eq_iff j code) in
    rw other (
      ap (λ l. change_of (Dict.get j known) j state ++ l)
        (changes_of-observe rest code new known (ground (arith, eq_iff j code))))

change_of-observe :
    (code : String) (new : SlotState) (known : StateTracker)
    → (observe code new known).1 ≡ change_of (Dict.get code known) code new
unfolding observe
change_of-observe code unknown known = refl
change_of-observe code free known = ground arith
change_of-observe code occupied known = ground arith

-- each report is judged against what was remembered before the frame
pub diff-changes_of :
    (states : Dict String SlotState) (known : StateTracker)
    → Distinct states
    → (diff states known).1 ≡ changes_of known states
unfolding diff
diff-changes_of [] known d = refl
diff-changes_of ((code, new) ∷ rest) known (absent, d) = rw (change_of-observe code new known) (
    ap (λ l. change_of (Dict.get code known) code new ++ l)
      (diff-changes_of rest (observe code new known).0 d
        ∙ changes_of-observe rest code new known absent))
