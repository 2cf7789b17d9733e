-- ===== src/Vision/VoteFilter.antt =====
-- vision/domain/vote_filter.py: the rolling vote of one slot, and one vote filter per slot of a
-- camera. The deque of votes is a list, oldest first; `set[str]` is a list of texts.
pub mod Spec
pub mod Refines
pub mod Stability
pub mod PerSlot
mod Tests
use caps_dash.Prelude.{
  ℕ, ◌-◌, String, Bool, true, false, List, [], ◌∷◌, ◌++◌, map, Result, ok, err, ◌>>=◌, ltb, leb,
  ◌==◌, String_key, if◌then◌else◌, length, drop, count, any, all,
}
use caps_dash.Prelude.Dict
use caps_dash.Prelude.Dict.{Dict}
use caps_dash.Vision.States.{SlotState, unknown, free, occupied}

pub data ConfigError : Type 0 where
  window_too_small threshold_too_small threshold_above_window : ConfigError

abbrev pub default_vote_window : ℕ
default_vote_window = 5

abbrev pub default_vote_threshold : ℕ
default_vote_threshold = 4

pub record SlotVoteFilter : Type 0 where
  pub window : ℕ
  pub threshold : ℕ
  pub votes : List Bool
  pub state : SlotState

-- `SlotVoteFilter.__init__`
unfoldable pub init : ℕ → ℕ → Result ConfigError SlotVoteFilter
init window threshold =
    if ltb window 1
    then err window_too_small
    else if ltb threshold 1
    then err threshold_too_small
    else if ltb window threshold
    then err threshold_above_window
    else ok (record { window = window; threshold = threshold; votes = []; state = unknown })

pub is_warmed_up : SlotVoteFilter → Bool
is_warmed_up f = leb f.window (length f.votes)

-- `append` on `deque(maxlen=…)`: what does not fit falls off the old end
unfoldable pub append_bounded : ℕ → List Bool → Bool → List Bool
append_bounded maxlen votes vote =
    let longer = votes ++ vote ∷ [] in drop (length longer - maxlen) longer

-- `sum(self._votes)`
abbrev pub occupied_votes : List Bool → ℕ
occupied_votes = count (λ v. v)

-- the state once the new vote is in the deque
unfoldable pub decide : SlotVoteFilter → List Bool → SlotState
decide f votes =
    if ltb (length votes) f.window
    then f.state
    else if leb f.threshold (occupied_votes votes)
    then occupied
    else if leb f.threshold (length votes - occupied_votes votes)
    then free
    else f.state

-- `update`: the new filter; its state is what the method returns
unfoldable pub update : SlotVoteFilter → Bool → SlotVoteFilter
unfolding append_bounded decide
update f occupied_now =
    let votes = append_bounded f.window f.votes occupied_now in
    record f { votes = votes; state = decide f votes }

pub reset : SlotVoteFilter → SlotVoteFilter
reset f = record f { votes = []; state = unknown }

-- `SlotMapFilter`: the filters by slot id
abbrev pub SlotMapFilter : Type 0
SlotMapFilter = Dict String SlotVoteFilter

-- `SlotMapFilter.__init__`, and `build_filter`, which only calls it. No slot means no check.
unfoldable pub add_filters : ℕ → ℕ → List String → SlotMapFilter → Result ConfigError SlotMapFilter
add_filters window threshold [] filters = ok filters
add_filters window threshold (slot_id ∷ rest) filters = do
  f ← init window threshold
  add_filters window threshold rest (Dict.put slot_id f filters)

unfoldable pub build_filter : List String → ℕ → ℕ → Result ConfigError SlotMapFilter
unfolding add_filters
build_filter slot_ids window threshold = add_filters window threshold slot_ids []

-- `slot_id in occupied_ids`
abbrev pub contains : List String → String → Bool
contains ids slot_id = any (λ i. i == slot_id) ids

unfoldable pub update_all : List String → SlotMapFilter → SlotMapFilter
update_all occupied_ids [] = []
update_all occupied_ids ((slot_id, f) ∷ rest) =
    (slot_id, update f (contains occupied_ids slot_id)) ∷ update_all occupied_ids rest

-- the dictionary that `SlotMapFilter.update` returns
unfoldable pub states : SlotMapFilter → Dict String SlotState
states = map (λ e. (e.0, e.1.state))

pub all_warmed_up : SlotMapFilter → Bool
all_warmed_up filters = all is_warmed_up (Dict.values filters)

pub slot_ids : SlotMapFilter → List String
slot_ids = Dict.keys

pub reset_all : SlotMapFilter → SlotMapFilter
reset_all = map (λ e. (e.0, reset e.1))
