-- ===== src/Vision/VoteFilter/Tests.antt =====
-- Runs of the vote filter, and its theorems at concrete inputs.
use caps_dash.Prelude.{
  ◌≡◌, refl, String, String_key, Bool, true, false, List, [], ◌∷◌, ◌++◌, arith, ok, err, replicate,
}
use caps_dash.Prelude.Dict
use caps_dash.Vision.States.{unknown, free, occupied}
use caps_dash.Vision.VoteFilter.{
  SlotVoteFilter, SlotMapFilter, init, update, build_filter, default_vote_window,
  default_vote_threshold, threshold_above_window,
}
use caps_dash.Vision.VoteFilter.Spec.{verdict}
use caps_dash.Vision.VoteFilter.Refines
use caps_dash.Vision.VoteFilter.Refines.{run, onto}
use caps_dash.Vision.VoteFilter.Stability

abbrev fresh : SlotVoteFilter
fresh = record { window = 5; threshold = 4; votes = []; state = unknown }

built : init default_vote_window default_vote_threshold ≡ ok fresh
unfolding init
built = refl

refused : init 3 4 ≡ err threshold_above_window
unfolding init
refused = refl

abbrev car_leaves : List Bool
car_leaves = true ∷ true ∷ true ∷ true ∷ true ∷ false ∷ false ∷ false ∷ false ∷ []

leaving : ((run fresh car_leaves).state ≡ free) × ((run fresh (true ∷ true ∷ [])).state ≡ unknown)
unfolding run update
leaving = (refl, refl)

run-verdict_example : (run fresh car_leaves).state ≡ verdict 5 4 (onto [] car_leaves)
run-verdict_example = Refines.run-verdict 5 4 car_leaves built

brief_occlusion_example :
    (run fresh ((false ∷ []) ++ (replicate 5 true ++ (false ∷ false ∷ [])))).state ≡ occupied
brief_occlusion_example =
    Stability.brief_occlusion 5 4 true (false ∷ []) (false ∷ false ∷ []) built (omega arith)

abbrev majority : SlotVoteFilter
majority = record fresh { threshold = 3 }

built_majority : init 5 3 ≡ ok majority
unfolding init
built_majority = refl

abbrev two_slots : SlotMapFilter
two_slots = ("A1", fresh) ∷ ("A2", fresh) ∷ []

built_two : build_filter ("A1" ∷ "A2" ∷ []) 5 4 ≡ ok two_slots
unfolding build_filter init Dict.put
built_two = refl

abbrev a2_twice : List (List String)
a2_twice = ("A2" ∷ []) ∷ ("A2" ∷ "A9" ∷ []) ∷ []
