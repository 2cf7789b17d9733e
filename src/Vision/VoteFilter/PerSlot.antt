-- ===== src/Vision/VoteFilter/PerSlot.antt =====
-- SlotMapFilter of vision/domain/vote_filter.py, slot by slot.
use mathlib.Core.Option
use caps_dash.Prelude.{
  ℕ, String, String_key, ◌≡◌, refl, Bool, none, some, List, [], ◌∷◌, map, arith, ok, eq_iff,
  if◌then◌else◌, Option-cases,
}
use caps_dash.Prelude.Dict
use caps_dash.Vision.VoteFilter.{
  SlotVoteFilter, SlotMapFilter, init, add_filters, build_filter, contains, update, update_all,
  states,
}
use caps_dash.Vision.VoteFilter.Spec.{verdict}
use caps_dash.Vision.VoteFilter.Refines.{run, onto, run-verdict}

-- The filters after a run of frames, each given by the ids that it shows occupied.
unfoldable pub run_all : SlotMapFilter → List (List String) → SlotMapFilter
run_all filters [] = filters
run_all filters (ids ∷ frames) = run_all (update_all ids filters) frames

-- What the frames say of one slot.
abbrev pub observations : String → List (List String) → List Bool
observations slot_id = map (λ ids. contains ids slot_id)

get-update_all :
    (slot_id : String) (ids : List String) (filters : SlotMapFilter)
    → Dict.get slot_id (update_all ids filters)
      ≡ Option.map (λ f. update f (contains ids slot_id)) (Dict.get slot_id filters)
unfolding Dict.get update_all
get-update_all slot_id ids [] = refl
get-update_all slot_id ids ((j, f) ∷ filters) =
    ground (arith, get-update_all slot_id ids filters, eq_iff j slot_id)

get-run_all :
    (slot_id : String) (frames : List (List String)) (filters : SlotMapFilter)
    → Dict.get slot_id (run_all filters frames)
      ≡ Option.map (λ f. run f (observations slot_id frames)) (Dict.get slot_id filters)
unfolding run_all run
get-run_all slot_id [] filters = ground (arith, Option-cases (Dict.get slot_id filters))
get-run_all slot_id (ids ∷ frames) filters =
    ground (
      arith,
      get-run_all slot_id frames (update_all ids filters),
      get-update_all slot_id ids filters,
    )

get-states :
    (slot_id : String) (filters : SlotMapFilter)
    → Dict.get slot_id (states filters) ≡ Option.map (λ f. f.state) (Dict.get slot_id filters)
unfolding Dict.get states
get-states slot_id [] = refl
get-states slot_id ((j, f) ∷ filters) = ground (arith, get-states slot_id filters)

get-add_filters :
    (slot_id : String) (w t : ℕ) (ids : List String) (acc : SlotMapFilter) {f : SlotVoteFilter}
    {r : SlotMapFilter}
    → init w t ≡ ok f
    → add_filters w t ids acc ≡ ok r
    → Dict.get slot_id r ≡ (if contains ids slot_id then some f else Dict.get slot_id acc)
unfolding add_filters
get-add_filters slot_id w t [] acc e h = ground arith
get-add_filters slot_id w t (i ∷ ids) acc {f} {r} e h =
    let h' : add_filters w t ids (Dict.put i f acc) ≡ ok r = rw e at h in
    ground
      (arith, get-add_filters slot_id w t ids (Dict.put i f acc) e h', Dict.get-put i slot_id f acc)

-- With valid settings, `SlotMapFilter.update` reports for each id of the slot map the verdict over
-- that slot's own observations in all the frames so far, and reports no other id.
pub per_slot_verdict :
    (slot_ids : List String) (window threshold : ℕ) (slot_id : String) (frames : List (List String))
    {f : SlotVoteFilter} {filters : SlotMapFilter}
    → init window threshold ≡ ok f
    → build_filter slot_ids window threshold ≡ ok filters
    → Dict.get slot_id (states (run_all filters frames)) ≡ (
        if contains slot_ids slot_id
        then some (verdict window threshold (onto [] (observations slot_id frames)))
        else none)
unfolding Dict.get build_filter
per_slot_verdict slot_ids w t slot_id frames {filters = filters} e h = ground (
  arith,
  get-states slot_id (run_all filters frames),
  get-run_all slot_id frames filters,
  get-add_filters slot_id w t slot_ids [] e h,
  run-verdict w t (observations slot_id frames) e,
)
