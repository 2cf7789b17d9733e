-- ===== src/Vision/SlotDetections.antt =====
-- vision/domain/slot_detections.py: one vehicle for each slot, from all the detections of a frame,
-- and the fitting of a map and the writing of states of slot_map.py.
pub mod Resolved
pub mod Best
use caps_dash.Prelude.{
  ℕ, ◌+◌, String, String_key, ◌==◌, Bool, true, false, not, ◌&&◌, ◌||◌, Option, none, some, List,
  [], ◌∷◌, ◌++◌, map, all, length, if◌then◌else◌, nat_eq,
}
use caps_dash.Prelude.Dict
use caps_dash.Prelude.Dict.{Dict}
use caps_dash.Vision.States.{SlotState}
use caps_dash.Vision.Geometry.{
  Scalars, Detection, Slot, Polygon, nought, width, height, scale_polygon,
}
use caps_dash.Vision.Assignment.{assign_detection}

pub record SlotMap (R : Type 0) : Type 0 where
  pub slots : List (Slot R)
  pub width : ℕ
  pub height : ℕ
  pub camera_id : String

-- `grouped.get(id, [])`
unfoldable pub or_nil {ℓ} : {A : Type ℓ} → Option (List A) → List A
or_nil none = []
or_nil (some xs) = xs

module _ {R : Type 0} where
  -- `grouped.setdefault(id, []).append(detection)`
  unfoldable pub append_to :
      String → Detection R → Dict String (List (Detection R)) → Dict String (List (Detection R))
  append_to id d grouped = Dict.put id (or_nil (Dict.get id grouped) ++ d ∷ []) grouped

module _ {R : Type 0} ⦃S : Scalars R⦄ where
  unfoldable pub group_one :
      SlotMap R → Detection R → Dict String (List (Detection R)) → Dict String (List (Detection R))
  group_one m d grouped = elim (assign_detection d m.slots) [
    | none ↦ grouped
    | some slot ↦ append_to slot.id d grouped
  ]

  unfoldable pub group_into :
      SlotMap R
      → Dict String (List (Detection R))
      → List (Detection R)
      → Dict String (List (Detection R))
  group_into m grouped [] = grouped
  group_into m grouped (d ∷ ds) = group_into m (group_one m d grouped) ds

  unfoldable pub group_detections_by_slot :
      List (Detection R) → SlotMap R → Dict String (List (Detection R))
  group_detections_by_slot ds m = group_into m [] ds

  abbrev pub box_area : Detection R → R
  box_area d = S.times (width d) (height d)

  -- `key(a) < key(b)` for the pairs of score and area: the area decides between equal scores
  unfoldable pub worse : Detection R → Detection R → Bool
  worse a b =
      S.less a.confidence b.confidence
      || (not (S.less b.confidence a.confidence) && S.less (box_area a) (box_area b))

  -- `_best_of`: the first of the best
  unfoldable pub best_of : Detection R → List (Detection R) → Detection R
  best_of best [] = best
  best_of best (d ∷ ds) = best_of (if worse best d then d else best) ds

  -- no group is empty: `max` of none would raise
  unfoldable pub best_each : Dict String (List (Detection R)) → Dict String (Detection R)
  best_each [] = []
  best_each ((id, []) ∷ grouped) = best_each grouped
  best_each ((id, d ∷ ds) ∷ grouped) = (id, best_of d ds) ∷ best_each grouped

  unfoldable pub resolve_slot_detections :
      List (Detection R) → SlotMap R → Dict String (Detection R)
  resolve_slot_detections ds m = best_each (group_detections_by_slot ds m)

  unfoldable pub occupied_slot_ids : List (Detection R) → SlotMap R → List String
  occupied_slot_ids ds m = Dict.keys (group_detections_by_slot ds m)

  abbrev lesser : R → R → R
  lesser a b = if S.less b a then b else a

  abbrev larger : R → R → R
  larger a b = if S.less a b then b else a

  -- `_iou`
  unfoldable pub iou : Detection R → Detection R → R
  iou a b =
      let overlap_w = S.minus (lesser a.x2 b.x2) (larger a.x1 b.x1) in
      let overlap_h = S.minus (lesser a.y2 b.y2) (larger a.y1 b.y1) in
      let intersection = S.times overlap_w overlap_h in
      let union = S.minus (S.plus (box_area a) (box_area b)) intersection in
      if not (S.less nought overlap_w) || not (S.less nought overlap_h)
      then nought
      else if S.less nought union
      then S.over intersection union
      else nought

  -- a stable sort, best score first
  unfoldable pub insert_best : Detection R → List (Detection R) → List (Detection R)
  insert_best d [] = d ∷ []
  insert_best d (e ∷ es) =
      if S.less d.confidence e.confidence then e ∷ insert_best d es else d ∷ e ∷ es

  unfoldable pub best_first : List (Detection R) → List (Detection R)
  best_first [] = []
  best_first (d ∷ ds) = insert_best d (best_first ds)

  unfoldable pub keep_distinct : List (Detection R) → List (Detection R) → List (Detection R)
  keep_distinct kept [] = kept
  keep_distinct kept (d ∷ ds) =
      keep_distinct
        (if all (λ other. S.less (iou d other) (S.ratio 50 100)) kept then kept ++ d ∷ [] else kept)
        ds

  -- `_distinct_vehicles`
  unfoldable pub distinct_vehicles : List (Detection R) → ℕ
  distinct_vehicles group = length (keep_distinct [] (best_first group))

  -- the pairs that the dictionary is made of; slot identifiers are distinct
  unfoldable pub count_detections_per_slot : List (Detection R) → SlotMap R → Dict String ℕ
  count_detections_per_slot ds m =
      map
        (λ (slot : Slot R).
          (slot.id, distinct_vehicles (or_nil (Dict.get slot.id (group_detections_by_slot ds m)))))
        m.slots

  -- `fit_to_frame`
  unfoldable pub fit_to_frame : SlotMap R → ℕ → ℕ → SlotMap R
  fit_to_frame m frame_w frame_h =
      if nat_eq frame_w m.width && nat_eq frame_h m.height
      then m
      else let scale_x = S.over (S.ratio frame_w 1) (S.ratio m.width 1) in
        let scale_y = S.over (S.ratio frame_h 1) (S.ratio m.height 1) in
        record m {
          slots =
              map
                (λ (slot : Slot R). record slot {
                  polygon = scale_polygon slot.polygon scale_x scale_y;
                })
                m.slots;
          width = frame_w;
          height = frame_h;
        }

  -- `SlotMap.states`
  unfoldable pub states_of : List (Slot R) → Dict String SlotState → Dict String SlotState
  states_of [] states = states
  states_of (slot ∷ slots) states = states_of slots (Dict.put slot.id slot.state states)

  -- `apply_states`, on one slot and on all
  unfoldable pub apply_state : Dict String SlotState → Slot R → Slot R
  apply_state states slot = elim (Dict.get slot.id states) [
    | none ↦ slot
    | some state ↦ record slot { state = state }
  ]

  unfoldable pub apply_states : SlotMap R → Dict String SlotState → SlotMap R
  apply_states m states = record m { slots = map (apply_state states) m.slots }
