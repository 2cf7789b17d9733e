-- ===== src/Vision/SlotDetections/Resolved.antt =====
-- The grouping against a filter of the detections, and what is kept for each slot.
use mathlib.Core.Path.{subst}
use caps_dash.Prelude.{
  sym, ◌∙◌, Option, true, ap, ◌≡◌, refl, String, String_key, ◌==◌, Bool, false, none, some, List,
  [], ◌∷◌, ◌++◌, filter, arith, if◌then◌else◌, Option-cases, inl, inr, eq_iff,
}
use caps_dash.Prelude.Dict
use caps_dash.Prelude.Dict.{Dict, get-put, AllValues, AllValues-put}
use caps_dash.Vision.Geometry.{Slot, Scalars, Detection}
use caps_dash.Vision.Assignment.{assign_detection}
use caps_dash.Vision.SlotDetections.{
  best_of, resolve_slot_detections, group_detections_by_slot, best_each, group_into, SlotMap,
  or_nil, append_to, group_one,
}

module _ {R : Type 0} ⦃S : Scalars R⦄ where
  -- the detection was assigned to the slot with this identifier
  abbrev pub assigned_to : SlotMap R → String → Detection R → Bool
  assigned_to m id d = elim (assign_detection d m.slots) [
    | none ↦ false
    | some slot ↦ slot.id == id
  ]

  append-nil : (xs : List (Detection R)) → xs ++ [] ≡ xs
  append-nil [] = refl
  append-nil (x ∷ xs) = ap (◌∷◌ x) (append-nil xs)

  filter-append :
      (p : Detection R → Bool) (d : Detection R) (xs ds : List (Detection R))
      → (if p d then xs ++ d ∷ [] else xs) ++ filter p ds ≡ xs ++ filter p (d ∷ ds)
  filter-append p d [] ds = ground arith
  filter-append p d (x ∷ xs) ds = ground (arith, filter-append p d xs ds)

  get-group_one :
      (m : SlotMap R) (id : String) (d : Detection R) (grouped : Dict String (List (Detection R)))
      → or_nil (Dict.get id (group_one m d grouped)) ≡ (
          if assigned_to m id d
          then or_nil (Dict.get id grouped) ++ d ∷ []
          else or_nil (Dict.get id grouped))
  unfolding group_one append_to or_nil
  get-group_one m id d grouped = elim (Option-cases (assign_detection d m.slots)) [
    | inl unassigned ↦ ground arith
    | inr (slot, found) ↦ ground (
      arith,
      get-put slot.id id (or_nil (Dict.get slot.id grouped) ++ d ∷ []) grouped,
      eq_iff slot.id id,
    )
  ]

  group_into-filter :
      (m : SlotMap R) (id : String) (grouped : Dict String (List (Detection R)))
      (ds : List (Detection R))
      → or_nil (Dict.get id (group_into m grouped ds))
        ≡ or_nil (Dict.get id grouped) ++ filter (assigned_to m id) ds
  unfolding group_into
  group_into-filter m id grouped [] = sym (append-nil (or_nil (Dict.get id grouped)))
  group_into-filter m id grouped (d ∷ ds) =
      group_into-filter m id (group_one m d grouped) ds
      ∙ ap (λ (g : List (Detection R)). g ++ filter (assigned_to m id) ds)
          (get-group_one m id d grouped)
      ∙ filter-append (assigned_to m id) d (or_nil (Dict.get id grouped)) ds

  -- The detections that are kept under a slot are those that were assigned to it, in order.
  pub group_detections_by_slot-filter :
      (ds : List (Detection R)) (m : SlotMap R) (id : String)
      → or_nil (Dict.get id (group_detections_by_slot ds m)) ≡ filter (assigned_to m id) ds
  unfolding group_detections_by_slot
  group_detections_by_slot-filter ds m id =
      group_into-filter m id [] ds ∙ unfold Dict.get or_nil in refl

  abbrev non_empty : List (Detection R) → Bool
  non_empty [] = false
  non_empty (d ∷ ds) = true

  non_empty-append : (g : List (Detection R)) (d : Detection R) → non_empty (g ++ d ∷ []) ≡ true
  non_empty-append [] d = refl
  non_empty-append (e ∷ g) d = refl

  abbrev AllNonEmpty : Dict String (List (Detection R)) → Type 0
  AllNonEmpty = AllValues (λ g. non_empty g ≡ true)

  group_one-none :
      (m : SlotMap R) (d : Detection R) (grouped : Dict String (List (Detection R)))
      → assign_detection d m.slots ≡ none
      → group_one m d grouped ≡ grouped
  unfolding group_one
  group_one-none m d grouped h = ground arith

  group_one-some :
      (m : SlotMap R) (d : Detection R) (grouped : Dict String (List (Detection R))) (slot : Slot R)
      → assign_detection d m.slots ≡ some slot
      → group_one m d grouped ≡ append_to slot.id d grouped
  unfolding group_one
  group_one-some m d grouped slot h = ground arith

  AllNonEmpty-append_to :
      (id : String) (d : Detection R) (grouped : Dict String (List (Detection R)))
      → AllNonEmpty grouped
      → AllNonEmpty (append_to id d grouped)
  unfolding append_to
  AllNonEmpty-append_to id d grouped h =
      AllValues-put (λ g. non_empty g ≡ true) id (or_nil (Dict.get id grouped) ++ d ∷ []) grouped
        (non_empty-append (or_nil (Dict.get id grouped)) d) h

  AllNonEmpty-group_one :
      (m : SlotMap R) (d : Detection R) (grouped : Dict String (List (Detection R)))
      → AllNonEmpty grouped
      → AllNonEmpty (group_one m d grouped)
  AllNonEmpty-group_one m d grouped h = elim (Option-cases (assign_detection d m.slots)) [
    | inl unassigned ↦ subst AllNonEmpty (sym (group_one-none m d grouped unassigned)) h
    | inr (slot, found) ↦
        subst AllNonEmpty (sym (group_one-some m d grouped slot found))
          (AllNonEmpty-append_to slot.id d grouped h)
  ]

  AllNonEmpty-group_into :
      (m : SlotMap R) (grouped : Dict String (List (Detection R))) (ds : List (Detection R))
      → AllNonEmpty grouped
      → AllNonEmpty (group_into m grouped ds)
  unfolding group_into
  AllNonEmpty-group_into m grouped [] h = h
  AllNonEmpty-group_into m grouped (d ∷ ds) h =
      AllNonEmpty-group_into m (group_one m d grouped) ds (AllNonEmpty-group_one m d grouped h)

  -- the best of a list that may be empty
  abbrev pub picked : List (Detection R) → Option (Detection R)
  picked [] = none
  picked (d ∷ ds) = some (best_of d ds)

  get-best_each :
      (id : String) (grouped : Dict String (List (Detection R)))
      → AllNonEmpty grouped
      → Dict.get id (best_each grouped) ≡ picked (or_nil (Dict.get id grouped))
  unfolding Dict.get best_each or_nil
  get-best_each id [] h = refl
  get-best_each id ((j, []) ∷ grouped) h = absurd (ground (arith, h.0))
  get-best_each id ((j, d ∷ ds) ∷ grouped) h = ground (arith, get-best_each id grouped h.1)

  -- What is kept for a slot is the best of the detections that were assigned to it.
  pub resolve_slot_detections-picked :
      (ds : List (Detection R)) (m : SlotMap R) (id : String)
      → Dict.get id (resolve_slot_detections ds m) ≡ picked (filter (assigned_to m id) ds)
  unfolding resolve_slot_detections
  resolve_slot_detections-picked ds m id =
      get-best_each id (group_detections_by_slot ds m)
        (unfold group_detections_by_slot in AllNonEmpty-group_into m [] ds tt)
      ∙ ap picked (group_detections_by_slot-filter ds m id)
