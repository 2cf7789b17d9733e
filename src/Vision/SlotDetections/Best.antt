-- ===== src/Vision/SlotDetections/Best.antt =====
-- Which box `resolve_slot_detections` of vision/domain/slot_detections.py keeps for a slot.
use mathlib.Core.Path.{subst}
use mathlib.Core.List.{Memᴰ}
use caps_dash.Prelude.{
  ◌≡◌, refl, sym, ap, ◌∙◌, ◌⊎◌, String, String_key, true, false, none, some, List, [], ◌∷◌, filter,
  any, All, arith, if◌then◌else◌, Bool-cases, inl, inr,
}
use caps_dash.Prelude.Dict
use caps_dash.Vision.Geometry.{Scalars, LessLaws, Detection}
use caps_dash.Vision.Assignment.Chosen.{asymmetric, Mem-filter, All-filter, any-filter, List-cases}
use caps_dash.Vision.SlotDetections.{SlotMap, worse, box_area, best_of, resolve_slot_detections}
use caps_dash.Vision.SlotDetections.Resolved.{assigned_to, picked, resolve_slot_detections-picked}

module _ {R : Type 0} ⦃S : Scalars R⦄ (laws : LessLaws S) where
  worse_irreflexive : (a : Detection R) → worse a a ≡ false
  unfolding worse
  worse_irreflexive a =
      ground (arith, laws.less_irreflexive a.confidence, laws.less_irreflexive (box_area a))

  asymmetric-worse : (a b : Detection R) → worse a b ≡ true → worse b a ≡ false
  unfolding worse
  asymmetric-worse a b h =
      ground (
        arith,
        asymmetric laws a.confidence b.confidence,
        asymmetric laws (box_area a) (box_area b),
      )

  not_worse_trans :
      (a b c : Detection R) → worse a b ≡ false → worse b c ≡ false → worse a c ≡ false
  unfolding worse
  not_worse_trans a b c h k = ground (
    arith,
    laws.not_less_trans a.confidence b.confidence c.confidence,
    laws.not_less_trans b.confidence c.confidence a.confidence,
    laws.not_less_trans c.confidence a.confidence b.confidence,
    laws.not_less_trans (box_area a) (box_area b) (box_area c),
  )

  best_of-better :
      (a d : Detection R) (ds : List (Detection R))
      → worse a d ≡ true
      → best_of a (d ∷ ds) ≡ best_of d ds
  unfolding best_of
  best_of-better a d ds h = ap (λ b. best_of (if b then d else a) ds) h

  best_of-kept :
      (a d : Detection R) (ds : List (Detection R))
      → worse a d ≡ false
      → best_of a (d ∷ ds) ≡ best_of a ds
  unfolding best_of
  best_of-kept a d ds h = ap (λ b. best_of (if b then d else a) ds) h

  best_of-Mem : (a : Detection R) (ds : List (Detection R)) → Memᴰ (best_of a ds) (a ∷ ds)
  best_of-Mem a [] = unfold best_of in Memᴰ.head refl
  best_of-Mem a (d ∷ ds) = elim (Bool-cases (worse a d)) [
    | inl better ↦ rw (best_of-better a d ds better) (Memᴰ.tail (best_of-Mem d ds))
    | inr other ↦ rw (best_of-kept a d ds other) (elim (best_of-Mem a ds) [
      | Memᴰ.head here ↦ Memᴰ.head here
      | Memᴰ.tail later ↦ Memᴰ.tail (Memᴰ.tail later)
    ])
  ]

  best_of-first : (a : Detection R) (ds : List (Detection R)) → worse (best_of a ds) a ≡ false
  best_of-first a [] = unfold best_of in worse_irreflexive a
  best_of-first a (d ∷ ds) = elim (Bool-cases (worse a d)) [
    | inl better ↦
        rw (best_of-better a d ds better)
          (not_worse_trans (best_of d ds) d a (best_of-first d ds) (asymmetric-worse a d better))
    | inr other ↦ rw (best_of-kept a d ds other) (best_of-first a ds)
  ]

  -- No element is better.
  abbrev pub Unsurpassed : Detection R → List (Detection R) → Type 0
  Unsurpassed b = All (λ d. worse b d ≡ false)

  best_of-Unsurpassed : (a : Detection R) (ds : List (Detection R)) → Unsurpassed (best_of a ds) ds
  best_of-Unsurpassed a [] = tt
  best_of-Unsurpassed a (d ∷ ds) = elim (Bool-cases (worse a d)) [
    | inl better ↦
        subst (λ b. Unsurpassed b (d ∷ ds)) (sym (best_of-better a d ds better))
          (best_of-first d ds, best_of-Unsurpassed d ds)
    | inr other ↦
        subst (λ b. Unsurpassed b (d ∷ ds)) (sym (best_of-kept a d ds other))
          (not_worse_trans (best_of a ds) a d (best_of-first a ds) other, best_of-Unsurpassed a ds)
  ]

  -- A slot that is resolved holds one of the detections of the frame, one that was assigned to it,
  -- and no detection that was assigned to it is better: none has a higher score, or the same score
  -- and a larger box. A slot that is not resolved is one that no detection was assigned to.
  pub resolve_slot_detections-Unsurpassed :
      (ds : List (Detection R)) (m : SlotMap R) (id : String)
      → ((best : Detection R) × (Dict.get id (resolve_slot_detections ds m) ≡ some best)
          × Memᴰ best ds
          × (assigned_to m id best ≡ true)
          × All (λ d. assigned_to m id d ≡ true → worse best d ≡ false) ds)
        ⊎ ((Dict.get id (resolve_slot_detections ds m) ≡ none)
            × (any (assigned_to m id) ds ≡ false))
  resolve_slot_detections-Unsurpassed ds m id =
      let kept = resolve_slot_detections-picked ds m id in
      elim (List-cases (filter (assigned_to m id) ds)) [
        | inl nil ↦ inr (
          kept ∙ ap picked nil,
          any-filter (assigned_to m id) ds ∙ ap (any (assigned_to m id)) nil,
        )
        | inr (d, rest, found) ↦
            let (member, assigned) =
              Mem-filter (assigned_to m id) ds (best_of d rest) (rw found (best_of-Mem d rest)) in
            inl (
              best_of d rest,
              kept ∙ ap picked found,
              member,
              assigned,
              All-filter (λ e. worse (best_of d rest) e ≡ false) (assigned_to m id) ds
                  (rw found (best_of-first d rest, best_of-Unsurpassed d rest)),
            )
      ]
