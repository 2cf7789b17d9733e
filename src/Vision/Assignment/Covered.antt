-- ===== src/Vision/Assignment/Covered.antt =====
-- The second step of `assign_detection`: which slot covers the bottom band best.
use mathlib.Core.Path.{subst}
use mathlib.Core.List.{Memᴰ}
use caps_dash.Prelude.{
  ◌≡◌, refl, sym, ap, ◌∙◌, ◌⊎◌, inl, inr, true, false, ◌&&◌, Option, none, some, List, [], ◌∷◌, All,
  arith, if◌then◌else◌, Bool-cases, any,
}
use caps_dash.Vision.Geometry.{
  Scalars, LessLaws, Point, Bounds, Detection, Slot, nought, ground_point, bounds,
}
use caps_dash.Vision.Assignment.{
  holds, coverage, overlaps, band_of, samples_of, best_covered, by_coverage, min_band_coverage,
  choose, assign_detection,
}
use caps_dash.Vision.Assignment.Chosen.{asymmetric, filter-none}

module _ {R : Type 0} ⦃S : Scalars R⦄ (laws : LessLaws S) where
  -- Two rectangles share a point: neither ends before the other begins, in either direction.
  abbrev pub Touches : Bounds R → Bounds R → Type 0
  Touches a b =
      (S.less a.max_x b.min_x ≡ false)
      × (S.less b.max_x a.min_x ≡ false)
      × (S.less a.max_y b.min_y ≡ false)
      × (S.less b.max_y a.min_y ≡ false)

  overlaps-Touches : (a b : Bounds R) → overlaps a b ≡ true → Touches a b
  unfolding overlaps
  overlaps-Touches a b h = (ground arith, ground arith, ground arith, ground arith)

  overlaps_of_Touches : (a b : Bounds R) → Touches a b → overlaps a b ≡ true
  unfolding overlaps
  overlaps_of_Touches a b (left, right, above, under) = ground arith

  -- Of the slots that touch the band none covers more of the samples than this.
  abbrev pub Unbeaten : Bounds R → List (Point R) → R → List (Slot R) → Type 0
  Unbeaten band samples c =
      All (λ t. Touches band (bounds t) → S.less c (coverage samples t) ≡ false)

  best_covered-better :
      (band : Bounds R) (samples : List (Point R)) (best : Option (Slot R)) (c : R) (s : Slot R)
      (ss : List (Slot R))
      → (overlaps band (bounds s) && S.less c (coverage samples s)) ≡ true
      → best_covered band samples best c (s ∷ ss)
        ≡ best_covered band samples (some s) (coverage samples s) ss
  unfolding best_covered
  best_covered-better band samples best c s ss h =
      ap
        (λ b.
          if b
          then best_covered band samples (some s) (coverage samples s) ss
          else best_covered band samples best c ss)
        h

  best_covered-worse :
      (band : Bounds R) (samples : List (Point R)) (best : Option (Slot R)) (c : R) (s : Slot R)
      (ss : List (Slot R))
      → (overlaps band (bounds s) && S.less c (coverage samples s)) ≡ false
      → best_covered band samples best c (s ∷ ss) ≡ best_covered band samples best c ss
  unfolding best_covered
  best_covered-worse band samples best c s ss h =
      ap
        (λ b.
          if b
          then best_covered band samples (some s) (coverage samples s) ss
          else best_covered band samples best c ss)
        h

  -- the loop's coverage never falls
  best_covered-grows :
      (band : Bounds R) (samples : List (Point R)) (best : Option (Slot R)) (c : R)
      (ss : List (Slot R))
      → S.less (best_covered band samples best c ss).1 c ≡ false
  best_covered-grows band samples best c [] = unfold best_covered in laws.less_irreflexive c
  best_covered-grows band samples best c (s ∷ ss) =
      elim (Bool-cases (overlaps band (bounds s) && S.less c (coverage samples s))) [
        | inl better ↦ rw (best_covered-better band samples best c s ss better) (
            laws.not_less_trans (best_covered band samples (some s) (coverage samples s) ss).1
              (coverage samples s) c
              (best_covered-grows band samples (some s) (coverage samples s) ss)
              (asymmetric laws c (coverage samples s) (ground arith)))
        | inr worse ↦
            rw (best_covered-worse band samples best c s ss worse)
              (best_covered-grows band samples best c ss)
      ]

  best_covered-Unbeaten :
      (band : Bounds R) (samples : List (Point R)) (best : Option (Slot R)) (c : R)
      (ss : List (Slot R))
      → Unbeaten band samples (best_covered band samples best c ss).1 ss
  best_covered-Unbeaten band samples best c [] = tt
  best_covered-Unbeaten band samples best c (s ∷ ss) =
      elim (Bool-cases (overlaps band (bounds s) && S.less c (coverage samples s))) [
        | inl better ↦
            subst (λ (r : Option (Slot R) × R). Unbeaten band samples r.1 (s ∷ ss))
              (sym (best_covered-better band samples best c s ss better))
              (
                λ _. best_covered-grows band samples (some s) (coverage samples s) ss,
                best_covered-Unbeaten band samples (some s) (coverage samples s) ss,
              )
        | inr worse ↦
            subst (λ (r : Option (Slot R) × R). Unbeaten band samples r.1 (s ∷ ss))
              (sym (best_covered-worse band samples best c s ss worse))
              (
                λ touching.
                    let touches = overlaps_of_Touches band (bounds s) touching in
                    laws.not_less_trans (best_covered band samples best c ss).1 c
                      (coverage samples s) (best_covered-grows band samples best c ss)
                      (ground arith),
                best_covered-Unbeaten band samples best c ss,
              )
      ]

  -- where the result comes from
  best_covered-origin :
      (band : Bounds R) (samples : List (Point R)) (best : Option (Slot R)) (c : R)
      (ss : List (Slot R))
      → (best_covered band samples best c ss ≡ (best, c))
        ⊎ ((s : Slot R) × Memᴰ s ss
            × (overlaps band (bounds s) ≡ true)
            × (best_covered band samples best c ss ≡ (some s, coverage samples s)))
  best_covered-origin band samples best c [] = inl (unfold best_covered in refl)
  best_covered-origin band samples best c (s ∷ ss) =
      elim (Bool-cases (overlaps band (bounds s) && S.less c (coverage samples s))) [
        | inl better ↦
            let go = best_covered-better band samples best c s ss better in
            elim (best_covered-origin band samples (some s) (coverage samples s) ss) [
              | inl kept ↦ inr (s, Memᴰ.head refl, ground arith, go ∙ kept)
              | inr (t, m, touches, found) ↦ inr (t, Memᴰ.tail m, touches, go ∙ found)
            ]
        | inr worse ↦
            let go = best_covered-worse band samples best c s ss worse in
            elim (best_covered-origin band samples best c ss) [
              | inl kept ↦ inl (go ∙ kept)
              | inr (t, m, touches, found) ↦ inr (t, Memᴰ.tail m, touches, go ∙ found)
            ]
      ]

  -- the slot covers enough of the band, and no other covers more
  abbrev pub Covering : Detection R → List (Slot R) → Slot R → Type 0
  Covering d slots s =
      Memᴰ s slots
      × Touches (band_of d (samples_of d)) (bounds s)
      × (S.less (coverage (samples_of d) s) min_band_coverage ≡ false)
      × Unbeaten (band_of d (samples_of d)) (samples_of d) (coverage (samples_of d) s) slots

  -- no slot that touches the band covers enough of it
  abbrev pub Uncovered : Detection R → List (Slot R) → Type 0
  Uncovered d = All (λ t.
      Touches (band_of d (samples_of d)) (bounds t)
      → S.less (coverage (samples_of d) t) min_band_coverage ≡ true)

  below :
      (band : Bounds R) (samples : List (Point R)) (c : R) (slots : List (Slot R))
      → S.less c min_band_coverage ≡ true
      → Unbeaten band samples c slots
      → All
          (λ t. Touches band (bounds t) → S.less (coverage samples t) min_band_coverage ≡ true)
          slots
  below band samples c [] low h = tt
  below band samples c (t ∷ slots) low h = (
    λ touches. elim (Bool-cases (S.less (coverage samples t) min_band_coverage)) [
      | inl less ↦ less
      | inr more ↦ absurd (
          ground (
            arith,
            laws.not_less_trans c (coverage samples t) min_band_coverage (h.0 touches) more,
          ))
    ],
    below band samples c slots low h.1,
  )

  by_coverage_lem :
      (d : Detection R) (slots : List (Slot R)) (best : Option (Slot R)) (c : R)
      → best_covered (band_of d (samples_of d)) (samples_of d) none nought slots ≡ (best, c)
      → by_coverage d slots ≡ (if S.less c min_band_coverage then none else best)
  unfolding by_coverage
  by_coverage_lem d slots best c h =
      ap (λ (r : Option (Slot R) × R). if S.less r.1 min_band_coverage then none else r.0) h

  by_coverage-cases :
      (d : Detection R) (slots : List (Slot R))
      → S.less nought min_band_coverage ≡ true
      → ((s : Slot R) × (by_coverage d slots ≡ some s) × Covering d slots s)
        ⊎ ((by_coverage d slots ≡ none) × Uncovered d slots)
  by_coverage-cases d slots positive =
      let band = band_of d (samples_of d) in
      let samples = samples_of d in
      let unbeaten = best_covered-Unbeaten band samples none nought slots in
      elim (best_covered-origin band samples none nought slots) [
        | inl kept ↦ inr (
          by_coverage_lem d slots none nought kept ∙ rw positive refl,
          below band samples nought slots positive
              (subst (λ (r : Option (Slot R) × R). Unbeaten band samples r.1 slots) kept unbeaten),
        )
        | inr (s, m, touches, found) ↦
            let unbeaten' =
              subst (λ (r : Option (Slot R) × R). Unbeaten band samples r.1 slots) found unbeaten in
            let result = by_coverage_lem d slots (some s) (coverage samples s) found in
            elim (Bool-cases (S.less (coverage samples s) min_band_coverage)) [
              | inl low ↦ inr (
                result ∙ rw low refl,
                below band samples (coverage samples s) slots low unbeaten',
              )
              | inr enough ↦ inl (
                s,
                result ∙ rw enough refl,
                (m, overlaps-Touches band (bounds s) touches, enough, unbeaten'),
              )
            ]
      ]

  -- The ground point lies in no slot. Then the vehicle is assigned if and only if some slot, of those
  -- whose bounding rectangle shares a point with the bottom band of its box, covers at least 40 % of
  -- the sample points of the band, and to one of these that covers the most.
  pub assign_detection-Covering :
      (d : Detection R) (slots : List (Slot R))
      → any (holds (ground_point d.x1 d.y1 d.x2 d.y2)) slots ≡ false
      → S.less nought min_band_coverage ≡ true
      → ((s : Slot R) × (assign_detection d slots ≡ some s) × Covering d slots s)
        ⊎ ((assign_detection d slots ≡ none) × Uncovered d slots)
  assign_detection-Covering d slots outside positive =
      let nil = filter-none (holds (ground_point d.x1 d.y1 d.x2 d.y2)) slots outside in
      let same : assign_detection d slots ≡ by_coverage d slots =
        unfold assign_detection choose in ap (choose d slots) nil in
      rw same (by_coverage-cases d slots positive)
