-- ===== src/Vision/Detectors/Suppression.antt =====
-- Non-maximum suppression, the loop of vision/detectors/box_utils.py.
use mathlib.Core.Option
use caps_dash.Prelude.{
  ℕ, zero, suc, ◌<◌, ◌≡◌, refl, ap, sym, Bool, true, false, not, some, List, [], ◌∷◌, ◌⊎◌, inl, inr,
  arith, filter, length, All, All-mono, Bool-cases, length-filter, count-le-length,
}
use caps_dash.Vision.Geometry.{Scalars}
use caps_dash.Vision.Detectors.{Candidate, iou, nms_loop}
use mathlib.Core.Path.{subst}

module _ {A : Type 0} where
  -- The first list is part of the second, in its order.
  abbrev pub Sub : List A → List A → Type 0
  Sub [] ys = Unit
  Sub (x ∷ xs) [] = ⊥
  Sub (x ∷ xs) (y ∷ ys) = ((x ≡ y) × Sub xs ys) ⊎ Sub (x ∷ xs) ys

  Sub-skip : (xs : List A) (y : A) (ys : List A) → Sub xs ys → Sub xs (y ∷ ys)
  Sub-skip [] y ys h = tt
  Sub-skip (x ∷ xs) y ys h = inr h

  Sub-filter : (p : A → Bool) (xs ys : List A) → Sub xs (filter p ys) → Sub xs ys
  Sub-filter p [] ys h = tt
  Sub-filter p (x ∷ xs) [] h = h
  Sub-filter p (x ∷ xs) (y ∷ ys) h = elim (Bool-cases (p y)) [
    | inl kept ↦
        let h' : Sub (x ∷ xs) (y ∷ filter p ys) = rw kept at h in
        elim h' [
          | inl (same, rest) ↦ inl (same, Sub-filter p xs ys rest)
          | inr later ↦ inr (Sub-filter p (x ∷ xs) ys later)
        ]
    | inr dropped ↦ inr (Sub-filter p (x ∷ xs) ys (rw dropped at h))
  ]

  pub All-Sub {κ} : (P : A → Type κ) (xs ys : List A) → Sub xs ys → All P ys → All P xs
  All-Sub P [] ys h all = tt
  All-Sub P (x ∷ xs) [] h all = absurd h
  All-Sub P (x ∷ xs) (y ∷ ys) (inl (same, rest)) (here, all) =
      (subst P (sym same) here, All-Sub P xs ys rest all)
  All-Sub P (x ∷ xs) (y ∷ ys) (inr later) (here, all) = All-Sub P (x ∷ xs) ys later all

  pub All-filter : (p : A → Bool) (xs : List A) → All (λ x. p x ≡ true) (filter p xs)
  All-filter p [] = tt
  All-filter p (x ∷ xs) = elim (Bool-cases (p x)) [
    | inl kept ↦ rw kept (kept, All-filter p xs)
    | inr dropped ↦ rw dropped (All-filter p xs)
  ]

module _ {R : Type 0} ⦃S : Scalars R⦄ (threshold : R) where
  -- the overlap is above the threshold
  abbrev pub overlaps : Candidate R → Candidate R → Bool
  overlaps a b = S.less threshold (iou a b)

  -- No box that is kept overlaps one that is kept after it.
  abbrev pub Separate : List (Candidate R) → Type 0
  Separate [] = Unit
  Separate (c ∷ keep) = All (λ b. overlaps c b ≡ false) keep × Separate keep

  -- A box is kept, or one that is kept overlaps it.
  abbrev pub Covered : List (Candidate R) → Candidate R → Type 0
  Covered [] c = ⊥
  Covered (k ∷ keep) c = (k ≡ c) ⊎ ((overlaps k c ≡ true) ⊎ Covered keep c)

  All-Covered :
      (c : Candidate R) (keep rest : List (Candidate R))
      → All (Covered keep) (filter (λ b. not (overlaps c b)) rest)
      → All (Covered (c ∷ keep)) rest
  All-Covered c keep [] h = tt
  All-Covered c keep (b ∷ rest) h = elim (Bool-cases (overlaps c b)) [
    | inl over ↦ (inr (inl over), All-Covered c keep rest (rw over at h))
    | inr clear ↦
        let h' : All (Covered keep) (b ∷ filter (λ b. not (overlaps c b)) rest) = rw clear at h in
        (inr (inr h'.0), All-Covered c keep rest h'.1)
  ]

  -- The suppression ends within as many rounds as there are boxes. What it keeps is part of the boxes,
  -- in their order; no box that is kept overlaps an earlier one by more than the threshold; and every
  -- box is kept, or overlaps one that is kept by more than that.
  pub nms_loop_lem :
      (fuel : ℕ) (order : List (Candidate R))
      → length order < fuel
      → (keep : List (Candidate R)) × (nms_loop threshold fuel order ≡ some keep)
        × Sub keep order
        × Separate keep
        × All (Covered keep) order
  unfolding nms_loop
  nms_loop_lem zero order h = absurd (omega arith)
  nms_loop_lem (suc fuel) [] h = ([], refl, tt, tt, tt)
  nms_loop_lem (suc fuel) (c ∷ rest) h =
      let clear = filter (λ b. not (overlaps c b)) rest in
      let (keep, run, part, apart, covered) = nms_loop_lem fuel clear (
        omega (
          arith,
          length-filter (λ b. not (overlaps c b)) rest,
          count-le-length (λ b. not (overlaps c b)) rest,
        )) in
      let others : All (λ b. overlaps c b ≡ false) keep =
        All-mono (λ b. not (overlaps c b) ≡ true) (λ b. overlaps c b ≡ false) keep
          (λ b e. ground arith)
          (All-Sub (λ b. not (overlaps c b) ≡ true) keep clear part
            (All-filter (λ b. not (overlaps c b)) rest)) in
      (
        c ∷ keep,
        ap (Option.map (λ k. c ∷ k)) run,
        inl (refl, Sub-filter (λ b. not (overlaps c b)) keep rest part),
        (others, apart),
        (inl refl, All-Covered c keep rest covered),
      )
