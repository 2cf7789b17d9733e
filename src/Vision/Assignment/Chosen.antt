-- ===== src/Vision/Assignment/Chosen.antt =====
-- Which slot `assign_detection` chooses.
use mathlib.Core.Path.{subst}
use mathlib.Core.List.Memᴰ
use mathlib.Core.List.{Memᴰ}
use caps_dash.Prelude.{
  ◌≡◌, refl, sym, ap, ◌⊎◌, inl, inr, Bool, true, false, some, List, [], ◌∷◌, filter, any, All,
  arith, if◌then◌else◌, Bool-cases,
}
use caps_dash.Vision.Geometry.{Scalars, LessLaws, Point, Detection, Slot, ground_point, area}
use caps_dash.Vision.Assignment.{choose, holds, smallest, assign_detection}

module _ {ℓ} {A : Type ℓ} where
  pub Mem-filter :
      (p : A → Bool) (xs : List A) (a : A) → Memᴰ a (filter p xs) → Memᴰ a xs × (p a ≡ true)
  Mem-filter p [] a m = (m, absurd (Memᴰ.not-nil m))
  Mem-filter p (x ∷ xs) a m = elim (Bool-cases (p x)) [
    | inl passes ↦ elim (rw passes at m) [
      | Memᴰ.head same ↦ (Memᴰ.head same, rw same passes)
      | Memᴰ.tail later ↦ let (n, q) = Mem-filter p xs a later in (Memᴰ.tail n, q)
    ]
    | inr other ↦ let (n, q) = Mem-filter p xs a (rw other at m) in (Memᴰ.tail n, q)
  ]

  pub All-filter {κ} :
      (P : A → Type κ) (p : A → Bool) (xs : List A)
      → All P (filter p xs)
      → All (λ a. p a ≡ true → P a) xs
  All-filter P p [] h = tt
  All-filter P p (x ∷ xs) h = elim (Bool-cases (p x)) [
    | inl passes ↦ let h' = rw passes at h in (λ _. h'.0, All-filter P p xs h'.1)
    | inr other ↦ (λ passes. absurd (ground arith), All-filter P p xs (rw other at h))
  ]

  pub any-filter : (p : A → Bool) (xs : List A) → any p xs ≡ any p (filter p xs)
  any-filter p [] = refl
  any-filter p (x ∷ xs) = ground (arith, any-filter p xs)

  pub filter-none : (p : A → Bool) (xs : List A) → any p xs ≡ false → filter p xs ≡ []
  filter-none p [] h = refl
  filter-none p (x ∷ xs) h = ground (arith, filter-none p xs)

  pub List-cases : (xs : List A) → (xs ≡ []) ⊎ ((x : A) × (rest : List A) × (xs ≡ x ∷ rest))
  List-cases [] = inl refl
  List-cases (x ∷ xs) = inr (x, xs, refl)

module _ {R : Type 0} ⦃S : Scalars R⦄ (laws : LessLaws S) where
  smallest-smaller :
      (s t : Slot R) (ss : List (Slot R))
      → S.less (area t) (area s) ≡ true
      → smallest s (t ∷ ss) ≡ smallest t ss
  unfolding smallest
  smallest-smaller s t ss h = ap (λ b. smallest (if b then t else s) ss) h

  smallest-kept :
      (s t : Slot R) (ss : List (Slot R))
      → S.less (area t) (area s) ≡ false
      → smallest s (t ∷ ss) ≡ smallest s ss
  unfolding smallest
  smallest-kept s t ss h = ap (λ b. smallest (if b then t else s) ss) h

  smallest-Mem : (s : Slot R) (ss : List (Slot R)) → Memᴰ (smallest s ss) (s ∷ ss)
  smallest-Mem s [] = unfold smallest in Memᴰ.head refl
  smallest-Mem s (t ∷ ss) = elim (Bool-cases (S.less (area t) (area s))) [
    | inl smaller ↦ rw (smallest-smaller s t ss smaller) (Memᴰ.tail (smallest-Mem t ss))
    | inr other ↦ rw (smallest-kept s t ss other) (elim (smallest-Mem s ss) [
      | Memᴰ.head here ↦ Memᴰ.head here
      | Memᴰ.tail later ↦ Memᴰ.tail (Memᴰ.tail later)
    ])
  ]

  pub asymmetric : (a b : R) → S.less a b ≡ true → S.less b a ≡ false
  asymmetric a b h = elim (Bool-cases (S.less b a)) [
    | inl back ↦ absurd (ground (arith, laws.less_trans a b a, laws.less_irreflexive a))
    | inr front ↦ front
  ]

  smallest-le_first :
      (s : Slot R) (ss : List (Slot R)) → S.less (area s) (area (smallest s ss)) ≡ false
  smallest-le_first s [] = unfold smallest in laws.less_irreflexive (area s)
  smallest-le_first s (t ∷ ss) = elim (Bool-cases (S.less (area t) (area s))) [
    | inl smaller ↦ rw (smallest-smaller s t ss smaller) (
        laws.not_less_trans (area s) (area t) (area (smallest t ss))
          (asymmetric (area t) (area s) smaller) (smallest-le_first t ss))
    | inr other ↦ rw (smallest-kept s t ss other) (smallest-le_first s ss)
  ]

  smallest-le :
      (s : Slot R) (ss : List (Slot R))
      → All (λ t. S.less (area t) (area (smallest s ss)) ≡ false) ss
  smallest-le s [] = tt
  smallest-le s (t ∷ ss) = elim (Bool-cases (S.less (area t) (area s))) [
    | inl smaller ↦
        subst (λ b. All (λ u. S.less (area u) (area b) ≡ false) (t ∷ ss))
          (sym (smallest-smaller s t ss smaller)) (smallest-le_first t ss, smallest-le t ss)
    | inr other ↦
        subst (λ b. All (λ u. S.less (area u) (area b) ≡ false) (t ∷ ss))
          (sym (smallest-kept s t ss other))
          (
            laws.not_less_trans (area t) (area s) (area (smallest s ss)) other
                (smallest-le_first s ss),
            smallest-le s ss,
          )
  ]

  -- the choice is one of the slots, holds the point, and none that holds it is smaller
  abbrev pub Specific : Point R → List (Slot R) → Slot R → Type 0
  Specific point slots s =
      Memᴰ s slots
      × (holds point s ≡ true)
      × All (λ t. holds point t ≡ true → S.less (area t) (area s) ≡ false) slots

  Specific-smallest :
      (point : Point R) (slots : List (Slot R)) (s : Slot R) (ss : List (Slot R))
      → filter (holds point) slots ≡ s ∷ ss
      → Specific point slots (smallest s ss)
  Specific-smallest point slots s ss h =
      let (here, inside) =
        Mem-filter (holds point) slots (smallest s ss) (rw h (smallest-Mem s ss)) in
      (
        here,
        inside,
        All-filter (λ t. S.less (area t) (area (smallest s ss)) ≡ false) (holds point) slots
            (rw h (smallest-le_first s ss, smallest-le s ss)),
      )

  -- A vehicle whose ground point lies in some slot is assigned, and to a slot that holds the point;
  -- no other slot that holds it is smaller. What its box covers plays no part.
  pub assign_detection-Specific :
      (d : Detection R) (slots : List (Slot R))
      → any (holds (ground_point d.x1 d.y1 d.x2 d.y2)) slots ≡ true
      → (s : Slot R) × (assign_detection d slots ≡ some s)
        × Specific (ground_point d.x1 d.y1 d.x2 d.y2) slots s
  assign_detection-Specific d slots h =
      let point = ground_point d.x1 d.y1 d.x2 d.y2 in
      elim (List-cases (filter (holds point) slots)) [
        | inl nil ↦ absurd (ground (arith, any-filter (holds point) slots))
        | inr (s, ss, hits) ↦ (
          smallest s ss,
          unfold assign_detection choose in ap (choose d slots) hits,
          Specific-smallest point slots s ss hits,
        )
      ]
