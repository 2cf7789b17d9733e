-- ===== src/Vision/Detectors/Decoded.antt =====
-- What vision/detectors/onnx_decode.py lets through.

use caps_dash.Prelude.{
  leb, ℕ, zero, suc, ◌≡◌, refl, Bool, true, false, Option, none, some, List, [], ◌∷◌, ◌++◌, map,
  ℕ_key, ◌==◌, String, arith, filter, length, take, ltb, All, All-append, Bool-cases, inl, inr,
}
use caps_dash.Vision.Geometry.{Scalars, LessLaws, Detection, nought}
use caps_dash.Vision.Detectors.{
  end_to_end_candidate, end_to_end_columns, classic_candidate, decode_end_to_end,
  decode_yolo_output, decode_classic, detections, Candidate, nms, nms_classes, nms_per_class,
  limited, joined, confident_vehicle, vehicle_label, is_vehicle, detection_of, unletterbox, clip,
  unique, max_candidates_before_nms, label_or_empty,
}
use caps_dash.Vision.Detectors.Suppression.{All-filter, nms_loop_lem, All-Sub}

module _ {A : Type 0} (P : A → Type 0) where
  All-filter_sub : (p : A → Bool) (xs : List A) → All P xs → All P (filter p xs)
  All-filter_sub p [] h = tt
  All-filter_sub p (x ∷ xs) (here, h) = elim (Bool-cases (p x)) [
    | inl kept ↦ rw kept (here, All-filter_sub p xs h)
    | inr dropped ↦ rw dropped (All-filter_sub p xs h)
  ]

  All-take : (n : ℕ) (xs : List A) → All P xs → All P (take n xs)
  All-take zero xs h = tt
  All-take (suc n) [] h = tt
  All-take (suc n) (x ∷ xs) (here, h) = (here, All-take n xs h)

-- A sort keeps what holds of every element.
abbrev pub Sorts : {A : Type 0} → (List A → List A) → Type 1
Sorts {A} sort = (P : A → Type 0) (xs : List A) → All P xs → All P (sort xs)

module _ {R : Type 0} ⦃S : Scalars R⦄ (by_score : List (Candidate R) → List (Candidate R))
    (truncated : R → ℕ) (sorts : Sorts by_score) (P : Candidate R → Type 0) where
  -- the suppression ends, and keeps what holds of every box
  abbrev Kept : Option (List (Candidate R)) → Type 0
  Kept result = (keep : List (Candidate R)) × (result ≡ some keep) × All P keep

  nms-Kept :
      (threshold : R) (boxes : List (Candidate R))
      → All P boxes
      → Kept (nms by_score truncated threshold boxes)
  unfolding nms
  nms-Kept threshold boxes all =
      let order = by_score boxes in
      let (keep, run, part, apart, covered) =
        nms_loop_lem threshold (suc (length order)) order (omega arith) in
      (keep, run, All-Sub P keep order part (sorts P boxes all))

  joined-Kept : (a b : Option (List (Candidate R))) → Kept a → Kept b → Kept (joined a b)
  joined-Kept a b (xs, ea, pa) (ys, eb, pb) =
      (xs ++ ys, rw ea (rw eb refl), All-append P xs ys pa pb)

  nms_classes-Kept :
      (threshold : R) (boxes : List (Candidate R)) (classes : List ℕ)
      → All P boxes
      → Kept (nms_classes by_score truncated threshold boxes classes)
  unfolding nms_classes
  nms_classes-Kept threshold boxes [] all = ([], refl, tt)
  nms_classes-Kept threshold boxes (id ∷ classes) all =
      joined-Kept (nms by_score truncated threshold (filter (λ c. c.class_id == id) boxes))
        (nms_classes by_score truncated threshold boxes classes)
        (nms-Kept threshold (filter (λ c. c.class_id == id) boxes)
          (All-filter_sub P (λ c. c.class_id == id) boxes all))
        (nms_classes-Kept threshold boxes classes all)

  nms_per_class-Kept :
      (boxes : List (Candidate R)) → All P boxes → Kept (nms_per_class by_score truncated boxes)
  unfolding nms_per_class
  nms_per_class-Kept boxes all =
      nms_classes-Kept (S.ratio 45 100) boxes (unique (map (λ c. c.class_id) boxes)) all

  limited-All :
      (boxes : List (Candidate R)) → All P boxes → All P (limited by_score truncated boxes)
  unfolding limited
  limited-All boxes all = elim (Bool-cases (ltb max_candidates_before_nms (length boxes))) [
    | inl many ↦ rw many (All-take P max_candidates_before_nms (by_score boxes) (sorts P boxes all))
    | inr few ↦ rw few all
  ]

module _ {R : Type 0} ⦃S : Scalars R⦄ (laws : LessLaws S) (orig_w orig_h confidence : R) where
  -- Between 0 and the limit.
  abbrev pub Inside : R → R → Type 0
  Inside limit a = (S.less a nought ≡ false) × (S.less limit a ≡ false)

  -- What a detection promises.
  pub record IsSound (d : Detection R) : Type 0 where
    pub confident : S.less d.confidence confidence ≡ false
    pub class_id : ℕ
    pub vehicle : vehicle_label class_id ≡ some d.label
    pub left : Inside orig_w d.x1
    pub right : Inside orig_w d.x2
    pub top : Inside orig_h d.y1
    pub bottom : Inside orig_h d.y2

  clip-Inside : (limit a : R) → S.less limit nought ≡ false → Inside limit (clip a nought limit)
  clip-Inside limit a h = ground (arith, laws.less_irreflexive limit, laws.less_irreflexive nought)

  label_of : (o : Option String) → is_vehicle o ≡ true → o ≡ some (label_or_empty o)
  label_of none h = absurd (ground arith)
  label_of (some label) h = refl

  detection-IsSound :
      (scale pad_x pad_y : R) (c : Candidate R)
      → S.less orig_w nought ≡ false
      → S.less orig_h nought ≡ false
      → confident_vehicle confidence c ≡ true
      → IsSound (detection_of (unletterbox scale pad_x pad_y orig_w orig_h c))
  unfolding detection_of unletterbox confident_vehicle
  detection-IsSound scale pad_x pad_y c wide high h = record {
    confident = ground arith;
    class_id = c.class_id;
    vehicle = label_of (vehicle_label c.class_id) (ground arith);
    left = clip-Inside orig_w (S.over (S.minus c.x1 pad_x) scale) wide;
    right = clip-Inside orig_w (S.over (S.minus c.x2 pad_x) scale) wide;
    top = clip-Inside orig_h (S.over (S.minus c.y1 pad_y) scale) high;
    bottom = clip-Inside orig_h (S.over (S.minus c.y2 pad_y) scale) high;
  }

  module _ (by_score : List (Candidate R) → List (Candidate R)) (truncated : R → ℕ)
      (sorts : Sorts by_score) (scale pad_x pad_y : R) (wide : S.less orig_w nought ≡ false)
      (high : S.less orig_h nought ≡ false) where
    detections-IsSound :
        (boxes : List (Candidate R))
        → All (λ c. confident_vehicle confidence c ≡ true) boxes
        → All IsSound
            (detections by_score truncated scale pad_x pad_y orig_w orig_h confidence boxes)
    unfolding detections
    detections-IsSound [] h = tt
    detections-IsSound (c ∷ boxes) (here, h) =
        (detection-IsSound scale pad_x pad_y c wide high here, detections-IsSound boxes h)

    decode_classic-IsSound :
        (rows : List (List R))
        → (found : List (Detection R)) × (decode_classic by_score truncated scale pad_x pad_y orig_w
              orig_h confidence rows
            ≡ some found)
          × All IsSound found
    unfolding decode_classic
    decode_classic-IsSound rows =
        let wanted = filter (confident_vehicle confidence) (map classic_candidate rows) in
        let (keep, run, all) =
          nms_per_class-Kept by_score truncated sorts (λ c. confident_vehicle confidence c ≡ true)
            (limited by_score truncated wanted)
            (limited-All by_score truncated sorts (λ c. confident_vehicle confidence c ≡ true)
              wanted (All-filter (confident_vehicle confidence) (map classic_candidate rows))) in
        (
          detections by_score truncated scale pad_x pad_y orig_w orig_h confidence keep,
          rw run refl,
          detections-IsSound keep all,
        )

    -- Either head of the model decodes, whatever its rows, to detections that are each at least as
    -- confident as asked, of a vehicle's class with its label, and inside the original frame. Asked of
    -- numpy is that sorting keeps what holds of every element, of the frame that its sides are not
    -- negative.
    pub decode_yolo_output-IsSound :
        (columns : ℕ) (rows : List (List R))
        → (found : List (Detection R)) × (decode_yolo_output by_score truncated scale pad_x pad_y
              orig_w orig_h confidence columns rows
            ≡ some found)
          × All IsSound found
    unfolding decode_yolo_output decode_end_to_end
    decode_yolo_output-IsSound columns [] = ([], refl, tt)
    decode_yolo_output-IsSound columns (row ∷ rows) = elim (Bool-cases (leb columns 4)) [
      | inl narrow ↦ ([], rw narrow refl, tt)
      | inr wider ↦ elim (Bool-cases (columns == end_to_end_columns)) [
        | inl six ↦ (
          decode_end_to_end by_score truncated scale pad_x pad_y orig_w orig_h confidence
              (row ∷ rows),
          rw wider (rw six refl),
          detections-IsSound
              (filter (confident_vehicle confidence)
                (map (end_to_end_candidate truncated) (row ∷ rows)))
              (All-filter (confident_vehicle confidence)
                (map (end_to_end_candidate truncated) (row ∷ rows))),
        )
        | inr other ↦
            let (found, run, all) = decode_classic-IsSound (row ∷ rows) in
            (found, rw wider (rw other run), all)
      ]
    ]
