-- ===== src/Vision/Detectors.antt =====
-- vision/detectors/box_utils.py and vision/detectors/onnx_decode.py: from the rows of a YOLO head to
-- detections in the original frame. numpy is a parameter: `by_score` is `argsort()[::-1]` applied,
-- `truncated` is `astype(np.int32)` on class ids. The scalars are those of the geometry, no NaN among
-- them.
pub mod Suppression
pub mod Decoded
pub mod Layout
mod Tests
use caps_dash.Prelude.{
  ℕ, zero, suc, ℕ_key, ◌==◌, String, Bool, true, false, not, ◌&&◌, ◌||◌, Option, none, some, List,
  [], ◌∷◌, ◌++◌, map, ltb, leb, if◌then◌else◌, filter, any, take, drop, length,
}
use mathlib.Core.Option
use caps_dash.Vision.Geometry.{Scalars, Detection, nought}

-- A box with its score and class: a row of the arrays `boxes`, `scores` and `class_ids`.
pub record Candidate (R : Type 0) : Type 0 where
  pub x1 : R
  pub y1 : R
  pub x2 : R
  pub y2 : R
  pub score : R
  pub class_id : ℕ

abbrev pub max_candidates_before_nms : ℕ
max_candidates_before_nms = 100

abbrev pub end_to_end_columns : ℕ
end_to_end_columns = 6

-- VEHICLE_CLASS_LABELS
unfoldable pub vehicle_label : ℕ → Option String
vehicle_label class_id =
    if class_id == 2
    then some "car"
    else if class_id == 3
    then some "motorcycle"
    else if class_id == 5
    then some "bus"
    else if class_id == 7
    then some "truck"
    else none

abbrev pub is_vehicle : Option String → Bool
is_vehicle none = false
is_vehicle (some label) = true

abbrev pub label_or_empty : Option String → String
label_or_empty none = ""
label_or_empty (some label) = label

-- `np.unique` of class ids: sorted, each once
pub insert_unique : ℕ → List ℕ → List ℕ
insert_unique a [] = a ∷ []
insert_unique a (b ∷ bs) =
    if a == b then b ∷ bs else if ltb a b then a ∷ b ∷ bs else b ∷ insert_unique a bs

unfoldable pub unique : List ℕ → List ℕ
unfolding insert_unique
unique [] = []
unique (a ∷ l) = insert_unique a (unique l)

-- Whether `_to_rows` transposes an output of this height and width.
pub transposes : ℕ → ℕ → Bool
transposes height width =
    if width == end_to_end_columns
    then false
    else if height == end_to_end_columns
    then true
    else ltb height width

-- `keep.extend`
abbrev pub joined : {A : Type 0} → Option (List A) → Option (List A) → Option (List A)
joined none later = none
joined (some a) none = none
joined (some a) (some b) = some (a ++ b)

-- how many columns the rows of `_to_rows` have
pub columns_of : ℕ → ℕ → ℕ
unfolding transposes
columns_of height width = if transposes height width then height else width

module _ {R : Type 0} ⦃S : Scalars R⦄ where
  abbrev pub maximum : R → R → R
  maximum a b = if S.less a b then b else a

  abbrev pub minimum : R → R → R
  minimum a b = if S.less b a then b else a

  -- `np.clip`
  abbrev pub clip : R → R → R → R
  clip a low high = minimum (maximum a low) high

  abbrev area : Candidate R → R
  area c = S.times (S.minus c.x2 c.x1) (S.minus c.y2 c.y1)

  unfoldable pub iou : Candidate R → Candidate R → R
  iou a b =
      let overlap_w = maximum nought (S.minus (minimum a.x2 b.x2) (maximum a.x1 b.x1)) in
      let overlap_h = maximum nought (S.minus (minimum a.y2 b.y2) (maximum a.y1 b.y1)) in
      let intersection = S.times overlap_w overlap_h in
      let union = S.minus (S.plus (area a) (area b)) intersection in
      if S.less nought union then S.over intersection union else nought

  -- the loop of `nms`, on the boxes in order of score; `none` when the fuel runs out
  pub nms_loop : R → ℕ → List (Candidate R) → Option (List (Candidate R))
  nms_loop threshold zero order = none
  nms_loop threshold (suc fuel) [] = some []
  nms_loop threshold (suc fuel) (c ∷ rest) =
      Option.map (λ keep. c ∷ keep)
        (nms_loop threshold fuel (filter (λ b. not (S.less threshold (iou c b))) rest))

  -- `unletterbox_boxes`
  pub unletterbox : R → R → R → R → R → Candidate R → Candidate R
  unletterbox scale pad_x pad_y orig_w orig_h c = record c {
    x1 = clip (S.over (S.minus c.x1 pad_x) scale) nought orig_w;
    y1 = clip (S.over (S.minus c.y1 pad_y) scale) nought orig_h;
    x2 = clip (S.over (S.minus c.x2 pad_x) scale) nought orig_w;
    y2 = clip (S.over (S.minus c.y2 pad_y) scale) nought orig_h;
  }

  pub detection_of : Candidate R → Detection R
  detection_of c = record {
    x1 = c.x1;
    y1 = c.y1;
    x2 = c.x2;
    y2 = c.y2;
    confidence = c.score;
    label = label_or_empty (vehicle_label c.class_id);
  }

  -- the mask: confident enough, and a vehicle
  pub confident_vehicle : R → Candidate R → Bool
  confident_vehicle confidence c =
      not (S.less c.score confidence) && is_vehicle (vehicle_label c.class_id)

  -- `row[index]`; every row has the columns that are read
  abbrev pub column : ℕ → List R → R
  column index [] = nought
  column zero (a ∷ row) = a
  column (suc index) (a ∷ row) = column index row

  -- `argmax` and `max` of a row: the first of the greatest scores, counted from `index`
  unfoldable pub argmax_from : ℕ → ℕ → R → List R → ℕ × R
  argmax_from index best score [] = (best, score)
  argmax_from index best score (a ∷ row) =
      let better = S.less score a in
      argmax_from (suc index) (if better then index else best) (if better then a else score) row

  -- a row `cxcywh` and class scores, as `_cxcywh_to_xyxy` converts it
  unfoldable pub classic_candidate : List R → Candidate R
  classic_candidate row =
      let half_w = S.over (column 2 row) (S.ratio 2 1) in
      let half_h = S.over (column 3 row) (S.ratio 2 1) in
      let best = argmax_from 1 0 (column 4 row) (drop 5 row) in
      record {
        x1 = S.minus (column 0 row) half_w;
        y1 = S.minus (column 1 row) half_h;
        x2 = S.plus (column 0 row) half_w;
        y2 = S.plus (column 1 row) half_h;
        score = best.1;
        class_id = best.0;
      }

  -- a row `xyxy`, score and class id
  unfoldable pub end_to_end_candidate : (R → ℕ) → List R → Candidate R
  end_to_end_candidate truncated row = record {
    x1 = column 0 row;
    y1 = column 1 row;
    x2 = column 2 row;
    y2 = column 3 row;
    score = column 4 row;
    class_id = truncated (column 5 row);
  }

  module _ (by_score : List (Candidate R) → List (Candidate R)) (truncated : R → ℕ) where
    pub nms : R → List (Candidate R) → Option (List (Candidate R))
    nms threshold boxes =
        let order = by_score boxes in nms_loop threshold (suc (length order)) order

    -- `_nms_per_class`, over the classes that occur
    pub nms_classes : R → List (Candidate R) → List ℕ → Option (List (Candidate R))
    nms_classes threshold boxes [] = some []
    nms_classes threshold boxes (class_id ∷ classes) =
        joined (nms threshold (filter (λ c. c.class_id == class_id) boxes))
          (nms_classes threshold boxes classes)

    pub nms_per_class : List (Candidate R) → Option (List (Candidate R))
    nms_per_class boxes = nms_classes (S.ratio 45 100) boxes (unique (map (λ c. c.class_id) boxes))

    -- the highest scores, where there are too many
    pub limited : List (Candidate R) → List (Candidate R)
    limited boxes =
        if ltb max_candidates_before_nms (length boxes)
        then take max_candidates_before_nms (by_score boxes)
        else boxes

    module _ (scale pad_x pad_y orig_w orig_h confidence : R) where
      -- what becomes of the candidates that are left
      pub detections : List (Candidate R) → List (Detection R)
      detections boxes =
          map (λ c. detection_of (unletterbox scale pad_x pad_y orig_w orig_h c)) boxes

      pub decode_classic : List (List R) → Option (List (Detection R))
      decode_classic predictions = Option.map detections (
          nms_per_class
            (limited (filter (confident_vehicle confidence) (map classic_candidate predictions))))

      pub decode_end_to_end : List (List R) → List (Detection R)
      decode_end_to_end predictions =
          detections (
            filter (confident_vehicle confidence)
              (map (end_to_end_candidate truncated) predictions))

      -- `decode_yolo_output` on the rows, each `width` wide
      pub decode_yolo_output : ℕ → List (List R) → Option (List (Detection R))
      decode_yolo_output width [] = some []
      decode_yolo_output width (row ∷ rows) =
          if leb width 4
          then some []
          else if width == end_to_end_columns
          then some (decode_end_to_end (row ∷ rows))
          else decode_classic (row ∷ rows)
