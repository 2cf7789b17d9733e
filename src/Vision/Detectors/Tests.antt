-- ===== src/Vision/Detectors/Tests.antt =====
-- Runs of the suppression and of the decoder, with whole numbers for the scalars.
use caps_dash.Prelude.{ℕ, ◌+◌, ◌-◌, ◌*◌, ◌/◌, ◌≡◌, refl, some, List, [], ◌∷◌, ltb, arith, All}
use caps_dash.Vision.Geometry.{Scalars, LessLaws, Detection}
use caps_dash.Vision.Detectors.{Candidate, nms_loop, decode_yolo_output}
use caps_dash.Vision.Detectors.Suppression.{Sub, Separate, Covered, nms_loop_lem}
use caps_dash.Vision.Detectors.Decoded.{IsSound, decode_yolo_output-IsSound}

instance abbrev natural : Scalars ℕ
natural = record {
  plus = λ a b. a + b;
  minus = λ a b. a - b;
  times = λ a b. a * b;
  over = λ a b. a / b;
  less = ltb;
  ratio = λ n d. n / d;
}

natural_laws : LessLaws natural
natural_laws = record {
  less_irreflexive = λ a. ground arith;
  less_trans = λ a b c h k. ground arith;
  not_less_trans = λ a b c h k. ground arith;
}

abbrev box_at : ℕ → ℕ → Candidate ℕ
box_at x score = record { x1 = x; y1 = 0; x2 = x + 10; y2 = 10; score = score; class_id = 2 }

-- two boxes in one place, and one apart
abbrev three_boxes : List (Candidate ℕ)
three_boxes = box_at 0 9 ∷ box_at 0 8 ∷ box_at 50 7 ∷ []

nms_loop_lem_example :
    (keep : List (Candidate ℕ)) × (nms_loop 0 4 three_boxes ≡ some keep)
    × Sub keep three_boxes
    × Separate 0 keep
    × All (Covered 0 keep) three_boxes
nms_loop_lem_example = nms_loop_lem 0 4 three_boxes (omega arith)

-- one row of a head without suppression of its own: a box, and a score for each of four classes
decode_yolo_output-IsSound_example :
    (found : List (Detection ℕ)) × (decode_yolo_output
        (λ boxes. boxes)
        (λ a. a)
        1
        0
        0
        640
        480
        5
        8
        ((20 ∷ 20 ∷ 10 ∷ 10 ∷ 0 ∷ 0 ∷ 9 ∷ 1 ∷ []) ∷ [])
      ≡ some found)
    × All (IsSound natural_laws 640 480 5) found
decode_yolo_output-IsSound_example =
    decode_yolo_output-IsSound natural_laws 640 480 5 (λ boxes. boxes) (λ a. a) (λ P xs h. h) 1 0 0
      refl refl 8 ((20 ∷ 20 ∷ 10 ∷ 10 ∷ 0 ∷ 0 ∷ 9 ∷ 1 ∷ []) ∷ [])
