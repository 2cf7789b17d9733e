-- ===== src/Vision/Tests.antt =====
-- Runs of the geometry with signed fixed-point numbers for the scalars, on two overlapping slots.
use caps_dash.Prelude.{
  ℕ, ◌+◌, ◌-◌, ◌*◌, ◌/◌, ◌≡◌, refl, ◌⊎◌, String_key, Bool, true, false, none, some, List, [], ◌∷◌,
  any, All, ltb, if◌then◌else◌, arith,
}
use mathlib.Core.List.{Memᴰ}
use caps_dash.Prelude.Dict
use caps_dash.Vision.States.{unknown}
use caps_dash.Vision.Geometry.{
  edges_from, edges, crosses, cast_ray, bounds, Scalars, LessLaws, Point, Polygon, Detection, Slot,
  ground_point, point_in_polygon,
}
use caps_dash.Vision.Assignment.{holds, within, assign_detection}
use caps_dash.Vision.Assignment.Chosen.{Specific, assign_detection-Specific}
use caps_dash.Vision.Assignment.Covered.{Covering, Uncovered, assign_detection-Covering}
use caps_dash.Vision.SlotDetections.{SlotMap, worse, resolve_slot_detections}
use caps_dash.Vision.SlotDetections.Resolved.{assigned_to}
use caps_dash.Vision.SlotDetections.Best.{resolve_slot_detections-Unsurpassed}

-- a - b hundredths
abbrev Fixed : Type 0
Fixed = ℕ × ℕ

abbrev normal : ℕ → ℕ → Fixed
normal a b = (a - b, b - a)

abbrev fixed_less : Fixed → Fixed → Bool
fixed_less a b = ltb (a.0 + b.1) (b.0 + a.1)

abbrev magnitude : Fixed → ℕ
magnitude a = a.0 - a.1 + (a.1 - a.0)

abbrev signed : Bool → ℕ → Fixed
signed true n = (0, n)
signed false n = (n, 0)

abbrev fixed_over : Fixed → Fixed → Fixed
fixed_over a b =
    signed (if ltb a.0 a.1 then ltb b.1 b.0 else ltb b.0 b.1) (magnitude a * 100 / magnitude b)

instance abbrev fixed : Scalars Fixed
fixed = record {
  plus = λ a b. normal (a.0 + b.0) (a.1 + b.1);
  minus = λ a b. normal (a.0 + b.1) (a.1 + b.0);
  times = λ a b. normal ((a.0 * b.0 + a.1 * b.1) / 100) ((a.0 * b.1 + a.1 * b.0) / 100);
  over = fixed_over;
  less = fixed_less;
  ratio = λ n d. (n * 100 / d, 0);
}

fixed_laws : LessLaws fixed
fixed_laws = record {
  less_irreflexive = λ a. ground arith;
  less_trans = λ a b c h k. ground arith;
  not_less_trans = λ a b c h k. ground arith;
}

abbrev whole : ℕ → Fixed
whole n = (n * 100, 0)

abbrev at : ℕ → ℕ → Point Fixed
at x y = (whole x, whole y)

abbrev rectangle : ℕ → ℕ → ℕ → ℕ → Polygon Fixed
rectangle x1 y1 x2 y2 = record { first = at x1 y1; others = at x2 y1 ∷ at x2 y2 ∷ at x1 y2 ∷ [] }

abbrev slot_a : Slot Fixed
slot_a = record { id = "A1"; polygon = rectangle 10 10 50 60; state = unknown }

abbrev slot_b : Slot Fixed
slot_b = record { id = "B1"; polygon = rectangle 40 10 100 60; state = unknown }

abbrev two_slots : List (Slot Fixed)
two_slots = slot_b ∷ slot_a ∷ []

abbrev box : ℕ → ℕ → ℕ → ℕ → ℕ → Detection Fixed
box x1 y1 x2 y2 score = record {
  x1 = whole x1;
  y1 = whole y1;
  x2 = whole x2;
  y2 = whole y2;
  confidence = (score, 0);
  label = "car";
}

-- its ground point, (45, 50), lies in both slots
abbrev inside_both : Detection Fixed
inside_both = box 30 20 60 50 80

-- its ground point, (30, 62), lies just below the first slot
abbrev below_a : Detection Fixed
below_a = box 15 12 45 62 60

abbrev two_slot_map : SlotMap Fixed
two_slot_map = record { slots = two_slots; width = 640; height = 480; camera_id = "01" }

assign_detection-Specific_example :
    (s : Slot Fixed) × (assign_detection inside_both two_slots ≡ some s)
    × Specific fixed_laws (ground_point (whole 30) (whole 20) (whole 60) (whole 50)) two_slots s
unfolding holds within bounds point_in_polygon cast_ray crosses edges edges_from ground_point
assign_detection-Specific_example = assign_detection-Specific fixed_laws inside_both two_slots refl

assign_detection-Covering_example :
    ((s : Slot Fixed) × (assign_detection below_a two_slots ≡ some s)
      × Covering fixed_laws below_a two_slots s)
    ⊎ ((assign_detection below_a two_slots ≡ none) × Uncovered fixed_laws below_a two_slots)
unfolding holds within bounds point_in_polygon cast_ray crosses edges edges_from ground_point
assign_detection-Covering_example = assign_detection-Covering fixed_laws below_a two_slots refl refl

resolve_slot_detections-Unsurpassed_example :
    ((best : Detection Fixed) × (Dict.get "A1"
          (resolve_slot_detections (inside_both ∷ below_a ∷ []) two_slot_map)
        ≡ some best)
      × Memᴰ best (inside_both ∷ below_a ∷ [])
      × (assigned_to two_slot_map "A1" best ≡ true)
      × All
          (λ d. assigned_to two_slot_map "A1" d ≡ true → worse best d ≡ false)
          (inside_both ∷ below_a ∷ []))
    ⊎ ((Dict.get "A1" (resolve_slot_detections (inside_both ∷ below_a ∷ []) two_slot_map) ≡ none)
        × (any (assigned_to two_slot_map "A1") (inside_both ∷ below_a ∷ []) ≡ false))
resolve_slot_detections-Unsurpassed_example =
    resolve_slot_detections-Unsurpassed fixed_laws (inside_both ∷ below_a ∷ []) two_slot_map "A1"
