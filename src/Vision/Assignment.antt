-- ===== src/Vision/Assignment.antt =====
-- vision/domain/assignment.py with the numbers of constants.py: the slot that one detected vehicle
-- is parked in.
pub mod Chosen
pub mod Covered
use caps_dash.Prelude.{
  ℕ, Bool, true, false, not, ◌&&◌, ◌||◌, Option, none, some, List, [], ◌∷◌, map, filter, count,
  length, if◌then◌else◌,
}
use caps_dash.Vision.Geometry.{
  Scalars, Point, Polygon, Bounds, Detection, Slot, nought, ground_point, point_in_polygon,
  bottom_band_points, least, bounds, area,
}

abbrev pub band_cols : ℕ
band_cols = 5

abbrev pub band_rows : ℕ
band_rows = 5

module _ {R : Type 0} ⦃S : Scalars R⦄ where
  abbrev pub min_band_coverage : R
  min_band_coverage = S.ratio 40 100

  abbrev pub band_fraction : R
  band_fraction = S.ratio 30 100

  -- `_within`
  unfoldable pub within : Point R → Bounds R → Bool
  within (x, y) b =
      not (S.less x b.min_x)
      && not (S.less b.max_x x)
      && not (S.less y b.min_y)
      && not (S.less b.max_y y)

  -- `_overlaps`
  unfoldable pub overlaps : Bounds R → Bounds R → Bool
  overlaps a b = not (
      S.less a.max_x b.min_x
      || S.less b.max_x a.min_x
      || S.less a.max_y b.min_y
      || S.less b.max_y a.min_y)

  -- what puts a slot among the `hits`
  unfoldable pub holds : Point R → Slot R → Bool
  holds point slot = within point (bounds slot) && point_in_polygon point slot.polygon

  -- `min(hits, key=area)`: the first of the smallest
  unfoldable pub smallest : Slot R → List (Slot R) → Slot R
  smallest best [] = best
  smallest best (s ∷ ss) = smallest (if S.less (area s) (area best) then s else best) ss

  -- the share of the sample points that lie in the slot
  unfoldable pub coverage : List (Point R) → Slot R → R
  coverage samples slot =
      S.over (S.ratio (count (λ p. point_in_polygon p slot.polygon) samples) 1)
        (S.ratio (length samples) 1)

  -- the rectangle of the samples' ordinates; there are always `band_cols * band_rows` samples
  unfoldable pub band_of : Detection R → List (Point R) → Bounds R
  band_of d [] = record { min_x = d.x1; min_y = d.y2; max_x = d.x2; max_y = d.y2 }
  band_of d (p ∷ ps) = record {
    min_x = d.x1;
    min_y = least p.1 (map (λ q. q.1) ps);
    max_x = d.x2;
    max_y = d.y2;
  }

  -- the loop over the slots, with `best` and `best_coverage`
  unfoldable pub best_covered :
      Bounds R → List (Point R) → Option (Slot R) → R → List (Slot R) → Option (Slot R) × R
  best_covered band samples best best_coverage [] = (best, best_coverage)
  best_covered band samples best best_coverage (s ∷ ss) =
      if overlaps band (bounds s) && S.less best_coverage (coverage samples s)
      then best_covered band samples (some s) (coverage samples s) ss
      else best_covered band samples best best_coverage ss

  unfoldable pub samples_of : Detection R → List (Point R)
  samples_of d = bottom_band_points d band_fraction band_cols band_rows

  unfoldable pub by_coverage : Detection R → List (Slot R) → Option (Slot R)
  by_coverage d slots =
      let samples = samples_of d in
      let result = best_covered (band_of d samples) samples none nought slots in
      if S.less result.1 min_band_coverage then none else result.0

  -- from the `hits`: the smallest of them, and by coverage where there are none
  unfoldable pub choose : Detection R → List (Slot R) → List (Slot R) → Option (Slot R)
  choose d slots [] = by_coverage d slots
  choose d slots (s ∷ ss) = some (smallest s ss)

  unfoldable pub assign_detection : Detection R → List (Slot R) → Option (Slot R)
  assign_detection d slots =
      choose d slots (filter (holds (ground_point d.x1 d.y1 d.x2 d.y2)) slots)
