-- ===== src/Vision/Geometry.antt =====
-- vision/domain/geometry.py, detection.py and the shapes of slot_map.py, over any type of scalars:
-- the code's `float` with its arithmetic and comparison is the instance argument `Scalars`. A
-- polygon has a first vertex (`bounds` raises on none).
pub mod Crossings
use caps_dash.Prelude.{
  ◌≡◌, ℕ, zero, suc, ◌+◌, String, Bool, true, false, not, ◌&&◌, ◌||◌, List, [], ◌∷◌, ◌++◌, map,
  if◌then◌else◌, count,
}
use caps_dash.Vision.States.{SlotState}

pub record Scalars (R : Type 0) : Type 0 where
  pub plus : R → R → R
  pub minus : R → R → R
  pub times : R → R → R
  pub over : R → R → R
  -- `a < b`
  pub less : R → R → Bool
  -- the constant n / d, and so the number n for d = 1
  pub ratio : ℕ → ℕ → R

-- What the comparison of numbers (no NaN among them) promises.
pub record LessLaws {R : Type 0} (S : Scalars R) : Type 0 where
  pub less_irreflexive : (a : R) → S.less a a ≡ false
  pub less_trans : (a b c : R) → S.less a b ≡ true → S.less b c ≡ true → S.less a c ≡ true
  pub not_less_trans : (a b c : R) → S.less a b ≡ false → S.less b c ≡ false → S.less a c ≡ false

abbrev pub Point : Type 0 → Type 0
Point R = R × R

pub record Polygon (R : Type 0) : Type 0 where
  pub first : Point R
  pub others : List (Point R)

-- (min_x, min_y, max_x, max_y)
pub record Bounds (R : Type 0) : Type 0 where
  pub min_x : R
  pub min_y : R
  pub max_x : R
  pub max_y : R

pub record Detection (R : Type 0) : Type 0 where
  pub x1 : R
  pub y1 : R
  pub x2 : R
  pub y2 : R
  pub confidence : R
  pub label : String

pub record Slot (R : Type 0) : Type 0 where
  pub id : String
  pub polygon : Polygon R
  pub state : SlotState

-- The edges, the closing one last: `polygon[index]`, `polygon[(index + 1) % count]`.
unfoldable pub edges_from :
    {R : Type 0} → Point R → Point R → List (Point R) → List (Point R × Point R)
edges_from first p [] = (p, first) ∷ []
edges_from first p (q ∷ qs) = (p, q) ∷ edges_from first q qs

unfoldable pub edges : {R : Type 0} → Polygon R → List (Point R × Point R)
edges p = edges_from p.first p.first p.others

-- `range(n)`
abbrev pub range_from : ℕ → ℕ → List ℕ
range_from start zero = []
range_from start (suc n) = start ∷ range_from (suc start) n

module _ {R : Type 0} ⦃S : Scalars R⦄ where
  abbrev pub nought : R
  nought = S.ratio 0 1

  abbrev pub width : Detection R → R
  width d = S.minus d.x2 d.x1

  abbrev pub height : Detection R → R
  height d = S.minus d.y2 d.y1

  unfoldable pub ground_point : R → R → R → R → Point R
  ground_point x1 y1 x2 y2 = (S.over (S.plus x1 x2) (S.ratio 2 1), y2)

  -- the test of one edge: it straddles the line, and the crossing lies to the right
  unfoldable pub crosses : Point R → Point R × Point R → Bool
  crosses (x, y) ((x1, y1), (x2, y2)) =
      let crossing = S.plus (S.over (S.times (S.minus x2 x1) (S.minus y y1)) (S.minus y2 y1)) x1 in
      if S.less y y1
      then not (S.less y y2) && S.less x crossing
      else S.less y y2 && S.less x crossing

  -- the loop of `point_in_polygon`
  unfoldable pub cast_ray : Point R → Bool → List (Point R × Point R) → Bool
  cast_ray point inside [] = inside
  cast_ray point inside (e ∷ es) =
      cast_ray point (if crosses point e then not inside else inside) es

  unfoldable pub point_in_polygon : Point R → Polygon R → Bool
  point_in_polygon point polygon = cast_ray point false (edges polygon)

  -- the loop of `polygon_area`
  unfoldable pub shoelace : R → List (Point R × Point R) → R
  shoelace total [] = total
  shoelace total (((x1, y1), (x2, y2)) ∷ es) =
      shoelace (S.plus total (S.minus (S.times x1 y2) (S.times x2 y1))) es

  abbrev pub absolute : R → R
  absolute a = if S.less a nought then S.minus nought a else a

  unfoldable pub polygon_area : Polygon R → R
  polygon_area p = S.over (absolute (shoelace nought (edges p))) (S.ratio 2 1)

  -- (n + 0.5) / of
  abbrev cell : ℕ → ℕ → R → R
  cell n of extent = S.over (S.times extent (S.plus (S.ratio n 1) (S.ratio 1 2))) (S.ratio of 1)

  unfoldable pub grid_column : Detection R → R → ℕ → ℕ → ℕ → List (Point R)
  grid_column d band_top cols rows col =
      map
        (λ row. (
          S.plus d.x1 (cell col cols (S.minus d.x2 d.x1)),
          S.plus band_top (cell row rows (S.minus d.y2 band_top)),
        ))
        (range_from 0 rows)

  unfoldable pub grid : Detection R → R → ℕ → ℕ → List ℕ → List (Point R)
  grid d band_top cols rows [] = []
  grid d band_top cols rows (col ∷ columns) =
      grid_column d band_top cols rows col ++ grid d band_top cols rows columns

  unfoldable pub bottom_band_points : Detection R → R → ℕ → ℕ → List (Point R)
  bottom_band_points d band cols rows =
      grid d (S.minus d.y2 (S.times (S.minus d.y2 d.y1) band)) cols rows (range_from 0 cols)

  unfoldable pub scale_polygon : Polygon R → R → R → Polygon R
  scale_polygon p scale_x scale_y =
      let scale : Point R → Point R = λ q. (S.times q.0 scale_x, S.times q.1 scale_y) in
      record { first = scale p.first; others = map scale p.others }

  -- Python's `min` and `max` of several numbers
  abbrev pub least : R → List R → R
  least a [] = a
  least a (b ∷ bs) = least (if S.less b a then b else a) bs

  abbrev pub greatest : R → List R → R
  greatest a [] = a
  greatest a (b ∷ bs) = greatest (if S.less a b then b else a) bs

  -- `Slot.bounds` and `Slot.area`; that they are computed once cannot be observed
  unfoldable pub bounds : Slot R → Bounds R
  bounds slot =
      let xs = map (λ (p : Point R). p.0) slot.polygon.others in
      let ys = map (λ (p : Point R). p.1) slot.polygon.others in
      record {
        min_x = least slot.polygon.first.0 xs;
        min_y = least slot.polygon.first.1 ys;
        max_x = greatest slot.polygon.first.0 xs;
        max_y = greatest slot.polygon.first.1 ys;
      }

  unfoldable pub area : Slot R → R
  area slot = polygon_area slot.polygon
