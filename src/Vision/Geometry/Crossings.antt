-- ===== src/Vision/Geometry/Crossings.antt =====
-- The ray casting of `point_in_polygon` against a count of crossings.
use caps_dash.Prelude.{
  ℕ, ◌+◌, ◌%◌, ◌≡◌, refl, ap, ◌∙◌, Bool, true, false, not, List, [], ◌∷◌, ◌++◌, arith, nat_eq,
  if◌then◌else◌, count, count-append,
}
use caps_dash.Vision.Geometry.{
  Scalars, Point, Polygon, edges, edges_from, crosses, cast_ray, point_in_polygon,
}

module _ {R : Type 0} ⦃S : Scalars R⦄ where
  abbrev pub crossings : Point R → Polygon R → ℕ
  crossings point polygon = count (crosses point) (edges polygon)

  cast_ray_lem :
      (point : Point R) (inside : Bool) (es : List (Point R × Point R))
      → cast_ray point inside es
        ≡ nat_eq ((count (crosses point) es + (if inside then 1 else 0)) % 2) 1
  unfolding cast_ray
  cast_ray_lem point true [] = refl
  cast_ray_lem point false [] = refl
  cast_ray_lem point inside (e ∷ es) =
      ground (arith, cast_ray_lem point inside es, cast_ray_lem point (not inside) es)

  -- A point is inside a polygon, concave ones included, if and only if the ray from it crosses an
  -- odd number of the edges.
  pub point_in_polygon-crossings :
      (point : Point R) (polygon : Polygon R)
      → point_in_polygon point polygon ≡ nat_eq (crossings point polygon % 2) 1
  unfolding point_in_polygon
  point_in_polygon-crossings point polygon =
      ground (arith, cast_ray_lem point false (edges polygon))

  edges_from-append :
      (first p q : Point R) (ps : List (Point R))
      → edges_from first p (ps ++ q ∷ []) ≡ edges_from q p ps ++ (q, first) ∷ []
  unfolding edges_from
  edges_from-append first p q [] = refl
  edges_from-append first p q (r ∷ ps) = ap (◌∷◌ (p, r)) (edges_from-append first r q ps)

  -- the polygon drawn from its second vertex on
  abbrev pub rotate : Point R → Point R → List (Point R) → Polygon R
  rotate first second others = record { first = second; others = others ++ first ∷ [] }

  crossings-rotate :
      (point first second : Point R) (others : List (Point R))
      → crossings point (rotate first second others)
        ≡ crossings point (record { first = first; others = second ∷ others })
  unfolding edges edges_from
  crossings-rotate point first second others =
      ap (count (crosses point)) (edges_from-append second second first others)
      ∙ count-append (crosses point) (edges_from first second others) ((first, second) ∷ [])
      ∙ omega arith

  -- It does not matter at which vertex the drawing of a polygon starts.
  pub point_in_polygon-rotate :
      (point first second : Point R) (others : List (Point R))
      → point_in_polygon point (rotate first second others)
        ≡ point_in_polygon point (record { first = first; others = second ∷ others })
  point_in_polygon-rotate point first second others =
      rw
        (
          point_in_polygon-crossings point (rotate first second others),
          point_in_polygon-crossings point (record { first = first; others = second ∷ others }),
          crossings-rotate point first second others,
        )
        refl
