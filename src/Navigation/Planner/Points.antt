-- ===== src/Navigation/Planner/Points.antt =====
-- rc_car/navigation/route_planner.py: the points of a route.
use autonomous_rc_taxi.Prelude.{◌||◌, List, [], ◌∷◌, ◌++◌, if◌then◌else◌}
use autonomous_rc_taxi.Floats.{Double, ◌-◌, lit, lt}
use autonomous_rc_taxi.Result.{Result}
use autonomous_rc_taxi.Mapping.Geometry.{Point, resample}
use autonomous_rc_taxi.Navigation.Planner.{Route, RouteSegment}

module _ {F : Type 0} ⦃d : Double F⦄ where
  abbrev all_points : List (RouteSegment F) → List (Point F)
  all_points [] = []
  all_points (seg ∷ segs) = seg.centerline ++ all_points segs

  -- those behind `a` that are not at the one kept before them
  unfoldable pub apart : Point F → List (Point F) → List (Point F)
  apart a [] = []
  apart a (p ∷ rest) =
      let kept = apart p rest in
      let skipped = apart a rest in
      if lt (lit 1 9) (d.abs (p.x - a.x)) || lt (lit 1 9) (d.abs (p.y - a.y))
      then p ∷ kept
      else skipped

  abbrev joined : List (Point F) → List (Point F)
  joined [] = []
  joined (p ∷ rest) = p ∷ apart p rest

  unfoldable pub centerline : Route F → List (Point F)
  unfolding apart
  centerline r = joined (all_points r.segments)

  unfoldable pub waypoints : Route F → F → Result (List (Point F))
  unfolding centerline
  waypoints r spacing = resample (centerline r) spacing
