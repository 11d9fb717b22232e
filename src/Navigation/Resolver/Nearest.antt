-- ===== src/Navigation/Resolver/Nearest.antt =====
-- The stop that rc_car/navigation/destination_resolver.py chooses.
use mathlib.Core.List.{Memᴰ}
use mathlib.Core.List.Memᴰ
use autonomous_rc_taxi.Prelude.{false, ◌≡◌, String, List, ◌∷◌}
use autonomous_rc_taxi.Floats.{Double, lt}
use autonomous_rc_taxi.Result.{ok}
use autonomous_rc_taxi.Best.{best}
use autonomous_rc_taxi.Mapping.Geometry.{Point, Projection, project_point}
use autonomous_rc_taxi.Mapping.LaneMap.{LaneMap, LaneSegment}
use autonomous_rc_taxi.Navigation.Resolver.{Snap}

module _ {F : Type 0} ⦃d : Double F⦄ where
  -- the lane has a point
  abbrev pub Drawn : String × LaneSegment F → Type 0
  Drawn (lid, lane) = (a : Point F) × (rest : List (Point F)) × (lane.centerline ≡ a ∷ rest)

  -- the lane's foot of the point is not nearer than `best`
  abbrev pub NotNearer : Point F → F → String × LaneSegment F → Type 0
  NotNearer p best (lid, lane) =
      (q : Projection F) × (project_point lane.centerline p ≡ ok q) × (lt q.dist best ≡ false)

  abbrev key : Snap F → F
  key b = b.at.dist
