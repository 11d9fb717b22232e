-- ===== src/Navigation/Resolver.antt =====
-- rc_car/navigation/destination_resolver.py, without the warning on a far snap.
pub mod Nearest
use autonomous_rc_taxi.Prelude.{
  Bool, true, false, not, String, Option, none, some, List, [], ◌∷◌, if◌then◌else◌,
}
use autonomous_rc_taxi.Floats.{Double}
use autonomous_rc_taxi.Result.{Result, ok, err, type_error, assertion_error, ◌>>=◌, ◌>>◌, guard}
use autonomous_rc_taxi.Best.{best}
use autonomous_rc_taxi.Mapping.Geometry.{Point, Projection, project_point, heading_at}
use autonomous_rc_taxi.Mapping.LaneMap.{LaneMap, LaneSegment}
use autonomous_rc_taxi.Navigation.Arrival.{StopPose}

pub record DestinationResolver (F : Type 0) : Type 0 where
  pub lanes : List (String × LaneSegment F)

-- one round of the loop: a lane and the foot on it
pub record Snap (F : Type 0) : Type 0 where
  pub lane_id : String
  pub lane : LaneSegment F
  pub at : Projection F

module _ {F : Type 0} where
  abbrev pub allowed : List (String × LaneSegment F) → List (String × LaneSegment F)
  allowed [] = []
  allowed ((lid, lane) ∷ rest) =
      let more = allowed rest in if lane.destination_allowed then (lid, lane) ∷ more else more

  abbrev pub is_empty : List (String × LaneSegment F) → Bool
  is_empty [] = true
  is_empty (l ∷ ls) = false

  unfoldable pub new_resolver : LaneMap F → Result (DestinationResolver F)
  new_resolver m =
      guard (not (is_empty (allowed m.lanes))) assertion_error
      >> ok (record { lanes = allowed m.lanes })

module _ {F : Type 0} ⦃d : Double F⦄ where
  unfoldable pub snaps : Point F → List (String × LaneSegment F) → Result (List (Snap F))
  snaps p [] = ok []
  snaps p ((lid, lane) ∷ rest) = do
    q ← project_point lane.centerline p
    more ← snaps p rest
    ok (record { lane_id = lid; lane = lane; at = q } ∷ more)

  abbrev pub stop_at : Snap F → StopPose F
  stop_at b = record {
    lane_id = b.lane_id;
    x = b.at.foot.x;
    y = b.at.foot.y;
    heading_deg = heading_at b.lane.centerline b.at.s;
    progress_s = b.at.s;
    snap_distance_m = b.at.dist;
  }

  -- with no lane, `best` is None and unpacking it raises TypeError
  abbrev pub chosen : Option (Snap F) → Result (StopPose F)
  chosen none = err type_error
  chosen (some b) = ok (stop_at b)

  unfoldable pub resolve : DestinationResolver F → F → F → Result (StopPose F)
  resolve r x y = do
    found ← snaps (record { x = x; y = y }) r.lanes
    chosen (best (λ (b : Snap F). b.at.dist) none found)
