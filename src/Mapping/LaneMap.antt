-- ===== src/Mapping/LaneMap.antt =====
-- rc_car/mapping/lane_map.py: the lane graph, its queries, and its validation. Reading the YAML file
-- (`from_dict`, `load_lane_map`) is not modelled.
pub mod Validate
pub mod Arrival
pub mod Connected
use autonomous_rc_taxi.Prelude.{
  ℕ, Bool, true, false, String, Option, none, some, List, [], ◌∷◌, ◌++◌, length, if◌then◌else◌,
}
use autonomous_rc_taxi.Keys.{member, find, keys}
use autonomous_rc_taxi.Result.{Result, ok, err, key_error, map_error, ◌>>=◌, from_option}
use autonomous_rc_taxi.Worklist.{explore}
use autonomous_rc_taxi.Mapping.Geometry.{Point}

pub data Maneuver : Type 0 where
  straight left right follow lane_change : Maneuver

pub data Circuit : Type 0 where
  inner outer other : Circuit

pub record LaneSegment (F : Type 0) : Type 0 where
  pub centerline : List (Point F)
  pub heading_hint_deg : F
  pub speed_limit_mps : F
  pub destination_allowed : Bool
  pub circuit : Circuit
  pub successors : List String
  pub length_m : F

pub record Connector (F : Type 0) : Type 0 where
  pub maneuver : Maneuver
  pub centerline : List (Point F)
  pub speed_limit_mps : F
  pub successor : String
  pub radius_m : Option F
  pub length_m : F

-- the lanes beside each curb edge of a block
pub record Block (F : Type 0) : Type 0 where
  pub polygon : List (Point F)
  pub adjacent_destination_lanes : List (List String)

pub record LaneMap (F : Type 0) : Type 0 where
  pub lanes : List (String × LaneSegment F)
  pub connectors : List (String × Connector F)
  pub blocks : List (String × Block F)
  pub stop_line_lanes : List String

module _ {F : Type 0} where
  -- `self._entry_lanes`, read at one connector: the lanes that list it
  pub entry_from : String → List (String × LaneSegment F) → List String
  entry_from cid [] = []
  entry_from cid ((lid, lane) ∷ rest) =
      let more = entry_from cid rest in if member cid lane.successors then lid ∷ more else more

  abbrev entry_of : String → List (String × LaneSegment F) → Option (Connector F) → List String
  entry_of cid lanes none = []
  entry_of cid lanes (some c) = entry_from cid lanes

  unfoldable pub entry_lanes_of : LaneMap F → String → List String
  unfolding entry_from
  entry_lanes_of m cid = entry_of cid m.lanes (find cid m.connectors)

  abbrev successors_by : Option (LaneSegment F) → Option (Connector F) → Result (List String)
  successors_by (some lane) c = ok lane.successors
  successors_by none (some c) = ok (c.successor ∷ [])
  successors_by none none = err map_error

  unfoldable pub successors_of : LaneMap F → String → Result (List String)
  unfolding find
  successors_of m id = successors_by (find id m.lanes) (find id m.connectors)

  abbrev candidates_by :
      String → List String → Option (LaneSegment F) → Option (Connector F) → List String
  candidates_by id entry (some lane) c = id ∷ []
  candidates_by id entry none (some c) = c.successor ∷ entry
  candidates_by id entry none none = []

  unfoldable pub arrival_lane_candidates : LaneMap F → String → List String
  arrival_lane_candidates m id =
      candidates_by id (entry_lanes_of m id) (find id m.lanes) (find id m.connectors)

  -- `self.connectors[cid].successor`, for each connector of a lane
  pub targets : List (String × Connector F) → List String → Result (List String)
  targets conns [] = ok []
  targets conns (cid ∷ cids) = do
    c ← from_option (find cid conns) key_error
    rest ← targets conns cids
    ok (c.successor ∷ rest)

  -- the lanes that follow a lane
  unfoldable pub next_lanes : LaneMap F → String → Result (List String)
  unfolding targets
  next_lanes m lid = do
    lane ← from_option (find lid m.lanes) key_error
    targets m.connectors lane.successors

  -- one round for each lane is enough
  unfoldable pub reachable_lanes : LaneMap F → String → Result (List String)
  reachable_lanes m from =
      if member from (keys m.lanes)
      then explore (next_lanes m) (length m.lanes) (from ∷ []) (from ∷ [])
      else err map_error

  -- `pred`, read at one lane: the lanes that one of its connectors joins to it
  pred_from : LaneMap F → String → List String → Result (List String)
  pred_from m to [] = ok []
  pred_from m to (lid ∷ lids) = do
    ts ← next_lanes m lid
    more ← pred_from m to lids
    ok (if member to ts then lid ∷ more else more)

  unfoldable pub pred_of : LaneMap F → String → Result (List String)
  unfolding pred_from
  pred_of m to = pred_from m to (keys m.lanes)
