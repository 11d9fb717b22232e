-- ===== src/Mapping/LaneMap/Validate.antt =====
-- `LaneMap._validate` and `validate_turn_radius`. Each check raises MapError at the first fault.
use autonomous_rc_taxi.Prelude.{
  Bool, true, false, not, ◌&&◌, ◌||◌, String, Option, none, some, List, [], ◌∷◌, length,
}
use autonomous_rc_taxi.Floats.{Double, ◌+◌, ◌-◌, ◌*◌, ◌/◌, lit, nought, le, lt}
use autonomous_rc_taxi.Keys.{member, find, keys, same_set}
use autonomous_rc_taxi.Result.{
  Result, ok, err, key_error, index_error, map_error, ◌>>=◌, ◌>>◌, guard, from_option,
}
use autonomous_rc_taxi.Worklist.{explore}
use autonomous_rc_taxi.Mapping.Geometry.{Point, last}
use autonomous_rc_taxi.Mapping.LaneMap.{
  Circuit, inner, outer, other, LaneSegment, Connector, Block, LaneMap, reachable_lanes, pred_of,
}

-- a loop of checks
abbrev pub each {ℓ} : {A : Type ℓ} → (A → Result (Unit {0})) → List A → Result (Unit {0})
each check [] = ok tt
each check (x ∷ xs) = check x >> each check xs

-- `centerline[0]` and `centerline[-1]`
abbrev first_of_line : {F : Type 0} → List (Point F) → Result (Point F)
first_of_line [] = err index_error
first_of_line (a ∷ rest) = ok a

abbrev last_of_line : {F : Type 0} → List (Point F) → Result (Point F)
last_of_line [] = err index_error
last_of_line (a ∷ rest) = ok (last a rest)

abbrev pub is_empty : List String → Bool
is_empty [] = true
is_empty _ = false

abbrev is_label : Circuit → Circuit → Bool
is_label inner inner = true
is_label outer outer = true
is_label other other = true
is_label _ _ = false

module _ {F : Type 0} where
  unfoldable pub check_lane_references : LaneMap F → String × LaneSegment F → Result (Unit {0})
  check_lane_references m (lid, lane) = do
    guard (not (is_empty lane.successors)) map_error
    each (λ cid. guard (member cid (keys m.connectors)) map_error) lane.successors

  unfoldable pub check_connector_references : LaneMap F → String × Connector F → Result (Unit {0})
  check_connector_references m (cid, c) = guard (member c.successor (keys m.lanes)) map_error

  check_curb_lane : LaneMap F → String → Result (Unit {0})
  check_curb_lane m lid = do
    lane ← from_option (find lid m.lanes) map_error
    guard lane.destination_allowed map_error

  check_block : LaneMap F → String × Block F → Result (Unit {0})
  unfolding check_curb_lane
  check_block m (bid, b) = each (each (check_curb_lane m)) b.adjacent_destination_lanes

  unfoldable pub validate_references : LaneMap F → Result (Unit {0})
  unfolding check_lane_references check_connector_references check_block
  validate_references m = do
    each (check_lane_references m) m.lanes
    each (check_connector_references m) m.connectors
    each (check_block m) m.blocks
    each (λ lid. guard (member lid (keys m.lanes)) map_error) m.stop_line_lanes

  abbrev has_label : Circuit → List (String × LaneSegment F) → Bool
  has_label c [] = false
  has_label c ((lid, lane) ∷ rest) = is_label c lane.circuit || has_label c rest

  unfoldable pub check_forward : LaneMap F → String → Result (Unit {0})
  check_forward m seed =
      reachable_lanes m seed >>= λ forward. guard (same_set forward (keys m.lanes)) map_error

  unfoldable pub check_backward : LaneMap F → String → Result (Unit {0})
  check_backward m seed =
      explore (pred_of m) (length m.lanes) (seed ∷ []) (seed ∷ []) >>= λ backward.
      guard (same_set backward (keys m.lanes)) map_error

  -- the seed is the first lane
  unfoldable pub check_seed : LaneMap F → List (String × LaneSegment F) → Result (Unit {0})
  check_seed m [] = err map_error
  check_seed m ((seed, lane) ∷ rest) = check_forward m seed >> check_backward m seed

  abbrev pub labelled : LaneMap F → Bool
  labelled m =
      has_label inner m.lanes && has_label outer m.lanes && not (has_label Circuit.other m.lanes)

  -- the labels are inner and outer, and the first lane reaches every lane and is reached by each
  unfoldable pub validate_circuits : LaneMap F → Result (Unit {0})
  unfolding check_seed check_forward check_backward
  validate_circuits m = guard (labelled m) map_error >> check_seed m m.lanes

module _ {F : Type 0} ⦃d : Double F⦄ where
  -- the gap between the end of one line and the start of the next is at most 0.005
  abbrev check_joint : List (Point F) → List (Point F) → Result (Unit {0})
  check_joint a b = do
    e ← last_of_line a
    s ← first_of_line b
    guard (not (lt (lit 5 3) (d.hypot (e.x - s.x) (e.y - s.y)))) map_error

  check_lane_continuity : LaneMap F → String × LaneSegment F → Result (Unit {0})
  check_lane_continuity m (lid, lane) =
      each
        (λ cid. do
          c ← from_option (find cid m.connectors) key_error
          check_joint lane.centerline c.centerline
          nxt ← from_option (find c.successor m.lanes) key_error
          check_joint c.centerline nxt.centerline)
        lane.successors

  check_heading : String × LaneSegment F → Result (Unit {0})
  check_heading (lid, lane) = do
    a ← first_of_line lane.centerline
    b ← last_of_line lane.centerline
    let dx = b.x - a.x
    let dy = b.y - a.y
    let net = d.hypot dx dy
    guard (not (le net nought)) map_error
    let h = d.radians lane.heading_hint_deg
    guard (not (lt ((dx * d.cos h + dy * d.sin h) / net) (lit 99 2))) map_error

  abbrev some_lane : List (String × LaneSegment F) → Bool
  some_lane [] = false
  some_lane _ = true

  unfoldable pub validate : LaneMap F → Result (Unit {0})
  unfolding check_lane_continuity check_heading
  validate m = do
    guard (some_lane m.lanes) map_error
    validate_references m
    each (check_lane_continuity m) m.lanes
    each check_heading m.lanes
    validate_circuits m

  abbrev check_radius : F → Option F → Result (Unit {0})
  check_radius least none = ok tt
  check_radius least (some r) = guard (not (lt r least)) map_error

  unfoldable pub validate_turn_radius : LaneMap F → F → Result (Unit {0})
  validate_turn_radius m least =
      each (λ (c : String × Connector F). check_radius least c.1.radius_m) m.connectors
