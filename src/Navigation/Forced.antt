-- ===== src/Navigation/Forced.antt =====
-- rc_car/navigation/route_planner.py: `plan_via_numbers`, which follows given lane numbers.
pub mod Connected
use text.Mathlib.Text.{◌==◌ as str_eq}
use autonomous_rc_taxi.Prelude.{
  ℕ, Bool, true, false, not, String, Option, none, some, List, [], ◌∷◌, length, ltb, if◌then◌else◌,
}
use autonomous_rc_taxi.Floats.{Double, ◌+◌, ◌-◌, nought, min, max}
use autonomous_rc_taxi.Result.{
  Result, ok, err, key_error, route_error, index_error, ◌>>=◌, ◌>>◌, guard, from_option,
}
use autonomous_rc_taxi.Keys.{find}
use autonomous_rc_taxi.Mapping.Geometry.{trim}
use autonomous_rc_taxi.Mapping.LaneMap.{LaneMap, LaneSegment, Connector}
use autonomous_rc_taxi.Navigation.Numbers.{num2id}
use autonomous_rc_taxi.Navigation.Planner.{RouteSegment, Route, on_lane, on_connector}

-- the ids of the numbers; an unknown number raises RouteError
pub lane_ids : List ℕ → Result (List String)
lane_ids [] = ok []
lane_ids (n ∷ ns) = do id ← from_option (num2id n) route_error; rest ← lane_ids ns; ok (id ∷ rest)

-- `NUM2ID[nums[-1]]`
abbrev pub last_id : String → List String → String
last_id a [] = a
last_id a (b ∷ rest) = last_id b rest

module _ {F : Type 0} where
  -- the first of the connectors that leads to the lane
  unfoldable pub joining :
      List (String × Connector F) → String → List String → Result (Option (String × Connector F))
  joining conns cur [] = ok none
  joining conns cur (cid ∷ cids) = do
    c ← from_option (find cid conns) key_error
    let later = joining conns cur cids
    if str_eq c.successor cur then ok (some (cid, c)) else later

module _ {F : Type 0} ⦃d : Double F⦄ where
  -- `min(max(0.0, s), length_m)`
  abbrev pub clamped : F → LaneSegment F → F
  clamped s l = min (max nought s) l.length_m

  -- the last lane is cut at the destination
  pub last_lane : F → String → LaneSegment F → Result (RouteSegment F × F)
  last_lane dest_s cur l = do
    pts ← trim l.centerline nought (clamped dest_s l)
    ok (on_lane cur l pts (clamped dest_s l), clamped dest_s l)

  pub lane_on : F → String → LaneSegment F → List String → Result (RouteSegment F × F)
  unfolding last_lane
  lane_on dest_s cur l [] = last_lane dest_s cur l
  lane_on dest_s cur l (_ ∷ _) = ok (on_lane cur l l.centerline l.length_m, l.length_m)

  -- the loop behind the lane `before`: the segments, and the total so far
  pub follow_ids : LaneMap F → F → F → String → List String → Result (List (RouteSegment F) × F)
  unfolding joining lane_on
  follow_ids m dest_s total before [] = ok ([], total)
  follow_ids m dest_s total before (cur ∷ rest) = do
    l0 ← from_option (find before m.lanes) key_error
    found ← joining m.connectors cur l0.successors
    (cid, c) ← from_option found route_error
    l ← from_option (find cur m.lanes) key_error
    (seg, len) ← lane_on dest_s cur l rest
    (segs, sum) ← follow_ids m dest_s (total + c.length_m + len) cur rest
    ok (on_connector cid c ∷ seg ∷ segs, sum)

  pub via_ids : LaneMap F → List String → F → F → Result (Route F)
  unfolding follow_ids
  via_ids m [] start_s dest_s = err index_error
  via_ids m (id ∷ ids) start_s dest_s = do
    first ← from_option (find id m.lanes) key_error
    let s = clamped start_s first
    pts ← trim first.centerline s first.length_m
    (segs, total) ← follow_ids m dest_s (first.length_m - s) id ids
    ok (record {
      start_lane_id = id;
      destination_lane_id = last_id id ids;
      segments = on_lane id first pts (first.length_m - s) ∷ segs;
      total_length_m = total;
    })

  unfoldable pub plan_via_numbers : LaneMap F → List ℕ → F → F → Result (Route F)
  unfolding lane_ids via_ids
  plan_via_numbers m numbers start_s dest_s = do
    guard (not (ltb (length numbers) 2)) route_error
    ids ← lane_ids numbers
    via_ids m ids start_s dest_s
