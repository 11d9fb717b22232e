-- ===== src/Navigation/Planner.antt =====
-- rc_car/navigation/route_planner.py. `heapq` is a parameter.
pub mod Points
pub mod Connected
pub mod Order
pub mod Built
pub mod Rounds
pub mod Total
use text.Mathlib.Text.{◌==◌ as str_eq}
use autonomous_rc_taxi.Prelude.{
  ℕ, zero, suc, Bool, true, false, not, ◌&&◌, ◌||◌, String, Option, none, some, List, [], ◌∷◌,
  length, if◌then◌else◌,
}
use autonomous_rc_taxi.Floats.{Double, ◌+◌, ◌-◌, lit, nought, le, lt, min, max}
use autonomous_rc_taxi.Result.{
  Result, ok, err, key_error, route_error, out_of_fuel, ◌>>=◌, ◌>>◌, guard, from_option,
}
use autonomous_rc_taxi.Keys.{member, find, keys, put}
use autonomous_rc_taxi.Mapping.Geometry.{Point, trim}
use autonomous_rc_taxi.Mapping.LaneMap.{LaneMap, LaneSegment, Connector, Maneuver, follow}
use autonomous_rc_taxi.Mapping.Matcher.{SegmentKind, lane, connector}

-- what the search uses of `heapq` on a list of (distance, lane)
pub record HeapQueue (F H : Type 0) : Type 0 where
  pub empty : H
  pub push : F × String → H → H
  pub pop : H → Option ((F × String) × H)

pub record RouteSegment (F : Type 0) : Type 0 where
  pub segment_id : String
  pub kind : SegmentKind
  pub maneuver : Maneuver
  pub centerline : List (Point F)
  pub speed_limit_mps : F
  pub length_m : F
  pub radius_m : Option F

pub record Route (F : Type 0) : Type 0 where
  pub start_lane_id : String
  pub destination_lane_id : String
  pub segments : List (RouteSegment F)
  pub total_length_m : F

-- `prev`: the lane before, and the connector between
abbrev pub Trail : Type 0
Trail = List (String × (String × String))

pub record Search (F H : Type 0) : Type 0 where
  pub dist : List (String × F)
  pub prev : Trail
  pub heap : H

module _ {F : Type 0} where
  abbrev pub on_lane : String → LaneSegment F → List (Point F) → F → RouteSegment F
  on_lane id l pts length_m = record {
    segment_id = id;
    kind = lane;
    maneuver = follow;
    centerline = pts;
    speed_limit_mps = l.speed_limit_mps;
    length_m = length_m;
    radius_m = none;
  }

  abbrev pub on_connector : String → Connector F → RouteSegment F
  on_connector id c = record {
    segment_id = id;
    kind = connector;
    maneuver = c.maneuver;
    centerline = c.centerline;
    speed_limit_mps = c.speed_limit_mps;
    length_m = c.length_m;
    radius_m = c.radius_m;
  }

-- the walk back along `prev`; the pairs come out in driving order
unfoldable pub walk :
    Trail → String → ℕ → String → List (String × String) → Result (List (String × String))
walk prev start zero lid chain = err out_of_fuel
walk prev start (suc n) lid chain = do
  (p_lane, p_conn) ← from_option (find lid prev) key_error
  let onward = walk prev start n p_lane ((lid, p_conn) ∷ chain)
  if str_eq p_lane start then ok ((lid, p_conn) ∷ chain) else onward

-- `chain[-1]`
abbrev pub last_pair : String × String → List (String × String) → String × String
last_pair a [] = a
last_pair a (b ∷ rest) = last_pair b rest

abbrev pub same_pair : String × String → String × String → Bool
same_pair a b = str_eq a.0 b.0 && str_eq a.1 b.1

abbrev pub end_of : List (String × String) → String × String
end_of [] = ("", "")
end_of (a ∷ rest) = last_pair a rest

-- what one round of the main loop leads to
pub data Round (F H : Type 0) : Type 0 where
  found : F → Round F H
  again : List String → Search F H → Round F H

-- the body of the main loop on what a round leads to
abbrev pub proceed :
    {F H : Type 0}
    → (List String → Search F H → Result (Trail × F))
    → Search F H
    → Round F H
    → Result (Trail × F)
proceed onward s (found dd) = ok (s.prev, dd)
proceed onward s (again settled' s') = onward settled' s'

module _ {F : Type 0} ⦃d : Double F⦄ where
  abbrev pub distance_of : String → List (String × F) → F
  distance_of id dist = elim (find id dist) [ none ↦ d.infinity | some x ↦ x ]

  -- the lane of one pair, cut at `dest_s` if the pair is the last one
  unfoldable pub lane_part :
      LaneMap F → F → String × String → String × String → Result (RouteSegment F)
  lane_part m dest_s end (lid, cid) = do
    l ← from_option (find lid m.lanes) key_error
    let cut = do pts ← trim l.centerline nought dest_s; ok (on_lane lid l pts dest_s)
    if same_pair (lid, cid) end then cut else ok (on_lane lid l l.centerline l.length_m)

  unfoldable pub parts :
      LaneMap F → F → String × String → List (String × String) → Result (List (RouteSegment F))
  unfolding lane_part
  parts m dest_s end [] = ok []
  parts m dest_s end ((lid, cid) ∷ rest) = do
    c ← from_option (find cid m.connectors) key_error
    seg ← lane_part m dest_s end (lid, cid)
    more ← parts m dest_s end rest
    ok (on_connector cid c ∷ seg ∷ more)

  unfoldable pub reconstruct : LaneMap F → String → F → String → F → Trail → F → Result (Route F)
  unfolding walk parts
  reconstruct m start_id start_s dest_id dest_s prev total = do
    chain ← walk prev start_id (suc (length prev)) dest_id []
    start ← from_option (find start_id m.lanes) key_error
    pts ← trim start.centerline start_s start.length_m
    segs ← parts m dest_s (end_of chain) chain
    ok (record {
      start_lane_id = start_id;
      destination_lane_id = dest_id;
      segments = on_lane start_id start pts (start.length_m - start_s) ∷ segs;
      total_length_m = total;
    })

  -- the destination is ahead on the lane of the start
  abbrev pub ahead : String → F → String → F → Bool
  ahead start_id start_s dest_id dest_s = str_eq start_id dest_id && le (start_s - lit 1 9) dest_s

  abbrev pub stay : String → F → LaneSegment F → String → F → Result (Route F)
  stay start_id start_s start dest_id dest_s = do
    pts ← trim start.centerline start_s dest_s
    ok (record {
      start_lane_id = start_id;
      destination_lane_id = dest_id;
      segments = on_lane start_id start pts (dest_s - start_s) ∷ [];
      total_length_m = max nought (dest_s - start_s);
    })

  module _ {H : Type 0} (q : HeapQueue F H) where
    -- a lane is reached over a connector, at a distance
    abbrev pub offer : String → String → List String → F → String → Search F H → Search F H
    offer from cid settled cand nxt s =
        if not (member nxt settled) && lt cand (distance_of nxt s.dist)
        then (record {
          dist = put nxt cand s.dist;
          prev = put nxt (from, cid) s.prev;
          heap = q.push (cand, nxt) s.heap;
        })
        else s

    -- the loop over the successors of a lane that ends at the distance `base`
    unfoldable pub relax :
        LaneMap F → String → F → List String → List String → Search F H → Result (Search F H)
    relax m from base settled [] s = ok s
    relax m from base settled (cid ∷ cids) s = do
      c ← from_option (find cid m.connectors) key_error
      relax m from base settled cids (offer from cid settled (base + c.length_m) c.successor s)

    unfoldable pub settle_lane :
        LaneMap F → String → F → String → List String → Search F H → Result (Round F H)
    unfolding relax
    settle_lane m dest dd lid settled s = do
      l ← from_option (find lid m.lanes) key_error
      s' ← relax m lid (dd + l.length_m) (lid ∷ settled) l.successors s
      ok (again (lid ∷ settled) s')

    unfoldable pub judge :
        LaneMap F
        → String
        → List String
        → Search F H
        → Option ((F × String) × H)
        → Result (Round F H)
    unfolding settle_lane
    judge m dest settled s none = err route_error
    judge m dest settled s (some ((dd, lid), h)) =
        let s' : Search F H = record s { heap = h } in
        if member lid settled || lt (distance_of lid s.dist) dd
        then ok (again settled s')
        else if str_eq lid dest
        then ok (found dd)
        else settle_lane m dest dd lid settled s'

    -- `prev` and the distance of the destination lane
    unfoldable pub search : LaneMap F → String → ℕ → List String → Search F H → Result (Trail × F)
    unfolding judge
    search m dest zero settled s = err out_of_fuel
    search m dest (suc n) settled s = do
      r ← judge m dest settled s (q.pop s.heap)
      proceed (search m dest n) s r

    abbrev pub travel : ℕ → LaneMap F → String → F → LaneSegment F → String → F → Result (Route F)
    travel fuel m start_id start_s start dest_id dest_s = do
      let s0 : Search F H = record { dist = []; prev = []; heap = q.empty }
      s ← relax m start_id (start.length_m - start_s) [] start.successors s0
      (prev, dd) ← search m dest_id fuel [] s
      reconstruct m start_id start_s dest_id dest_s prev (dd + dest_s)

    unfoldable pub plan : ℕ → LaneMap F → String → F → String → F → Result (Route F)
    unfolding reconstruct
    plan fuel m start_id start_s dest_id dest_s = do
      guard (member start_id (keys m.lanes) && member dest_id (keys m.lanes)) route_error
      start ← from_option (find start_id m.lanes) key_error
      if ahead start_id start_s dest_id dest_s
          then stay start_id start_s start dest_id dest_s
          else travel fuel m start_id start_s start dest_id dest_s
