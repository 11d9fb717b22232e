-- ===== src/Navigation/LaneRoute.antt =====
-- rc_car/navigation/lane_route.py: a route folded into straight legs and turns. A tuple of points is
-- a list, whose first and last items raise IndexError when there is none.
pub mod Folded
pub mod Numbered
use Prim.Native.Nat.{◌+◌ as plus}
use autonomous_rc_taxi.Prelude.{
  ℕ, zero, suc, Bool, true, false, not, ◌||◌, String, Option, none, some, List, [], ◌∷◌, length,
  ◌==◌, if◌then◌else◌,
}
use autonomous_rc_taxi.Floats.{Double, ◌+◌, nought}
use autonomous_rc_taxi.Result.{
  Result, ok, err, lane_route_error, key_error, index_error, ◌>>=◌, ◌>>◌, guard, from_option,
}
use autonomous_rc_taxi.Keys.{find}
use autonomous_rc_taxi.Mapping.Geometry.{Point}
use autonomous_rc_taxi.Mapping.LaneMap.{LaneMap, LaneSegment, Connector, Maneuver}
use autonomous_rc_taxi.Mapping.Matcher.{SegmentKind, lane, connector}
use autonomous_rc_taxi.Navigation.Numbers.{num2id, id2num}
use autonomous_rc_taxi.Navigation.Planner.{RouteSegment, Route}

pub record LaneLeg (F : Type 0) : Type 0 where
  pub lane_id : String
  pub lane_num : Option ℕ
  pub points : List (Point F)
  pub speed_limit_mps : F
  pub length_m : F

pub record Turn (F : Type 0) : Type 0 where
  pub connector_id : String
  pub maneuver : Maneuver
  pub from_num : Option ℕ
  pub to_num : Option ℕ
  pub to_lane_id : String
  pub radius_m : Option F
  pub length_m : F
  pub entry_point : Point F
  pub exit_point : Point F

pub record LaneRoute (F : Type 0) : Type 0 where
  pub legs : List (LaneLeg F)
  pub turns : List (Turn F)
  pub total_length_m : F

-- what a part of the segments adds to the legs and the turns
abbrev pub Folds : Type 0 → Type 0
Folds F = Result (List (LaneLeg F) × List (Turn F))

module _ {F : Type 0} where
  -- `points[0]` and `points[-1]`
  abbrev pub first_point : List (Point F) → Result (Point F)
  first_point [] = err index_error
  first_point (p ∷ ps) = ok p

  pub last_point : List (Point F) → Result (Point F)
  last_point [] = err index_error
  last_point (p ∷ []) = ok p
  last_point (p ∷ q ∷ ps) = last_point (q ∷ ps)

  unfoldable pub entry : LaneLeg F → Result (Point F)
  entry l = first_point l.points

  unfoldable pub exit : LaneLeg F → Result (Point F)
  unfolding last_point
  exit l = last_point l.points

  abbrev pub is_empty : List (LaneLeg F) → Bool
  is_empty [] = true
  is_empty (l ∷ ls) = false

  -- the constructor, with the checks of `__post_init__`
  unfoldable pub new_route : List (LaneLeg F) → List (Turn F) → F → Result (LaneRoute F)
  new_route legs turns total =
      guard (not (is_empty legs)) lane_route_error
      >> guard (suc (length turns) == length legs) lane_route_error
      >> ok (record { legs = legs; turns = turns; total_length_m = total })

  -- a single point is doubled
  abbrev pub at_least_two : List (Point F) → List (Point F)
  at_least_two (p ∷ []) = p ∷ p ∷ []
  at_least_two ps = ps

  abbrev pub leg_of : RouteSegment F → List (Point F) → LaneLeg F
  leg_of seg pts = record {
    lane_id = seg.segment_id;
    lane_num = id2num seg.segment_id;
    points = at_least_two pts;
    speed_limit_mps = seg.speed_limit_mps;
    length_m = seg.length_m;
  }

  pub turn_of : LaneLeg F → RouteSegment F → LaneLeg F → Result (Turn F)
  unfolding entry exit
  turn_of before conn leg = do
    from ← exit before
    to ← entry leg
    ok (record {
      connector_id = conn.segment_id;
      maneuver = conn.maneuver;
      from_num = before.lane_num;
      to_num = leg.lane_num;
      to_lane_id = leg.lane_id;
      radius_m = conn.radius_m;
      length_m = conn.length_m;
      entry_point = from;
      exit_point = to;
    })

  abbrev pub first_leg : LaneLeg F → Folds F → Folds F
  first_leg leg rest = do (legs, turns) ← rest; ok (leg ∷ legs, turns)

  unfoldable pub next_leg : LaneLeg F → Option (RouteSegment F) → LaneLeg F → Folds F → Folds F
  unfolding turn_of
  next_leg before none leg rest = err lane_route_error
  next_leg before (some conn) leg rest = do
    turn ← turn_of before conn leg
    (legs, turns) ← rest
    ok (leg ∷ legs, turn ∷ turns)

  -- the loop of `from_route`; `pending` is only reset behind a turn
  unfoldable pub fold :
      Option (LaneLeg F) → Option (RouteSegment F) → List (RouteSegment F) → Folds F
  unfolding next_leg
  fold before pending [] = ok ([], [])
  fold before pending (seg ∷ segs) =
      let waiting = fold before (some seg) segs in
      let skipped = fold before pending segs in
      elim seg.kind [
        | connector ↦ waiting
        | lane ↦ elim seg.centerline [
          | [] ↦ skipped
          | p ∷ ps ↦
              let leg = leg_of seg (p ∷ ps) in
              elim before [
                | none ↦ first_leg leg (fold (some leg) pending segs)
                | some b ↦ next_leg b pending leg (fold (some leg) none segs)
              ]
        ]
      ]

  unfoldable pub from_route : Route F → Result (LaneRoute F)
  from_route route = do
    (legs, turns) ← fold none none route.segments
    guard (not (is_empty legs)) lane_route_error
    new_route legs turns route.total_length_m

module _ {F : Type 0} ⦃d : Double F⦄ where
  tail_from : F → List (Turn F) → List (LaneLeg F) → F
  tail_from total (t ∷ ts) (l ∷ ls) = tail_from (total + (t.length_m + l.length_m)) ts ls
  tail_from total _ _ = total

  abbrev drop_turns : ℕ → List (Turn F) → List (Turn F)
  drop_turns zero ts = ts
  drop_turns (suc n) [] = []
  drop_turns (suc n) (t ∷ ts) = drop_turns n ts

  abbrev drop_legs : ℕ → List (LaneLeg F) → List (LaneLeg F)
  drop_legs zero ls = ls
  drop_legs (suc n) [] = []
  drop_legs (suc n) (l ∷ ls) = drop_legs n ls

  -- the turns from `leg_index` on, each with the leg behind it
  unfoldable pub tail_length_m : LaneRoute F → ℕ → F
  unfolding tail_from
  tail_length_m r leg_index =
      tail_from nought (drop_turns leg_index r.turns) (drop_legs (suc leg_index) r.legs)
