-- ===== src/Control/Legacy.antt =====
-- rc_car/control/legacy/waypoint_follower.py: the follower of single waypoints that an environment
-- variable brings back. `_wps`, `_cum` and `_idx` are one value, the waypoints split at the index.
-- Logs are left out.
pub mod Compute
use autonomous_rc_taxi.Prelude.{
  ℕ, suc, Bool, true, false, not, ◌&&◌, ◌||◌, Option, none, some, List, [], ◌∷◌, ◌++◌, length,
  if◌then◌else◌,
}
use autonomous_rc_taxi.Floats.{Double, ◌+◌, ◌-◌, ◌*◌, ◌/◌, lit, nought, le, lt, min, max}
use autonomous_rc_taxi.Result.{Result, ok, err, assertion_error, ◌>>=◌}
use autonomous_rc_taxi.Core.Models.{ControlCommand, stop_command}
use autonomous_rc_taxi.Mapping.Geometry.{Point, distance, heading_diff_deg, resample}
use autonomous_rc_taxi.Mapping.LaneMap.{Maneuver, straight, left, right, follow, lane_change}
use autonomous_rc_taxi.Mapping.Matcher.{SegmentKind, lane, connector}
use autonomous_rc_taxi.Navigation.Planner.{Route, RouteSegment}
use autonomous_rc_taxi.Control.Steer.{divide, limited}

pub record WaypointConfig (F : Type 0) : Type 0 where
  pub spacing : F
  pub lookahead : F
  pub corner_lookahead : F
  pub ff_lead : F
  pub full_lock_err : F
  pub align_err : F
  pub align_ratio : F
  pub cruise : F
  pub turn : F
  pub slowdown : F
  pub near_ratio : F
  pub stop_radius : F
  pub ramp_dist : F
  pub corner_slow : F
  pub exit_hold : F
  pub max_wheel : F
  pub max_speed : F
  pub wheelbase : F

pub record Waypoint (F : Type 0) : Type 0 where
  pub at : Point F
  pub speed_limit : F
  pub seg_ok : Bool
  pub ff_deg : F
  -- `_cum` at the same index
  pub cum : F

-- the waypoints before the target, the nearest first; the target; the waypoints behind it
pub record Way (F : Type 0) : Type 0 where
  pub passed : List (Waypoint F)
  pub target : Waypoint F
  pub ahead : List (Waypoint F)

pub record WaypointFollower (F : Type 0) : Type 0 where
  pub way : Option (Way F)
  pub target_allows_seg : Bool
  pub seg_ok_now : Bool
  pub near_corner : Bool
  pub origin : Option (Point F)
  pub best_remaining : F

abbrev is_lane : SegmentKind → Bool
is_lane lane = true
is_lane connector = false

abbrev is_follow : Maneuver → Bool
is_follow follow = true
is_follow straight = false
is_follow left = false
is_follow right = false
is_follow lane_change = false

abbrev is_turn : Maneuver → Bool
is_turn left = true
is_turn right = true
is_turn straight = false
is_turn follow = false
is_turn lane_change = false

module _ {F : Type 0} ⦃d : Double F⦄ where
  -- the wheel angle of the curve through three points, the right positive
  unfoldable pub bend : WaypointConfig F → Point F → Point F → Point F → F
  bend k a b c =
      let v1x = b.x - a.x in
      let v1y = b.y - a.y in
      let v2x = c.x - b.x in
      let v2y = c.y - b.y in
      let ds = (d.hypot v1x v1y + d.hypot v2x v2y) / lit 2 0 in
      let dth = d.atan2 (v1x * v2y - v1y * v2x) (v1x * v2x + v1y * v2y) in
      if lt ds (lit 1 9) then nought else d.neg (d.degrees (d.atan (k.wheelbase * dth / ds)))

  unfoldable pub bends : WaypointConfig F → Point F → Point F → List (Point F) → List F
  unfolding bend
  bends k a b [] = []
  bends k a b (c ∷ rest) = bend k a b c ∷ bends k b c rest

  abbrev sum_from : F → List F → F
  sum_from acc [] = acc
  sum_from acc (x ∷ xs) = sum_from (acc + x) xs

  abbrev first_two : List F → List F
  first_two [] = []
  first_two (x ∷ []) = x ∷ []
  first_two (x ∷ y ∷ rest) = x ∷ y ∷ []

  abbrev last_two : List F → List F
  last_two [] = []
  last_two (x ∷ []) = x ∷ []
  last_two (x ∷ y ∷ rest) = y ∷ x ∷ []

  abbrev mean : List F → F
  mean xs = sum_from nought xs / d.of_nat (length xs)

  -- each value averaged with up to two on either side; those before it come nearest first
  unfoldable pub smooth : List F → List F → List F
  smooth before [] = []
  smooth before (x ∷ rest) =
      mean (last_two before ++ (x ∷ first_two rest)) ∷ smooth (x ∷ before) rest

  abbrev last_bend : F → List F → F
  last_bend x [] = x
  last_bend x (y ∷ rest) = last_bend y rest

  -- `raw[0], raw[-1] = raw[1], raw[-2]`
  abbrev closed : List F → List F
  closed [] = []
  closed (x ∷ xs) = x ∷ ((x ∷ xs) ++ (last_bend x xs ∷ []))

  abbrev zeros : {A : Type 0} → List A → List F
  zeros [] = []
  zeros (a ∷ rest) = nought ∷ zeros rest

  unfoldable pub local_ff : WaypointConfig F → List (Point F) → List F
  unfolding bends smooth
  local_ff k [] = []
  local_ff k (a ∷ []) = nought ∷ []
  local_ff k (a ∷ b ∷ []) = nought ∷ nought ∷ []
  local_ff k (a ∷ b ∷ c ∷ rest) = smooth [] (closed (bends k a b (c ∷ rest)))

  -- a radius that is neither None nor 0
  abbrev has_radius : Option F → Bool
  has_radius none = false
  has_radius (some r) = not (d.eq r nought)

  abbrev uses_ff : RouteSegment F → Bool
  uses_ff seg = not (is_lane seg.kind) && (is_turn seg.maneuver && has_radius seg.radius_m)

  abbrev sampled : F → List (Point F) → Result (List (Point F))
  sampled spacing [] = ok []
  sampled spacing (a ∷ []) = ok (a ∷ [])
  sampled spacing (a ∷ b ∷ rest) = resample (a ∷ b ∷ rest) spacing

  -- `zip(pts, ffs)`; the distances along the route come later
  abbrev marked : F → Bool → List (Point F) → List F → List (Waypoint F)
  marked limit seg_ok [] ffs = []
  marked limit seg_ok (p ∷ pts) [] = []
  marked limit seg_ok (p ∷ pts) (ff ∷ ffs) =
      record { at = p; speed_limit = limit; seg_ok = seg_ok; ff_deg = ff; cum = nought }
      ∷ marked limit seg_ok pts ffs

  unfoldable pub segment_waypoints : WaypointConfig F → RouteSegment F → Result (List (Waypoint F))
  unfolding local_ff
  segment_waypoints k seg = do
    pts ← sampled k.spacing seg.centerline
    let ffs = if uses_ff seg then local_ff k pts else zeros pts
    ok (marked seg.speed_limit_mps (is_lane seg.kind || is_follow seg.maneuver) pts ffs)

  unfoldable pub all_waypoints :
      WaypointConfig F → List (RouteSegment F) → Result (List (Waypoint F))
  unfolding segment_waypoints
  all_waypoints k [] = ok []
  all_waypoints k (seg ∷ segs) = do
    wps ← segment_waypoints k seg
    rest ← all_waypoints k segs
    ok (wps ++ rest)

  -- those behind `w` that are not at the one kept before them
  unfoldable pub distinct : Waypoint F → List (Waypoint F) → List (Waypoint F)
  distinct w [] = []
  distinct w (v ∷ rest) =
      let skipped = distinct w rest in
      let kept = distinct v rest in if lt (distance w.at v.at) (lit 1 9) then skipped else v ∷ kept

  unfoldable pub measured : F → Point F → List (Waypoint F) → List (Waypoint F)
  measured acc p [] = []
  measured acc p (w ∷ rest) =
      let cum = acc + distance p w.at in record w { cum = cum } ∷ measured cum w.at rest

  -- a single waypoint is doubled
  abbrev pub doubled : Waypoint F → List (Waypoint F) → List (Waypoint F)
  doubled w [] = w ∷ []
  doubled w (v ∷ rest) = v ∷ rest

  abbrev pub without_way : Option (Way F) → WaypointFollower F
  without_way way = record {
    way = way;
    target_allows_seg = false;
    seg_ok_now = false;
    near_corner = false;
    origin = none;
    best_remaining = d.infinity;
  }

  abbrev pub started : List (Waypoint F) → Result (WaypointFollower F)
  started [] = err assertion_error
  started (w ∷ wps) = ok (
      without_way (
        some (record {
          passed = [];
          target = w;
          ahead = measured nought w.at (doubled w (distinct w wps));
        })))

  unfoldable pub set_route : WaypointConfig F → Route F → Result (WaypointFollower F)
  unfolding all_waypoints distinct measured
  set_route k route = all_waypoints k route.segments >>= started

  unfoldable pub clear : WaypointFollower F
  clear = without_way none
