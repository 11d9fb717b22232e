-- ===== src/Control/Legacy/Compute.antt =====
-- rc_car/control/legacy/waypoint_follower.py: `compute`. Dividing by 0 raises ZeroDivisionError, and
-- what a raise leaves behind is not modelled.
pub mod Bounds
use autonomous_rc_taxi.Prelude.{
  Bool, true, false, not, ◌&&◌, ◌||◌, Option, none, some, List, [], ◌∷◌, if◌then◌else◌,
}
use autonomous_rc_taxi.Floats.{Double, ◌+◌, ◌-◌, ◌*◌, ◌/◌, lit, nought, le, lt, min, max}
use autonomous_rc_taxi.Result.{Result, ok, ◌>>=◌}
use autonomous_rc_taxi.Core.Models.{ControlCommand, stop_command}
use autonomous_rc_taxi.Mapping.Geometry.{Point, distance, heading_diff_deg}
use autonomous_rc_taxi.Control.Steer.{divide, limited}
use autonomous_rc_taxi.Control.Legacy.{WaypointConfig, Waypoint, Way, WaypointFollower}

module _ {F : Type 0} where
  abbrev final : Waypoint F → List (Waypoint F) → Waypoint F
  final w [] = w
  final w (v ∷ rest) = final v rest

  abbrev pub is_last : Way F → Bool
  is_last w = elim w.ahead [ [] ↦ true | v ∷ rest ↦ false ]

  -- all waypoints, from the first
  abbrev pub rewound : List (Waypoint F) → List (Waypoint F) → List (Waypoint F)
  rewound [] wps = wps
  rewound (w ∷ ws) wps = rewound ws (w ∷ wps)

  abbrev pub wps_of : Way F → List (Waypoint F)
  wps_of w = rewound w.passed (w.target ∷ w.ahead)

module _ {F : Type 0} ⦃d : Double F⦄ where
  -- the target moves on, past the waypoints that are near, or behind
  unfoldable pub on_target :
      F → Point F → List (Waypoint F) → Waypoint F → List (Waypoint F) → Way F
  on_target look p passed t [] = record { passed = passed; target = t; ahead = [] }
  on_target look p passed t (n ∷ rest) =
      let onward = on_target look p (t ∷ passed) n rest in
      if lt (distance p t.at) look || lt (distance p n.at) (distance p t.at)
      then onward
      else record { passed = passed; target = t; ahead = n ∷ rest }

  unfoldable pub remaining_of : Way F → Point F → F
  remaining_of w p = (final w.target w.ahead).cum - w.target.cum + distance p w.target.at

  -- the angle at `bisect_right(self._cum, s) - 1`, or of the first waypoint
  unfoldable pub ff_from : F → Waypoint F → List (Waypoint F) → F
  ff_from s w [] = w.ff_deg
  ff_from s w (v ∷ rest) = let later = ff_from s v rest in if lt s v.cum then w.ff_deg else later

  unfoldable pub ff_at : F → List (Waypoint F) → F
  unfolding ff_from
  ff_at s [] = nought
  ff_at s (w ∷ rest) = ff_from s w rest

  unfoldable pub feed_forward : WaypointConfig F → Way F → Point F → F
  unfolding ff_at
  feed_forward k w p =
      let s_car = max nought (w.target.cum - distance p w.target.at) in
      let here = ff_at s_car (wps_of w) in
      if d.eq here nought && lt nought k.ff_lead then ff_at (s_car + k.ff_lead) (wps_of w) else here

  unfoldable pub slowdown_ratio : WaypointConfig F → F → F
  slowdown_ratio k remaining =
      let usable = max (k.slowdown - k.stop_radius) (lit 1 9) in
      let progress = max nought (min (lit 1 0) ((remaining - k.stop_radius) / usable)) in
      if le k.slowdown remaining
      then lit 1 0
      else k.near_ratio + (lit 1 0 - k.near_ratio) * progress

  unfoldable pub connector_behind : F → F → List (Waypoint F) → Bool
  connector_behind hold s [] = false
  connector_behind hold s (w ∷ rest) =
      let before = connector_behind hold s rest in
      if lt hold (s - w.cum) then false else not w.seg_ok || before

  unfoldable pub connector_within : F → F → F → List (Waypoint F) → Bool
  connector_within slow from dist [] = false
  connector_within slow from dist (w ∷ rest) =
      let later = connector_within slow from dist rest in
      if lt slow (w.cum - from + dist) then false else not w.seg_ok || later

  abbrev is_near_corner : WaypointConfig F → Way F → Point F → Bool
  is_near_corner k w p =
      let dist = distance p w.target.at in
      connector_within k.corner_slow w.target.cum dist (w.target ∷ w.ahead)
      || connector_behind k.exit_hold (w.target.cum - dist) w.passed

  unfoldable pub lane_throttle : WaypointConfig F → Waypoint F → F → Result F
  unfolding slowdown_ratio
  lane_throttle k t remaining =
      if t.seg_ok
      then (do
        part ← divide t.speed_limit k.max_speed
        ok (k.cruise * min (lit 1 0) part * slowdown_ratio k remaining))
      else ok k.turn

  abbrev origin_of : Option (Point F) → Point F → Point F
  origin_of none p = p
  origin_of (some o) p = o

  -- alignment, the ramp behind the start, and the corners
  unfoldable pub special_throttle : WaypointConfig F → Bool → F → Point F → Point F → Bool → F → F
  special_throttle k seg_ok err origin p near throttle =
      let aligned =
        if lt k.align_err (d.abs err) && seg_ok then throttle * k.align_ratio else throttle in
      let ramped = if lt (distance origin p) k.ramp_dist then min aligned k.turn else aligned in
      if near then k.turn else ramped

  -- the command outside the reach of the goal
  unfoldable pub steered :
      WaypointConfig F
      → Point F
      → F
      → F
      → Way F
      → WaypointFollower F
      → Result ((ControlCommand F × F) × WaypointFollower F)
  unfolding feed_forward lane_throttle special_throttle connector_behind connector_within
  steered k p heading remaining w s = do
    let t = w.target
    let err = heading_diff_deg (d.degrees (d.atan2 (t.at.y - p.y) (t.at.x - p.x))) heading
    part ← divide err k.full_lock_err
    let wheel =
        limited k.max_wheel
          (feed_forward k w p - k.max_wheel * max (d.neg (lit 1 0)) (min (lit 1 0) part))
    throttle ← lane_throttle k t remaining
    let near = is_near_corner k w p
    let origin = origin_of s.origin p
    ok (
      (
        record {
          throttle = special_throttle k t.seg_ok err origin p near throttle;
          steering_wheel_deg = wheel;
        },
        remaining,
      ),
      record s { origin = some origin; seg_ok_now = t.seg_ok && not near; near_corner = near },
    )

  abbrev pub halted : F → WaypointFollower F → Result ((ControlCommand F × F) × WaypointFollower F)
  halted remaining s = ok ((stop_command, remaining), record s { seg_ok_now = false })

  -- the closest that the last waypoint has been
  abbrev pub best_of : F → WaypointFollower F → F
  best_of remaining s = if lt remaining s.best_remaining then remaining else s.best_remaining

  unfoldable pub compute_on :
      WaypointConfig F
      → Point F
      → F
      → Way F
      → WaypointFollower F
      → Result ((ControlCommand F × F) × WaypointFollower F)
  unfolding remaining_of steered
  compute_on k p heading w s0 =
      let s = record s0 { way = some w; target_allows_seg = w.target.seg_ok } in
      let remaining = remaining_of w p in
      let closer = record s { best_remaining = best_of remaining s } in
      if le remaining k.stop_radius
      then halted remaining s
      else if is_last w
      then (if not (lt remaining s.best_remaining) && lt (s.best_remaining + lit 8 2) remaining
          then halted remaining s
          else steered k p heading remaining w closer)
      else steered k p heading remaining w s

  abbrev pub moved_on : WaypointConfig F → Point F → Bool → Way F → Way F
  moved_on k p near w =
      on_target (if near then k.corner_lookahead else k.lookahead) p w.passed w.target w.ahead

  unfoldable pub compute_with :
      WaypointConfig F
      → Point F
      → F
      → Option (Way F)
      → WaypointFollower F
      → Result ((ControlCommand F × F) × WaypointFollower F)
  unfolding compute_on on_target
  compute_with k p heading none s = ok ((stop_command, nought), s)
  compute_with k p heading (some w) s = compute_on k p heading (moved_on k p s.near_corner w) s

  -- the command, and the distance that remains
  unfoldable pub compute :
      WaypointConfig F
      → Point F
      → F
      → WaypointFollower F
      → Result ((ControlCommand F × F) × WaypointFollower F)
  unfolding compute_with
  compute k p heading s = compute_with k p heading s.way s
