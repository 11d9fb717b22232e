-- ===== src/Tests/Legacy.antt =====
-- Runs: the follower of waypoints.
use autonomous_rc_taxi.Prelude.{true, ◌≡◌, ◌≤◌, refl, some, List, [], ◌∷◌, length, All}
use autonomous_rc_taxi.Floats.{lit, nought}
use autonomous_rc_taxi.Floats.Micro.{Micro, micro_double, Micro-IsOrdered}
use autonomous_rc_taxi.Result.{ok}
use autonomous_rc_taxi.Core.Models.{ControlCommand}
use autonomous_rc_taxi.Mapping.Geometry.{Point}
use autonomous_rc_taxi.Control.Legacy.{WaypointConfig, Waypoint, WaypointFollower, without_way}
use autonomous_rc_taxi.Control.Legacy.Compute.Bounds.{calls, calls-total, Turns, route_wps, index}
use autonomous_rc_taxi.Tests.Samples.{metres, at}

abbrev config : WaypointConfig Micro
config = record {
  spacing = lit 2 2;
  lookahead = lit 25 2;
  corner_lookahead = lit 12 2;
  ff_lead = lit 5 2;
  full_lock_err = metres 30;
  align_err = metres 40;
  align_ratio = lit 8 1;
  cruise = lit 3 1;
  turn = lit 4 1;
  slowdown = lit 5 1;
  near_ratio = lit 5 1;
  stop_radius = lit 5 2;
  ramp_dist = lit 1 1;
  corner_slow = lit 1 1;
  exit_hold = lit 1 1;
  max_wheel = metres 30;
  max_speed = metres 1;
  wheelbase = lit 14 2;
}

abbrev waypoint : Point Micro → Micro → Waypoint Micro
waypoint p cum = record {
  at = p;
  speed_limit = metres 1;
  seg_ok = true;
  ff_deg = nought;
  cum = cum;
}

abbrev straight_on : WaypointFollower Micro
straight_on = without_way (
    some (record {
      passed = [];
      target = waypoint (at 0 0) nought;
      ahead = waypoint (at 1 0) (metres 1) ∷ waypoint (at 2 0) (metres 2) ∷ [];
    }))

abbrev trip : List (Point Micro × Micro)
trip = (at 0 0, nought) ∷ (at 1 1, nought) ∷ (at 2 0, metres 90) ∷ []

calls-total_example :
    (cmds : List (ControlCommand Micro)) × (last : WaypointFollower Micro) × (calls config trip
        straight_on
      ≡ ok (cmds, last))
    × (length cmds ≡ length trip)
    × All (Turns config.max_wheel) cmds
    × (route_wps last ≡ route_wps straight_on)
    × (index straight_on ≤ index last)
calls-total_example = calls-total Micro-IsOrdered config refl refl refl trip straight_on
