-- ===== src/Control/Follower.antt =====
-- rc_car/control/lane_follower.py: what the follower is built from, its state, and the life of a
-- route. The times, the road marks and the segmentation's latest observation are arguments.
use autonomous_rc_taxi.Prelude.{
  ℕ, zero, suc, Bool, true, false, Option, none, some, is_some, List, [], ◌∷◌, ◌==◌, ◌||◌,
  if◌then◌else◌,
}
use autonomous_rc_taxi.Floats.{Double, ◌/◌, lit, nought, lt}
use autonomous_rc_taxi.Result.{Result, ok, ◌>>=◌}
use autonomous_rc_taxi.Mapping.Geometry.{Point}
use autonomous_rc_taxi.Navigation.Planner.{Route}
use autonomous_rc_taxi.Navigation.LaneRoute.{LaneRoute, from_route}
use autonomous_rc_taxi.Navigation.TurnTable.{TurnTable, ResolvedTurn}

-- FOLLOW, ARMED, TURNING
pub data Phase : Type 0 where
  follow armed turning : Phase

abbrev pub is_follow : Phase → Bool
is_follow follow = true
is_follow _ = false

abbrev pub is_armed : Phase → Bool
is_armed armed = true
is_armed _ = false

pub record FollowerConfig (F : Type 0) : Type 0 where
  pub table : TurnTable F
  pub seg_hdg_lanes : List ℕ
  pub steer_step : F
  pub hdg_guard_deg : F
  pub hdg_window : F
  pub gate_enabled : Bool
  pub parallel_stop : F
  pub recenter : F
  pub line_follow : Bool
  pub deadband : F
  pub course_lanes : List ℕ
  pub hold_lanes : List ℕ
  pub straight_only : List ℕ
  pub map_x : F
  pub map_y : F
  pub map_margin : F
  pub lookahead : F
  pub full_lock_err : F
  pub align_err : F
  pub align_ratio : F
  pub cruise : F
  pub turn : F
  pub slowdown : F
  pub near_ratio : F
  pub stop_radius : F
  pub ramp_dist : F
  pub exit_hold : F
  pub max_wheel : F
  pub max_speed : F

pub record LaneFollower (F : Type 0) : Type 0 where
  pub route : Option (LaneRoute F)
  pub phase : Phase
  pub leg : ℕ
  pub pt : ℕ
  pub spec : Option (ResolvedTurn F)
  pub fired_at : Option (Point F)
  pub fired_travel : F
  pub fired_last_t : Option F
  pub turn_travel : F
  pub turn_path : List (Point F)
  pub last_pos : Option (Point F)
  pub exit_hold_from : Option (Point F)
  pub origin : Option (Point F)
  pub best_remaining : F
  pub seg_ok_now : Bool
  pub seg_hdg_on : Bool
  pub last_wheel : Option F
  pub follow_path : List (Point F)
  pub hdg_guard_on : Bool
  pub straight_gate : Option (Point F)
  pub straight_from : Option (Point F)
  pub fuse_span : ℕ

-- `num in frozenset`; a lane without a number is in none
abbrev pub among : Option ℕ → List ℕ → Bool
among none ns = false
among (some n) [] = false
among (some n) (m ∷ ms) = n == m || among (some n) ms

module _ {F : Type 0} where
  unfoldable pub has_route : LaneFollower F → Bool
  has_route s = is_some s.route

  unfoldable pub seg_allowed : LaneFollower F → Bool
  seg_allowed s = s.seg_ok_now

module _ {F : Type 0} ⦃d : Double F⦄ where
  -- from `seg_heading` and `loop_hz`: no rate is no limit, and 0 Hz reads as 50
  unfoldable pub steer_step_of : F → F → F
  steer_step_of rate loop_hz =
      let hz = if d.eq loop_hz nought then lit 50 0 else loop_hz in
      if lt nought rate then rate / hz else nought

  -- the state that `_reset_state` writes; it keeps the route
  unfoldable pub reset_state : LaneFollower F → LaneFollower F
  reset_state s = record {
    route = s.route;
    phase = follow;
    leg = 0;
    pt = 1;
    spec = none;
    fired_at = none;
    fired_travel = nought;
    fired_last_t = none;
    turn_travel = nought;
    turn_path = [];
    last_pos = none;
    exit_hold_from = none;
    origin = none;
    best_remaining = d.infinity;
    seg_ok_now = false;
    seg_hdg_on = false;
    last_wheel = none;
    follow_path = [];
    hdg_guard_on = false;
    straight_gate = none;
    straight_from = none;
    fuse_span = 1;
  }

  unfoldable pub install_route : LaneFollower F → LaneRoute F → LaneFollower F
  unfolding reset_state
  install_route s r = reset_state (record s { route = some r })

  unfoldable pub set_route : LaneFollower F → Route F → Result (LaneFollower F)
  unfolding install_route
  set_route s r = from_route r >>= λ l. ok (install_route s l)

  unfoldable pub clear : LaneFollower F → LaneFollower F
  unfolding reset_state
  clear s = reset_state (record s { route = none })

  -- the next leg begins
  unfoldable pub advance_leg : LaneFollower F → LaneFollower F
  advance_leg s = record s {
    leg = suc s.leg;
    pt = 1;
    phase = follow;
    spec = none;
    fired_at = none;
    fired_travel = nought;
    fired_last_t = none;
    turn_travel = nought;
    turn_path = [];
    last_wheel = none;
    follow_path = [];
    hdg_guard_on = false;
    straight_gate = none;
    straight_from = none;
    fuse_span = 1;
  }

  -- `for _ in range(span)`
  unfoldable pub advance_legs : ℕ → LaneFollower F → LaneFollower F
  unfolding advance_leg
  advance_legs zero s = s
  advance_legs (suc n) s = advance_legs n (advance_leg s)
