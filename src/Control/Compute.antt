-- ===== src/Control/Compute.antt =====
-- rc_car/control/lane_follower.py: `_drive_leg` and `compute`. `_drive_leg` calls itself on the legs
-- that follow, behind a straight connector or a turn that ends at once: `drive_leg` takes the number
-- of calls as an argument, of which `compute` gives one for each leg.
pub mod Ready
pub mod Steered
pub mod Turned
pub mod Legs
pub mod Stages
pub mod Total
pub mod Runs
pub mod Installed
pub mod Whole
pub mod Machine
pub mod Prepared
pub mod Turning
pub mod Refined
pub mod Follows
use autonomous_rc_taxi.Prelude.{
  ℕ, zero, suc, Bool, true, false, not, ◌&&◌, ◌||◌, Option, none, some, is_some, List, [], ◌∷◌,
  length, get_elem?, ◌==◌, if◌then◌else◌,
}
use autonomous_rc_taxi.Floats.{Double, ◌+◌, ◌-◌, ◌*◌, lit, nought, le, lt, min}
use autonomous_rc_taxi.Result.{Result, ok, err, index_error, out_of_fuel, ◌>>=◌, from_option}
use autonomous_rc_taxi.Core.Models.{ControlCommand, stop_command}
use autonomous_rc_taxi.Mapping.Geometry.{Point, heading_diff_deg}
use autonomous_rc_taxi.Mapping.LaneMap.{Maneuver, straight}
use autonomous_rc_taxi.Navigation.LaneRoute.{LaneLeg, Turn, LaneRoute, tail_length_m}
use autonomous_rc_taxi.Navigation.TurnTable.{ResolvedTurn, is_turn, resolve, value_or}
use autonomous_rc_taxi.Control.Follower.{
  LaneFollower, FollowerConfig, Phase, follow, armed, turning, is_follow, is_armed, among,
  advance_leg,
}
use autonomous_rc_taxi.Control.Path.{course_deg, extended, course_window}
use autonomous_rc_taxi.Control.Aim.{
  ends_of, targets_of, aim, remaining_on_leg, parallel_stop_target, exit_ahead, slowdown_ratio,
  leg_heading,
}
use autonomous_rc_taxi.Control.Steer.{pursue_heading, pursue, rate_limit, divide}
use autonomous_rc_taxi.Control.Corner.{
  Senses, Driven, Stage, answer, drive_on, should_start_turn, begin_turn, drive_turn,
}

-- what a leg does about the turn behind it
pub data Move : Type 0 where
  keep_on start_turn cross : Move

abbrev goes_straight : Maneuver → Bool
goes_straight straight = true
goes_straight _ = false

module _ {F : Type 0} ⦃d : Double F⦄ where
  abbrev hysteresis : F
  hysteresis = lit 8 2

  abbrev stops_along : FollowerConfig F → Option (Point F × F) → Bool
  stops_along k none = false
  stops_along k (some (t, along)) = le along k.stop_radius

  -- on the last leg: within reach of the goal, or past its nearest point
  unfoldable pub final_stop :
      FollowerConfig F → Point F × Point F → Point F → F → LaneFollower F → LaneFollower F × Bool
  final_stop k e p remaining s =
      if stops_along k (parallel_stop_target k e p remaining) || le remaining k.stop_radius
      then (s, true)
      else if lt remaining s.best_remaining
      then (record s { best_remaining = remaining }, false)
      else (s, lt (s.best_remaining + hysteresis) remaining)

  -- no turn is prepared on the way to a gate
  abbrev pub arm_within : ResolvedTurn F → LaneLeg F → Option (Point F) → F
  arm_within spec leg none = min spec.arm_distance_m leg.length_m
  arm_within spec leg (some gate) = d.neg (lit 1 0)

  abbrev pub arm_if : Bool → LaneFollower F → LaneFollower F
  arm_if close s = if is_follow s.phase && close then record s { phase = armed } else s

  abbrev pub move_for : LaneFollower F × Bool → LaneFollower F × Move
  move_for (s, starts) = (s, if starts then start_turn else keep_on)

  unfoldable pub prepare :
      FollowerConfig F
      → Senses F
      → LaneLeg F
      → Point F × Point F
      → ResolvedTurn F
      → LaneFollower F
      → LaneFollower F × Move
  prepare k w leg e spec s =
      let ahead = exit_ahead e w.at in
      let s' = arm_if (le ahead (arm_within spec leg s.straight_gate)) s in
      if is_turn spec
      then if is_armed s'.phase then move_for (should_start_turn w s' spec ahead) else (s', keep_on)
      else (s, if le ahead nought then cross else keep_on)

  -- behind a straight connector, its exit is the gate
  unfoldable pub crossed : FollowerConfig F → Turn F → Point F → LaneFollower F → LaneFollower F
  crossed k turn p s =
      if k.gate_enabled && goes_straight turn.maneuver
      then record (advance_leg s) { straight_gate = some turn.exit_point; straight_from = some p }
      else advance_leg s

  abbrev pub held : FollowerConfig F → LaneLeg F → LaneFollower F → F → F
  held k leg s wheel =
      let still = not (is_some (course_deg s.follow_path k.hdg_window)) in
      if among leg.lane_num k.hold_lanes && still || among leg.lane_num k.straight_only
      then nought
      else wheel

  abbrev leg_throttle : FollowerConfig F → Bool → F → F → Point F → Point F → F → F
  leg_throttle k is_final part remaining t p heading =
      let throttle =
        k.cruise
        * min (lit 1 0) part
        * (if is_final then slowdown_ratio k remaining else lit 1 0) in
      let target = d.degrees (d.atan2 (t.y - p.y) (t.x - p.x)) in
      if lt k.align_err (d.abs (heading_diff_deg target heading))
      then throttle * k.align_ratio
      else throttle

  abbrev sends : F → F → LaneFollower F × F → Driven F
  sends throttle remaining (s, wheel) = record {
    command = some (record { throttle = throttle; steering_wheel_deg = wheel });
    remaining = remaining;
    after = s;
  }

  unfoldable pub unarmed :
      FollowerConfig F
      → Senses F
      → LaneLeg F
      → Bool
      → Point F
      → F
      → F
      → LaneFollower F
      → Result (Driven F)
  unarmed k w leg is_final t remaining wheel s = do
    part ← divide leg.speed_limit_mps k.max_speed
    let throttle = leg_throttle k is_final part remaining t w.at w.heading_deg
    let s' = record s { seg_ok_now = not (is_some s.exit_hold_from) }
    ok (sends throttle remaining (rate_limit k s' wheel))

  -- the throttle and the wheel; once the trigger has fired, the wheel is straight
  unfoldable pub steer_phase :
      Phase
      → FollowerConfig F
      → Senses F
      → LaneLeg F
      → Bool
      → Point F
      → F
      → F
      → LaneFollower F
      → Result (Driven F)
  unfolding unarmed
  steer_phase armed k w leg is_final t remaining wheel s =
      let straightened = if is_some s.fired_at then nought else wheel in
      ok (sends k.turn remaining (rate_limit k (record s { seg_ok_now = false }) straightened))
  steer_phase follow k w leg is_final t remaining wheel s =
      unarmed k w leg is_final t remaining wheel s
  steer_phase turning k w leg is_final t remaining wheel s =
      unarmed k w leg is_final t remaining wheel s

  -- the command of a leg that is driven on
  unfoldable pub steer_leg :
      FollowerConfig F
      → Senses F
      → LaneLeg F
      → Bool
      → Point F × Point F
      → Point F
      → F
      → LaneFollower F
      → Result (Driven F)
  steer_leg k w leg is_final e t remaining s = do
    let (s', h) = pursue_heading k s w.seg leg (leg_heading e) w.heading_deg
    wheel ← pursue k t w.at h
    steer_phase s'.phase k w leg is_final t remaining (held k leg s' wheel) s'

  abbrev pub move_on :
      FollowerConfig F
      → Senses F
      → LaneRoute F
      → Turn F
      → ResolvedTurn F
      → (LaneFollower F → Result (Driven F))
      → LaneFollower F × Move
      → Result (Stage F)
  move_on k w route turn spec steer (s, keep_on) = do r ← steer s; ok (answer r)
  move_on k w route turn spec steer (s, start_turn) =
      drive_turn k w route (begin_turn k route spec w.at s)
  move_on k w route turn spec steer (s, cross) = ok (drive_on (crossed k turn w.at s))

  unfoldable pub turn_or_leg :
      FollowerConfig F
      → Senses F
      → LaneRoute F
      → LaneLeg F
      → Point F × Point F
      → (LaneFollower F → Result (Driven F))
      → Option (Turn F)
      → LaneFollower F
      → Result (Stage F)
  turn_or_leg k w route leg e steer none s = do r ← steer s; ok (answer r)
  turn_or_leg k w route leg e steer (some turn) s =
      let spec = value_or (resolve k.table turn) s.spec in
      move_on k w route turn spec steer (prepare k w leg e spec (record s { spec = some spec }))

  abbrev pub unless_stopped : F → LaneFollower F → Bool → Result (Stage F) → Result (Stage F)
  unless_stopped remaining s true later =
      ok (answer (record { command = none; remaining = remaining; after = s }))
  unless_stopped remaining s false later = later

  abbrev pub stop_if_final :
      Bool
      → FollowerConfig F
      → Point F × Point F
      → Point F
      → F
      → LaneFollower F
      → LaneFollower F × Bool
  stop_if_final true k e p remaining s = final_stop k e p remaining s
  stop_if_final false k e p remaining s = (s, false)

  -- the leg, its ends, and the points that are left of it
  unfoldable pub stage_on :
      FollowerConfig F
      → Senses F
      → LaneRoute F
      → LaneFollower F
      → LaneLeg F
      → Point F × Point F
      → ℕ × (Point F × List (Point F))
      → Result (Stage F)
  unfolding turn_or_leg
  stage_on k w route s leg e (i, targets) =
      let is_final = suc s.leg == length route.legs in
      let (s1, t) = aim k (record s { pt = i }) leg is_final e targets w.at in
      let remaining = remaining_on_leg targets w.at + tail_length_m route s.leg in
      let (s2, stops) = stop_if_final is_final k e w.at remaining s1 in
      let turn = get_elem? route.turns s.leg in
      let steer = steer_leg k w leg is_final e t remaining in
      unless_stopped remaining s2 stops (turn_or_leg k w route leg e steer turn s2)

  -- one call of `_drive_leg`, up to its call of itself
  unfoldable pub leg_stage :
      FollowerConfig F → Senses F → LaneRoute F → LaneFollower F → Result (Stage F)
  leg_stage k w route s = do
    leg ← from_option (get_elem? route.legs s.leg) index_error
    e ← ends_of leg.points
    targets ← targets_of k.lookahead leg.points s.pt w.at
    stage_on k w route s leg e targets

  abbrev pub after_stage : (LaneFollower F → Result (Driven F)) → Stage F → Result (Driven F)
  after_stage onward (answer r) = ok r
  after_stage onward (drive_on s) = onward s

  unfoldable pub drive_leg :
      ℕ → FollowerConfig F → Senses F → LaneRoute F → LaneFollower F → Result (Driven F)
  drive_leg zero k w route s = err out_of_fuel
  drive_leg (suc n) k w route s =
      leg_stage k w route s >>= after_stage (λ s'. drive_leg n k w route s')

  unfoldable pub finish_turn :
      ℕ → FollowerConfig F → Senses F → LaneRoute F → LaneFollower F → Result (Driven F)
  finish_turn n k w route s =
      drive_turn k w route s >>= after_stage (λ s'. drive_leg n k w route s')

  abbrev way_from : Option (Point F) → Point F → F
  way_from none p = nought
  way_from (some q) p = d.hypot (p.x - q.x) (p.y - q.y)

  abbrev pub on_track_if : Bool → FollowerConfig F → LaneFollower F → Point F → LaneFollower F
  on_track_if true k s p = record s { follow_path = extended k.hdg_window s.follow_path p }
  on_track_if false k s p = s

  -- a car that stands still leaves no track
  abbrev pub on_track : FollowerConfig F → LaneFollower F → Point F → LaneFollower F
  on_track k s p =
      on_track_if (not (is_some s.last_pos) || lt (lit 1 6) (way_from s.last_pos p)) k s p

  abbrev in_turn : LaneFollower F → Point F → LaneFollower F
  in_turn s p = record s {
    turn_travel = s.turn_travel + way_from s.last_pos p;
    turn_path = extended course_window s.turn_path p;
  }

  abbrev pub travelled_if : Bool → FollowerConfig F → LaneFollower F → Point F → LaneFollower F
  travelled_if true k s p = in_turn s p
  travelled_if false k s p = on_track k s p

  abbrev pub travelled : FollowerConfig F → Phase → LaneFollower F → Point F → LaneFollower F
  travelled k turning s p = travelled_if (is_some s.last_pos) k s p
  travelled k follow s p = on_track k s p
  travelled k armed s p = on_track k s p

  unfoldable pub accumulate_travel : FollowerConfig F → LaneFollower F → Point F → LaneFollower F
  accumulate_travel k s p = record (travelled k s.phase s p) { last_pos = some p }

  abbrev pub hold_exit_if : Bool → F → LaneFollower F × F → LaneFollower F × F
  hold_exit_if true turn_throttle (s, throttle) = (record s { seg_ok_now = false }, turn_throttle)
  hold_exit_if false turn_throttle (s, throttle) = (record s { exit_hold_from = none }, throttle)

  -- close behind a corner the turn's throttle holds, and the segmentation is off
  unfoldable pub hold_exit :
      FollowerConfig F → Point F → Option (Point F) → LaneFollower F × F → LaneFollower F × F
  hold_exit k p none held = held
  hold_exit k p (some e) held =
      hold_exit_if (lt (d.hypot (p.x - e.x) (p.y - e.y)) k.exit_hold) k.turn held

  unfoldable pub apply_throttle_rules :
      FollowerConfig F
      → Point F
      → Point F
      → ControlCommand F
      → LaneFollower F
      → LaneFollower F × ControlCommand F
  unfolding hold_exit
  apply_throttle_rules k origin p cmd s =
      let ramp = lt (d.hypot (p.x - origin.x) (p.y - origin.y)) k.ramp_dist in
      let throttle = if ramp then min cmd.throttle k.turn else cmd.throttle in
      let (s', throttle') = hold_exit k p s.exit_hold_from (s, throttle) in
      (s', if d.eq throttle' cmd.throttle then cmd else record cmd { throttle = throttle' })

  abbrev pub finished :
      FollowerConfig F
      → Point F
      → Point F
      → F
      → LaneFollower F
      → Option (ControlCommand F)
      → (ControlCommand F × F) × LaneFollower F
  finished k origin p remaining s none =
      ((stop_command, remaining), record s { seg_ok_now = false })
  finished k origin p remaining s (some cmd) =
      let (s', c) = apply_throttle_rules k origin p cmd s in ((c, remaining), s')

  abbrev pub driven_in :
      Phase → FollowerConfig F → Senses F → LaneRoute F → LaneFollower F → Result (Driven F)
  driven_in turning k w route s = finish_turn (length route.legs) k w route s
  driven_in follow k w route s = drive_leg (length route.legs) k w route s
  driven_in armed k w route s = drive_leg (length route.legs) k w route s

  unfoldable pub compute_on :
      FollowerConfig F
      → Senses F
      → LaneRoute F
      → LaneFollower F
      → Result ((ControlCommand F × F) × LaneFollower F)
  unfolding accumulate_travel finish_turn drive_leg
  compute_on k w route s = do
    let origin = value_or w.at s.origin
    let s1 = accumulate_travel k (record s { origin = some origin }) w.at
    leg ← from_option (get_elem? route.legs s1.leg) index_error
    r ← driven_in s1.phase k w route s1
    ok (finished k origin w.at r.remaining r.after r.command)

  abbrev pub compute_with :
      FollowerConfig F
      → Senses F
      → LaneFollower F
      → Option (LaneRoute F)
      → Result ((ControlCommand F × F) × LaneFollower F)
  compute_with k w s none = ok ((stop_command, nought), s)
  compute_with k w s (some route) = compute_on k w route s

  unfoldable pub compute :
      FollowerConfig F
      → Senses F
      → LaneFollower F
      → Result ((ControlCommand F × F) × LaneFollower F)
  unfolding compute_on
  compute k w s = compute_with k w s s.route

  -- call after call
  unfoldable pub compute_all :
      FollowerConfig F
      → List (Senses F)
      → LaneFollower F
      → Result (List (ControlCommand F) × LaneFollower F)
  unfolding compute
  compute_all k [] s = ok ([], s)
  compute_all k (w ∷ ws) s = do
    ((cmd, remaining), s') ← compute k w s
    (cmds, last) ← compute_all k ws s'
    ok (cmd ∷ cmds, last)
