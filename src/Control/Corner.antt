-- ===== src/Control/Corner.antt =====
-- rc_car/control/lane_follower.py: when a turn begins, and what ends it.
use Prim.Native.Nat.{◌+◌ as plus, ◌-◌ as minus}
use autonomous_rc_taxi.Prelude.{
  ℕ, suc, Bool, false, not, ◌&&◌, ◌||◌, Option, none, some, is_some, [], ◌∷◌, length, get_elem?,
  leb, if◌then◌else◌,
}
use autonomous_rc_taxi.Floats.{Double, ◌+◌, ◌-◌, ◌*◌, lit, nought, le, lt}
use autonomous_rc_taxi.Result.{Result, ok, index_error, attribute_error, ◌>>=◌, from_option}
use autonomous_rc_taxi.Core.Models.{ControlCommand}
use autonomous_rc_taxi.Mapping.Geometry.{Point, heading_diff_deg}
use autonomous_rc_taxi.Navigation.LaneRoute.{LaneLeg, Turn, LaneRoute, tail_length_m}
use autonomous_rc_taxi.Navigation.TurnTable.{ResolvedTurn, TurnTable, is_turn, resolve, uses_vision}
use autonomous_rc_taxi.Perception.Seg.{SegObservation}
use autonomous_rc_taxi.Perception.Marks.{MarkAdapter, triggered}
use autonomous_rc_taxi.Control.Follower.{LaneFollower, FollowerConfig, turning, advance_legs}
use autonomous_rc_taxi.Control.Path.{turn_course_deg}
use autonomous_rc_taxi.Control.Aim.{ends_of, leg_heading}

-- what one call of `compute` is given: the pose, the time, and the latest of both adapters
pub record Senses (F : Type 0) : Type 0 where
  pub at : Point F
  pub heading_deg : F
  pub now : F
  pub seg : Option (SegObservation F)
  pub marks : Option (MarkAdapter F)

-- a driving method's answer; no command is the constant STOP_COMMAND
pub record Driven (F : Type 0) : Type 0 where
  pub command : Option (ControlCommand F)
  pub remaining : F
  pub after : LaneFollower F

-- a method ends with an answer, or in a call of `_drive_leg` on the state it left
pub data Stage (F : Type 0) : Type 0 where
  answer : Driven F → Stage F
  drive_on : LaneFollower F → Stage F

module _ {F : Type 0} ⦃d : Double F⦄ where
  abbrev offset_speed : F
  offset_speed = lit 94 3

  abbrev offset_gap_max : F
  offset_gap_max = lit 15 2

  -- the trigger fires once
  abbrev pub fire : LaneFollower F → MarkAdapter F → ResolvedTurn F → Point F → F → LaneFollower F
  fire s marks spec p now =
      if not (is_some s.fired_at) && triggered marks spec.trigger
      then record s { fired_at = some p; fired_travel = nought; fired_last_t = some now }
      else s

  -- a long gap between two calls does not count
  abbrev travel_since : F → Option F → F → F
  travel_since travel none now = travel
  travel_since travel (some t) now =
      let dt = now - t in
      if lt nought dt && le dt offset_gap_max then travel + dt * offset_speed else travel

  abbrev counted : LaneFollower F → F → LaneFollower F
  counted s now = record s {
    fired_travel = travel_since s.fired_travel s.fired_last_t now;
    fired_last_t = some now;
  }

  abbrev at_lane_end : ResolvedTurn F → F → Bool
  at_lane_end spec ahead = spec.fallback_at_lane_end && le ahead spec.fallback_lead_m

  unfoldable pub by_vision :
      LaneFollower F → Option (Point F) → ResolvedTurn F → F → F → LaneFollower F × Bool
  by_vision s none spec ahead now = (s, at_lane_end spec ahead)
  by_vision s (some f) spec ahead now =
      (counted s now, le spec.start_offset_m (counted s now).fired_travel)

  unfoldable pub start_with :
      Option (MarkAdapter F)
      → LaneFollower F
      → ResolvedTurn F
      → F
      → Point F
      → F
      → LaneFollower F × Bool
  unfolding by_vision
  start_with none s spec ahead p now = (s, at_lane_end spec ahead)
  start_with (some marks) s spec ahead p now =
      let s' = fire s marks spec p now in
      if uses_vision spec.trigger
      then by_vision s' s'.fired_at spec ahead now
      else (s, at_lane_end spec ahead)

  unfoldable pub should_start_turn :
      Senses F → LaneFollower F → ResolvedTurn F → F → LaneFollower F × Bool
  unfolding start_with
  should_start_turn w s spec ahead = start_with w.marks s spec ahead w.at w.now

  abbrev pub span_over : TurnTable F → Option (Turn F) → ℕ
  span_over table none = 1
  span_over table (some t) = if is_turn (resolve table t) then 2 else 1

  -- the next turn is fused with this one, unless it is straight or there is none
  unfoldable pub fused_span : TurnTable F → LaneRoute F → ℕ → ResolvedTurn F → ℕ
  fused_span table route leg spec =
      let next = suc leg in
      if not spec.fuse_next || leb (length route.legs) (suc next)
      then 1
      else span_over table (get_elem? route.turns next)

  unfoldable pub begin_turn :
      FollowerConfig F → LaneRoute F → ResolvedTurn F → Point F → LaneFollower F → LaneFollower F
  unfolding fused_span
  begin_turn k route spec p s = record s {
    phase = turning;
    turn_travel = nought;
    turn_path = p ∷ [];
    follow_path = [];
    hdg_guard_on = false;
    fuse_span = fused_span k.table route s.leg spec;
  }

  unfoldable pub out_of_map : FollowerConfig F → Point F → Bool
  out_of_map k p =
      lt nought k.map_margin
      && (lt p.x k.map_margin
          || lt p.y k.map_margin
          || lt (k.map_x - k.map_margin) p.x
          || lt (k.map_y - k.map_margin) p.y)

  abbrev aligned_with : F → F → Option F → Bool
  aligned_with limit want none = false
  aligned_with limit want (some course) = le (d.abs (heading_diff_deg want course)) limit

  abbrev reached : F → Option F → Bool
  reached travel none = false
  reached travel (some arc) = le arc travel

  -- aligned by either heading after the shortest way, or the arc or the longest way is driven
  unfoldable pub turn_ends : ResolvedTurn F → LaneFollower F → F → F → Bool
  turn_ends spec s want heading =
      le spec.min_turn_m s.turn_travel
        && (le (d.abs (heading_diff_deg want heading)) spec.exit_align_deg
            || aligned_with spec.exit_align_deg want (turn_course_deg s.turn_path))
      || reached s.turn_travel spec.arc_complete_m
      || le spec.max_turn_m s.turn_travel

  unfoldable pub turned :
      FollowerConfig F → Senses F → ResolvedTurn F → F → F → LaneFollower F → Stage F
  unfolding out_of_map turn_ends
  turned k w spec want remaining s =
      if out_of_map k w.at || turn_ends spec s want w.heading_deg
      then drive_on (advance_legs s.fuse_span (record s { exit_hold_from = some w.at }))
      else answer (record {
        command = some (record { throttle = k.turn; steering_wheel_deg = spec.wheel_deg });
        remaining = remaining;
        after = record s { seg_ok_now = false; seg_hdg_on = false };
      })

  -- with the leg that the turn ends on, its ends, and the last turn that is driven
  abbrev pub turn_onto :
      FollowerConfig F
      → Senses F
      → LaneRoute F
      → LaneFollower F
      → ResolvedTurn F
      → LaneLeg F
      → Turn F
      → Point F × Point F
      → Stage F
  turn_onto k w route s spec next_leg last_turn e =
      let exit = last_turn.exit_point in
      let way = d.hypot (exit.x - w.at.x) (exit.y - w.at.y) in
      let remaining = way + next_leg.length_m + tail_length_m route (plus s.leg s.fuse_span) in
      turned k w spec (leg_heading e) remaining s

  unfoldable pub drive_turn :
      FollowerConfig F → Senses F → LaneRoute F → LaneFollower F → Result (Stage F)
  drive_turn k w route s = do
    spec ← from_option s.spec attribute_error
    let last = plus s.leg s.fuse_span
    next_leg ← from_option (get_elem? route.legs last) index_error
    last_turn ← from_option (get_elem? route.turns (minus last 1)) index_error
    e ← ends_of next_leg.points
    ok (turn_onto k w route s spec next_leg last_turn e)
