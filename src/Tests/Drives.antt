-- ===== src/Tests/Drives.antt =====
-- Runs: the turn table, the camera's adapters and the lane follower.
use mathlib.Core.List.{Memᴰ}
use autonomous_rc_taxi.Mapping.Geometry.{Point}
use autonomous_rc_taxi.Prelude.{
  true, false, ◌≡◌, ◌↔◌, refl, none, some, List, [], ◌∷◌, length, All, ◌<◌,
}
use autonomous_rc_taxi.Floats.{lit, nought, le}
use autonomous_rc_taxi.Floats.Micro.{Micro, micro_double, Micro-IsOrdered, Micro-IsAdditive}
use autonomous_rc_taxi.Result.{ok, err}
use autonomous_rc_taxi.Core.Models.{ControlCommand}
use autonomous_rc_taxi.Mapping.LaneMap.{right, straight}
use autonomous_rc_taxi.Mapping.Matcher.{lane, connector}
use autonomous_rc_taxi.Navigation.Planner.{Route, RouteSegment}
use autonomous_rc_taxi.Navigation.LaneRoute.{Turn, LaneRoute}
use autonomous_rc_taxi.Navigation.TurnTable.{
  TurnTable, TurnEntry, TurnKey, between, TriggerSpec, no_trigger, resolve, turn_key,
}
use autonomous_rc_taxi.Navigation.TurnTable.Mirrored.{resolve_mirrored}
use autonomous_rc_taxi.Perception.Seg.{SegAdapter, SegResult, invalid}
use autonomous_rc_taxi.Perception.Marks.{Mark, MarkAdapter, triggered}
use autonomous_rc_taxi.Perception.Marks.Seen.{triggered_iff, IsNear}
use autonomous_rc_taxi.Control.Follower.{
  FollowerConfig, LaneFollower, follow, set_route, seg_allowed,
}
use autonomous_rc_taxi.Control.Corner.{Senses}
use autonomous_rc_taxi.Control.Compute.{compute_all}
use autonomous_rc_taxi.Control.Compute.Ready.{IsConfigured}
use autonomous_rc_taxi.Control.Compute.Follows.{compute_all-refines}
use autonomous_rc_taxi.Control.Compute.Machine.{Steps, Advances, TurnSpec, SegFollows}
use autonomous_rc_taxi.Control.Compute.Whole.{compute_all-total, WheelWithin}
use autonomous_rc_taxi.Tests.Samples.{metres, at}

abbrev no_entry : TurnEntry Micro
no_entry = record {
  arm_distance_m = none;
  start_offset_m = none;
  wheel_deg = none;
  exit_align_deg = none;
  min_turn_m = none;
  max_turn_m = none;
  arc_complete_m = none;
  fallback_at_lane_end = none;
  fallback_lead_m = none;
  fuse_next = none;
  trigger = none;
}

abbrev tuned : TurnEntry Micro
tuned = record no_entry { wheel_deg = some (some (metres 25)); max_turn_m = some (metres 2) }

abbrev table : TurnTable Micro
table = record {
  defaults = no_entry;
  entries = (between 11 22, some tuned) ∷ [];
  wheelbase = lit 14 2;
  max_wheel = metres 30;
}

abbrev turn_11_22 : Turn Micro
turn_11_22 = record {
  connector_id = "c";
  maneuver = right;
  from_num = some 11;
  to_num = some 22;
  to_lane_id = "vert_sb1_s";
  radius_m = some (lit 26 2);
  length_m = lit 4 1;
  entry_point = at 1 1;
  exit_point = at 2 0;
}

abbrev turn_5_28 : Turn Micro
turn_5_28 = record turn_11_22 { from_num = some 5; to_num = some 28; to_lane_id = "vert_nb2_n" }

resolve_mirrored_example :
    resolve table turn_5_28 ≡ record (resolve table turn_11_22) { key = turn_key turn_5_28 }
unfolding autonomous_rc_taxi.Navigation.TurnTable.get_entry turn_key
    autonomous_rc_taxi.Navigation.TurnTable.symmetric_key
    autonomous_rc_taxi.Navigation.Numbers.symmetric_num
resolve_mirrored_example = resolve_mirrored table turn_5_28 turn_11_22 refl refl refl refl refl

abbrev seg_adapter : SegAdapter Micro
seg_adapter = record {
  k_off = metres 40;
  k_head = lit 5 1;
  max_corr = metres 6;
  freshness_max = lit 5 1;
  latest = invalid;
  invalid_streak = 3;
}

abbrev seg_result : SegResult Micro
seg_result = record {
  valid = true;
  lateral_offset_m = some (lit 9 1);
  heading_error_deg = some (metres 4);
  timestamp = some (metres 7);
}

abbrev crosswalk : Mark Micro
crosswalk = record {
  cls = "crosswalk";
  conf = lit 7 1;
  bottom_px = metres 200;
  center_x_px = metres 480;
}

abbrev mark_adapter : MarkAdapter Micro
mark_adapter = record {
  freshness_max = lit 5 1;
  axis_override = none;
  latest = record {
    valid = true;
    marks = crosswalk ∷ [];
    height_px = metres 241;
    pixels_per_meter = metres 255;
    axis_px = metres 477;
  };
}

abbrev at_crosswalk : TriggerSpec Micro
at_crosswalk = record {
  cls = some "crosswalk";
  min_conf = lit 45 2;
  near_row_frac = lit 7 1;
  max_lateral_m = lit 3 1;
}

triggered_iff_example : (triggered mark_adapter at_crosswalk ≡ true) ↔ (
    (mark_adapter.latest.valid ≡ true)
    × (le mark_adapter.latest.height_px nought ≡ false)
    × ((m : Mark Micro) × Memᴰ m mark_adapter.latest.marks
        × IsNear mark_adapter.latest at_crosswalk "crosswalk" m))
triggered_iff_example = triggered_iff mark_adapter at_crosswalk "crosswalk" refl

abbrev pub config : FollowerConfig Micro
config = record {
  table = table;
  seg_hdg_lanes = [];
  steer_step = metres 2;
  hdg_guard_deg = metres 25;
  hdg_window = lit 15 2;
  gate_enabled = true;
  parallel_stop = lit 3 1;
  recenter = nought;
  line_follow = true;
  deadband = lit 5 2;
  course_lanes = [];
  hold_lanes = 5 ∷ [];
  straight_only = [];
  map_x = metres 20;
  map_y = metres 20;
  map_margin = nought;
  lookahead = lit 25 2;
  full_lock_err = metres 40;
  align_err = metres 30;
  align_ratio = lit 8 1;
  cruise = lit 6 1;
  turn = lit 5 1;
  slowdown = lit 5 1;
  near_ratio = lit 8 1;
  stop_radius = lit 5 2;
  ramp_dist = lit 2 1;
  exit_hold = lit 2 1;
  max_wheel = metres 30;
  max_speed = lit 2 1;
}

config-IsConfigured : IsConfigured config
config-IsConfigured = record {
  locks = refl;
  speeds = refl;
  limit_finite = refl;
  limit_pos = refl;
  same_limit = refl;
  step_number = refl;
}

abbrev lane_5 : RouteSegment Micro
lane_5 = record {
  segment_id = "mid_wb1_e";
  kind = lane;
  maneuver = straight;
  centerline = at 0 0 ∷ at 4 0 ∷ [];
  speed_limit_mps = lit 2 1;
  length_m = metres 4;
  radius_m = none;
}

abbrev through_5_6 : RouteSegment Micro
through_5_6 = record lane_5 {
  segment_id = "ab";
  kind = connector;
  centerline = at 4 0 ∷ at 6 0 ∷ [];
  length_m = metres 2;
}

abbrev lane_6 : RouteSegment Micro
lane_6 = record lane_5 {
  segment_id = "mid_wb1_w";
  centerline = at 6 0 ∷ at 9 0 ∷ [];
  length_m = metres 3;
}

abbrev across : Route Micro
across = record {
  start_lane_id = "mid_wb1_e";
  destination_lane_id = "mid_wb1_w";
  segments = lane_5 ∷ through_5_6 ∷ lane_6 ∷ [];
  total_length_m = metres 9;
}

-- without a route
abbrev pub parked : LaneFollower Micro
parked = record {
  route = none;
  phase = follow;
  leg = 0;
  pt = 1;
  spec = none;
  fired_at = none;
  fired_travel = nought;
  fired_last_t = none;
  turn_travel = nought;
  turn_path = [];
  last_pos = none;
  exit_hold_from = none;
  origin = none;
  best_remaining = metres 99;
  seg_ok_now = false;
  seg_hdg_on = false;
  last_wheel = none;
  follow_path = [];
  hdg_guard_on = false;
  straight_gate = none;
  straight_from = none;
  fuse_span = 1;
}

-- the car at the start, on the way, behind the end of lane 5, and at the goal
abbrev seen_at : Point Micro → Senses Micro
seen_at p = record { at = p; heading_deg = nought; now = metres 1; seg = none; marks = none }

abbrev way : List (Senses Micro)
way = seen_at (at 0 0) ∷ seen_at (at 2 0) ∷ seen_at (at 5 0) ∷ seen_at (at 9 0) ∷ []

-- the state behind `set_route`
abbrev installed : LaneFollower Micro
installed = elim (set_route parked across) [ ok s ↦ s | err e ↦ parked ]

set_across : set_route parked across ≡ ok installed
unfolding set_route autonomous_rc_taxi.Navigation.LaneRoute.from_route
    autonomous_rc_taxi.Navigation.LaneRoute.fold autonomous_rc_taxi.Navigation.LaneRoute.new_route
set_across = refl

compute_all-total_example :
    (cmds : List (ControlCommand Micro)) × (last : LaneFollower Micro) × (compute_all config way
        installed
      ≡ ok (cmds, last))
    × (length cmds ≡ length way)
    × All (WheelWithin config.max_wheel) cmds
compute_all-total_example =
    compute_all-total Micro-IsOrdered Micro-IsAdditive config config-IsConfigured parked across
      set_across way

compute_all-refines_example :
    (r : LaneRoute Micro) × (cmds : List (ControlCommand Micro)) × (mid : LaneFollower Micro)
    × (cmds' : List (ControlCommand Micro)) × (last : LaneFollower Micro) × (installed.route
        ≡ some r)
    × (compute_all config way installed ≡ ok (cmds, mid))
    × (compute_all config way mid ≡ ok (cmds', last))
    × Steps mid.leg mid.phase last.leg last.phase
    × Advances mid.leg mid.phase last.leg last.phase
    × (last.leg < length r.legs)
    × TurnSpec last.phase last.spec
    × SegFollows last.phase (seg_allowed last)
compute_all-refines_example =
    compute_all-refines Micro-IsOrdered Micro-IsAdditive config config-IsConfigured parked across
      set_across way way
