-- ===== src/Tests/Positions.antt =====
-- Runs: commands, poses, arrivals and ticks.
use autonomous_rc_taxi.Prelude.{
  true, false, ◌≡◌, ◌↔◌, refl, String, Option, none, some, List, [], ◌∷◌, if◌then◌else◌,
}
use autonomous_rc_taxi.Floats.{lit, nought}
use autonomous_rc_taxi.Floats.Micro.{Micro, micro_double}
use autonomous_rc_taxi.Result.{ok}
use autonomous_rc_taxi.Core.Models.{stop_command}
use autonomous_rc_taxi.Safety.Watchdog.{Watched, any_stalled, tick, tick_lem}
use autonomous_rc_taxi.Network.Messages.{
  Json, Fields, num, str, bool, obj, end, field, move, parse_command,
}
use autonomous_rc_taxi.Network.Messages.Protocol.{IsCommand, Locates, parse_command_move}
use autonomous_rc_taxi.Localization.Validator.{PoseValidator}
use autonomous_rc_taxi.Navigation.Arrival.{
  ArrivalChecker, StopPose, Reading, start_mission, update as arrival_update,
}
use autonomous_rc_taxi.Navigation.Arrival.Gate.{IsDecided, arrived-IsDecided}
use autonomous_rc_taxi.Behavior.Driving.{Follower, Setup, Drive}
use autonomous_rc_taxi.Behavior.Driving.Tick.{tick as drive_tick}
use autonomous_rc_taxi.Behavior.Driving.Consistent.{IsSound, tick-IsSound}
use autonomous_rc_taxi.Tests.Samples.{
  metres, limits, plant, here, driving_snapshot, vehicle, loop, lane_a,
}
use autonomous_rc_taxi.Tests.Vehicles.{driving-IsConsistent}
use autonomous_rc_taxi.Tests.Maps.{matching}
use autonomous_rc_taxi.Tests.Plans.{queue}

abbrev call : Fields Micro
call = field "protocol_version" (str "2.3") (
    field "header" (str "command") (
      field "command" (str "move")
        (field "loc" (obj (field "x" (num (metres 3)) (field "y" (num (metres 1)) end))) end)))

abbrev pub read_call : String → Option (Json Micro)
read_call raw = some (obj call)

parse_command_move_example :
    (parse_command read_call (metres 5) (metres 3) "{}" ≡ some (move (metres 3) (metres 1))) ↔ (
      (msg : Fields Micro) × (read_call "{}" ≡ some (obj msg))
      × IsCommand (metres 5) (metres 3) "move" msg
      × Locates (metres 5) (metres 3) msg (metres 3) (metres 1))
parse_command_move_example =
    parse_command_move (metres 5) (metres 3) read_call "{}" (metres 3) (metres 1)

abbrev slow_worker : Watched Micro
slow_worker = record { last_tick_monotonic = metres 1; interval_sec = lit 2 2 }

tick_lem_example : tick (metres 9) (slow_worker ∷ []) (plant driving_snapshot) ≡ (
    let p = plant driving_snapshot in
    if any_stalled (metres 9) (slow_worker ∷ [])
    then record p {
      latched = true;
      motor = record p.motor { throttle = nought; stopped = true };
      steering = record p.steering { servo_deg = p.steering.center };
      store = record p.store { control_command = stop_command };
    }
    else p)
tick_lem_example = tick_lem (metres 9) (slow_worker ∷ []) (plant driving_snapshot)

abbrev validator : PoseValidator Micro
validator = record {
  marker_id = metres 6;
  yaw_offset = nought;
  max_jump_m = lit 8 2;
  max_heading_jump_deg = metres 15;
  nominal_dt = lit 1 1;
  map_x = metres 5;
  map_y = metres 3;
  cube = none;
  frame = record {
    a00 = metres 1;
    a01 = nought;
    a10 = nought;
    a11 = metres 1;
    t0 = nought;
    t1 = nought;
  };
  prev = some here;
  prev_face = none;
}

abbrev seen : Fields Micro
seen = field "marker_id" (num (metres 6)) (
    field "timestamp" (num (lit 51 1)) (
      field "found" (bool true) (
        field "position" (obj (field "x" (num (lit 101 2)) (field "y" (num nought) end)))
          (field "heading" (num (metres 2)) end))))

abbrev read_seen : String → Option (Json Micro)
read_seen raw = some (obj seen)

abbrev goal : StopPose Micro
goal = record {
  lane_id = "mid_wb1_e";
  x = metres 1;
  y = nought;
  heading_deg = nought;
  progress_s = metres 1;
  snap_distance_m = nought;
}

abbrev pub checker : ArrivalChecker Micro
checker = record {
  radius = lit 1 1;
  max_speed = lit 5 2;
  settle_sec = metres 1;
  max_heading_err = metres 30;
  stop = none;
  held_since = none;
  arrived = false;
}

-- at the stop, and still estimated to be moving
abbrev arriving : Micro → Reading Micro
arriving now = record {
  x = metres 1;
  y = nought;
  heading_deg = nought;
  estimated_speed_mps = lit 2 1;
  matched_lane_ids = "mid_wb1_e" ∷ [];
  throttle_cmd = nought;
  pose_stale = false;
  now_s = now;
}

arrived-IsDecided_example : IsDecided checker goal (arriving (metres 7) ∷ arriving (metres 6) ∷ [])
unfolding autonomous_rc_taxi.Navigation.Arrival.Gate.run arrival_update start_mission
    autonomous_rc_taxi.Navigation.Arrival.gate autonomous_rc_taxi.Mapping.Geometry.heading_diff_deg
arrived-IsDecided_example =
    arrived-IsDecided checker goal (arriving (metres 7) ∷ arriving (metres 6) ∷ []) refl

abbrev follower : Follower Micro (Unit {0})
follower = record {
  has_route = λ w. true;
  seg_allowed = λ w. true;
  set_route = λ w r. ok w;
  clear = λ w. w;
  compute =
      λ w x y h. ok ((record { throttle = lit 2 1; steering_wheel_deg = nought }, lit 5 1), w);
}

abbrev setup : Setup Micro (List (Micro × String)) (Unit {0})
setup = record {
  lane_map = loop;
  matching = matching;
  resolver = record { lanes = ("mid_wb1_e", lane_a) ∷ [] };
  queue = queue;
  rounds = 5;
  forced = [];
  approach = metres 1;
  limits = limits;
  follower = follower;
}

abbrev driving : Drive Micro (Unit {0})
driving = record {
  vehicle = vehicle driving_snapshot;
  route = tt;
  arrival = start_mission checker goal;
}

tick-IsSound_example :
    IsSound setup (drive_tick setup (metres 7) (metres 9) (some (metres 2)) driving).1
tick-IsSound_example =
    tick-IsSound setup (metres 7) (metres 9) (some (metres 2)) driving driving-IsConsistent
