-- ===== src/Tests/Samples.antt =====
-- Inputs for the runs: a vehicle with its limits and drivers, and a map of two lanes that two
-- connectors join to a loop.
use Prim.Native.Nat.{◌*◌}
use autonomous_rc_taxi.Prelude.{ℕ, true, false, none, some, [], ◌∷◌}
use autonomous_rc_taxi.Floats.{lit, nought}
use autonomous_rc_taxi.Floats.Micro.{Micro, pos, micro_double}
use autonomous_rc_taxi.Core.Enums.{waiting, following_route, pickup}
use autonomous_rc_taxi.Core.Models.{LocalizationPose, VehicleSnapshot, new_snapshot}
use autonomous_rc_taxi.Safety.Supervisor.{Plant, Limits}
use autonomous_rc_taxi.Network.Policy.{Vehicle}
use autonomous_rc_taxi.Mapping.Geometry.{Point}
use autonomous_rc_taxi.Mapping.LaneMap.{
  LaneSegment, Connector, LaneMap, straight, left, inner, outer,
}

abbrev pub metres : ℕ → Micro
metres n = some (pos (n * 1000000))

abbrev pub limits : Limits Micro
limits = record { max_wheel = metres 30; max_throttle = lit 5 1 }

abbrev pub plant : VehicleSnapshot Micro → Plant Micro
plant s = record {
  store = s;
  latched = false;
  motor = record { throttle = nought; stopped = true };
  steering = record {
    center = metres 108;
    left_max = metres 51;
    right_max = metres 165;
    ratio = lit 5 1;
    servo_deg = metres 108;
  };
}

abbrev pub here : LocalizationPose Micro
here = record {
  x = metres 1;
  y = metres 0;
  heading_deg = metres 0;
  source_timestamp_s = metres 5;
  received_monotonic_s = metres 5;
}

abbrev pub idle_snapshot : VehicleSnapshot Micro
idle_snapshot = record new_snapshot {
  driving_state = waiting;
  pose = some here;
  pose_stale = false;
}

abbrev pub driving_snapshot : VehicleSnapshot Micro
driving_snapshot = record idle_snapshot {
  driving_state = following_route;
  service_kind = some pickup;
  mission =
      some
        (record { dest_x = metres 3; dest_y = metres 0; kind = pickup; accepted_at_s = metres 4 });
}

abbrev pub vehicle : VehicleSnapshot Micro → Vehicle Micro
vehicle s = record {
  plant = plant s;
  reports = record { complete_ts = none; error_resend_ts = none; sent = [] };
  reasons = record { control_lost = false; gps_lost = false };
}

abbrev pub at : ℕ → ℕ → Point Micro
at a b = record { x = metres a; y = metres b }

abbrev pub lane_a : LaneSegment Micro
lane_a = record {
  centerline = at 0 0 ∷ at 4 0 ∷ [];
  heading_hint_deg = metres 0;
  speed_limit_mps = lit 2 1;
  destination_allowed = true;
  circuit = inner;
  successors = "ab" ∷ [];
  length_m = metres 4;
}

abbrev pub lane_b : LaneSegment Micro
lane_b = record lane_a {
  centerline = at 6 0 ∷ at 9 0 ∷ [];
  circuit = outer;
  successors = "ba" ∷ [];
  length_m = metres 3;
}

abbrev pub road_ab : Connector Micro
road_ab = record {
  maneuver = straight;
  centerline = at 4 0 ∷ at 6 0 ∷ [];
  speed_limit_mps = lit 2 1;
  successor = "mid_wb1_w";
  radius_m = none;
  length_m = metres 2;
}

abbrev pub road_ba : Connector Micro
road_ba = record road_ab {
  maneuver = left;
  centerline = at 9 0 ∷ at 0 0 ∷ [];
  successor = "mid_wb1_e";
  length_m = metres 9;
}

abbrev pub loop : LaneMap Micro
loop = record {
  lanes = ("mid_wb1_e", lane_a) ∷ ("mid_wb1_w", lane_b) ∷ [];
  connectors = ("ab", road_ab) ∷ ("ba", road_ba) ∷ [];
  blocks = [];
  stop_line_lanes = [];
}
