-- ===== src/Tests/Services.antt =====
-- Runs: the localization service.
use autonomous_rc_taxi.Prelude.{true, false, ◌≡◌, refl, none, some, [], if◌then◌else◌}
use autonomous_rc_taxi.Floats.{lit, nought}
use autonomous_rc_taxi.Floats.Micro.{Micro, micro_double, Micro-IsOrdered}
use autonomous_rc_taxi.Result.{ok, err, zero_division}
use autonomous_rc_taxi.Core.Models.{stop_command}
use autonomous_rc_taxi.Safety.Supervisor.{apply}
use autonomous_rc_taxi.Network.Policy.{on_gps_lost, on_gps_recovered}
use autonomous_rc_taxi.Localization.Motion.{MotionEstimator}
use autonomous_rc_taxi.Localization.Validator.{PoseValidator}
use autonomous_rc_taxi.Localization.Service.{
  ServiceSetup, LocalizationService, snapshot, on_disconnected, declared,
}
use autonomous_rc_taxi.Localization.Service.Agreed.{
  on_gps_lost-raises, on_gps_recovered-clears, lost_agrees,
}
use autonomous_rc_taxi.Localization.Service.Steps.{server_gone, at_once, later}
use autonomous_rc_taxi.Localization.Service.Stopped.{lost_stops, on_gps_lost-quiet}
use autonomous_rc_taxi.Tests.Samples.{metres, limits, vehicle, here, driving_snapshot}

abbrev setup : ServiceSetup Micro
setup = record {
  read = λ raw. none;
  timeout = lit 6 1;
  zones = [];
  distrust_m = lit 25 2;
  rounds = 10;
  on_lost = on_gps_lost (metres 8);
  on_recovered = on_gps_recovered (metres 9);
}

abbrev validator : PoseValidator Micro
validator = record {
  marker_id = metres 6;
  yaw_offset = nought;
  max_jump_m = lit 8 2;
  max_heading_jump_deg = metres 15;
  nominal_dt = lit 1 1;
  map_x = metres 5;
  map_y = metres 3;
  cube = none;
  frame = record {
    a00 = metres 1;
    a01 = nought;
    a10 = nought;
    a11 = metres 1;
    t0 = nought;
    t1 = nought;
  };
  prev = some here;
  prev_face = none;
}

abbrev estimator : MotionEstimator Micro
estimator = record { max_gap = lit 6 1; window = 4; samples = []; prev = some here }

abbrev pub tracking : LocalizationService Micro
tracking = record {
  vehicle = vehicle driving_snapshot;
  validator = validator;
  estimator = estimator;
  reckoner = none;
  heading_est = none;
  had_pose = true;
  lost = false;
  last_accept = metres 5;
  dr_feeding = false;
}

lost_stops_example :
    ((on_disconnected setup tracking).had_pose ≡ true)
    × ((snapshot (on_disconnected setup tracking)).pose_stale ≡ true)
    × ((apply limits
          (on_disconnected setup tracking).vehicle.plant
          (record { throttle = lit 4 1; steering_wheel_deg = nought })).0
        ≡ (if micro_double.eq (on_disconnected setup tracking).vehicle.plant.steering.ratio nought
            then err zero_division
            else ok stop_command))
    × ((apply limits
          (on_disconnected setup tracking).vehicle.plant
          (record { throttle = lit 4 1; steering_wheel_deg = nought })).1.motor.throttle
        ≡ nought)
unfolding on_disconnected
lost_stops_example =
    lost_stops setup (on_gps_lost-quiet (metres 8)) Micro-IsOrdered tracking
      (on_disconnected setup tracking) refl
      (later tracking tracking (on_disconnected setup tracking) (at_once tracking)
        (server_gone tracking))
      refl limits (record { throttle = lit 4 1; steering_wheel_deg = nought })

lost_agrees_example :
    (declared setup tracking).lost ≡ (declared setup tracking).vehicle.reasons.gps_lost
unfolding on_disconnected
lost_agrees_example =
    lost_agrees setup (on_gps_lost-raises (metres 8)) (on_gps_recovered-clears (metres 9)) tracking
      (declared setup tracking) refl
      (later tracking tracking (declared setup tracking) (at_once tracking) (server_gone tracking))
