-- ===== src/Tests/Runtimes.antt =====
-- Runs: the whole program.
use autonomous_rc_taxi.Prelude.{
  if◌then◌else◌, true, false, ◌≡◌, ◌⊎◌, refl, none, List, [], ◌∷◌, String,
}
use autonomous_rc_taxi.Floats.{lit, nought}
use autonomous_rc_taxi.Floats.Micro.{Micro, micro_double, Micro-IsOrdered}
use autonomous_rc_taxi.Result.{ok, err, zero_division}
use autonomous_rc_taxi.Core.Enums.{is_driving, error}
use autonomous_rc_taxi.Core.Models.{ControlCommand, stop_command, new_snapshot}
use autonomous_rc_taxi.Safety.Supervisor.{apply}
use autonomous_rc_taxi.Safety.Watchdog.{Watched}
use autonomous_rc_taxi.Network.Policy.{state}
use autonomous_rc_taxi.Network.Policy.Invariant.{IsConsistent}
use autonomous_rc_taxi.Runtime.{
  RuntimeSetup, Runtime, driving, commanded, worker_error, begin_round, control_round, stop_motor,
  set_stop_event, initialized, new_vehicle,
}
use autonomous_rc_taxi.Runtime.Steps.{Runs, begun, at_once, later, command, control}
use autonomous_rc_taxi.Runtime.Halted.{worker_error_halts, stop_event_rests}
use autonomous_rc_taxi.Runtime.Sound.{program_steady}
use autonomous_rc_taxi.Runtime.Resting.{round_rests}
use autonomous_rc_taxi.Tests.Samples.{metres, limits, plant, loop, lane_a}
use autonomous_rc_taxi.Tests.Maps.{matching}
use autonomous_rc_taxi.Tests.Plans.{queue}
use autonomous_rc_taxi.Tests.Positions.{checker, read_call}
use autonomous_rc_taxi.Tests.Drives.{config, parked}
use autonomous_rc_taxi.Tests.Services.{tracking}

abbrev program : RuntimeSetup Micro (List (Micro × String))
program = record {
  read = read_call;
  x_max = metres 5;
  y_max = metres 3;
  pose_timeout = lit 6 1;
  zones = [];
  distrust_m = lit 25 2;
  rounds = 10;
  lane_map = loop;
  matching = matching;
  resolver = record { lanes = ("mid_wb1_e", lane_a) ∷ [] };
  queue = queue;
  search_rounds = 5;
  forced = [];
  approach = metres 1;
  limits = limits;
  follower = config;
}

abbrev worker : Watched Micro
worker = record { last_tick_monotonic = metres 1; interval_sec = lit 2 2 }

-- in the middle of a drive
abbrev moving : Runtime Micro
moving = record {
  service = tracking;
  route = parked;
  arrival = checker;
  workers = record {
    control = worker;
    heartbeat = worker;
    reports = worker;
    telemetry = worker;
    localization = worker;
    perception = none;
  };
  stopping = false;
  in_round = false;
}

abbrev gentle : ControlCommand Micro
gentle = record { throttle = lit 4 1; steering_wheel_deg = nought }

-- a call and a round of the driving worker
abbrev called : Runtime Micro → Runtime Micro
called r = commanded program (metres 9) "{}" r

abbrev driven_on : Runtime Micro → Runtime Micro
driven_on r =
    control_round (driving program (metres 7) none none) (metres 7) (metres 7) (metres 9) none
      (begin_round r)

called_driven : (r : Runtime Micro) → Runs program r (driven_on (called r))
called_driven r =
    later r (begin_round (called r)) (driven_on (called r))
      (later r (called r) (begin_round (called r))
        (later r r (called r) (at_once r) (command (metres 9) "{}" r)) (begun (called r)))
      (control (metres 7) (metres 7) (metres 9) none none none (begin_round (called r)))

worker_error_halts_example :
    ((driven_on (called (worker_error moving))).service.vehicle.plant.latched ≡ true)
    × ((driven_on (called (worker_error moving))).service.vehicle.plant.motor.throttle ≡ nought)
    × ((apply limits (driven_on (called (worker_error moving))).service.vehicle.plant gentle).0 ≡ (
        if micro_double.eq
          (driven_on (called (worker_error moving))).service.vehicle.plant.steering.ratio
          nought
        then err zero_division
        else ok stop_command))
worker_error_halts_example =
    worker_error_halts program Micro-IsOrdered moving (driven_on (called (worker_error moving)))
      (called_driven (worker_error moving)) limits gentle

-- `shutdown`, up to the wait for the workers
abbrev over : Runtime Micro
over = set_stop_event (stop_motor moving)

stop_event_rests_example :
    ((driven_on (called over)).stopping ≡ true)
    × ((driven_on (called over)).in_round ≡ false)
    × ((driven_on (called over)).service.vehicle.plant.motor.throttle ≡ nought)
unfolding set_stop_event stop_motor autonomous_rc_taxi.Safety.Supervisor.force_stop
stop_event_rests_example =
    stop_event_rests program over (driven_on (called over)) refl refl refl (called_driven over)

-- just made
abbrev made : Runtime Micro
made = record moving {
  service = record tracking {
    vehicle = new_vehicle (plant new_snapshot).motor (plant new_snapshot).steering;
  };
}

program_steady_example :
    IsConsistent (driven_on (called (initialized made))).service.vehicle
    × ((is_driving (state (driven_on (called (initialized made))).service.vehicle) ≡ true)
        ⊎ ((driven_on (called (initialized made))).service.vehicle.plant.motor.throttle ≡ nought))
program_steady_example =
    program_steady program Micro-IsOrdered made (driven_on (called (initialized made)))
      (plant new_snapshot).motor (plant new_snapshot).steering refl
      (called_driven (initialized made))

-- in the middle of a drive, with a motor that runs in a state that is no driving one
abbrev raced : Runtime Micro
raced = record moving {
  in_round = true;
  service = record tracking {
    vehicle = record tracking.vehicle {
      plant = record tracking.vehicle.plant {
        store = record tracking.vehicle.plant.store { driving_state = error };
        motor = record tracking.vehicle.plant.motor { throttle = lit 2 1 };
      };
    };
  };
}

round_rests_example :
    let t =
      control_round
        (driving program (metres 7) none none)
        (metres 7)
        (metres 7)
        (metres 9)
        none
        raced in
    (is_driving (state t.service.vehicle) ≡ true)
    ⊎ (t.service.vehicle.plant.motor.throttle ≡ nought)
round_rests_example =
    round_rests program Micro-IsOrdered (metres 7) none none (metres 7) (metres 9) none raced refl
