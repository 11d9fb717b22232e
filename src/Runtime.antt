-- ===== src/Runtime.antt =====
-- rc_car/app/runtime.py: how the parts are put together, and rc_car/workers/periodic_worker.py: one
-- round of a worker's loop. All parts share one vehicle, which here is the localization service's.
-- Threads are steps: a callback of a client or a round of a worker is one of them, and a round of the
-- driving worker is two, its test of the stop event and its tick. The source holds no lock over a
-- tick: that another thread writes between two of a tick's own reads and writes is not modelled.
pub mod Steps
pub mod Kept
pub mod Halted
pub mod Sound
pub mod Resting
use autonomous_rc_taxi.Hardware.{MotorDriver, SteeringDriver}
use autonomous_rc_taxi.Core.Models.{new_snapshot}
use autonomous_rc_taxi.Prelude.{
  ℕ, Bool, true, false, String, Option, none, some, List, [], ◌∷◌, if◌then◌else◌,
}
use autonomous_rc_taxi.Floats.{Double}
use autonomous_rc_taxi.Result.{Result, ok, err}
use autonomous_rc_taxi.Core.Enums.{waiting}
use autonomous_rc_taxi.Core.Store.{set_driving_state}
use autonomous_rc_taxi.Safety.Supervisor.{Plant, Limits, force_stop, latch_stop}
use autonomous_rc_taxi.Safety.Watchdog.{Watched, tick as watch}
use autonomous_rc_taxi.Network.Messages.{Json}
use autonomous_rc_taxi.Network.Reports.{tick as resend}
use autonomous_rc_taxi.Network.Policy.{
  Vehicle, state, with_store, on_raw_message, on_control_connected, on_control_disconnected,
  on_gps_lost, on_gps_recovered,
}
use autonomous_rc_taxi.Mapping.LaneMap.{LaneMap}
use autonomous_rc_taxi.Mapping.Matcher.{MatchConfig}
use autonomous_rc_taxi.Navigation.Planner.{HeapQueue}
use autonomous_rc_taxi.Navigation.Resolver.{DestinationResolver}
use autonomous_rc_taxi.Navigation.Arrival.{ArrivalChecker}
use autonomous_rc_taxi.Localization.Service.{ServiceSetup, LocalizationService, Zone}
use autonomous_rc_taxi.Perception.Seg.{SegObservation}
use autonomous_rc_taxi.Perception.Marks.{MarkAdapter}
use autonomous_rc_taxi.Control.Follower.{
  LaneFollower, FollowerConfig, has_route, seg_allowed, set_route, clear,
}
use autonomous_rc_taxi.Control.Corner.{Senses}
use autonomous_rc_taxi.Control.Compute.{compute}
use autonomous_rc_taxi.Behavior.Driving.{Follower, Setup, Drive}
use autonomous_rc_taxi.Behavior.Driving.Tick.{tick as drive}

-- what the configuration files and the parts that are not modelled give
pub record RuntimeSetup (F H : Type 0) : Type 0 where
  pub read : String → Option (Json F)
  pub x_max : F
  pub y_max : F
  pub pose_timeout : F
  pub zones : List (Zone F)
  pub distrust_m : F
  pub rounds : ℕ
  pub lane_map : LaneMap F
  pub matching : MatchConfig F
  pub resolver : DestinationResolver F
  pub queue : HeapQueue F H
  pub search_rounds : ℕ
  pub forced : List (List ℕ)
  pub approach : F
  pub limits : Limits F
  pub follower : FollowerConfig F

-- the workers that the watchdog watches; the last one only with a camera
pub record Workers (F : Type 0) : Type 0 where
  pub control : Watched F
  pub heartbeat : Watched F
  pub reports : Watched F
  pub telemetry : Watched F
  pub localization : Watched F
  pub perception : Option (Watched F)

pub record Runtime (F : Type 0) : Type 0 where
  pub service : LocalizationService F
  pub route : LaneFollower F
  pub arrival : ArrivalChecker F
  pub workers : Workers F
  -- `stop_event.is_set()`
  pub stopping : Bool
  -- the driving worker has seen the event unset, and its tick has not ended
  pub in_round : Bool

abbrev if_camera : {F : Type 0} → Option (Watched F) → List (Watched F)
if_camera none = []
if_camera (some p) = p ∷ []

abbrev pub watched_workers : {F : Type 0} → Workers F → List (Watched F)
watched_workers w =
    w.control ∷ w.heartbeat ∷ w.reports ∷ w.telemetry ∷ w.localization ∷ if_camera w.perception

-- `self.last_tick_monotonic = started`
abbrev ticked : {F : Type 0} → F → Watched F → Watched F
ticked started w = record w { last_tick_monotonic = started }

module _ {F : Type 0} where
  abbrev pub with_vehicle : Runtime F → Vehicle F → Runtime F
  with_vehicle r v = record r { service = record r.service { vehicle = v } }

  abbrev pub with_plant : Runtime F → Plant F → Runtime F
  with_plant r p = with_vehicle r (record r.service.vehicle { plant = p })

  -- what the driving worker works on
  abbrev pub drive_of : Runtime F → Drive F (LaneFollower F)
  drive_of r = record { vehicle = r.service.vehicle; route = r.route; arrival = r.arrival }

  abbrev pub with_drive : Runtime F → Drive F (LaneFollower F) → Runtime F
  with_drive r w = record (with_vehicle r w.vehicle) { route = w.route; arrival = w.arrival }

module _ {F H : Type 0} ⦃d : Double F⦄ (k : RuntimeSetup F H) where
  -- the service with the policy's handlers as its hooks, at the time that their reports bear
  abbrev pub hooked : F → ServiceSetup F
  hooked sent = record {
    read = k.read;
    timeout = k.pose_timeout;
    zones = k.zones;
    distrust_m = k.distrust_m;
    rounds = k.rounds;
    on_lost = on_gps_lost sent;
    on_recovered = on_gps_recovered sent;
  }

  -- the lane follower behind the driving worker's interface, with what it sees in this round
  abbrev pub lane_following :
      F → Option (SegObservation F) → Option (MarkAdapter F) → Follower F (LaneFollower F)
  lane_following now seg marks = record {
    has_route = has_route;
    seg_allowed = seg_allowed;
    set_route = set_route;
    clear = clear;
    compute = λ s x y h.
        compute k.follower
          (record {
            at = record { x = x; y = y };
            heading_deg = h;
            now = now;
            seg = seg;
            marks = marks;
          })
          s;
  }

  abbrev pub driving :
      F → Option (SegObservation F) → Option (MarkAdapter F) → Setup F H (LaneFollower F)
  driving now seg marks = record {
    lane_map = k.lane_map;
    matching = k.matching;
    resolver = k.resolver;
    queue = k.queue;
    rounds = k.search_rounds;
    forced = k.forced;
    approach = k.approach;
    limits = k.limits;
    follower = lane_following now seg marks;
  }

  -- the control client's callbacks
  unfoldable pub commanded : F → String → Runtime F → Runtime F
  commanded sent raw r =
      with_vehicle r (on_raw_message k.read k.x_max k.y_max sent raw r.service.vehicle)

module _ {F : Type 0} where
  unfoldable pub control_up : F → Runtime F → Runtime F
  control_up sent r = with_vehicle r (on_control_connected sent r.service.vehicle)

module _ {F : Type 0} ⦃d : Double F⦄ where
  unfoldable pub control_down : Runtime F → Runtime F
  control_down r = with_vehicle r (on_control_disconnected r.service.vehicle)

  -- `_on_worker_error`
  unfoldable pub worker_error : Runtime F → Runtime F
  worker_error r = with_plant r (latch_stop r.service.vehicle.plant)

  -- the test of the driving worker's loop
  unfoldable pub begin_round : Runtime F → Runtime F
  begin_round r = if r.stopping then r else record r { in_round = true }

  -- the end of its round; a raise ends the worker
  abbrev pub driven : F → Result (Unit {0}) × Drive F (LaneFollower F) → Runtime F → Runtime F
  driven started (err e, w) r = worker_error (record (with_drive r w) { in_round = false })
  driven started (ok u, w) r = record (with_drive r w) {
    workers = record r.workers { control = ticked started r.workers.control };
    in_round = false;
  }

  -- the tick of a round that has begun, whether or not the event has been set since
  unfoldable pub control_round :
      {H : Type 0} → Setup F H (LaneFollower F) → F → F → F → Option F → Runtime F → Runtime F
  unfolding worker_error
  control_round k started now sent corr r =
      if r.in_round then driven started (drive k now sent corr (drive_of r)) r else r

  -- a round of the localization service that returned
  unfoldable pub located : F → LocalizationService F → Runtime F → Runtime F
  located started s r = record r {
    service = s;
    workers = record r.workers { localization = ticked started r.workers.localization };
  }

  unfoldable pub reports_round : F → Runtime F → Runtime F
  reports_round started r =
      let v = r.service.vehicle in
      if r.stopping
      then r
      else record (with_vehicle r (record v { reports = resend (state v) v.reports })) {
        workers = record r.workers { reports = ticked started r.workers.reports };
      }

  -- the heartbeat only logs
  unfoldable pub heartbeat_round : F → Runtime F → Runtime F
  heartbeat_round started r = if r.stopping then r else record r {
    workers = record r.workers { heartbeat = ticked started r.workers.heartbeat };
  }

  unfoldable pub watchdog_round : F → Runtime F → Runtime F
  watchdog_round now r =
      if r.stopping
      then r
      else with_plant r (watch now (watched_workers r.workers) r.service.vehicle.plant)

  -- the store, the supervisor, the reports and the policy that `initialize` makes, over the drivers
  abbrev pub new_vehicle : MotorDriver F → SteeringDriver F → Vehicle F
  new_vehicle motor steering = record {
    plant = record { store = new_snapshot; latched = false; motor = motor; steering = steering };
    reports = record { complete_ts = none; error_resend_ts = none; sent = [] };
    reasons = record { control_lost = false; gps_lost = false };
  }

  -- the outputs at the end of `initialize`
  unfoldable pub initialized : Runtime F → Runtime F
  initialized r =
      let p = force_stop r.service.vehicle.plant in
      with_plant r (record p { store = set_driving_state p.store waiting })

  -- `shutdown` is two steps before it waits for the workers: the motor first, and then the event that
  -- ends their loops
  unfoldable pub stop_motor : Runtime F → Runtime F
  stop_motor r = with_plant r (force_stop r.service.vehicle.plant)

module _ {F : Type 0} where
  unfoldable pub set_stop_event : Runtime F → Runtime F
  set_stop_event r = record r { stopping = true }
