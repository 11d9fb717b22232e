-- ===== src/Behavior/Driving.antt =====
-- rc_car/behavior/driving_worker.py, one `tick` at a time and without its logs. The follower
-- (rc_car/control/lane_follower.py) is an interface; the correction of the segmentation adapter
-- (rc_car/perception/seg_adapter.py) is an argument, `none` without an adapter. `tick` reads one
-- snapshot and no other thread writes meanwhile. A raise ends the tick and keeps what was written.
pub mod Tick
pub mod Consistent
pub mod Kept
use autonomous_rc_taxi.Prelude.{
  ℕ, Bool, true, false, not, ◌&&◌, ◌||◌, String, Option, none, some, is_some, List, [], ◌∷◌, ◌==◌,
  if◌then◌else◌,
}
use autonomous_rc_taxi.Floats.{Double, ◌+◌, nought, le}
use autonomous_rc_taxi.Result.{Result, ok, err, key_error, index_error, ◌>>=◌, from_option}
use autonomous_rc_taxi.Keys.{find}
use autonomous_rc_taxi.Core.Enums.{
  DrivingState, waiting, planning, following_route, approaching_destination,
}
use autonomous_rc_taxi.Core.Models.{
  LocalizationPose, ControlCommand, ActiveMission, VehicleSnapshot, stop_command,
}
use autonomous_rc_taxi.Core.Store.{set_driving_state}
use autonomous_rc_taxi.Safety.Supervisor.{Plant, Limits, apply}
use autonomous_rc_taxi.Network.Policy.{Vehicle, state, with_store, notify_arrived}
use autonomous_rc_taxi.Mapping.LaneMap.{LaneMap, arrival_lane_candidates}
use autonomous_rc_taxi.Mapping.Matcher.{LaneMatch, MatchConfig, SegmentKind, lane, connector, match}
use autonomous_rc_taxi.Navigation.Numbers.{id2num}
use autonomous_rc_taxi.Navigation.Planner.{HeapQueue, Route, plan}
use autonomous_rc_taxi.Navigation.Forced.{plan_via_numbers}
use autonomous_rc_taxi.Navigation.Resolver.{DestinationResolver, resolve}
use autonomous_rc_taxi.Navigation.Arrival.{
  ArrivalChecker, Reading, StopPose, start_mission, clear, update,
}

-- what the worker calls of its follower
pub record Follower (F W : Type 0) : Type 0 where
  pub has_route : W → Bool
  pub seg_allowed : W → Bool
  pub set_route : W → Route F → Result W
  pub clear : W → W
  pub compute : W → F → F → F → Result ((ControlCommand F × F) × W)

-- what the worker is built from
pub record Setup (F H W : Type 0) : Type 0 where
  pub lane_map : LaneMap F
  pub matching : MatchConfig F
  pub resolver : DestinationResolver F
  pub queue : HeapQueue F H
  pub rounds : ℕ
  pub forced : List (List ℕ)
  pub approach : F
  pub limits : Limits F
  pub follower : Follower F W

-- what it works on
pub record Drive (F W : Type 0) : Type 0 where
  pub vehicle : Vehicle F
  pub route : W
  pub arrival : ArrivalChecker F

-- `nums[-1] == dest`
abbrev last_is : ℕ → ℕ → List ℕ → Bool
last_is dest a [] = a == dest
last_is dest a (b ∷ rest) = last_is dest b rest

-- `nums[nums.index(start):]`, if `start` is in `nums[:-1]`
abbrev from_number : ℕ → List ℕ → Option (List ℕ)
from_number start [] = none
from_number start (a ∷ []) = none
from_number start (a ∷ b ∷ rest) =
    let later = from_number start (b ∷ rest) in if a == start then some (a ∷ b ∷ rest) else later

abbrev ends_at : ℕ → List ℕ → Result Bool
ends_at dest [] = err index_error
ends_at dest (a ∷ rest) = ok (last_is dest a rest)

first_forced : ℕ → ℕ → List (List ℕ) → Result (Option (List ℕ))
first_forced start dest [] = ok none
first_forced start dest (nums ∷ rest) = do
  ends ← ends_at dest nums
  let later = first_forced start dest rest
  let here = if ends then from_number start nums else none
  elim here [ none ↦ later | some part ↦ ok (some part) ]

abbrev forced_between : List (List ℕ) → Option ℕ → Option ℕ → Result (Option (List ℕ))
forced_between forced (some start) (some dest) = first_forced start dest forced
forced_between forced _ _ = ok none

unfoldable pub forced_route : List (List ℕ) → String → String → Result (Option (List ℕ))
unfolding first_forced
forced_route forced start_lane_id dest_lane_id =
    forced_between forced (id2num start_lane_id) (id2num dest_lane_id)

module _ {F H W : Type 0} ⦃d : Double F⦄ (k : Setup F H W) where
  abbrev pub snapshot : Drive F W → VehicleSnapshot F
  snapshot w = w.vehicle.plant.store

  abbrev pub enter : DrivingState → Drive F W → Drive F W
  enter s w = record w {
    vehicle = with_store w.vehicle (set_driving_state w.vehicle.plant.store s);
  }

  -- `self._supervisor.apply(cmd)`
  unfoldable pub output : ControlCommand F → Drive F W → Result (ControlCommand F) × Drive F W
  output c w =
      let (r, p) = apply k.limits w.vehicle.plant c in
      (r, record w { vehicle = record w.vehicle { plant = p } })

  abbrev done : Result (ControlCommand F) × Drive F W → Result (Unit {0}) × Drive F W
  done (r, w) = ((do _ ← r; ok tt), w)

  -- the lane that the route starts on; on a connector it is the lane behind it
  abbrev start_of : LaneMatch F → Result (String × F)
  start_of m = elim m.kind [
    | lane ↦ ok (m.segment_id, m.progress_s)
    | connector ↦ do
      c ← from_option (find m.segment_id k.lane_map.connectors) key_error
      ok (c.successor, nought)
  ]

  abbrev route_by : Option (List ℕ) → String → F → StopPose F → Result (Route F)
  route_by (some nums) start s stop = plan_via_numbers k.lane_map nums s stop.progress_s
  route_by none start s stop = plan k.queue k.rounds k.lane_map start s stop.lane_id stop.progress_s

  abbrev routed : ActiveMission F → LaneMatch F → Result (Route F × StopPose F)
  routed mi m = do
    (start, s) ← start_of m
    stop ← resolve k.resolver mi.dest_x mi.dest_y
    nums ← forced_route k.forced start stop.lane_id
    r ← route_by nums start s stop
    ok (r, stop)

  abbrev pub matched : LocalizationPose F → Result (Option (LaneMatch F))
  matched p = match k.matching k.lane_map p.x p.y p.heading_deg

  -- the route to the mission's destination, if the vehicle is on a lane
  pub planned : ActiveMission F → LocalizationPose F → Result (Option (Route F × StopPose F))
  planned mi p = do
    m ← matched p
    elim m [ none ↦ ok none | some at ↦ do r ← routed mi at; ok (some r) ]

  -- the writes at the end of `_plan`
  abbrev pub install : Drive F W → StopPose F → Result W → Result (Unit {0}) × Drive F W
  install w stop (err e) = (err e, w)
  install w stop (ok f) = (
    ok tt,
    enter following_route (record w { route = f; arrival = start_mission w.arrival stop }),
  )

  abbrev pub commit :
      Drive F W → Result (Option (Route F × StopPose F)) → Result (Unit {0}) × Drive F W
  commit w (err e) = (err e, w)
  commit w (ok none) = (ok tt, w)
  commit w (ok (some (r, stop))) = install w stop (k.follower.set_route w.route r)

  abbrev pub plan_with :
      Drive F W
      → Option (ActiveMission F)
      → Option (LocalizationPose F)
      → Result (Unit {0}) × Drive F W
  plan_with w none p = (ok tt, enter waiting w)
  plan_with w (some mi) none = (ok tt, w)
  plan_with w (some mi) (some p) =
      if (snapshot w).pose_stale then (ok tt, w) else commit w (planned mi p)

  abbrev pub and_stop : Result (Unit {0}) × Drive F W → Result (Unit {0}) × Drive F W
  and_stop (err e, w) = (err e, w)
  and_stop (ok _, w) = done (output stop_command w)

  unfoldable pub tick_planning : Drive F W → Result (Unit {0}) × Drive F W
  unfolding planned output
  tick_planning w = and_stop (plan_with w (snapshot w).mission (snapshot w).pose)
