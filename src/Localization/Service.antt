-- ===== src/Localization/Service.antt =====
-- rc_car/localization/localization_service.py, without its logs. `on_lost` and `on_recovered` are
-- functions on the vehicle, as the handlers of rc_car/network/command_policy.py are. The lock makes
-- a handler one step; a raise ends it, and what it leaves of the state is not modelled.
pub mod Agreed
pub mod Kept
pub mod Steps
pub mod Written
pub mod Stopped
use autonomous_rc_taxi.Prelude.{
  ℕ, Bool, true, false, not, ◌&&◌, ◌||◌, String, Option, none, some, List, [], ◌∷◌, if◌then◌else◌,
}
use autonomous_rc_taxi.Floats.{Double, ◌-◌, nought, le}
use autonomous_rc_taxi.Result.{Result, ok, ◌>>=◌}
use autonomous_rc_taxi.Core.Enums.{DrivingState, following_route, approaching_destination}
use autonomous_rc_taxi.Core.Models.{LocalizationPose, ControlCommand, VehicleSnapshot}
use autonomous_rc_taxi.Core.Store.{mark_pose_stale, update_pose, set_estimated_speed}
use autonomous_rc_taxi.Network.Messages.{Json}
use autonomous_rc_taxi.Network.Policy.{Vehicle, with_store}
use autonomous_rc_taxi.Localization.Validator.{
  PoseValidator, PoseResult, accepted, rejected, Reason, not_found, validate, reset,
}
use autonomous_rc_taxi.Localization.Motion.{MotionEstimator, update, reset as forget_motion}
use autonomous_rc_taxi.Localization.Reckoner.{
  DeadReckoner, Prediction, anchor, propagate, predict, deviation_m, within_budget,
  reset as forget_anchor,
}
use autonomous_rc_taxi.Localization.Heading.{
  HeadingEstimator, update as update_heading, reset as forget_heading,
}

-- a rectangle of the map: x0, x1, y0, y1
pub record Zone (F : Type 0) : Type 0 where
  pub x0 : F
  pub x1 : F
  pub y0 : F
  pub y1 : F

-- what the service is built from
pub record ServiceSetup (F : Type 0) : Type 0 where
  pub read : String → Option (Json F)
  pub timeout : F
  pub zones : List (Zone F)
  pub distrust_m : F
  pub rounds : ℕ
  pub on_lost : Vehicle F → Vehicle F
  pub on_recovered : Vehicle F → Vehicle F

-- without tunnel mode there is no reckoner
pub record LocalizationService (F : Type 0) : Type 0 where
  pub vehicle : Vehicle F
  pub validator : PoseValidator F
  pub estimator : MotionEstimator F
  pub reckoner : Option (DeadReckoner F)
  pub heading_est : Option (HeadingEstimator F)
  pub had_pose : Bool
  pub lost : Bool
  pub last_accept : F
  pub dr_feeding : Bool

abbrev pub in_tunnel_state : DrivingState → Bool
in_tunnel_state following_route = true
in_tunnel_state approaching_destination = true
in_tunnel_state _ = false

module _ {F : Type 0} where
  abbrev pub snapshot : LocalizationService F → VehicleSnapshot F
  snapshot s = s.vehicle.plant.store

  abbrev pub with_snapshot : LocalizationService F → VehicleSnapshot F → LocalizationService F
  with_snapshot s snap = record s { vehicle = with_store s.vehicle snap }

module _ {F : Type 0} ⦃d : Double F⦄ where
  unfoldable pub in_zone : List (Zone F) → F → F → Bool
  in_zone [] x y = false
  in_zone (z ∷ zs) x y = le z.x0 x && le x z.x1 && le z.y0 y && le y z.y1 || in_zone zs x y

  -- moves the reckoner to the time of the pose, and compares
  unfoldable pub deviates :
      ServiceSetup F
      → LocalizationService F
      → DeadReckoner F
      → LocalizationPose F
      → Result (Bool × LocalizationService F)
  deviates k s r pose = do
    let cmd = (snapshot s).control_command
    r' ← propagate k.rounds r cmd.throttle cmd.steering_wheel_deg pose.received_monotonic_s
    dev ← deviation_m r' pose.x pose.y
    ok (not (le dev k.distrust_m), record s { reckoner = some r' })

  abbrev may_suspect :
      ServiceSetup F → LocalizationService F → DeadReckoner F → LocalizationPose F → Bool
  may_suspect k s r pose =
      r.anchored
      && in_zone k.zones pose.x pose.y
      && in_tunnel_state (snapshot s).driving_state
      && within_budget r

  unfoldable pub suspect_by :
      ServiceSetup F
      → LocalizationService F
      → Option (DeadReckoner F)
      → LocalizationPose F
      → Result (Bool × LocalizationService F)
  unfolding deviates
  suspect_by k s none pose = ok (false, s)
  suspect_by k s (some r) pose =
      let judged = deviates k s r pose in if may_suspect k s r pose then judged else ok (false, s)

  unfoldable pub suspect :
      ServiceSetup F
      → LocalizationService F
      → LocalizationPose F
      → Result (Bool × LocalizationService F)
  unfolding suspect_by
  suspect k s pose = suspect_by k s s.reckoner pose

  unfoldable pub estimate_heading :
      ServiceSetup F
      → LocalizationService F
      → Option (HeadingEstimator F)
      → LocalizationPose F
      → Result (LocalizationPose F × LocalizationService F)
  estimate_heading k s none pose = ok (pose, s)
  estimate_heading k s (some h) pose = do
    let cmd = (snapshot s).control_command
    (h', est) ←
        update_heading k.rounds h pose.x pose.y pose.heading_deg cmd.throttle cmd.steering_wheel_deg
          pose.received_monotonic_s
    ok (record pose { heading_deg = est }, record s { heading_est = some h' })

  abbrev anchored_at : LocalizationPose F → Option (DeadReckoner F) → Option (DeadReckoner F)
  anchored_at pose none = none
  anchored_at pose (some r) =
      some
        (anchor r pose.x pose.y pose.heading_deg pose.received_monotonic_s pose.source_timestamp_s)

  abbrev pub measured :
      LocalizationService F → LocalizationPose F → VehicleSnapshot F → LocalizationService F
  measured s pose snap =
      let (e, mps) = update s.estimator pose in
      record (with_snapshot s (set_estimated_speed snap mps)) { estimator = e }

  abbrev pub recovered_if : Bool → ServiceSetup F → LocalizationService F → LocalizationService F
  recovered_if true k s = record s { lost = false; vehicle = k.on_recovered s.vehicle }
  recovered_if false k s = s

  abbrev pub keeps_feeding : Option (DeadReckoner F) → Bool → Bool
  keeps_feeding none b = b
  keeps_feeding (some r) b = false

  -- what follows a pose that the store took
  unfoldable pub taken :
      ServiceSetup F
      → LocalizationService F
      → LocalizationPose F
      → VehicleSnapshot F
      → LocalizationService F
  taken k s pose snap =
      let s' = record (measured s pose snap) {
        last_accept = pose.received_monotonic_s;
        reckoner = anchored_at pose s.reckoner;
        dr_feeding = keeps_feeding s.reckoner s.dr_feeding;
        had_pose = true;
      } in
      recovered_if s.lost k s'

  abbrev pub taken_if :
      ServiceSetup F
      → LocalizationService F
      → LocalizationPose F
      → VehicleSnapshot F × Bool
      → LocalizationService F
  taken_if k s pose (snap, true) = taken k s pose snap
  taken_if k s pose (snap, false) = s

  abbrev pub unless_suspect :
      ServiceSetup F
      → LocalizationPose F
      → Bool × LocalizationService F
      → Result (LocalizationService F)
  unless_suspect k pose (true, s) = ok s
  unless_suspect k pose (false, s) = do
    (pose', s') ← estimate_heading k s s.heading_est pose
    ok (taken_if k s' pose' (update_pose (snapshot s') pose'))

  unfoldable pub accept :
      ServiceSetup F → LocalizationService F → LocalizationPose F → Result (LocalizationService F)
  unfolding taken
  accept k s pose = suspect k s pose >>= unless_suspect k pose

  abbrev pub forgotten : Option (DeadReckoner F) → Option (DeadReckoner F)
  forgotten none = none
  forgotten (some r) = some (forget_anchor r)

  -- the feeding mark is only reset with a heading estimator
  abbrev pub headless : Option (HeadingEstimator F) → Option (HeadingEstimator F)
  headless none = none
  headless (some h) = some (forget_heading h)

  abbrev pub still_feeding : Option (HeadingEstimator F) → Bool → Bool
  still_feeding none b = b
  still_feeding (some h) b = false

  unfoldable pub declared : ServiceSetup F → LocalizationService F → LocalizationService F
  declared k s =
      let snap = set_estimated_speed (mark_pose_stale (snapshot s)) nought in
      record s {
        lost = true;
        validator = reset s.validator;
        estimator = forget_motion s.estimator;
        reckoner = forgotten s.reckoner;
        heading_est = headless s.heading_est;
        dr_feeding = still_feeding s.heading_est s.dr_feeding;
        vehicle = k.on_lost (with_store s.vehicle snap);
      }

  unfoldable pub declare_lost : ServiceSetup F → LocalizationService F → LocalizationService F
  unfolding declared
  declare_lost k s = if s.lost || not s.had_pose then s else declared k s

  abbrev pub received :
      ServiceSetup F → LocalizationService F → PoseResult F → Result (LocalizationService F)
  received k s (accepted pose) = accept k s pose
  received k s (rejected not_found) = ok (with_snapshot s (mark_pose_stale (snapshot s)))
  received k s (rejected _) = ok s

  unfoldable pub on_raw :
      ServiceSetup F → String → F → LocalizationService F → Result (LocalizationService F)
  unfolding accept
  on_raw k raw now s = do
    (result, v) ← validate k.read s.validator raw now
    received k (record s { validator = v }) result

  unfoldable pub on_disconnected : ServiceSetup F → LocalizationService F → LocalizationService F
  unfolding declare_lost
  on_disconnected k s = declare_lost k s

  abbrev pub fed_if :
      LocalizationService F
      → LocalizationPose F
      → VehicleSnapshot F × Bool
      → Bool × LocalizationService F
  fed_if s pose (snap, true) = (true, record (measured s pose snap) { dr_feeding = true })
  fed_if s pose (snap, false) = (false, s)

  abbrev pub pose_at : F → Prediction F → LocalizationPose F
  pose_at now p = record {
    x = p.x;
    y = p.y;
    heading_deg = p.heading_deg;
    source_timestamp_s = p.source_timestamp_s;
    received_monotonic_s = now;
  }

  -- the reckoner's prediction as a pose, in a zone and within the budget
  unfoldable pub feed :
      ServiceSetup F
      → LocalizationService F
      → DeadReckoner F
      → F
      → Prediction F
      → Bool × LocalizationService F
  feed k s r now p =
      if not (in_zone k.zones p.x p.y)
      then (false, s)
      else if not (within_budget r)
      then (false, record s { dr_feeding = false })
      else fed_if s (pose_at now p) (update_pose (snapshot s) (pose_at now p))

  unfoldable pub feed_from :
      ServiceSetup F
      → LocalizationService F
      → DeadReckoner F
      → F
      → Result (Bool × LocalizationService F)
  unfolding feed
  feed_from k s r now = do
    let cmd = (snapshot s).control_command
    r' ← propagate k.rounds r cmd.throttle cmd.steering_wheel_deg now
    p ← predict r'
    ok (feed k (record s { reckoner = some r' }) r' now p)

  unfoldable pub feed_by :
      ServiceSetup F
      → LocalizationService F
      → Option (DeadReckoner F)
      → F
      → Result (Bool × LocalizationService F)
  unfolding feed_from
  feed_by k s none now = ok (false, s)
  feed_by k s (some r) now =
      let fed = feed_from k s r now in
      if r.anchored && in_tunnel_state (snapshot s).driving_state then fed else ok (false, s)

  unfoldable pub tunnel_feed :
      ServiceSetup F → LocalizationService F → F → Result (Bool × LocalizationService F)
  unfolding feed_by
  tunnel_feed k s now = feed_by k s s.reckoner now

  -- a fed pose puts the loss off
  abbrev pub unless_fed :
      ServiceSetup F → Bool → Bool × LocalizationService F → LocalizationService F
  unless_fed k late (true, s) = s
  unless_fed k late (false, s) = if late then declare_lost k s else s

  abbrev pub watched :
      ServiceSetup F → Bool → Bool → F → LocalizationService F → Result (LocalizationService F)
  watched k true late now s = do fed ← tunnel_feed k s now; ok (unless_fed k late fed)
  watched k false late now s = ok s

  unfoldable pub tick : ServiceSetup F → F → LocalizationService F → Result (LocalizationService F)
  unfolding declare_lost
  tick k now s =
      let late = le k.timeout (now - s.last_accept) in
      let later = watched k ((snapshot s).pose_stale || late) late now s in
      if s.lost || not s.had_pose then ok s else later
