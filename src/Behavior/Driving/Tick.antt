-- ===== src/Behavior/Driving/Tick.antt =====
-- rc_car/behavior/driving_worker.py: following a route, and the whole tick.
use autonomous_rc_taxi.Prelude.{
  Bool, true, false, not, ◌&&◌, String, Option, none, some, is_some, List, [], if◌then◌else◌,
}
use autonomous_rc_taxi.Floats.{Double, ◌+◌, nought, le}
use autonomous_rc_taxi.Result.{Result, ok, err}
use autonomous_rc_taxi.Core.Enums.{DrivingState, planning, following_route, approaching_destination}
use autonomous_rc_taxi.Core.Models.{LocalizationPose, ControlCommand}
use autonomous_rc_taxi.Network.Policy.{notify_arrived}
use autonomous_rc_taxi.Mapping.LaneMap.{arrival_lane_candidates}
use autonomous_rc_taxi.Mapping.Matcher.{LaneMatch}
use autonomous_rc_taxi.Navigation.Arrival.{Reading, clear, update}
use autonomous_rc_taxi.Behavior.Driving.{
  Setup, Drive, enter, output, and_stop, snapshot, matched, tick_planning,
}

abbrev is_following : DrivingState → Bool
is_following following_route = true
is_following _ = false

module _ {F H W : Type 0} ⦃d : Double F⦄ (k : Setup F H W) where
  -- the arguments of `self._arrival.update`
  abbrev reading : Drive F W → LocalizationPose F → List String → F → Bool → F → Reading F
  reading w p lanes throttle stale now = record {
    x = p.x;
    y = p.y;
    heading_deg = p.heading_deg;
    estimated_speed_mps = (snapshot k w).estimated_speed_mps;
    matched_lane_ids = lanes;
    throttle_cmd = throttle;
    pose_stale = stale;
    now_s = now;
  }

  abbrev pub see_stale :
      F
      → Option (LocalizationPose F)
      → Result (Unit {0}) × Drive F W
      → Result (Unit {0}) × Drive F W
  see_stale now none out = out
  see_stale now (some p) (err e, w) = (err e, w)
  see_stale now (some p) (ok u, w) =
      (ok u, record w { arrival = (update w.arrival (reading w p [] nought true now)).0 })

  -- without a fresh position: the wheels rest, and the arrival clock is reset
  abbrev pub drive_blind :
      F → Option (LocalizationPose F) → Drive F W → Result (Unit {0}) × Drive F W
  drive_blind now p w = see_stale now p (and_stop k (ok tt, w))

  -- the lane correction, inside its window only
  abbrev corrected : Option F → W → ControlCommand F → ControlCommand F
  corrected none f c = c
  corrected (some corr) f c =
      if k.follower.seg_allowed f && not (d.eq corr nought)
      then record c { steering_wheel_deg = c.steering_wheel_deg + corr }
      else c

  abbrev pub approach_if : Bool → Drive F W → Drive F W
  approach_if near w = if near then enter k approaching_destination w else w

  abbrev lanes_of : Option (LaneMatch F) → List String
  lanes_of none = []
  lanes_of (some m) = arrival_lane_candidates k.lane_map m.segment_id

  abbrev pub arrive_if : F → Bool → Drive F W → Drive F W
  arrive_if sent arrived' w =
      if arrived' then record w { vehicle = notify_arrived sent w.vehicle } else w

  -- the arrival check on what was put out
  abbrev pub judged :
      F
      → F
      → LocalizationPose F
      → F
      → Drive F W
      → Result (Option (LaneMatch F))
      → Result (Unit {0}) × Drive F W
  judged now sent p throttle w (err e) = (err e, w)
  judged now sent p throttle w (ok m) =
      let (a, arrived') = update w.arrival (reading w p (lanes_of m) throttle false now) in
      (ok tt, arrive_if sent arrived' (record w { arrival = a }))

  abbrev pub checked :
      F
      → F
      → LocalizationPose F
      → Result (ControlCommand F) × Drive F W
      → Result (Unit {0}) × Drive F W
  checked now sent p (err e, w) = (err e, w)
  checked now sent p (ok c, w) = judged now sent p c.throttle w (matched k p)

  unfoldable pub steer :
      F
      → F
      → Option F
      → LocalizationPose F
      → Drive F W
      → Result ((ControlCommand F × F) × W)
      → Result (Unit {0}) × Drive F W
  steer now sent corr p w (err e) = (err e, w)
  steer now sent corr p w (ok ((c, remaining), f)) =
      let near = is_following (snapshot k w).driving_state && le remaining k.approach in
      let w' = approach_if near (record w { route = f }) in
      checked now sent p (output k (corrected corr f c) w')

  abbrev pub drive_with :
      F → F → Option F → Option (LocalizationPose F) → Drive F W → Result (Unit {0}) × Drive F W
  drive_with now sent corr none w = drive_blind now none w
  drive_with now sent corr (some p) w =
      if (snapshot k w).pose_stale
      then drive_blind now (some p) w
      else if not (k.follower.has_route w.route)
      then (ok tt, enter k planning w)
      else steer now sent corr p w (k.follower.compute w.route p.x p.y p.heading_deg)

  unfoldable pub tick_driving : F → F → Option F → Drive F W → Result (Unit {0}) × Drive F W
  unfolding steer
  tick_driving now sent corr w = drive_with now sent corr (snapshot k w).pose w

  abbrev pub cleared : Drive F W → Drive F W
  cleared w = record w { route = k.follower.clear w.route; arrival = clear w.arrival }

  unfoldable pub tick_idle : Drive F W → Result (Unit {0}) × Drive F W
  tick_idle w =
      let dropped = not (is_some (snapshot k w).mission) && k.follower.has_route w.route in
      and_stop k (ok tt, if dropped then cleared w else w)

  -- `now` is the monotonic time, `sent` the time that a report bears
  abbrev pub tick_in : F → F → Option F → DrivingState → Drive F W → Result (Unit {0}) × Drive F W
  tick_in now sent corr planning w = tick_planning k w
  tick_in now sent corr following_route w = tick_driving now sent corr w
  tick_in now sent corr approaching_destination w = tick_driving now sent corr w
  tick_in now sent corr _ w = tick_idle w

  unfoldable pub tick : F → F → Option F → Drive F W → Result (Unit {0}) × Drive F W
  tick now sent corr w = tick_in now sent corr (snapshot k w).driving_state w
