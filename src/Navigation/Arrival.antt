-- ===== src/Navigation/Arrival.antt =====
-- rc_car/navigation/arrival_checker.py.
pub mod Gate
use autonomous_rc_taxi.Prelude.{
  Bool, true, false, not, ◌&&◌, ◌||◌, String, Option, none, some, List, [], ◌∷◌, if◌then◌else◌,
}
use autonomous_rc_taxi.Keys.{member}
use autonomous_rc_taxi.Mapping.Geometry.{heading_diff_deg}
use autonomous_rc_taxi.Floats.{Double, ◌+◌, ◌-◌, ◌%◌, lit, le}

pub record StopPose (F : Type 0) : Type 0 where
  pub lane_id : String
  pub x : F
  pub y : F
  pub heading_deg : F
  pub progress_s : F
  pub snap_distance_m : F

pub record ArrivalChecker (F : Type 0) : Type 0 where
  pub radius : F
  pub max_speed : F
  pub settle_sec : F
  pub max_heading_err : F
  pub stop : Option (StopPose F)
  pub held_since : Option F
  pub arrived : Bool

-- the arguments of `update`
pub record Reading (F : Type 0) : Type 0 where
  pub x : F
  pub y : F
  pub heading_deg : F
  pub estimated_speed_mps : F
  pub matched_lane_ids : List String
  pub throttle_cmd : F
  pub pose_stale : Bool
  pub now_s : F

module _ {F : Type 0} where
  unfoldable pub start_mission : ArrivalChecker F → StopPose F → ArrivalChecker F
  start_mission c p = record c { stop = some p; held_since = none; arrived = false }

  unfoldable pub clear : ArrivalChecker F → ArrivalChecker F
  clear c = record c { stop = none; held_since = none; arrived = false }

module _ {F : Type 0} ⦃d : Double F⦄ where
  -- conditions 1 to 4
  unfoldable pub gate : ArrivalChecker F → StopPose F → Reading F → Bool
  gate c p r =
      not r.pose_stale
      && le (d.hypot (r.x - p.x) (r.y - p.y)) c.radius
      && member p.lane_id r.matched_lane_ids
      && le (d.abs (heading_diff_deg r.heading_deg p.heading_deg)) c.max_heading_err
      && le (d.abs r.throttle_cmd) (lit 1 6)

  abbrev pub since : Option F → F → F
  since none now = now
  since (some t) now = t

  -- condition 5, once the gate is open
  unfoldable pub settle : ArrivalChecker F → Reading F → ArrivalChecker F
  settle c r =
      let t = since c.held_since r.now_s in
      record c {
        held_since = some t;
        arrived =
            if le r.estimated_speed_mps c.max_speed || le c.settle_sec (r.now_s - t)
            then true
            else c.arrived;
      }

  unfoldable pub judge :
      ArrivalChecker F → Reading F → Option (StopPose F) → ArrivalChecker F × Bool
  unfolding settle
  judge c r none = (c, false)
  judge c r (some p) =
      if c.arrived
      then (c, true)
      else if not (gate c p r)
      then (record c { held_since = none }, false)
      else (let c' = settle c r in (c', c'.arrived))

  -- the new state, and whether the arrival is decided
  unfoldable pub update : ArrivalChecker F → Reading F → ArrivalChecker F × Bool
  unfolding judge
  update c r = judge c r c.stop
