-- ===== src/Localization/Reckoner.antt =====
-- rc_car/localization/dead_reckoner.py. An anchored reckoner has a motion; before that `predict` and
-- `deviation_m` raise TypeError.
use autonomous_rc_taxi.Prelude.{ℕ, Bool, true, false, ◌&&◌, if◌then◌else◌}
use autonomous_rc_taxi.Floats.{Double, ◌+◌, ◌-◌, ◌%◌, lit, nought, le}
use autonomous_rc_taxi.Result.{Result, ok, err, type_error, ◌>>=◌}
use autonomous_rc_taxi.Localization.Bicycle.{Bicycle, Motion, speed, integrate}

pub record DeadReckoner (F : Type 0) : Type 0 where
  pub model : Bicycle F
  pub max_dist : F
  pub max_time : F
  pub anchored : Bool
  pub motion : Motion F
  pub t : F
  pub ts0 : F
  pub t0 : F

-- (x, y, heading_deg, timestamp)
pub record Prediction (F : Type 0) : Type 0 where
  pub x : F
  pub y : F
  pub heading_deg : F
  pub source_timestamp_s : F

module _ {F : Type 0} ⦃d : Double F⦄ where
  abbrev still : Motion F
  still = record {
    wheel = nought;
    v = nought;
    heading = nought;
    x = nought;
    y = nought;
    blind_dist = nought;
    blind_time = nought;
  }

  unfoldable pub reset : DeadReckoner F → DeadReckoner F
  reset r = record r { anchored = false; motion = still; t = nought; ts0 = nought; t0 = nought }

  unfoldable pub within_budget : DeadReckoner F → Bool
  within_budget r = le r.motion.blind_dist r.max_dist && le r.motion.blind_time r.max_time

  unfoldable pub predict : DeadReckoner F → Result (Prediction F)
  predict r =
      if r.anchored
      then ok (record {
        x = r.motion.x;
        y = r.motion.y;
        heading_deg = r.motion.heading % lit 360 0;
        source_timestamp_s = r.ts0 + (r.t - r.t0) - lit 5 2;
      })
      else err type_error

  unfoldable pub deviation_m : DeadReckoner F → F → F → Result F
  deviation_m r x y =
      if r.anchored then ok (d.hypot (x - r.motion.x) (y - r.motion.y)) else err type_error

  -- the estimates of the wheel angle and of the speed are kept
  unfoldable pub anchor : DeadReckoner F → F → F → F → F → F → DeadReckoner F
  anchor r x y heading_deg monotonic_s source_timestamp_s = record r {
    anchored = true;
    motion = record r.motion {
      heading = heading_deg;
      x = x;
      y = y;
      blind_dist = nought;
      blind_time = nought;
    };
    t = monotonic_s;
    ts0 = source_timestamp_s;
    t0 = monotonic_s;
  }

  abbrev moved : ℕ → DeadReckoner F → F → F → F → Result (DeadReckoner F)
  moved rounds r throttle steering monotonic_s = do
    target_v ← speed r.model throttle
    m ← integrate r.model target_v steering rounds (monotonic_s - r.t) r.motion
    ok (record r { motion = m; t = monotonic_s })

  unfoldable pub propagate : ℕ → DeadReckoner F → F → F → F → Result (DeadReckoner F)
  propagate rounds r throttle steering monotonic_s =
      let later = moved rounds r throttle steering monotonic_s in
      if r.anchored then (if le monotonic_s r.t then ok r else later) else ok r
