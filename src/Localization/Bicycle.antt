-- ===== src/Localization/Bicycle.antt =====
-- rc_car/localization/dead_reckoner.py and heading_estimator.py: the motion model that both repeat.
-- The loop over steps of 0.02 s takes its rounds as an argument.
use autonomous_rc_taxi.Prelude.{ℕ, zero, suc, List, [], ◌∷◌, if◌then◌else◌}
use autonomous_rc_taxi.Floats.{Double, ◌+◌, ◌-◌, ◌*◌, ◌/◌, lit, nought, le, lt, min, max}
use autonomous_rc_taxi.Result.{Result, ok, err, index_error, out_of_fuel}

pub record Bicycle (F : Type 0) : Type 0 where
  pub wheelbase : F
  pub bias : F
  pub servo_rate : F
  pub accel : F
  pub points : List (F × F)

-- the estimated wheel angle and speed, the heading, and what the dead reckoner adds up
pub record Motion (F : Type 0) : Type 0 where
  pub wheel : F
  pub v : F
  pub heading : F
  pub x : F
  pub y : F
  pub blind_dist : F
  pub blind_time : F

module _ {F : Type 0} ⦃d : Double F⦄ where
  -- the loop of `_speed` behind its first point
  speed_from : F → F × F → List (F × F) → F
  speed_from throttle (a, va) [] = va
  speed_from throttle (a, va) ((b, vb) ∷ rest) =
      let onward = speed_from throttle (b, vb) rest in
      if le throttle b then va + (vb - va) * (throttle - a) / (b - a) else onward

  unfoldable pub speed : Bicycle F → F → Result F
  unfolding speed_from
  speed k throttle = elim k.points [
    | [] ↦ err index_error
    | p ∷ ps ↦ ok (if le throttle p.0 then nought else speed_from throttle p ps)
  ]

  -- `max(-step, min(step, dw))`
  abbrev turned : F → F → F → F
  turned wheel step dw = wheel + max (d.neg step) (min step dw)

  abbrev slewed : F → F → F → F
  slewed v target_v dv = if lt v target_v then min target_v (v + dv) else max target_v (v - dv)

  -- one step of the loop
  unfoldable pub advance : Bicycle F → F → F → F → Motion F → Motion F
  advance k target_v steering_wheel_deg dt m =
      let wheel = turned m.wheel (k.servo_rate * dt) (steering_wheel_deg - m.wheel) in
      let v = slewed m.v target_v (k.accel * dt) in
      let heading =
        m.heading - d.degrees (v / k.wheelbase * d.tan (d.radians (wheel + k.bias)) * dt) in
      record {
        wheel = wheel;
        v = v;
        heading = heading;
        x = m.x + v * d.cos (d.radians heading) * dt;
        y = m.y + v * d.sin (d.radians heading) * dt;
        blind_dist = m.blind_dist + v * dt;
        blind_time = m.blind_time + dt;
      }

  unfoldable pub integrate : Bicycle F → F → F → ℕ → F → Motion F → Result (Motion F)
  unfolding advance
  integrate k target_v steering zero remain m =
      if lt (lit 1 9) remain then err out_of_fuel else ok m
  integrate k target_v steering (suc n) remain m =
      let dt = min (lit 2 2) remain in
      let onward =
        integrate k target_v steering n (remain - dt) (advance k target_v steering dt m) in
      if lt (lit 1 9) remain then onward else ok m
