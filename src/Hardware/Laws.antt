-- ===== src/Hardware/Laws.antt =====
-- What the drivers accept.
use autonomous_rc_taxi.Prelude.{◌≡◌, false, arith, refl}
use autonomous_rc_taxi.Floats.{Double, nought, ◌+◌, ◌/◌, lt, lit, min, max}
use autonomous_rc_taxi.Floats.Laws.{IsOrdered, IsNumber, ◌≼◌, clamp_bounds}
use autonomous_rc_taxi.Result.{ok}
use autonomous_rc_taxi.Hardware.{MotorDriver, SteeringDriver, set_throttle, set_angle_deg}

module _ {F : Type 0} ⦃d : Double F⦄ (laws : IsOrdered F) where
  open laws use {number_of_le, lt-eq-not-le}

  pub not-lt_of_le : (x y : F) → x ≼ y → lt y x ≡ false
  not-lt_of_le x y h = ground (arith, number_of_le x y h, lt-eq-not-le y x)

  -- The motor takes every throttle that is not negative.
  pub set_throttle_ok :
      (m : MotorDriver F) (v : F)
      → nought ≼ v
      → set_throttle m v
        ≡ ok (record m { throttle = min v (lit 1 0); stopped = d.eq (min v (lit 1 0)) nought })
  unfolding set_throttle
  set_throttle_ok m v h = ground (arith, not-lt_of_le nought v h)

  pub set_angle_deg_ok :
      (s : SteeringDriver F) (wheel : F)
      → d.eq s.ratio nought ≡ false
      → set_angle_deg s wheel
        ≡ ok
            (record s { servo_deg = min (max (s.center + wheel / s.ratio) s.left_max) s.right_max })
  unfolding set_angle_deg
  set_angle_deg_ok s wheel h = rw h refl

  -- For a ratio that is not 0, the wheel angle is taken, and between two stops that are in order the
  -- servo angle lies within them, whatever wheel angle is asked for, if the angle that it stands for
  -- is no NaN.
  pub set_angle_deg_bounds :
      (s : SteeringDriver F) (wheel : F)
      → IsNumber (s.center + wheel / s.ratio)
      → s.left_max ≼ s.right_max
      → d.eq s.ratio nought ≡ false
      → (s' : SteeringDriver F) × (set_angle_deg s wheel ≡ ok s')
        × (s.left_max ≼ s'.servo_deg)
        × (s'.servo_deg ≼ s.right_max)
  set_angle_deg_bounds s wheel num h ratio =
      let bounds = clamp_bounds laws (s.center + wheel / s.ratio) s.left_max s.right_max num h in
      (_, set_angle_deg_ok s wheel ratio, bounds.0, bounds.1)
