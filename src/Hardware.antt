-- ===== src/Hardware.antt =====
-- rc_car/hardware: mock_motor_driver.py, steering_driver.py and mock_steering_driver.py. The real
-- drivers pass the same numbers on to the PCA9685 boards.
pub mod Laws
use autonomous_rc_taxi.Prelude.{Bool, true, if◌then◌else◌}
use autonomous_rc_taxi.Floats.{Double, ◌+◌, ◌-◌, ◌*◌, ◌/◌, lit, nought, lt, min, max}
use autonomous_rc_taxi.Result.{Result, ok, err, value_error, zero_division, ◌>>=◌}

pub record MotorDriver (F : Type 0) : Type 0 where
  pub throttle : F
  pub stopped : Bool

pub record SteeringDriver (F : Type 0) : Type 0 where
  pub center : F
  pub left_max : F
  pub right_max : F
  pub ratio : F
  pub servo_deg : F

module _ {F : Type 0} ⦃d : Double F⦄ where
  -- A negative value raises ValueError and changes nothing.
  unfoldable pub set_throttle : MotorDriver F → F → Result (MotorDriver F)
  set_throttle m value =
      if lt value nought
      then err value_error
      else (let v = min value (lit 1 0) in ok (record m { throttle = v; stopped = d.eq v nought }))

  unfoldable pub stop : MotorDriver F → MotorDriver F
  stop m = record m { throttle = nought; stopped = true }

  -- A ratio of 0 raises ZeroDivisionError.
  unfoldable pub wheel_to_servo : SteeringDriver F → F → Result F
  wheel_to_servo s wheel_deg =
      if d.eq s.ratio nought
      then err zero_division
      else ok (min (max (s.center + wheel_deg / s.ratio) s.left_max) s.right_max)

  unfoldable pub servo_to_wheel : SteeringDriver F → F → F
  servo_to_wheel s servo_deg = (servo_deg - s.center) * s.ratio

  unfoldable pub set_angle_deg : SteeringDriver F → F → Result (SteeringDriver F)
  unfolding wheel_to_servo
  set_angle_deg s wheel_deg = do
    servo ← wheel_to_servo s wheel_deg
    ok (record s { servo_deg = servo })

module _ {F : Type 0} where
  unfoldable pub center_steering : SteeringDriver F → SteeringDriver F
  center_steering s = record s { servo_deg = s.center }
